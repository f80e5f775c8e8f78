-- ===== src/Tests/Store.antt =====
-- A small storage for the files of src/blob.
use wdb.Base.{
  ◌+◌, ◌≤◌, List, [], ◌∷◌, ◌++◌, length, Bytes, codes, bytes_eq, bytes_eq_iff, false, true, none,
  some, ℤ, pos, ok, fail, ereport, raise_exception, runtime_error, ◌≡◌, ◌≢◌, ◌⊎◌, refl, arith,
}
use wdb.Blob.{slash, path_of}
use wdb.Blob.Store.{File, Storage, Environment, with_files, look_up}
use wdb.Blob.Store.Files.{write_file, read_file, read_file_of_size, read_float_from_file}
use wdb.Blob.Store.ReadBack.{Accepts, read_file-write_file}
use wdb.Blob.Store.Floats.{bytes_of_floats, value_at, read_float_from_file-write_file}
use wdb.Blob.Store.Sweep.{Swept, remove_unreferenced_files}
use wdb.Blob.Store.Referenced.{remove_unreferenced_files-referenced}
use wdb.Blob.Sql.{sql_drop_file, sql_read_file}
use wdb.Blob.Sql.Drop.{no_file, sql_read_file-sql_drop_file}
use wdb.Tests.Blobs.{paths}

abbrev pub disk : Environment
disk = record {
  paths = paths;
  data_directory = some (codes "/var");
  database_name = some (codes "wdb");
  append_path = λ a b. a ++ slash ∷ b;
  is_file = λ p. false;
  opens = λ p. true;
  tmp_file = codes "tmp.17";
  accept = λ text. (text, true);
  remove_error = λ p. none;
  rename_error = λ p. none;
  create_error = λ p. none;
  now = 10000;
}

abbrev pub var_wdb : Bytes
var_wdb = codes "/var/wdb"

abbrev pub two_files : Storage
two_files = record {
  files =
      (path_of var_wdb (pos 5), record { contents = codes "old"; written = 9000 })
      ∷ (path_of var_wdb (pos 6), record { contents = codes "older"; written = 100 })
      ∷ [];
  base = some var_wdb;
  initialized = true;
}

different : (a b : Bytes) → bytes_eq a b ≡ false → a ≢ b
different a b h e = let same : bytes_eq a b ≡ true = (bytes_eq_iff a b).1 e in absurd cc

temporary-path_of : (id : ℤ) → disk.tmp_file ≢ path_of var_wdb id
unfolding path_of bytes_eq
temporary-path_of id = different disk.tmp_file (path_of var_wdb id) refl

pub disk-Accepts : (id : ℤ) (text : Bytes) → Accepts disk (path_of var_wdb id) text
disk-Accepts id text = record {
  stream = refl;
  removes = refl;
  renames = refl;
  opens = refl;
  temporary = temporary-path_of id;
}

read_file-write_file_example :
    (files : List (Bytes × File)) × (write_file disk (pos 5) (codes "new") (pos 3) two_files
      ≡ (ok tt, with_files files two_files))
    × (read_file disk (pos 5) (with_files files two_files)
        ≡ (ok (codes "new"), with_files files two_files))
    × (read_file_of_size disk (pos 5) 3 (with_files files two_files)
        ≡ (ok (codes "new"), with_files files two_files))
    × (read_file_of_size disk (pos 5) 2 (with_files files two_files)
        ≡ (fail (runtime_error (codes "File was too big")), with_files files two_files))
    × (look_up (path_of var_wdb (pos 6)) files ≡ look_up (path_of var_wdb (pos 6)) two_files.files)
read_file-write_file_example =
    read_file-write_file disk two_files var_wdb (pos 5) (pos 6) (codes "new") 2 (refl, refl)
      (omega arith) (omega arith) (λ e. absurd (omega arith)) (temporary-path_of (pos 6))
      (omega arith) (disk-Accepts (pos 5) (codes "new"))

read_float_from_file-write_file_example :
    (s' : Storage) × (write_file disk
        (pos 5)
        (bytes_of_floats (1069547520 ∷ 42 ∷ []))
        (pos 8)
        two_files
      ≡ (ok tt, s'))
    × ((position : ℤ)
        → read_float_from_file disk (pos 5) position s'
          ≡ (value_at (1069547520 ∷ 42 ∷ []) position, s'))
read_float_from_file-write_file_example =
    read_float_from_file-write_file disk two_files var_wdb (pos 5) (1069547520 ∷ 42 ∷ [])
      (omega arith, (omega arith, tt)) (refl, refl) (disk-Accepts (pos 5) _)

remove_unreferenced_files-referenced_example :
    (swept : Swept) × (remove_unreferenced_files disk (pos 5 ∷ []) two_files
      ≡ (ok swept, with_files swept.files two_files))
    × (length swept.files + swept.unreferenced_files ≡ 2)
    × (look_up (path_of var_wdb (pos 5)) swept.files
        ≡ look_up (path_of var_wdb (pos 5)) two_files.files)
    × ((look_up (path_of var_wdb (pos 6)) swept.files ≡ none)
        ⊎ ((file : File) × (look_up (path_of var_wdb (pos 6)) swept.files ≡ some file)
            × (10000 ≤ file.written + 3600)))
remove_unreferenced_files-referenced_example =
    remove_unreferenced_files-referenced disk two_files var_wdb (pos 5 ∷ []) 5 6 (refl, refl)
      (omega arith) (omega arith) refl refl refl

sql_read_file-sql_drop_file_example :
    (s' : Storage) × (sql_drop_file disk (some (pos 7)) two_files ≡ (
      ok (elim (look_up (path_of var_wdb (pos 7)) two_files.files) [
        | none ↦ no_file (pos 7)
        | some file ↦ []
      ]),
      s',
    ))
    × (sql_read_file disk (some (pos 7)) s'
        ≡ (fail (ereport raise_exception (codes "File does not exist")), s'))
    × (sql_drop_file disk (some (pos 7)) s' ≡ (ok (no_file (pos 7)), s'))
sql_read_file-sql_drop_file_example =
    sql_read_file-sql_drop_file disk var_wdb (pos 7) two_files (refl, refl) refl
