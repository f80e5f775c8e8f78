-- ===== src/Blob/Sql/Drop.antt =====
-- A blob that is dropped, with the SQL functions of src/blob/fileblob.cpp.
use wdb.Base.{
  [], ◌++◌, Bytes, codes, show_ℤ, Option-cases, none, some, ℤ, ok, fail, ereport, runtime_error,
  raise_exception, ◌>>=◌, ◌≡◌, refl, inl, inr,
}
use wdb.Blob.{path_of}
use wdb.Blob.Store.{
  File, Storage, Environment, ◌▹◌, continue_with, look_up, erase, with_files, IsReady,
}
use wdb.Blob.Store.Initialize.{initialize_file_storage-ready}
use wdb.Blob.Store.Entries.{look_up-erase-same}
use wdb.Blob.Store.Files.{remove_existing, drop_file, get_bstream, read_file}
use wdb.Blob.Store.ReadBack.{get_file_path-ready, read_file-ready}
use wdb.Blob.Sql.{sql_drop_file, sql_read_file}

-- The warning for a file that is not there.
abbrev pub no_file : ℤ → Bytes
no_file id = codes "File with id <" ++ show_ℤ id ++ codes "> does not exist"

module _ (env : Environment) (base : Bytes) (id : ℤ) (s : Storage) (ready : IsReady s base) where
  drop_file-absent :
      look_up (path_of base id) s.files ≡ none → drop_file env id s ≡ (ok (no_file id), s)
  unfolding drop_file
  drop_file-absent h =
      rw
        (
          initialize_file_storage-ready env s ready,
          ◌▹◌,
          continue_with,
          get_file_path-ready env s base ready id,
          remove_existing,
          h,
        )
        refl

  drop_file-present :
      (file : File)
      → look_up (path_of base id) s.files ≡ some file
      → env.remove_error (path_of base id) ≡ none
      → drop_file env id s ≡ (ok [], with_files (erase (path_of base id) s.files) s)
  unfolding drop_file
  drop_file-present file h free =
      rw
        (
          initialize_file_storage-ready env s ready,
          ◌▹◌,
          continue_with,
          get_file_path-ready env s base ready id,
          remove_existing,
          h,
          free,
        )
        refl

  read_file-absent :
      look_up (path_of base id) s.files ≡ none
      → read_file env id s ≡ (fail (runtime_error (codes "File does not exist")), s)
  unfolding get_bstream
  read_file-absent h =
      rw (read_file-ready env s base ready id, get_file_path-ready env s base ready id, ◌>>=◌, h)
        refl

-- In a storage that is ready, dropping a blob whose file can be removed warns exactly if there is
-- no file; behind it reading the blob is an error, and dropping it again warns and changes nothing.
pub sql_read_file-sql_drop_file :
    (env : Environment) (base : Bytes) (id : ℤ) (s : Storage)
    → IsReady s base
    → env.remove_error (path_of base id) ≡ none
    → (s' : Storage) × (sql_drop_file env (some id) s ≡ (
      ok (elim (look_up (path_of base id) s.files) [ none ↦ no_file id | some file ↦ [] ]),
      s',
    ))
      × (sql_read_file env (some id) s'
          ≡ (fail (ereport raise_exception (codes "File does not exist")), s'))
      × (sql_drop_file env (some id) s' ≡ (ok (no_file id), s'))
unfolding sql_drop_file sql_read_file
sql_read_file-sql_drop_file env base id s ready free =
    elim (Option-cases (look_up (path_of base id) s.files)) [
      | inl h ↦ (
        s,
        rw (drop_file-absent env base id s ready h, h) refl,
        rw (read_file-absent env base id s ready h) refl,
        rw (drop_file-absent env base id s ready h) refl,
      )
      | inr (file, h) ↦
          let s' = with_files (erase (path_of base id) s.files) s in
          let gone = look_up-erase-same (path_of base id) s.files in
          (
            s',
            rw (drop_file-present env base id s ready file h free, h) refl,
            rw (read_file-absent env base id s' ready gone) refl,
            rw (drop_file-absent env base id s' ready gone) refl,
          )
    ]
