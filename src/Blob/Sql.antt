-- ===== src/Blob/Sql.antt =====
-- The functions on blobs that SQL and C call: src/blob/fileblob.cpp, fileblobimpl_psql.cpp and
-- `all_referenced_files` of database_query.c. An argument that is `none` is NULL.
pub mod Drop
use wdb.Base.{
  ℕ, Bool, true, false, List, [], ◌∷◌, Bytes, codes, Option, none, some, ℤ, Outcome, ok, fail,
  ereport, raise_exception, catch_as, if◌then◌else◌, pos, length,
}
use wdb.Blob.Store.{Storage, Environment, Call, ◌▹◌, lift}
use wdb.Blob.Store.Files.{
  write_file, drop_file, read_file, read_file_of_size, cache_file, read_float_from_file,
}
use wdb.Blob.Store.Sweep.{Swept, remove_unreferenced_files}

-- `HANDLE_EXCEPTIONS`
abbrev pub handle_exceptions {ℓ} : {A : Type ℓ} → Call A → Call A
handle_exceptions m s = (catch_as raise_exception (m s).0, (m s).1)

abbrev null_argument {ℓ} : {A : Type ℓ} → Call A
null_argument = lift (fail (ereport raise_exception (codes "NULL argument not allowed")))

-- A call with an argument that may be NULL.
abbrev pub not_null {ℓ κ} : {A : Type ℓ} {B : Type κ} → Option A → (A → Call B) → Call B
not_null none f = null_argument
not_null (some a) f = f a

module _ (env : Environment) where
  -- The size of the `bytea` is that of its data.
  unfoldable pub sql_write_file : Option ℤ → Option Bytes → Call {0} Unit
  unfolding write_file catch_as
  sql_write_file id text =
      not_null id
        (λ i. not_null text (λ t. handle_exceptions (write_file env i t (pos (length t)))))

  -- The result is the text of the warning, empty for none.
  unfoldable pub sql_drop_file : Option ℤ → Call Bytes
  unfolding drop_file catch_as
  sql_drop_file id = not_null id (λ i. handle_exceptions (drop_file env i))

  unfoldable pub sql_read_file : Option ℤ → Call Bytes
  unfolding read_file catch_as
  sql_read_file id = not_null id (λ i. handle_exceptions (read_file env i))

  unfoldable pub sql_read_float_from_file : Option ℤ → Option ℤ → Call ℕ
  unfolding read_float_from_file catch_as
  sql_read_float_from_file id position =
      not_null id (λ i. not_null position (λ p. handle_exceptions (read_float_from_file env i p)))

  unfoldable pub sql_cache_file : Option ℤ → Call {0} Unit
  unfolding cache_file catch_as
  sql_cache_file id = not_null id (λ i. handle_exceptions (cache_file env i))

  -- `selected` is the answer to the query for the referenced files, `none` if it is no selection.
  unfoldable pub all_referenced_files : Option (List ℤ) → Outcome (List ℤ)
  all_referenced_files none =
      fail (ereport raise_exception (codes "Error when reading from file_blob"))
  all_referenced_files (some ids) = ok ids

  unfoldable pub sql_remove_unreferenced_files : Option (List ℤ) → Call Swept
  unfolding all_referenced_files remove_unreferenced_files catch_as
  sql_remove_unreferenced_files selected = lift (all_referenced_files selected) ▹ λ ids.
      handle_exceptions (remove_unreferenced_files env ids)

  -- The variants for C.
  unfoldable pub write_file_ : (id : ℤ) (text : Bytes) (data_size : ℤ) → Call {0} Unit
  unfolding write_file catch_as
  write_file_ id text data_size = handle_exceptions (write_file env id text data_size)

  unfoldable pub drop_file_ : ℤ → Call Bytes
  unfolding drop_file catch_as
  drop_file_ id = handle_exceptions (drop_file env id)

  unfoldable pub read_file_ : ℤ → ℕ → Call Bytes
  unfolding read_file_of_size catch_as
  read_file_ id read_size = handle_exceptions (read_file_of_size env id read_size)

  unfoldable pub read_float_from_file_ : ℤ → ℤ → Call ℕ
  unfolding read_float_from_file catch_as
  read_float_from_file_ id position = handle_exceptions (read_float_from_file env id position)
