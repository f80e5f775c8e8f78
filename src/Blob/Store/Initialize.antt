-- ===== src/Blob/Store/Initialize.antt =====
-- `initializeFileStorage` of src/blob/fileblobImpl.cpp, which every operation on a file calls first,
-- and what it calls in fileblobimpl_psql.cpp and PathGenerator.cpp.
use wdb.Base.{
  true, false, ◌++◌, Bytes, codes, Option, none, some, Outcome, ok, fail, ◌>>=◌, ◌≡◌, refl, message,
  ereport, runtime_error, null_dereference, undefined, internal_error, if◌then◌else◌,
}
use wdb.Blob.Store.{Storage, Environment, Call, IsReady}

-- `verify`
unfoldable pub verify : Option Bytes → Outcome Bytes
verify none = fail (runtime_error (codes "Unable to find base data directory"))
verify (some what) = ok what

-- The handler of `doInitializeFileStorage`: `elog(FATAL, …)` leaves the call, and ends the session.
unfoldable pub catch_fatal {ℓ} : {A : Type ℓ} → Outcome A → Outcome A
catch_fatal (ok a) = ok a
catch_fatal (fail (ereport c m)) = fail (ereport c m)
catch_fatal (fail null_dereference) = fail null_dereference
catch_fatal (fail (undefined m)) = fail (undefined m)
catch_fatal (fail e) =
    fail
      (ereport internal_error (codes "Unable to initialize data storage for files: " ++ message e))

module _ (env : Environment) where
  open env use {data_directory, database_name, append_path, is_file, create_error}

  -- `setBaseStorageDirectory`, with the constructor of `PathGenerator`.
  unfoldable pub set_base_storage_directory : Bytes → Storage → Outcome Storage
  set_base_storage_directory directory s =
      if is_file directory
      then fail (
          runtime_error
            (codes "Given directory <" ++ directory ++ codes "> is a file (should be a directory)"))
      else elim (create_error directory) [
        | some what ↦ fail (runtime_error what)
        | none ↦ ok (record { files = s.files; base = some directory; initialized = s.initialized })
      ]

  unfoldable pub do_initialize_file_storage : Storage → Outcome Storage
  unfolding verify catch_fatal set_base_storage_directory
  do_initialize_file_storage s = catch_fatal (
      verify data_directory >>= λ base_path.
      verify database_name >>= λ name. set_base_storage_directory (append_path base_path name) s)

  unfoldable pub initialize_file_storage : Call {0} Unit
  unfolding do_initialize_file_storage
  initialize_file_storage s =
      if s.initialized then (ok tt, s) else elim (do_initialize_file_storage s) [
        | fail e ↦ (fail e, s)
        | ok s' ↦ (ok tt, record { files = s'.files; base = s'.base; initialized = true })
      ]

  -- Initializing a storage that is not initialized, where the two queries answer and their path is
  -- no file and can be created, succeeds, makes it ready with this directory, and touches no file; and initializing
  -- a storage that is ready changes nothing.
  pub initialize_file_storage-IsReady :
      (s : Storage) (directory name : Bytes)
      → data_directory ≡ some directory
      → database_name ≡ some name
      → is_file (append_path directory name) ≡ false
      → create_error (append_path directory name) ≡ none
      → s.initialized ≡ false
      → (s' : Storage) × (initialize_file_storage s ≡ (ok tt, s'))
        × IsReady s' (append_path directory name)
        × (s'.files ≡ s.files)
        × (initialize_file_storage s' ≡ (ok tt, s'))
  unfolding initialize_file_storage
  initialize_file_storage-IsReady s directory name hd hn free made fresh = (
    record { files = s.files; base = some (append_path directory name); initialized = true },
    simp (fresh, hd, hn, free, made) refl,
    (refl, refl),
    refl,
    refl,
  )

  pub initialize_file_storage-ready :
      (s : Storage) {base : Bytes} → IsReady s base → initialize_file_storage s ≡ (ok tt, s)
  unfolding initialize_file_storage
  initialize_file_storage-ready s (h, h') = simp h refl
