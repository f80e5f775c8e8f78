-- ===== src/Blob/Store.antt =====
-- src/blob/fileblobImpl.cpp and bstream.h, with `doInitializeFileStorage` of fileblobimpl_psql.cpp:
-- the files that hold the fields of a database. What the operating system and the data base answer
-- is a parameter.
pub mod Initialize
pub mod Files
pub mod Entries
pub mod ReadBack
pub mod Floats
pub mod Sweep
pub mod Referenced
use wdb.Base.{
  ℕ, zero, Bool, true, false, List, [], ◌∷◌, Bytes, bytes_eq, Option, none, some, ◌≡◌, Outcome, ok,
  fail, runtime_error, if◌then◌else◌,
}
use wdb.Blob.{Paths}

pub record File : Type 0 where
  pub contents : Bytes
  -- `last_write_time`
  pub written : ℕ

-- The file system, `pathGenerator` of PathGenerator.cpp (its directory) and `initialized` of
-- `initializeFileStorage`.
pub record Storage : Type 0 where
  pub files : List (Bytes × File)
  pub base : Option Bytes
  pub initialized : Bool

-- Files can be reached: the state after an initialization that succeeded.
abbrev pub IsReady : Storage → Bytes → Type 0
IsReady s base = (s.initialized ≡ true) × (s.base ≡ some base)

pub record Environment : Type 0 where
  pub paths : Paths
  -- what the queries of database_query.c return
  pub data_directory : Option Bytes
  pub database_name : Option Bytes
  -- `operator/` on paths
  pub append_path : Bytes → Bytes → Bytes
  -- a path that exists and is no directory
  pub is_file : Bytes → Bool
  -- a file that exists can be opened for reading
  pub opens : Bytes → Bool
  -- the name of the temporary file; and, for a text that is written to it, what the file holds in
  -- the end, and `good()` behind `write`
  pub tmp_file : Bytes
  pub accept : Bytes → Bytes × Bool
  -- what `remove` and `rename` throw for a file
  pub remove_error : Bytes → Option Bytes
  pub rename_error : Bytes → Option Bytes
  -- what `create_directories` throws
  pub create_error : Bytes → Option Bytes
  -- `time(0)`
  pub now : ℕ

-- A call that changes the storage also when it fails.
abbrev pub Call {ℓ} : Type ℓ → Type ℓ
Call A = Storage → Outcome A × Storage

module _ {ℓ κ} {A : Type ℓ} {B : Type κ} where
  abbrev pub continue_with : (A → Call B) → Outcome A × Storage → Outcome B × Storage
  continue_with f (ok a, s) = f a s
  continue_with f (fail e, s) = (fail e, s)

  infixl 5 ◌▹◌
  abbrev pub ◌▹◌ : Call A → (A → Call B) → Call B
  (m ▹ f) s = continue_with f (m s)

-- A result that does not change the storage.
abbrev pub lift {ℓ} : {A : Type ℓ} → Outcome A → Call A
lift m s = (m, s)

abbrev pub look_up : Bytes → List (Bytes × File) → Option File
look_up path [] = none
look_up path ((p, file) ∷ files) = if bytes_eq p path then some file else look_up path files

abbrev pub erase : Bytes → List (Bytes × File) → List (Bytes × File)
erase path [] = []
erase path ((p, file) ∷ files) =
    let rest = erase path files in if bytes_eq p path then rest else (p, file) ∷ rest

abbrev pub put : Bytes → File → List (Bytes × File) → List (Bytes × File)
put path file files = (path, file) ∷ erase path files

abbrev pub with_files : List (Bytes × File) → Storage → Storage
with_files files s = record { files = files; base = s.base; initialized = s.initialized }

-- `throw` of the error that a call of the operating system meets.
abbrev pub check : Option Bytes → Outcome {0} Unit
check none = ok tt
check (some what) = fail (runtime_error what)
