-- ===== src/Blob/Store/Sweep.antt =====
-- `removeUnreferencedFiles` of src/blob/fileblobImpl.cpp.
use wdb.Base.{
  ℕ, suc, ◌+◌, ltb, ◌==◌, Bool, false, ◌||◌, List, [], ◌∷◌, ◌++◌, Bytes, codes, message, none, some,
  ℤ, pos, negsuc, ok, fail, null_dereference, if◌then◌else◌,
}
use wdb.Blob.{get_file_id}
use wdb.Blob.Store.{File, Environment, Call, ◌▹◌, with_files}
use wdb.Blob.Store.Initialize.{initialize_file_storage}

abbrev pub same_id : ℤ → ℤ → Bool
same_id (pos a) (pos b) = a == b
same_id (negsuc a) (negsuc b) = a == b
same_id _ _ = false

-- `sort` and `binary_search`: the id is among the referenced ones.
abbrev pub is_referenced : List ℤ → ℤ → Bool
is_referenced [] id = false
is_referenced (r ∷ referenced_files) id = same_id r id || is_referenced referenced_files id

-- What becomes of an entry of the directory: it is left, removed, left as too young, or left with a
-- warning.
pub data Verdict : Type 0 where
  left : Verdict
  removed : Verdict
  too_young : ℤ → Verdict
  refused : Bytes → Verdict

-- The files behind the loop, `unreferencedFiles`, the warnings and `skipped`.
pub record Swept : Type 0 where
  pub files : List (Bytes × File)
  pub unreferenced_files : ℕ
  pub warnings : Bytes
  pub skipped : List ℤ

module _ (env : Environment) (base : Bytes) (referenced_files : List ℤ) where
  open env use {paths, remove_error, now}

  -- The body of the loop for a file of the directory.
  unfoldable pub sweep_file : Bytes → File → Verdict
  sweep_file path file = elim (get_file_id paths (some base) path) [
    | fail e ↦ refused (message e)
    | ok id ↦
        if is_referenced referenced_files id
        then left
        else if ltb (file.written + 3600) now
        then elim (remove_error path) [ none ↦ removed | some what ↦ refused what ]
        else too_young id
  ]

  -- The files elsewhere are no entries of the directory.
  unfoldable pub verdict : Bytes → File → Verdict
  verdict path file =
      if paths.same_path (paths.branch_path path) base then sweep_file path file else left

  abbrev pub add_verdict : Verdict → Bytes × File → Swept → Swept
  add_verdict left entry s = record {
    files = entry ∷ s.files;
    unreferenced_files = s.unreferenced_files;
    warnings = s.warnings;
    skipped = s.skipped;
  }
  add_verdict removed entry s = record {
    files = s.files;
    unreferenced_files = suc s.unreferenced_files;
    warnings = s.warnings;
    skipped = s.skipped;
  }
  add_verdict (too_young id) entry s = record {
    files = entry ∷ s.files;
    unreferenced_files = s.unreferenced_files;
    warnings = s.warnings;
    skipped = id ∷ s.skipped;
  }
  add_verdict (refused what) entry s = record {
    files = entry ∷ s.files;
    unreferenced_files = s.unreferenced_files;
    warnings = what ++ codes "\n" ++ s.warnings;
    skipped = s.skipped;
  }

  unfoldable pub sweep : List (Bytes × File) → Swept
  unfolding verdict
  sweep [] = record { files = []; unreferenced_files = 0; warnings = []; skipped = [] }
  sweep ((path, file) ∷ files) = add_verdict (verdict path file) (path, file) (sweep files)

-- `removeUnreferencedFiles`; `getBaseStorageDirectory` without a directory is a null pointer.
unfoldable pub remove_unreferenced_files : Environment → List ℤ → Call Swept
unfolding initialize_file_storage sweep
remove_unreferenced_files env referenced_files = initialize_file_storage env ▹ λ _ s. elim s.base [
  | none ↦ (fail null_dereference, s)
  | some base ↦
      let swept = sweep env base referenced_files s.files in (ok swept, with_files swept.files s)
]
