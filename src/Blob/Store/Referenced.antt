-- ===== src/Blob/Store/Referenced.antt =====
-- What `removeUnreferencedFiles` of src/blob/fileblobImpl.cpp leaves and what it removes.
use wdb.Base.{
  ℕ, suc, ◌+◌, ◌<◌, ◌≤◌, ltb, true, false, List, [], ◌∷◌, length, Bytes, bytes_eq, bytes_eq_iff,
  none, some, ℤ, pos, ok, if◌then◌else◌, ◌≡◌, ◌≢◌, refl, sym, arith, Bool-cases, Option-cases, inl,
  inr, ◌⊎◌,
}
use wdb.Blob.{Paths, get_file_id, get_file_path, path_of}
use wdb.Blob.RoundTrip.{get_file_id-get_file_path, branch_path-path_of}
use wdb.Blob.Store.{File, Storage, Environment, ◌▹◌, continue_with, with_files, look_up, IsReady}
use wdb.Blob.Store.Initialize.{initialize_file_storage-ready}
use wdb.Blob.Store.Entries.{bytes_eq-other}
use wdb.Blob.Store.Sweep.{
  is_referenced, Verdict, left, removed, too_young, refused, Swept, sweep_file, verdict,
  add_verdict, sweep, remove_unreferenced_files,
}

get_file_id-path_of :
    (fs : Paths) (base : Bytes) (n : ℕ)
    → n < 9223372036854775808
    → get_file_id fs (some base) (path_of base (pos n)) ≡ ok (pos n)
unfolding get_file_path
get_file_id-path_of fs base n h = get_file_id-get_file_path fs base n h

module _ (path p : Bytes) (file found : File) (s : Swept)
    (h : look_up p ((path, file) ∷ s.files) ≡ some found) where
  same_file : bytes_eq path p ≡ true → file ≡ found
  same_file e = let h' : some file ≡ some found = rw (sym h, e) refl in cc

  other_file : bytes_eq path p ≡ false → look_up p s.files ≡ some found
  other_file e = rw (sym h, e) refl

  found-kept :
      {v : Verdict}
      → v ≢ removed
      → (look_up p s.files ≡ some found) ⊎ ((path ≡ p) × (file ≡ found) × (v ≢ removed))
  found-kept keeps = elim (Bool-cases (bytes_eq path p)) [
    | inl e ↦ inr ((bytes_eq_iff path p).0 e, same_file e, keeps)
    | inr e ↦ inl (other_file e)
  ]

module _ (env : Environment) (base : Bytes) (referenced_files : List ℤ) where
  length-add_verdict :
      (v : Verdict) (entry : Bytes × File) (s : Swept)
      → length (add_verdict env base referenced_files v entry s).files
          + (add_verdict env base referenced_files v entry s).unreferenced_files
        ≡ suc (length s.files + s.unreferenced_files)
  length-add_verdict left entry s = omega arith
  length-add_verdict removed entry s = omega arith
  length-add_verdict (too_young id) entry s = omega arith
  length-add_verdict (refused what) entry s = omega arith

  length-sweep :
      (files : List (Bytes × File))
      → length (sweep env base referenced_files files).files
          + (sweep env base referenced_files files).unreferenced_files
        ≡ length files
  unfolding sweep
  length-sweep [] = omega arith
  length-sweep ((path, file) ∷ files) =
      let s = sweep env base referenced_files files in
      omega (
        arith,
        length-sweep files,
        length-add_verdict (verdict env base referenced_files path file) (path, file) s,
      )

  look_up-add_verdict :
      (v : Verdict) (p path : Bytes) (file : File) (s : Swept) (files : List (Bytes × File))
      → (path ≡ p → v ≢ removed)
      → look_up p s.files ≡ look_up p files
      → look_up p (add_verdict env base referenced_files v (path, file) s).files
        ≡ look_up p ((path, file) ∷ files)
  look_up-add_verdict left p path file s files keeps same = rw same refl
  look_up-add_verdict (too_young id) p path file s files keeps same = rw same refl
  look_up-add_verdict (refused what) p path file s files keeps same = rw same refl
  look_up-add_verdict removed p path file s files keeps same =
      rw (bytes_eq-other path p (λ e. keeps e refl)) same

  -- A path that no file is removed from is as before.
  look_up-sweep :
      (p : Bytes) (files : List (Bytes × File))
      → ((file : File) → verdict env base referenced_files p file ≢ removed)
      → look_up p (sweep env base referenced_files files).files ≡ look_up p files
  unfolding sweep
  look_up-sweep p [] keeps = refl
  look_up-sweep p ((path, file) ∷ files) keeps =
      look_up-add_verdict (verdict env base referenced_files path file) p path file
        (sweep env base referenced_files files) files (λ e. rw e (keeps file))
        (look_up-sweep p files keeps)

  found-add_verdict :
      (v : Verdict) (p path : Bytes) (file found : File) (s : Swept)
      → look_up p (add_verdict env base referenced_files v (path, file) s).files ≡ some found
      → (look_up p s.files ≡ some found) ⊎ ((path ≡ p) × (file ≡ found) × (v ≢ removed))
  found-add_verdict removed p path file found s h = inl h
  found-add_verdict left p path file found s h = found-kept path p file found s h (λ v. cc)
  found-add_verdict (too_young id) p path file found s h =
      found-kept path p file found s h (λ v. cc)
  found-add_verdict (refused what) p path file found s h =
      found-kept path p file found s h (λ v. cc)

  -- What is found behind the loop is there since no verdict removes it.
  found-sweep :
      (p : Bytes) (found : File) (files : List (Bytes × File))
      → look_up p (sweep env base referenced_files files).files ≡ some found
      → verdict env base referenced_files p found ≢ removed
  unfolding sweep
  found-sweep p found [] h = absurd cc
  found-sweep p found ((path, file) ∷ files) h =
      elim (found-add_verdict (verdict env base referenced_files path file) p path file found
        (sweep env base referenced_files files) h) [
          | inl h' ↦ found-sweep p found files h'
          | inr (e, e', keeps) ↦ rw (sym e, sym e') keeps
        ]

  -- The verdict on the file of an id.
  verdict-path_of :
      (n : ℕ) (file : File)
      → n < 9223372036854775808
      → verdict env base referenced_files (path_of base (pos n)) file ≡ (
          if is_referenced referenced_files (pos n)
          then left
          else if ltb (file.written + 3600) env.now
          then elim (env.remove_error (path_of base (pos n))) [
            | none ↦ removed
            | some what ↦ refused what
          ]
          else too_young (pos n))
  unfolding verdict sweep_file
  verdict-path_of n file h =
      rw
        (
          branch_path-path_of env.paths base (pos n) (omega arith),
          env.paths.same_path-refl base,
          sweep_file,
          get_file_id-path_of env.paths base n h,
        )
        refl

referenced_left :
    (env : Environment) (base : Bytes) (referenced_files : List ℤ) (n : ℕ) (file : File)
    → n < 9223372036854775808
    → is_referenced referenced_files (pos n) ≡ true
    → verdict env base referenced_files (path_of base (pos n)) file ≢ removed
referenced_left env base referenced_files n file h r =
    rw (verdict-path_of env base referenced_files n file h, r) (λ e. cc)

left_young :
    (env : Environment) (base : Bytes) (referenced_files : List ℤ) (n : ℕ) (file : File)
    → n < 9223372036854775808
    → is_referenced referenced_files (pos n) ≡ false
    → env.remove_error (path_of base (pos n)) ≡ none
    → verdict env base referenced_files (path_of base (pos n)) file ≢ removed
    → env.now ≤ file.written + 3600
left_young env base referenced_files n file h r free keeps =
    elim (Bool-cases (ltb (file.written + 3600) env.now)) [
      | inl old ↦
          absurd
            (keeps (rw (verdict-path_of env base referenced_files n file h, r, old, free) refl))
      | inr young ↦ ground arith
    ]

-- Removing the unreferenced files from a storage that is ready succeeds: it counts the files it
-- removes; a referenced id that is not negative has the file that it had; and an id that is neither
-- referenced nor negative, whose file can be removed, has no file or one at most an hour old.
pub remove_unreferenced_files-referenced :
    (env : Environment) (s : Storage) (base : Bytes) (referenced_files : List ℤ) (n m : ℕ)
    → IsReady s base
    → n < 9223372036854775808
    → m < 9223372036854775808
    → is_referenced referenced_files (pos n) ≡ true
    → is_referenced referenced_files (pos m) ≡ false
    → env.remove_error (path_of base (pos m)) ≡ none
    → (swept : Swept) × (remove_unreferenced_files env referenced_files s
        ≡ (ok swept, with_files swept.files s))
      × (length swept.files + swept.unreferenced_files ≡ length s.files)
      × (look_up (path_of base (pos n)) swept.files ≡ look_up (path_of base (pos n)) s.files)
      × ((look_up (path_of base (pos m)) swept.files ≡ none)
          ⊎ ((file : File) × (look_up (path_of base (pos m)) swept.files ≡ some file)
              × (env.now ≤ file.written + 3600)))
unfolding remove_unreferenced_files
remove_unreferenced_files-referenced env s base referenced_files n m ready hn hm rn rm free =
    let swept = sweep env base referenced_files s.files in
    (
      swept,
      rw (initialize_file_storage-ready env s ready, ◌▹◌, continue_with) (simp ready.1 refl),
      length-sweep env base referenced_files s.files,
      look_up-sweep env base referenced_files (path_of base (pos n)) s.files
          (λ file e. referenced_left env base referenced_files n file hn rn e),
      elim (Option-cases (look_up (path_of base (pos m)) swept.files)) [
        | inl e ↦ inl e
        | inr (file, e) ↦ inr (
          file,
          e,
          left_young env base referenced_files m file hm rm free
              (found-sweep env base referenced_files (path_of base (pos m)) file s.files e),
        )
      ],
    )
