-- ===== src/Blob/Store/Entries.antt =====
-- Lemmas on the entries of a file system: a path is found where it was put, and only there.
use wdb.Base.{
  true, false, List, [], ◌∷◌, Bytes, bytes_eq, bytes_eq_iff, none, some, ◌≡◌, ◌≢◌, refl, Bool-cases,
  inl, inr,
}
use wdb.Blob.Store.{File, look_up, erase, put}

pub bytes_eq_refl : (p : Bytes) → bytes_eq p p ≡ true
bytes_eq_refl p = (bytes_eq_iff p p).1 refl

pub bytes_eq-other : (p q : Bytes) → p ≢ q → bytes_eq p q ≡ false
bytes_eq-other p q ne = elim (Bool-cases (bytes_eq p q)) [
  | inl h ↦ absurd (ne ((bytes_eq_iff p q).0 h))
  | inr h ↦ h
]

pub look_up-put :
    (p : Bytes) (file : File) (files : List (Bytes × File))
    → look_up p (put p file files) ≡ some file
look_up-put p file files = rw (bytes_eq_refl p) refl

pub look_up-erase-other :
    (p q : Bytes) (files : List (Bytes × File))
    → q ≢ p
    → look_up p (erase q files) ≡ look_up p files
look_up-erase-other p q [] ne = refl
look_up-erase-other p q ((path, file) ∷ files) ne =
    let rest = look_up-erase-other p q files ne in
    elim (Bool-cases (bytes_eq path q)) [
      | inr h ↦ rw (h, rest) refl
      | inl h ↦
          let same : path ≡ q = (bytes_eq_iff path q).0 h in
          rw (h, rest, same, bytes_eq-other q p ne) refl
    ]

pub look_up-put-other :
    (p q : Bytes) (file : File) (files : List (Bytes × File))
    → q ≢ p
    → look_up p (put q file files) ≡ look_up p files
look_up-put-other p q file files ne = rw (bytes_eq-other q p ne) (look_up-erase-other p q files ne)

pub look_up-erase-same :
    (p : Bytes) (files : List (Bytes × File)) → look_up p (erase p files) ≡ none
look_up-erase-same p [] = refl
look_up-erase-same p ((path, file) ∷ files) =
    let rest = look_up-erase-same p files in
    elim (Bool-cases (bytes_eq path p)) [ inl h ↦ rw (h, rest) refl | inr h ↦ rw (h, rest, h) refl ]
