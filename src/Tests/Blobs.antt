-- ===== src/Tests/Blobs.antt =====
-- The files of src/blob/PathGenerator.cpp, with paths split at their last slash.
use wdb.Base.{
  ℕ, zero, suc, [], ◌∷◌, ◌++◌, refl, ◌∙◌, ap, ◌≡◌, ◌≢◌, arith, Bytes, codes, bytes_eq, bytes_eq_iff,
  ◌==◌, length, take, All, All-append, Option, none, some, if◌then◌else◌,
}
use wdb.Blob.{slash, Paths}
use wdb.Blob.RoundTrip.{IsHex-no_slash}

-- A text before and behind its last slash.
abbrev split : Bytes → Option (Bytes × Bytes)
split [] = none
split (c ∷ s) = elim (split s) [
  | some (directory, file) ↦ some (c ∷ directory, file)
  | none ↦ if c == slash then some ([], s) else none
]

split-no_slash : (s : Bytes) → All (λ c. c ≢ slash) s → split s ≡ none
split-no_slash [] h = refl
split-no_slash (c ∷ s) (h, hs) = rw (split-no_slash s hs) (ground arith)

pub split-append :
    (directory file : Bytes)
    → All (λ c. c ≢ slash) file
    → split (directory ++ slash ∷ file) ≡ some (directory, file)
split-append [] file h = rw (split-no_slash file h) refl
split-append (c ∷ directory) file h = rw (split-append directory file h) refl

abbrev directory_of : Option (Bytes × Bytes) → Bytes
directory_of none = []
directory_of (some (directory, file)) = directory

abbrev digits_of : Option (Bytes × Bytes) → Option Bytes
digits_of none = none
digits_of (some (directory, file)) = some (take 16 file)

pub take-append : (n : ℕ) (s t : Bytes) → length s ≡ n → take n (s ++ t) ≡ s
take-append zero [] t h = refl
take-append zero (c ∷ s) t h = absurd (omega arith)
take-append (suc n) [] t h = absurd (omega arith)
take-append (suc n) (c ∷ s) t h = ap (λ r. c ∷ r) (take-append n s t (omega arith))

pub dat-no_slash : All (λ c. c ≢ slash) (codes ".dat")
dat-no_slash = (
  λ e. absurd (omega arith),
  (λ e. absurd (omega arith), (λ e. absurd (omega arith), (λ e. absurd (omega arith), tt))),
)

abbrev pub paths : Paths
paths = record {
  branch_path = λ p. directory_of (split p);
  same_path = bytes_eq;
  regex_match = λ p. digits_of (split p);
  same_path-refl = λ p. (bytes_eq_iff p p).1 refl;
  branch_path-append = λ directory name h. ap directory_of (split-append directory name h);
  regex_match-append = λ directory digits h hex.
      ap digits_of (
        split-append directory (digits ++ codes ".dat") (
          All-append (λ c. c ≢ slash) digits (codes ".dat") (IsHex-no_slash digits hex)
            dat-no_slash))
      ∙ ap some (take-append 16 digits (codes ".dat") h);
}
