-- ===== src/Blob/Store/Floats.antt =====
-- The values of a field in its file: `readFloatFromFile` of src/blob/fileblobImpl.cpp.
use wdb.Base.{
  ℕ, zero, suc, ◌+◌, ◌*◌, ◌/◌, ◌%◌, ◌<◌, List, [], ◌∷◌, ◌++◌, All, get_elem?, drop, Bytes, codes,
  show_ℕ, Option-cases, inl, inr, none, some, ℤ, pos, negsuc, Outcome, ok, fail, runtime_error, ◌≡◌,
  refl, arith, ap, length,
}
use wdb.Blob.{path_of}
use wdb.Blob.Store.{Storage, Environment, ◌▹◌, continue_with, with_files, IsReady}
use wdb.Blob.Store.Initialize.{initialize_file_storage-ready}
use wdb.Blob.Store.Files.{read_float_, read_float_at, read_float_from_file, write_file}
use wdb.Blob.Store.ReadBack.{Accepts, get_bstream-entry, write_file-entries}

-- A list of `float`s, by their bits, as it lies in memory.
abbrev pub bytes_of_floats : List ℕ → Bytes
bytes_of_floats [] = []
bytes_of_floats (v ∷ vs) =
    v % 256 ∷ v / 256 % 256 ∷ v / 65536 % 256 ∷ v / 16777216 % 256 ∷ bytes_of_floats vs

-- The value at an index, or the error that names it.
abbrev pub value_at : List ℕ → ℤ → Outcome ℕ
value_at values (negsuc n) = fail (runtime_error (codes "Error when reading file"))
value_at values (pos n) = elim (get_elem? values n) [
  | some value ↦ ok value
  | none ↦
      fail (runtime_error (codes "File index " ++ show_ℕ n ++ codes " is out of range for file."))
]

four_bytes :
    (v : ℕ)
    → v < 4294967296
    → v % 256 + 256 * (v / 256 % 256 + 256 * (v / 65536 % 256 + 256 * (v / 16777216 % 256))) ≡ v
four_bytes v h = omega arith

drop-nil : (n : ℕ) → drop {A = ℕ} n [] ≡ []
drop-nil zero = refl
drop-nil (suc n) = refl

four_more : (n : ℕ) → suc n * 4 ≡ suc (suc (suc (suc (n * 4))))
four_more n = omega arith

read_float_-drop :
    (values : List ℕ) (n : ℕ)
    → All (λ v. v < 4294967296) values
    → read_float_ (drop (n * 4) (bytes_of_floats values))
      ≡ elim (get_elem? values n) as (λ o. Outcome ℕ) [
        | some value ↦ ok value
        | none ↦ fail (runtime_error (codes "File was too small to read the given index"))
      ]
unfolding read_float_
read_float_-drop [] zero h = refl
read_float_-drop [] (suc n) h = rw (drop-nil (suc n * 4)) refl
read_float_-drop (v ∷ values) zero (h, hs) = ap ok (four_bytes v h)
read_float_-drop (v ∷ values) (suc n) (h, hs) = rw (four_more n) (read_float_-drop values n hs)

read_float_at-value_at :
    (values : List ℕ) (position : ℤ)
    → All (λ v. v < 4294967296) values
    → read_float_at (bytes_of_floats values) position ≡ value_at values position
unfolding read_float_at
read_float_at-value_at values (negsuc n) h = refl
read_float_at-value_at values (pos n) h =
    rw (read_float_-drop values n h, read_float_at)
      (elim (Option-cases (get_elem? values n)) [
        | inl e ↦ rw (e, value_at) refl
        | inr (v, e) ↦ rw (e, value_at) refl
      ])

-- In a storage that is ready, where the operating system accepts the bytes of a list of floats for
-- the file of an id, the write succeeds, and from then on `readFloatFromFile` gives at every
-- position below the length of the list the float that stands there, and fails at the others:
-- behind the end with a message that names the position.
pub read_float_from_file-write_file :
    (env : Environment) (s : Storage) (base : Bytes) (id : ℤ) (values : List ℕ)
    → All (λ v. v < 4294967296) values
    → IsReady s base
    → Accepts env (path_of base id) (bytes_of_floats values)
    → (s' : Storage) × (write_file env id
          (bytes_of_floats values)
          (pos (length (bytes_of_floats values)))
          s
        ≡ (ok tt, s'))
      × ((position : ℤ) → read_float_from_file env id position s' ≡ (value_at values position, s'))
unfolding read_float_from_file
read_float_from_file-write_file env s base id values floats ready accepts =
    let (files, writes, entry, others) =
      write_file-entries env s base ready id (bytes_of_floats values) accepts in
    let s' = with_files files s in
    let stream = get_bstream-entry env s' base ready id _ entry accepts.opens in
    (
      s',
      writes,
      λ position.
          rw
            (
              initialize_file_storage-ready env s' ready,
              ◌▹◌,
              continue_with,
              stream,
              read_float_at-value_at values position floats,
            )
            refl,
    )
