-- ===== src/Blob.antt =====
-- src/blob/PathGenerator.cpp: the file that a blob with a given id is kept in, and back. A FileId is
-- a `long long` of 64 bits. Boost's paths and regular expressions are a parameter.
pub mod RoundTrip
pub mod Store
pub mod Sql
use wdb.Base.{
  ℕ, zero, suc, ◌+◌, ◌-◌, ◌*◌, ◌/◌, ◌%◌, ◌^◌, ltb, leb, Bool, true, false, not, List, [], ◌∷◌, ◌++◌,
  ◌≡◌, ◌≢◌, ◌⊎◌, ◌≤◌, ◌<◌, Bytes, codes, All, length, if◌then◌else◌, Option, none, some, ℤ, pos,
  negsuc, Outcome, ok, fail, logic_error, runtime_error,
}

abbrev pub slash : ℕ
slash = b'/'

-- What "[0-9a-fA-F]" matches.
abbrev pub IsHex : ℕ → Type 0
IsHex c = ((b'0' ≤ c) × (c ≤ b'9')) ⊎ (((b'a' ≤ c) × (c ≤ b'f')) ⊎ ((b'A' ≤ c) × (c ≤ b'F')))

-- boost/filesystem and boost/regex, with paths as texts.
pub record Paths : Type 0 where
  pub branch_path : Bytes → Bytes
  pub same_path : Bytes → Bytes → Bool
  -- the second group of "(.*/)?([0-9a-fA-F]{16})[.]dat"
  pub regex_match : Bytes → Option Bytes
  pub same_path-refl : (p : Bytes) → same_path p p ≡ true
  pub branch_path-append :
      (directory name : Bytes)
      → All (λ c. c ≢ slash) name
      → branch_path (directory ++ slash ∷ name) ≡ directory
  pub regex_match-append :
      (directory digits : Bytes)
      → length digits ≡ 16
      → All IsHex digits
      → regex_match (directory ++ slash ∷ (digits ++ codes ".dat")) ≡ some digits

-- The bits of a `long long` as a number.
abbrev pub bits : ℤ → ℕ
bits (pos n) = n
bits (negsuc n) = 2 ^ 64 - suc n

abbrev pub hex_digit : ℕ → ℕ
hex_digit d = if ltb d 10 then b'0' + d else b'a' + d - 10

-- `setfill('0') << setw(w) << hex << n` for a number of at most `w` digits, in front of `out`.
unfoldable pub hex_digits : ℕ → ℕ → Bytes → Bytes
hex_digits zero n out = out
hex_digits (suc w) n out = hex_digits w (n / 16) (hex_digit (n % 16) ∷ out)

-- `PathGenerator::operator()`
unfoldable pub path_of : Bytes → ℤ → Bytes
unfolding hex_digits
path_of base id = base ++ slash ∷ (hex_digits 16 (bits id) [] ++ codes ".dat")

abbrev pub hex_value : ℕ → ℕ
hex_value c = if leb c b'9' then c - b'0' else if leb c b'F' then c + 10 - b'A' else c + 10 - b'a'

-- The number that hexadecimal digits spell behind `n`.
unfoldable pub hex_number : ℕ → Bytes → ℕ
hex_number n [] = n
hex_number n (c ∷ s) = hex_number (n * 16 + hex_value c) s

-- `val >> hex >> ret` into a `long long`, for digits: it fails above the type's range.
unfoldable pub read_hex : Bytes → Option ℤ
unfolding hex_number
read_hex s = let n = hex_number 0 s in if ltb n (2 ^ 63) then some (pos n) else none

-- `getFilePath`, where the generator is set or not.
unfoldable pub get_file_path : Option Bytes → ℤ → Outcome Bytes
unfolding path_of
get_file_path none id = fail (logic_error (codes "No base directory has been set yet"))
get_file_path (some base) id = ok (path_of base id)

module _ (fs : Paths) where
  -- `PathGenerator::reverse`
  unfoldable pub reverse : Bytes → Bytes → Outcome ℤ
  unfolding read_hex
  reverse base blob_file_name =
      if not (fs.same_path (fs.branch_path blob_file_name) base)
      then fail (logic_error (blob_file_name ++ codes " is not a blob file for this database"))
      else elim (fs.regex_match blob_file_name) [
        | none ↦ fail (logic_error (codes "Invalid file name: " ++ blob_file_name))
        | some digits ↦ elim (read_hex digits) [
          | none ↦ fail (
              runtime_error
                (codes "Invalid file name (possible decoding error): " ++ blob_file_name))
          | some id ↦ ok id
        ]
      ]

  -- `getFileId`
  unfoldable pub get_file_id : Option Bytes → Bytes → Outcome ℤ
  unfolding reverse
  get_file_id none path = fail (logic_error (codes "No base directory has been set yet"))
  get_file_id (some base) path = reverse base path
