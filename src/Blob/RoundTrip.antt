-- ===== src/Blob/RoundTrip.antt =====
-- src/blob/PathGenerator.cpp: from an id to its file and back.
use wdb.Base.{
  ℕ, zero, suc, lt→ltb, ◌+◌, ◌-◌, ◌*◌, ◌/◌, ◌%◌, ltb, false, [], ◌∷◌, ◌++◌, ◌≡◌, ◌≢◌, ◌≤◌, ◌<◌,
  Bytes, codes, All, All-append, length, if◌then◌else◌, none, some, ℤ, pos, negsuc, ok, fail,
  runtime_error, ◌>>=◌, refl, sym, arith, ◌∙◌, ap,
}
use wdb.Blob.{
  slash, IsHex, Paths, bits, hex_digit, hex_digits, path_of, hex_value, hex_number, read_hex,
  reverse, get_file_path, get_file_id,
}

abbrev pow16 : ℕ → ℕ
pow16 zero = 1
pow16 (suc w) = 16 * pow16 w

hex_value-hex_digit : (d : ℕ) → d < 16 → hex_value (hex_digit d) ≡ d
hex_value-hex_digit d h = ground arith

hex_digit-IsHex : (d : ℕ) → d < 16 → IsHex (hex_digit d)
hex_digit-IsHex d h = ground arith

hex_number-hex_digits :
    (w n : ℕ) (out : Bytes) → n < pow16 w → hex_number 0 (hex_digits w n out) ≡ hex_number n out
unfolding hex_digits hex_number
hex_number-hex_digits zero n out h = ap (λ m. hex_number m out) (omega arith)
hex_number-hex_digits (suc w) n out h =
    hex_number-hex_digits w (n / 16) (hex_digit (n % 16) ∷ out) (omega arith)
    ∙ ap (λ m. hex_number m out) (rw (hex_value-hex_digit (n % 16) (omega arith)) (omega arith))

length-hex_digits : (w n : ℕ) (out : Bytes) → length (hex_digits w n out) ≡ w + length out
unfolding hex_digits
length-hex_digits zero n out = omega arith
length-hex_digits (suc w) n out =
    length-hex_digits w (n / 16) (hex_digit (n % 16) ∷ out) ∙ omega arith

hex_digits-IsHex : (w n : ℕ) (out : Bytes) → All IsHex out → All IsHex (hex_digits w n out)
unfolding hex_digits
hex_digits-IsHex zero n out h = h
hex_digits-IsHex (suc w) n out h =
    hex_digits-IsHex w (n / 16) (hex_digit (n % 16) ∷ out)
      (hex_digit-IsHex (n % 16) (omega arith), h)

pub IsHex-no_slash : (s : Bytes) → All IsHex s → All (λ c. c ≢ slash) s
IsHex-no_slash [] h = tt
IsHex-no_slash (c ∷ s) (h, hs) = (λ e. ground arith, IsHex-no_slash s hs)

path_of-digits :
    (fs : Paths) (base : Bytes) (id : ℤ)
    → fs.regex_match (path_of base id) ≡ some (hex_digits 16 (bits id) [])
unfolding path_of
path_of-digits fs base id =
    fs.regex_match-append base (hex_digits 16 (bits id) [])
      (length-hex_digits 16 (bits id) [] ∙ refl) (hex_digits-IsHex 16 (bits id) [] tt)

module _ (fs : Paths) (base : Bytes) (id : ℤ) (in_range : bits id < 18446744073709551616) where
  abbrev spelled : Bytes
  spelled = hex_digits 16 (bits id) []

  -- Each file lies in the directory.
  pub branch_path-path_of : fs.branch_path (path_of base id) ≡ base
  unfolding path_of
  branch_path-path_of =
      let hex : All IsHex spelled = hex_digits-IsHex 16 (bits id) [] tt in
      let name : All (λ c. c ≢ slash) (spelled ++ codes ".dat") =
        All-append (λ c. c ≢ slash) spelled (codes ".dat") (IsHex-no_slash spelled hex)
          (
            λ e. absurd (omega arith),
            (
              λ e. absurd (omega arith),
              (λ e. absurd (omega arith), (λ e. absurd (omega arith), tt)),
            ),
          ) in
      fs.branch_path-append base (spelled ++ codes ".dat") name

  reverse-path_of : reverse fs base (path_of base id) ≡ elim (read_hex spelled) [
    | none ↦
        fail
          (runtime_error (codes "Invalid file name (possible decoding error): " ++ path_of base id))
    | some n ↦ ok n
  ]
  unfolding reverse
  reverse-path_of = rw (branch_path-path_of, fs.same_path-refl base, path_of-digits fs base id) refl

  read_hex-spelled :
      read_hex spelled ≡ (if ltb (bits id) 9223372036854775808 then some (pos (bits id)) else none)
  unfolding read_hex hex_number
  read_hex-spelled = rw (hex_number-hex_digits 16 (bits id) [] (omega arith)) refl

-- Two ids have the same file only when they are the same 64 bits.
pub path_of-bits :
    (fs : Paths) (base : Bytes) (a b : ℤ)
    → bits a < 18446744073709551616
    → bits b < 18446744073709551616
    → path_of base a ≡ path_of base b
    → bits a ≡ bits b
unfolding hex_number
path_of-bits fs base a b in_a in_b h =
    let found_a = path_of-digits fs base a in
    let found_b = path_of-digits fs base b in
    let same : hex_digits 16 (bits a) [] ≡ hex_digits 16 (bits b) [] = cc in
    sym (hex_number-hex_digits 16 (bits a) [] (omega arith))
    ∙ ap (hex_number 0) same
    ∙ hex_number-hex_digits 16 (bits b) [] (omega arith)

not_below : (a b : ℕ) → b ≤ a → ltb a b ≡ false
not_below a b h = ground arith

-- An id that is not negative is read back from the path of its file, in any base directory.
pub get_file_id-get_file_path :
    (fs : Paths) (base : Bytes) (n : ℕ)
    → n < 9223372036854775808
    → (get_file_path (some base) (pos n) >>= get_file_id fs (some base)) ≡ ok (pos n)
unfolding get_file_path get_file_id
get_file_id-get_file_path fs base n h =
    rw
      (
        reverse-path_of fs base (pos n) (omega arith),
        read_hex-spelled fs base (pos n) (omega arith),
      )
      (rw (lt→ltb n 9223372036854775808 h) refl)

-- The path of a file with a negative id is refused: its digits spell a number above the range of an
-- id.
get_file_id-negative :
    (fs : Paths) (base : Bytes) (n : ℕ)
    → n < 9223372036854775808
    → (get_file_path (some base) (negsuc n) >>= get_file_id fs (some base))
      ≡ fail (
          runtime_error
            (codes "Invalid file name (possible decoding error): " ++ path_of base (negsuc n)))
unfolding get_file_path get_file_id
get_file_id-negative fs base n h =
    rw
      (
        reverse-path_of fs base (negsuc n) (omega arith),
        read_hex-spelled fs base (negsuc n) (omega arith),
      )
      (rw (not_below (18446744073709551616 - suc n) 9223372036854775808 (omega arith)) refl)
