-- ===== src/Spec/Wildcard.antt =====
-- src/callInterface/types/ValueParameterType.cpp and LevelParameterType.cpp: parameter names in
-- normal form, and whether a name is a pattern for LIKE. `regex_replace` is a parameter.
use wdb.Base.{
  ℕ, zero, suc, ◌+◌, ◌-◌, ◌≤◌, ◌<◌, Bool, true, false, not, ◌||◌, [], ◌∷◌, ◌++◌, ◌≡◌, ◌≢◌, ◌⊎◌, inl,
  inr, refl, arith, Bytes, codes, bytes_eq, ◌==◌, is_nil, to_lower, if◌then◌else◌, Option, none,
  some, get_elem?, length, drop, take, Outcome, ok, fail, logic_error, Bool-cases, Option-cases,
  ◌↔◌,
}
use Prim.Native.Nat.add

abbrev is_wildcard : ℕ → Bool
is_wildcard c = c == b'%' || c == b'_'

-- `s.find_first_of("%_", pos)`, on the text from `pos` on.
find_in : Bytes → ℕ → Option ℕ
find_in [] pos = none
find_in (c ∷ s) pos = if is_wildcard c then some pos else find_in s (suc pos)

unfoldable pub find_first_of : Bytes → ℕ → Option ℕ
unfolding find_in
find_first_of s pos = find_in (drop pos s) pos

-- Whether the wildcard at a position makes the text a pattern: it stands first, or no backslash
-- stands in front of it.
abbrev unescaped_at : Bytes → ℕ → Bool
unescaped_at s zero = true
unescaped_at s (suc i) = elim (get_elem? s i) [ none ↦ true | some c ↦ not (c == b'\\') ]

-- The loop of the constructors, which sets `isPattern_`; the fuel is above what is left to scan.
unfoldable pub scan : ℕ → Bytes → ℕ → Bool
scan zero s pos = false
scan (suc fuel) s pos = elim (find_first_of s pos) [
  | none ↦ false
  | some i ↦ elim (unescaped_at s i) [ true ↦ true | false ↦ scan fuel s (suc i) ]
]

unfoldable pub is_pattern : Bytes → Bool
is_pattern s = scan (suc (length s)) s 0

pub record ParameterType : Type 0 where
  pub specification_ : Bytes
  pub is_pattern_ : Bool

-- `erase( 0, 8 )` where the text starts with "instant ".
abbrev pub instant : Bytes
instant = codes "instant "

abbrev pub without_instant : Bytes → Bytes
without_instant s = if bytes_eq (take 8 s) instant then drop 8 s else s

-- `one_space s` is `regex_replace( s, whitespace, " " )`.
module _ (one_space : Bytes → Bytes) where
  -- `ValueParameterType(specification)`
  unfoldable pub value_parameter_type : Bytes → Outcome ParameterType
  value_parameter_type specification =
      let s = without_instant (one_space (to_lower specification)) in
      if is_nil specification
      then fail (logic_error (codes "Invalid specification: " ++ specification))
      else ok (record { specification_ = s; is_pattern_ = is_pattern s })

  -- `LevelParameterType(specification)`
  unfoldable pub level_parameter_type : Bytes → Outcome ParameterType
  level_parameter_type specification =
      let s = one_space (to_lower specification) in
      if is_nil specification
      then fail (logic_error (codes "Invalid specification: " ++ specification))
      else ok (record { specification_ = s; is_pattern_ = is_pattern s })

-- `operator ==`
unfoldable parameter_eq : ParameterType → ParameterType → Bool
parameter_eq a b = bytes_eq a.specification_ b.specification_

abbrev wildcard_at : Bytes → ℕ → Bool
wildcard_at s i = elim (get_elem? s i) [ none ↦ false | some c ↦ is_wildcard c ]

-- A wildcard stands at position `i`, and no backslash in front of it.
abbrev pub PatternAt : Bytes → ℕ → Type 0
PatternAt s i = (wildcard_at s i ≡ true) × (unescaped_at s i ≡ true)

find_in_sound :
    (s : Bytes) (pos i : ℕ)
    → find_in s pos ≡ some i
    → (k : ℕ) × (i ≡ pos + k) × (wildcard_at s k ≡ true)
unfolding find_in
find_in_sound [] pos i h = cc
find_in_sound (c ∷ s) pos i h = elim (Bool-cases (is_wildcard c)) [
  | inl e ↦ (0, ground arith, e)
  | inr e ↦
      let (k, at_i, found) = find_in_sound s (suc pos) i (ground arith) in
      (suc k, omega arith, found)
]

find_in_complete :
    (s : Bytes) (pos k : ℕ)
    → wildcard_at s k ≡ true
    → (j : ℕ) × (find_in s pos ≡ some j) × (pos ≤ j) × (j ≤ pos + k)
unfolding find_in
find_in_complete [] pos k h = cc
find_in_complete (c ∷ s) pos zero h = (pos, ground arith, omega arith, omega arith)
find_in_complete (c ∷ s) pos (suc k) h = elim (Bool-cases (is_wildcard c)) [
  | inl e ↦ (pos, rw e, omega arith, omega arith)
  | inr e ↦
      let (j, found, low, high) = find_in_complete s (suc pos) k h in
      (j, rw e found, omega arith, omega arith)
]

wildcard_at-drop :
    (pos : ℕ) (s : Bytes) (k : ℕ) → wildcard_at (drop pos s) k ≡ wildcard_at s (pos + k)
wildcard_at-drop zero s k = rw (add.zero k)
wildcard_at-drop (suc pos) [] k = refl
wildcard_at-drop (suc pos) (c ∷ s) k = rw (add.suc pos k) (wildcard_at-drop pos s k)

wildcard_at-lt : (s : Bytes) (i : ℕ) → wildcard_at s i ≡ true → i < length s
wildcard_at-lt [] i h = cc
wildcard_at-lt (c ∷ s) zero h = omega arith
wildcard_at-lt (c ∷ s) (suc i) h = omega (arith, wildcard_at-lt s i h)

find_first_of_sound :
    (s : Bytes) (pos i : ℕ) → find_first_of s pos ≡ some i → wildcard_at s i ≡ true
unfolding find_first_of
find_first_of_sound s pos i h =
    let (k, at_i, found) = find_in_sound (drop pos s) pos i h in
    rw at_i (rw (wildcard_at-drop pos s k) at found)

find_first_of_complete :
    (s : Bytes) (pos i : ℕ)
    → pos ≤ i
    → wildcard_at s i ≡ true
    → (j : ℕ) × (find_first_of s pos ≡ some j) × (pos ≤ j) × (j ≤ i)
unfolding find_first_of
find_first_of_complete s pos i le h =
    let e : pos + (i - pos) ≡ i = omega arith in
    let (j, found, low, high) =
      find_in_complete (drop pos s) pos (i - pos) (rw (wildcard_at-drop pos s (i - pos), e) h) in
    (j, found, low, omega arith)

scan_sound : (fuel : ℕ) (s : Bytes) (pos : ℕ) → scan fuel s pos ≡ true → (i : ℕ) × PatternAt s i
unfolding scan
scan_sound zero s pos h = cc
scan_sound (suc fuel) s pos h = elim (Option-cases (find_first_of s pos)) [
  | inl e ↦ cc (rw (e, scan) at h)
  | inr (i, e) ↦ elim (Bool-cases (unescaped_at s i)) [
    | inl free ↦ (i, (find_first_of_sound s pos i e, free))
    | inr kept ↦ scan_sound fuel s (suc i) (ground arith)
  ]
]

scan_complete :
    (fuel : ℕ) (s : Bytes) (pos i : ℕ)
    → length s < pos + fuel
    → pos ≤ i
    → PatternAt s i
    → scan fuel s pos ≡ true
unfolding scan
scan_complete zero s pos i f le (w, u) = absurd (omega (arith, wildcard_at-lt s i w))
scan_complete (suc fuel) s pos i f le (w, u) =
    let (j, found, low, high) = find_first_of_complete s pos i le w in
    elim (Bool-cases (unescaped_at s j)) [
      | inl free ↦ ground arith
      | inr kept ↦
          let differ : j ≢ i = λ e. cc (rw e at kept) in
          ground (arith, scan_complete fuel s (suc j) i (omega arith) (omega arith) (w, u))
    ]

-- A name is a pattern exactly when it has a `%` or `_` that stands first or behind another
-- character than a backslash. One round for each character and one more are enough.
pub is_pattern_iff : (s : Bytes) → (is_pattern s ≡ true) ↔ ((i : ℕ) × PatternAt s i)
unfolding is_pattern
is_pattern_iff s = (
  λ h. scan_sound (suc (length s)) s 0 h,
  λ p. scan_complete (suc (length s)) s 0 p.0 (omega arith) (omega arith) p.1,
)

-- Of a parameter name that the constructors accept, `isPattern` tells whether the name in normal
-- form has an unescaped wildcard; both constructors refuse the empty name, and no other.
value_parameter_type-is_pattern_ :
    (one_space : Bytes → Bytes) (s : Bytes) (p : ParameterType)
    → (value_parameter_type one_space s ≡ ok p) ⊎ (level_parameter_type one_space s ≡ ok p)
    → (s ≢ []) × (p.is_pattern_ ≡ true ↔ ((i : ℕ) × PatternAt p.specification_ i))
unfolding value_parameter_type level_parameter_type
value_parameter_type-is_pattern_ one_space s p h =
    let ne : s ≢ [] = elim h [ inl v ↦ ground arith | inr v ↦ ground arith ] in
    let same : p.is_pattern_ ≡ is_pattern p.specification_ = elim h [
      | inl v ↦ ground arith
      | inr v ↦ ground arith
    ] in
    (ne, rw same (is_pattern_iff p.specification_))
