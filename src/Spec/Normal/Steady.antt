-- ===== src/Spec/Normal/Steady.antt =====
-- src/callInterface/types/wciValueParameter.cpp and wciLevelParameter.cpp: a parameter that is put
-- into its normal form twice.
use wdb.Base.{
  ℕ, Bool, true, false, [], ◌∷◌, ◌++◌, Bytes, bytes_eq_iff, is_nil, to_lower, lower_byte,
  lower_byte-lower_byte, ok, ◌==◌, ◌≡◌, ◌≢◌, refl, sym, ◌∙◌, ap, if◌then◌else◌, All, arith,
  Bool-cases, inl, inr, ◌⊎◌, ◌↔◌, take, drop, length, ◌≤◌, catch_as, suc, zero, length-append,
}
use wdb.Admin.Words.Documents.{is_space}
use wdb.Config.File.Spaces.{squeezed}
use wdb.Spec.Wildcard.{value_parameter_type, level_parameter_type, instant, without_instant}
use wdb.Spec.Normal.{c_string, normalize_wci_parameter, normalize_wci_level_parameter}

-- A text that the steps of the normal form leave alone.
record IsNormal (s : Bytes) : Type 0 where
  lower : to_lower s ≡ s
  spaces : squeezed false s ≡ s
  string : c_string s ≡ s

squeezed-squeezed :
    (s : Bytes)
    → (squeezed true (squeezed true s) ≡ squeezed true s)
      × (squeezed false (squeezed false s) ≡ squeezed false s)
unfolding squeezed is_space
squeezed-squeezed [] = (refl, refl)
squeezed-squeezed (c ∷ s) =
    let (after, next) = squeezed-squeezed s in
    elim (Bool-cases (is_space c)) [
      | inl e ↦ (rw (e, after), rw (e, after))
      | inr e ↦ (rw (e, next, e), rw (e, next, e))
    ]

length-squeezed : (b : Bool) (s : Bytes) → length (squeezed b s) ≤ length s
unfolding squeezed
length-squeezed b [] = ground arith
length-squeezed b (c ∷ s) = ground (arith, length-squeezed true s, length-squeezed false s)

-- A text without a space in front.
squeezed-true : (s : Bytes) → squeezed true s ≡ s → squeezed false s ≡ s
unfolding squeezed
squeezed-true [] h = refl
squeezed-true (c ∷ s) h = elim (Bool-cases (is_space c)) [
  | inl e ↦
      let shorter = length-squeezed true s in
      let same : squeezed true s ≡ c ∷ s = rw e at h in
      let longer : length (squeezed true s) ≡ suc (length s) = ap length same in ground arith
  | inr e ↦ let same : c ∷ squeezed false s ≡ c ∷ s = rw e at h in rw e same
]

-- A byte that is lower case and does not end a C string.
abbrev IsKept : ℕ → Type 0
IsKept c = (lower_byte c ≡ c) × ((c == 0) ≡ false)

to_lower-IsKept : (s : Bytes) → All IsKept (to_lower (c_string s))
unfolding c_string
to_lower-IsKept [] = tt
to_lower-IsKept (c ∷ s) = elim (Bool-cases (c == 0)) [
  | inl e ↦ rw e tt
  | inr e ↦
      let kept : (lower_byte c == 0) ≡ false = ground arith in
      rw e ((lower_byte-lower_byte c, kept), to_lower-IsKept s)
]

squeezed-IsKept : (b : Bool) (s : Bytes) → All IsKept s → All IsKept (squeezed b s)
unfolding squeezed
squeezed-IsKept b [] h = tt
squeezed-IsKept b (c ∷ s) (hc, h) =
    let after = squeezed-IsKept true s h in
    let next = squeezed-IsKept false s h in
    elim (Bool-cases (is_space c)) [
      | inl e ↦ rw e (blank b (squeezed true s) after)
      | inr e ↦ rw e (hc, next)
    ]
  where
    blank : (b : Bool) (t : Bytes) → All IsKept t → All IsKept (if b then t else 32 ∷ t)
    blank true t h = h
    blank false t h = ((refl, refl), h)

drop-IsKept : (n : ℕ) (s : Bytes) → All IsKept s → All IsKept (drop n s)
drop-IsKept zero s h = h
drop-IsKept (suc n) [] h = tt
drop-IsKept (suc n) (c ∷ s) (hc, h) = drop-IsKept n s h

to_lower-kept : (s : Bytes) → All IsKept s → to_lower s ≡ s
to_lower-kept [] h = refl
to_lower-kept (c ∷ s) (hc, h) = rw (hc.0, to_lower-kept s h)

c_string-kept : (s : Bytes) → All IsKept s → c_string s ≡ s
unfolding c_string
c_string-kept [] h = refl
c_string-kept (c ∷ s) (hc, h) = rw (hc.1, c_string-kept s h)

take-drop : (n : ℕ) (s : Bytes) → take n s ++ drop n s ≡ s
take-drop zero s = refl
take-drop (suc n) [] = refl
take-drop (suc n) (c ∷ s) = ap (λ t. c ∷ t) (take-drop n s)

behind_instant : (v : Bytes) → squeezed false (instant ++ v) ≡ instant ++ v → squeezed true v ≡ v
unfolding squeezed is_space
behind_instant v h = ap (drop 8) h

-- The blank of "instant " stands in front of no other space.
drop-squeezed :
    (u : Bytes) → squeezed false u ≡ u → take 8 u ≡ instant → squeezed false (drop 8 u) ≡ drop 8 u
drop-squeezed u h begins =
    let parts : instant ++ drop 8 u ≡ u = rw begins at (take-drop 8 u) in
    let kept : squeezed false (instant ++ drop 8 u) ≡ instant ++ drop 8 u = rw (parts, h) in
    squeezed-true (drop 8 u) (behind_instant (drop 8 u) kept)

is_nil-squeezed : (s : Bytes) → is_nil s ≡ false → is_nil (squeezed false (to_lower s)) ≡ false
unfolding squeezed
is_nil-squeezed [] h = cc
is_nil-squeezed (c ∷ s) h = ground arith

not_nil : (n : Bytes) → n ≢ [] → is_nil n ≡ false
not_nil [] h = ground arith
not_nil (c ∷ n) h = refl

longer : (n : Bytes) → take 8 n ≡ instant → drop 8 n ≢ n
longer n begins same =
    let parts : instant ++ drop 8 n ≡ n = rw begins at (take-drop 8 n) in
    let whole : instant ++ n ≡ n = rw same at parts in
    let sizes : length (instant ++ n) ≡ length n = ap length whole in
    ground (arith, length-append instant n)

module _ (one_space : Bytes → Bytes)
    (documents : (s : Bytes) → one_space s ≡ squeezed false s) where
  -- The bytes of a normal form, before "instant " is taken away.
  abbrev form : Bytes → Bytes
  form s = squeezed false (to_lower (c_string s))

  form-IsKept : (s : Bytes) → All IsKept (form s)
  form-IsKept s = squeezed-IsKept false (to_lower (c_string s)) (to_lower-IsKept s)

  value-form :
      (s n : Bytes) → normalize_wci_parameter one_space s ≡ ok n → n ≡ without_instant (form s)
  unfolding normalize_wci_parameter value_parameter_type catch_as
  value-form s n h =
      let e = documents (to_lower (c_string s)) in
      elim (Bool-cases (is_nil (c_string s))) [
        | inl k ↦ (let wrong = rw k at h in cc)
        | inr k ↦ (let right = rw (k, e) at h in cc)
      ]

  value-kept :
      (n : Bytes)
      → All IsKept n
      → squeezed false n ≡ n
      → is_nil n ≡ false
      → normalize_wci_parameter one_space n ≡ ok (without_instant n)
  unfolding normalize_wci_parameter value_parameter_type catch_as
  value-kept n h k e = rw (c_string-kept n h, e, to_lower-kept n h, documents n, k)

  without_instant-cases :
      (u : Bytes)
      → ((take 8 u ≡ instant) × (without_instant u ≡ drop 8 u))
        ⊎ ((take 8 u ≢ instant) × (without_instant u ≡ u))
  without_instant-cases u = ground (arith, bytes_eq_iff (take 8 u) instant)

  without_instant-IsKept : (u : Bytes) → All IsKept u → All IsKept (without_instant u)
  without_instant-IsKept u h = elim (without_instant-cases u) [
    | inl (b, e) ↦ rw e (drop-IsKept 8 u h)
    | inr (b, e) ↦ rw e h
  ]

  without_instant-squeezed :
      (u : Bytes) → squeezed false u ≡ u → squeezed false (without_instant u) ≡ without_instant u
  without_instant-squeezed u h = elim (without_instant-cases u) [
    | inl (b, e) ↦ rw e (drop-squeezed u h b)
    | inr (b, e) ↦ rw e h
  ]

  value-nil : (n : Bytes) → normalize_wci_parameter one_space [] ≢ ok n
  unfolding normalize_wci_parameter value_parameter_type catch_as c_string
  value-nil n h = cc

  normal :
      (s n : Bytes)
      → normalize_wci_parameter one_space s ≡ ok n
      → All IsKept n × (squeezed false n ≡ n)
  normal s n h =
      let e = value-form s n h in
      let idle = (squeezed-squeezed (to_lower (c_string s))).1 in
      rw e (without_instant-IsKept (form s) (form-IsKept s), without_instant-squeezed (form s) idle)

  -- A parameter that normalizeWciParameter returns is its own normal form exactly if it is not
  -- empty and does not begin with "instant ".
  pub normalize_wci_parameter-steady_iff :
      (s n : Bytes)
      → normalize_wci_parameter one_space s ≡ ok n
      → (normalize_wci_parameter one_space n ≡ ok n) ↔ ((n ≢ []) × (take 8 n ≢ instant))
  normalize_wci_parameter-steady_iff s n h =
      let (kept, idle) = normal s n h in
      (
        λ again.
            let again_form : form n ≡ n = rw (c_string-kept n kept, to_lower-kept n kept, idle) in
            let same : n ≡ without_instant n = rw again_form at (value-form n n again) in
            (
              (λ e. value-nil n (rw (← e) again)),
              λ begins. elim (without_instant-cases n) [
                | inl (b, e) ↦ longer n b (sym e ∙ sym same)
                | inr (b, e) ↦ b begins
              ],
            ),
        λ (filled, plain).
            let full : is_nil n ≡ false = not_nil n filled in
            elim (without_instant-cases n) [
              | inl (b, e) ↦ ground arith
              | inr (b, e) ↦ value-kept n kept idle full ∙ ap ok e
            ],
      )

  level-form :
      (s n : Bytes)
      → normalize_wci_level_parameter one_space s ≡ ok n
      → (n ≡ form s) × (is_nil n ≡ false)
  unfolding normalize_wci_level_parameter level_parameter_type catch_as
  level-form s n h =
      let e = documents (to_lower (c_string s)) in
      elim (Bool-cases (is_nil (c_string s))) [
        | inl k ↦ (let wrong = rw k at h in cc)
        | inr k ↦
            let same : form s ≡ n = (let right = rw (k, e) at h in cc) in
            (sym same, rw (← same) (is_nil-squeezed (c_string s) k))
      ]

  -- A level parameter that normalizeWciLevelParameter returns is its own normal form.
  pub normalize_wci_level_parameter-steady :
      (s n : Bytes)
      → normalize_wci_level_parameter one_space s ≡ ok n
      → normalize_wci_level_parameter one_space n ≡ ok n
  unfolding normalize_wci_level_parameter level_parameter_type catch_as
  normalize_wci_level_parameter-steady s n h =
      let (e, full) = level-form s n h in
      let kept : All IsKept n = rw e (form-IsKept s) in
      let idle : squeezed false n ≡ n = rw e (squeezed-squeezed (to_lower (c_string s))).1 in
      rw (c_string-kept n kept, full, to_lower-kept n kept, documents n, idle)
