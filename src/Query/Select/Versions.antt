-- ===== src/Query/Select/Versions.antt =====
-- Which data versions the condition on versions selects.
use wdb.Base.{
  ℕ, ◌+◌, ◌⊎◌, inl, inr, List, [], ◌∷◌, ◌++◌, append_assoc, append-nil, ◌≡◌, ◌≢◌, ◌↔◌, refl, ap,
  arith, Bytes, codes, some, ℤ, pos, negsuc, show_ℕ, show_ℤ, ◌==◌, All, suc, ◌<◌, false,
}
use wdb.Query.Builder.{Builder, add_where}
use wdb.Query.Select.{
  positive_versions, negative_versions, positive_item, negative_item, more_items, version_condition,
  add_data_version_query,
}

-- What a list of the condition may hold: a number, or the newest version plus one, minus a number.
pub data Term : Type 0 where
  number back : ℕ → Term

-- `dataversion IN (…)` lists, joined by OR.
abbrev pub Condition : Type 0
Condition = List (List Term)

abbrev print_term : Term → Bytes
print_term (number n) = show_ℕ n
print_term (back n) = codes "(maxdataversion +1 -" ++ (show_ℕ n ++ codes ")")

abbrev print_terms : List Term → Bytes
print_terms [] = []
print_terms (t ∷ ts) = codes ", " ++ (print_term t ++ print_terms ts)

abbrev print_in : List Term → Bytes
print_in [] = codes "dataversion IN () "
print_in (t ∷ ts) = codes "dataversion IN (" ++ (print_term t ++ (print_terms ts ++ codes ") "))

abbrev print_more : Condition → Bytes
print_more [] = []
print_more (c ∷ cs) = codes "OR " ++ (print_in c ++ print_more cs)

abbrev pub print : Condition → Bytes
print [] = codes "() "
print (c ∷ cs) = codes "(" ++ (print_in c ++ (print_more cs ++ codes ") "))

module _ (version newest : ℕ) where
  -- Version `version` of a value of which `newest` is the newest one.
  abbrev Equals : Term → Type 0
  Equals (number n) = version ≡ n
  Equals (back n) = version + n ≡ newest + 1

  abbrev pub In : List Term → Type 0
  In [] = ⊥
  In (t ∷ ts) = Equals t ⊎ In ts

  abbrev pub Selects : Condition → Type 0
  Selects [] = ⊥
  Selects (c ∷ cs) = In c ⊎ Selects cs

  -- What the caller asks for: version n, or for -1, -2, … the newest, the one before it, …
  abbrev pub Asked : List ℤ → Type 0
  Asked [] = ⊥
  Asked (pos n ∷ vs) = (version ≡ n) ⊎ Asked vs
  Asked (negsuc n ∷ vs) = (version + n ≡ newest) ⊎ Asked vs

abbrev numbers : List ℕ → List Term
numbers [] = []
numbers (n ∷ ns) = number n ∷ numbers ns

abbrev backs : List ℤ → List Term
backs [] = []
backs (pos n ∷ vs) = back 0 ∷ backs vs
backs (negsuc n ∷ vs) = back (suc n) ∷ backs vs

-- An `int` above the least one, whose negation overflows.
abbrev pub IsNegatable : ℤ → Type 0
IsNegatable (pos n) = Unit
IsNegatable (negsuc n) = n < 2147483647

-- What `negative_versions` gives.
abbrev IsNegative : ℤ → Type 0
IsNegative (pos n) = ⊥
IsNegative (negsuc n) = n < 2147483647

negative_versions-IsNegative :
    (vs : List ℤ) → All IsNegatable vs → All IsNegative (negative_versions vs)
unfolding negative_versions
negative_versions-IsNegative [] h = tt
negative_versions-IsNegative (pos n ∷ vs) (hn, h) = negative_versions-IsNegative vs h
negative_versions-IsNegative (negsuc n ∷ vs) (hn, h) = (hn, negative_versions-IsNegative vs h)

above_least : (n : ℕ) → n < 2147483647 → (n == 2147483647) ≡ false
above_least n h = ground arith

abbrev if_any : List Term → Condition → Condition
if_any [] cs = cs
if_any (t ∷ ts) cs = (t ∷ ts) ∷ cs

abbrev condition : List ℤ → Condition
condition vs = if_any (numbers (positive_versions vs)) (if_any (backs (negative_versions vs)) [])

more_items-numbers : (ns : List ℕ) → more_items positive_item ns ≡ print_terms (numbers ns)
more_items-numbers [] = refl
more_items-numbers (n ∷ ns) = rw (more_items-numbers ns)

more_items-backs :
    (vs : List ℤ) → All IsNegative vs → more_items negative_item vs ≡ print_terms (backs vs)
unfolding show_ℤ
more_items-backs [] h = refl
more_items-backs (pos n ∷ vs) (hn, h) = absurd hn
more_items-backs (negsuc n ∷ vs) (hn, h) = rw (above_least n hn, more_items-backs vs h)

version_condition-print :
    (p : List ℕ) (n : List ℤ)
    → All IsNegative n
    → version_condition p n ≡ print (if_any (numbers p) (if_any (backs n) []))
unfolding version_condition show_ℤ
version_condition-print [] [] h = refl
version_condition-print (p ∷ ps) [] h = rw (more_items-numbers ps)
version_condition-print p (pos n ∷ ns) (hn, h) = absurd hn
version_condition-print [] (negsuc n ∷ ns) (hn, h) = rw (above_least n hn, more_items-backs ns h)
version_condition-print (p ∷ ps) (negsuc n ∷ ns) (hn, h) =
    rw (more_items-numbers ps, above_least n hn, more_items-backs ns h)
      (simp (append_assoc, append-nil))

module _ (version newest : ℕ) where
  if_any-Selects :
      (ts : List Term) (cs : Condition)
      → Selects version newest (if_any ts cs) ↔ (In version newest ts ⊎ Selects version newest cs)
  if_any-Selects [] cs = (λ h. inr h, elim [ inl f ↦ absurd f | inr h ↦ h ])
  if_any-Selects (t ∷ ts) cs = (λ h. h, λ h. h)

  versions-Asked :
      (vs : List ℤ)
      → (In version newest (numbers (positive_versions vs))
          ⊎ In version newest (backs (negative_versions vs)))
        ↔ Asked version newest vs
  unfolding positive_versions negative_versions
  versions-Asked [] = (elim [ inl h ↦ h | inr h ↦ h ], λ h. absurd h)
  versions-Asked (pos n ∷ vs) = (
    elim [
      | inl (inl e) ↦ inl e
      | inl (inr h) ↦ inr ((versions-Asked vs).0 (inl h))
      | inr h ↦ inr ((versions-Asked vs).0 (inr h))
    ],
    elim [
      | inl e ↦ inl (inl e)
      | inr h ↦ elim ((versions-Asked vs).1 h) [ inl a ↦ inl (inr a) | inr a ↦ inr a ]
    ],
  )
  versions-Asked (negsuc n ∷ vs) = (
    elim [
      | inr (inl e) ↦ inl (omega arith)
      | inr (inr h) ↦ inr ((versions-Asked vs).0 (inr h))
      | inl h ↦ inr ((versions-Asked vs).0 (inl h))
    ],
    elim [
      | inl e ↦ inr (inl (omega arith))
      | inr h ↦ elim ((versions-Asked vs).1 h) [ inl a ↦ inl a | inr a ↦ inr (inr a) ]
    ],
  )

  condition-Asked : (vs : List ℤ) → Selects version newest (condition vs) ↔ Asked version newest vs
  condition-Asked vs =
      let outer =
        if_any-Selects (numbers (positive_versions vs))
          (if_any (backs (negative_versions vs)) []) in
      let inner = if_any-Selects (backs (negative_versions vs)) [] in
      (
        λ h. (versions-Asked vs).0 (elim (outer.0 h) [
          | inl a ↦ inl a
          | inr a ↦ elim (inner.0 a) [ inl b ↦ inr b | inr b ↦ absurd b ]
        ]),
        λ h.
            outer.1
              (elim ((versions-Asked vs).1 h) [ inl a ↦ inl a | inr a ↦ inr (inner.1 (inl a)) ]),
      )

-- For a list of versions that is not empty, all of them above the least `int`, the condition that is
-- added is the print of one that selects a value exactly if its version is in the list, where -1
-- stands for the newest version, -2 for the one before it, and so on.
pub add_data_version_query-Asked :
    (version newest : ℕ) (vs : List ℤ) (b : Builder)
    → vs ≢ []
    → All IsNegatable vs
    → (c : Condition) × (add_data_version_query (some vs) b ≡ add_where (print c) b)
      × (Selects version newest c ↔ Asked version newest vs)
unfolding add_data_version_query
add_data_version_query-Asked version newest [] b h k = absurd (h refl)
add_data_version_query-Asked version newest (v ∷ vs) b h k = (
  condition (v ∷ vs),
  ap (λ (t : Bytes). add_where t b)
      (version_condition-print (positive_versions (v ∷ vs)) (negative_versions (v ∷ vs))
        (negative_versions-IsNegative (v ∷ vs) k)),
  condition-Asked version newest (v ∷ vs),
)
