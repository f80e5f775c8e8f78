-- ===== src/Spec/NamedInteger.antt =====
-- src/callInterface/types/wciNamedInteger.{h,cpp}, and the three enumerations that are stored as
-- integers: interpolationType.cpp, levelIndeterminateType.cpp and timeIndeterminateType.cpp.
use wdb.Base.{
  ℕ, zero, suc, ◌+◌, Bool, true, false, List, [], ◌∷◌, ◌++◌, ◌≡◌, ◌≢◌, refl, arith, Bytes, codes,
  bytes_eq, bytes_eq_iff, is_nil, to_lower, if◌then◌else◌, Option, none, some, get_elem?, ℤ, pos,
  negsuc, show_ℤ, Outcome, ok, fail, logic_error, out_of_range, catch_as, catch_as-eq-ok,
  invalid_text_representation, invalid_binary_representation, All, Bool-cases, inl, inr,
}

-- `wciNamedInteger(begin, end)`: the names, in order.
unfoldable named_integer : List Bytes → Outcome (List Bytes)
named_integer [] = fail (logic_error (codes "Cannot make an empty wciNamedInteger"))
named_integer (x ∷ xs) = ok (x ∷ xs)

-- The loop over `values_`, from index `i` on.
unfoldable pub find_index : Bytes → List Bytes → ℕ → Option ℕ
find_index key [] i = none
find_index key (x ∷ xs) i = if bytes_eq x key then some i else find_index key xs (suc i)

-- `operator [] (const char * key)`
unfoldable pub index : List Bytes → Bytes → Outcome ℤ
index values key = if is_nil key then ok (negsuc 0) else elim (find_index (to_lower key) values 0) [
  | some i ↦ ok (pos i)
  | none ↦ fail (out_of_range (key ++ codes " is not a valid type"))
]

-- `values_.at(val)`; a negative index is above every size as a `size_type`.
unfoldable pub at : List Bytes → ℤ → Option Bytes
at values (pos i) = get_elem? values i
at values (negsuc i) = none

abbrev is_minus_one : ℤ → Bool
is_minus_one (pos i) = false
is_minus_one (negsuc zero) = true
is_minus_one (negsuc (suc i)) = false

-- `operator [] (int val)`
unfoldable pub name : List Bytes → ℤ → Outcome Bytes
unfolding at
name values val = if is_minus_one val then ok [] else elim (at values val) [
  | some s ↦ ok s
  | none ↦ fail (out_of_range (codes "out of range: " ++ show_ℤ val))
]

abbrev interpol_types : List Bytes
interpol_types = codes "exact" ∷ codes "nearest" ∷ codes "surround" ∷ codes "bilinear" ∷ []

abbrev pub level_indet_types : List Bytes
level_indet_types =
    codes "exact" ∷ codes "inside" ∷ codes "above" ∷ codes "below" ∷ codes "any" ∷ []

abbrev time_indet_types : List Bytes
time_indet_types =
    codes "exact"
    ∷ codes "any"
    ∷ codes "inside"
    ∷ codes "before"
    ∷ codes "after"
    ∷ codes "contains"
    ∷ []

-- The input and output functions of the three PostgreSQL types.
unfoldable pub interpolation_type_in : Bytes → Outcome ℤ
interpolation_type_in s = catch_as invalid_text_representation (index interpol_types s)

unfoldable pub interpolation_type_out : ℤ → Outcome Bytes
interpolation_type_out v = catch_as invalid_binary_representation (name interpol_types v)

unfoldable pub level_indeterminate_type_in : Bytes → Outcome ℤ
level_indeterminate_type_in s = catch_as invalid_text_representation (index level_indet_types s)

unfoldable pub level_indeterminate_type_out : ℤ → Outcome Bytes
level_indeterminate_type_out v = catch_as invalid_binary_representation (name level_indet_types v)

unfoldable pub time_indeterminate_type_in : Bytes → Outcome ℤ
time_indeterminate_type_in s = catch_as invalid_text_representation (index time_indet_types s)

unfoldable pub time_indeterminate_type_out : ℤ → Outcome Bytes
time_indeterminate_type_out v = catch_as invalid_binary_representation (name time_indet_types v)

find_index-get_elem? :
    (key : Bytes) (xs : List Bytes) (i j : ℕ)
    → find_index key xs i ≡ some j
    → (k : ℕ) × (j ≡ i + k) × (get_elem? xs k ≡ some key)
unfolding find_index
find_index-get_elem? key [] i j h = cc
find_index-get_elem? key (x ∷ xs) i j h = elim (Bool-cases (bytes_eq x key)) [
  | inl e ↦ (0, ground arith, ground (arith, bytes_eq_iff x key))
  | inr e ↦
      let (k, at_j, found) = find_index-get_elem? key xs (suc i) j (ground arith) in
      (suc k, omega arith, found)
]

abbrev IsName : Bytes → Type 0
IsName s = (s ≢ []) × (to_lower s ≡ s)

-- Names that all differ, are not empty, and are in lower case.
abbrev AreNames : List Bytes → Type 0
AreNames [] = Unit
AreNames (x ∷ xs) = IsName x × All (λ y. y ≢ x) xs × AreNames xs

All-get_elem? :
    (s : Bytes) (xs : List Bytes) (k : ℕ) (t : Bytes)
    → All (λ y. y ≢ s) xs
    → get_elem? xs k ≡ some t
    → t ≢ s
All-get_elem? s [] k t h e = cc
All-get_elem? s (x ∷ xs) zero t h e = ground arith
All-get_elem? s (x ∷ xs) (suc k) t h e = All-get_elem? s xs k t h.1 e

get_elem?-IsName :
    (xs : List Bytes) (k : ℕ) (s : Bytes) → AreNames xs → get_elem? xs k ≡ some s → IsName s
get_elem?-IsName [] k s h e = cc
get_elem?-IsName (x ∷ xs) zero s h e = ground arith
get_elem?-IsName (x ∷ xs) (suc k) s h e = get_elem?-IsName xs k s h.2 e

get_elem?-find_index :
    (xs : List Bytes) (k i : ℕ) (s : Bytes)
    → AreNames xs
    → get_elem? xs k ≡ some s
    → find_index s xs i ≡ some (i + k)
unfolding find_index
get_elem?-find_index [] k i s h e = cc
get_elem?-find_index (x ∷ xs) zero i s h e = ground (arith, bytes_eq_iff x s)
get_elem?-find_index (x ∷ xs) (suc k) i s h e = ground (
  arith,
  bytes_eq_iff x s,
  All-get_elem? x xs k s h.1 e,
  get_elem?-find_index xs k (suc i) s h.2 e,
)

-- The name of a key's index is the key, in lower case.
name-index :
    (values : List Bytes) (key : Bytes) (v : ℤ)
    → index values key ≡ ok v
    → name values v ≡ ok (to_lower key)
unfolding index name
name-index values [] v e = ground arith
name-index values (c ∷ key) v e = by_index (find_index (to_lower (c ∷ key)) values 0) refl
  where
    by_index :
        (o : Option ℕ)
        → find_index (to_lower (c ∷ key)) values 0 ≡ o
        → name values v ≡ ok (to_lower (c ∷ key))
    by_index none f = ground arith
    by_index (some j) f =
        let (k, at_j, found) = find_index-get_elem? (to_lower (c ∷ key)) values 0 j f in
        let same : j ≡ k = omega arith in ground arith

-- The index of a name's spelling is the index.
index-name :
    (values : List Bytes) (v : ℤ) (s : Bytes)
    → AreNames values
    → name values v ≡ ok s
    → index values s ≡ ok v
unfolding index name
index-name values (negsuc zero) s h e = ground arith
index-name values (negsuc (suc i)) s h e = ground arith
index-name values (pos i) s h e = by_elem (get_elem? values i) refl
  where
    by_elem : (o : Option Bytes) → get_elem? values i ≡ o → index values s ≡ ok (pos i)
    by_elem none f = ground arith
    by_elem (some t) f =
        let names = get_elem?-IsName values i t h f in
        ground (arith, get_elem?-find_index values i 0 t h f)

-- The three enumerations, and their functions.
pub data Enumeration : Type 0 where
  interpolation level_indeterminate time_indeterminate : Enumeration

abbrev pub type_in : Enumeration → Bytes → Outcome ℤ
type_in interpolation = interpolation_type_in
type_in level_indeterminate = level_indeterminate_type_in
type_in time_indeterminate = time_indeterminate_type_in

abbrev pub type_out : Enumeration → ℤ → Outcome Bytes
type_out interpolation = interpolation_type_out
type_out level_indeterminate = level_indeterminate_type_out
type_out time_indeterminate = time_indeterminate_type_out

-- What the input function of an enumeration accepts, its output function prints in lower case.
type_out-type_in :
    (e : Enumeration) (s : Bytes) (v : ℤ) → type_in e s ≡ ok v → type_out e v ≡ ok (to_lower s)
unfolding interpolation_type_in interpolation_type_out level_indeterminate_type_in
    level_indeterminate_type_out time_indeterminate_type_in time_indeterminate_type_out catch_as
type_out-type_in interpolation s v h = rw (name-index interpol_types s v (catch_as-eq-ok _ _ h))
type_out-type_in level_indeterminate s v h =
    rw (name-index level_indet_types s v (catch_as-eq-ok _ _ h))
type_out-type_in time_indeterminate s v h =
    rw (name-index time_indet_types s v (catch_as-eq-ok _ _ h))

-- What the output function prints for a value, the input function reads as that value.
pub type_in-type_out :
    (e : Enumeration) (v : ℤ) (s : Bytes) → type_out e v ≡ ok s → type_in e s ≡ ok v
unfolding interpolation_type_in interpolation_type_out level_indeterminate_type_in
    level_indeterminate_type_out time_indeterminate_type_in time_indeterminate_type_out catch_as
type_in-type_out interpolation v s h =
    rw (index-name interpol_types v s (ground arith) (catch_as-eq-ok _ _ h))
type_in-type_out level_indeterminate v s h =
    rw (index-name level_indet_types v s (ground arith) (catch_as-eq-ok _ _ h))
type_in-type_out time_indeterminate v s h =
    rw (index-name time_indet_types v s (ground arith) (catch_as-eq-ok _ _ h))
