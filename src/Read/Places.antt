-- ===== src/Read/Places.antt =====
-- src/callInterface/core/wciRead/getPlaceSpecification.c: grids and geometries of places from the
-- database, and the hash table that keeps the grids. `SPI_execute` is a parameter, which takes the
-- query and the greatest number of rows, with `none` where it does not answer SPI_OK_SELECT.
use wdb.Base.{
  ℕ, List, [], ◌∷◌, map, Bytes, codes, Option, none, some, Option-cases, Outcome, ok, fail,
  Outcome-cases, ereport, data_exception, null_dereference, ℤ, pos, negsuc, Bool, true, false, ◌==◌,
  if◌then◌else◌, All, ◌≡◌, refl, inl, inr, arith, ap,
}
use wdb.Query.Build.{build_place_spec_query, build_place_name_query}
use wdb.Read.Store.{Datum, Cell, HeapTuple}

-- The numbers are the words of the cells: widening a `float` of a cell to a `double` loses nothing.
pub record PlaceSpecification : Type 0 where
  pub start_x_ : ℕ
  pub start_y_ : ℕ
  pub x_number_ : ℕ
  pub y_number_ : ℕ
  pub x_increment_ : ℕ
  pub y_increment_ : ℕ
  pub srid_ : ℕ
  pub proj_definition_ : Bytes

-- The word under a NULL is 0.
abbrev word : Cell → ℕ
word none = 0
word (some d) = d

module _ (schema : Bytes) (execute : Bytes → ℕ → Option (List HeapTuple))
    (cell_text : Datum → Bytes) where
  -- The specification in a row. A NULL projection is passed to `strdup`.
  abbrev place_of_row : HeapTuple → Outcome (Option PlaceSpecification)
  place_of_row row = elim (row 8) [
    | none ↦ fail null_dereference
    | some d ↦ ok (
        some (record {
          start_x_ = word (row 1);
          start_y_ = word (row 2);
          x_number_ = word (row 3);
          y_number_ = word (row 4);
          x_increment_ = word (row 5);
          y_increment_ = word (row 6);
          srid_ = word (row 7);
          proj_definition_ = cell_text d;
        }))
  ]

  unfoldable pub get_place_specification_from_database : ℤ → Outcome (Option PlaceSpecification)
  get_place_specification_from_database placeid =
      elim (execute (build_place_spec_query schema placeid) 1) [
        | none ↦ fail (ereport data_exception (codes "Error when performing placeid query"))
        | some [] ↦ ok none
        | some (row ∷ []) ↦ place_of_row row
        | some (row ∷ second ∷ rows) ↦
            fail (ereport data_exception (codes "too many placespecifications returned!"))
      ]

  -- `getNamedGeometryAsWKT`; a NULL geometry is a null pointer, as if no place had the name.
  unfoldable pub get_named_geometry_as_wkt : Bytes → Outcome (Option Bytes)
  get_named_geometry_as_wkt location_name =
      elim (execute (build_place_name_query schema location_name) 1) [
        | none ↦ fail (ereport data_exception (codes "Error when performing placename query"))
        | some [] ↦ ok none
        | some (row ∷ []) ↦ ok (elim (row 1) [ none ↦ none | some d ↦ some (cell_text d) ])
        | some (row ∷ second ∷ rows) ↦
            fail (ereport data_exception (codes "too many place names returned!"))
      ]

-- `eq_int64`
unfoldable pub eq_int64 : ℤ → ℤ → Bool
eq_int64 (pos a) (pos b) = a == b
eq_int64 (pos a) (negsuc b) = false
eq_int64 (negsuc a) (pos b) = false
eq_int64 (negsuc a) (negsuc b) = a == b

abbrev Table : Type 0
Table = List (ℤ × PlaceSpecification)

-- `g_hash_table_lookup(psList, &placeid)`
unfoldable pub find_place : ℤ → Table → Option PlaceSpecification
unfolding eq_int64
find_place placeid [] = none
find_place placeid ((key, ps) ∷ table) =
    if eq_int64 key placeid then some ps else find_place placeid table

-- `getPlaceSpecification`, over `getPlaceSpecificationFromDatabase`: its result, and the table
-- behind the call, also where the call raises an error.
unfoldable pub get_place_specification :
    (ℤ → Outcome (Option PlaceSpecification))
    → ℤ
    → Table
    → Outcome (Option PlaceSpecification) × Table
unfolding find_place
get_place_specification database placeid table = elim (find_place placeid table) [
  | some ps ↦ (ok (some ps), table)
  | none ↦ elim (database placeid) [
    | fail e ↦ (fail e, table)
    | ok none ↦ (ok none, table)
    | ok (some ps) ↦ (ok (some ps), (placeid, ps) ∷ table)
  ]
]

-- The results of a history of calls.
unfoldable pub place_results :
    (ℤ → Outcome (Option PlaceSpecification))
    → List ℤ
    → Table
    → List (Outcome (Option PlaceSpecification))
place_results database [] table = []
place_results database (placeid ∷ rest) table =
    let (result, table') = get_place_specification database placeid table in
    result ∷ place_results database rest table'

pub eq_int64-eq : (a b : ℤ) → eq_int64 a b ≡ true → a ≡ b
unfolding eq_int64
eq_int64-eq (pos a) (pos b) h = ap pos (ground arith)
eq_int64-eq (pos a) (negsuc b) h = cc
eq_int64-eq (negsuc a) (pos b) h = cc
eq_int64-eq (negsuc a) (negsuc b) h = ap negsuc (ground arith)

module _ (database : ℤ → Outcome (Option PlaceSpecification)) where
  abbrev Sound : Table → Type 0
  Sound = All (λ p. database p.0 ≡ ok (some p.1))

  find_place-Sound :
      (placeid : ℤ) (table : Table) (ps : PlaceSpecification)
      → Sound table
      → find_place placeid table ≡ some ps
      → database placeid ≡ ok (some ps)
  unfolding find_place
  find_place-Sound placeid [] ps h e = cc
  find_place-Sound placeid ((key, p) ∷ table) ps h e =
      ground (arith, eq_int64-eq key placeid, find_place-Sound placeid table ps h.1)

  get_place_specification-Sound :
      (placeid : ℤ) (table : Table)
      → Sound table
      → ((get_place_specification database placeid table).0 ≡ database placeid)
        × Sound (get_place_specification database placeid table).1
  unfolding get_place_specification
  get_place_specification-Sound placeid table h = elim (Option-cases (find_place placeid table)) [
    | inr (ps, e) ↦
        rw (find_place-Sound placeid table ps h e) (rw (e, get_place_specification) (refl, h))
    | inl e ↦ elim (Outcome-cases (database placeid)) [
      | inr (f, d) ↦ rw (e, get_place_specification) (rw d (refl, h))
      | inl (none, d) ↦ rw (e, get_place_specification) (rw d (refl, h))
      | inl (some ps, d) ↦ rw (e, get_place_specification) (rw d (refl, (d, h)))
    ]
  ]

  place_results_lem :
      (ids : List ℤ) (table : Table)
      → Sound table
      → place_results database ids table ≡ map database ids
  unfolding place_results
  place_results_lem [] table h = refl
  place_results_lem (placeid ∷ rest) table h =
      let (same, sound) = get_place_specification-Sound placeid table h in
      rw (same, place_results_lem rest (get_place_specification database placeid table).1 sound)
        refl

-- Over any history of calls, from an empty table, each place is answered as the database answers it,
-- whether with a specification, with none, or with an error.
pub place_results-database :
    (database : ℤ → Outcome (Option PlaceSpecification)) (ids : List ℤ)
    → place_results database ids [] ≡ map database ids
place_results-database database ids = place_results_lem database ids [] tt
