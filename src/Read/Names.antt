-- ===== src/Read/Names.antt =====
-- The map of the geometries of places by name, of src/callInterface/core/wciRead/ReadStore.cpp.
use wdb.Base.{
  List, [], ◌∷◌, map, Bytes, bytes_eq_iff, Option, some, Option-cases, All, ◌≡◌, refl, inl, inr,
  arith,
}
use wdb.Read.Store.{known_location, geometry_from_location}

-- The answers of `geometryFromLocation` over a history of names.
unfoldable pub look_up :
    (Bytes → Option Bytes) → List Bytes → List (Bytes × Bytes) → List (Option Bytes)
look_up database [] names = []
look_up database (name ∷ rest) names =
    let (wkt, names') = geometry_from_location database name names in
    wkt ∷ look_up database rest names'

module _ (database : Bytes → Option Bytes) where
  abbrev Sound : List (Bytes × Bytes) → Type 0
  Sound = All (λ p. database p.0 ≡ some p.1)

  known_location-Sound :
      (name : Bytes) (names : List (Bytes × Bytes)) (wkt : Bytes)
      → Sound names
      → known_location name names ≡ some wkt
      → database name ≡ some wkt
  unfolding known_location
  known_location-Sound name [] wkt h e = cc
  known_location-Sound name ((n, w) ∷ names) wkt h e =
      ground (arith, bytes_eq_iff n name, known_location-Sound name names wkt h.1)

  geometry_from_location-Sound :
      (name : Bytes) (names : List (Bytes × Bytes))
      → Sound names
      → ((geometry_from_location database name names).0 ≡ database name)
        × Sound (geometry_from_location database name names).1
  unfolding geometry_from_location
  geometry_from_location-Sound name names h = elim (Option-cases (known_location name names)) [
    | inr (wkt, e) ↦
        rw (known_location-Sound name names wkt h e) (rw (e, geometry_from_location) (refl, h))
    | inl e ↦ elim (Option-cases (database name)) [
      | inl d ↦ rw (e, geometry_from_location) (rw d (refl, h))
      | inr (wkt, d) ↦ rw (e, geometry_from_location) (rw d (refl, (d, h)))
    ]
  ]

  look_up_lem :
      (asked : List Bytes) (names : List (Bytes × Bytes))
      → Sound names
      → look_up database asked names ≡ map database asked
  unfolding look_up
  look_up_lem [] names h = refl
  look_up_lem (name ∷ rest) names h =
      let (same, sound) = geometry_from_location-Sound name names h in
      rw (same, look_up_lem rest (geometry_from_location database name names).1 sound) refl

-- Over any history of names, from an empty map, each name is answered as the database answers it,
-- known or not.
look_up-database :
    (database : Bytes → Option Bytes) (asked : List Bytes)
    → look_up database asked [] ≡ map database asked
look_up-database database asked = look_up_lem database asked [] tt
