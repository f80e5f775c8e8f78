-- ===== src/Grid/Remembered.antt =====
-- The cache of src/callInterface/core/wciRead/extractGridData/GeometryCache.cpp under `getGeometry`
-- of BaseDataReader.cpp: what is kept never changes an answer.
use wdb.Base.{
  ℕ, true, List, [], ◌∷◌, Bytes, bytes_eq_iff, Option-cases, some, ℤ, Outcome, Outcome-cases, ok,
  ◌>>=◌, ◌≡◌, refl, sym, ◌∙◌, arith, inl, inr, ◌⊎◌, Bool-cases,
}
use wdb.Read.Places.{PlaceSpecification, eq_int64, eq_int64-eq}
use wdb.Grid.Doubles.{Doubles}
use wdb.Grid.Projection.{Point, Proj}
use wdb.Grid.Transform.{wdb_transform}
use wdb.Grid.Kept.{IsKept, transforms-IsKept}
use wdb.Grid.Cache.{
  same_place, Entry, Caches, Geometries, get_entry, put_entry, get_geom, get_geometry, grid_at,
  clear,
}

-- What `same_place` compares.
record AreAlike (a b : PlaceSpecification) : Type 0 where
  start_x : a.start_x_ ≡ b.start_x_
  start_y : a.start_y_ ≡ b.start_y_
  x_number : a.x_number_ ≡ b.x_number_
  y_number : a.y_number_ ≡ b.y_number_
  x_increment : a.x_increment_ ≡ b.x_increment_
  y_increment : a.y_increment_ ≡ b.y_increment_
  proj_definition : a.proj_definition_ ≡ b.proj_definition_

same_place-AreAlike : (a b : PlaceSpecification) → same_place a b ≡ true → AreAlike a b
unfolding same_place
same_place-AreAlike a b h = record {
  start_x = ground arith;
  start_y = ground arith;
  x_number = ground arith;
  y_number = ground arith;
  x_increment = ground arith;
  y_increment = ground arith;
  proj_definition = ground (arith, bytes_eq_iff a.proj_definition_ b.proj_definition_);
}

same_place-same_place :
    (a b c : PlaceSpecification)
    → same_place a b ≡ true
    → same_place a c ≡ true
    → same_place b c ≡ true
unfolding same_place
same_place-same_place a b c h k =
    let alike = same_place-AreAlike a b h in
    rw
      (
        ← alike.start_x,
        ← alike.start_y,
        ← alike.x_number,
        ← alike.y_number,
        ← alike.x_increment,
        ← alike.y_increment,
        ← alike.proj_definition,
      )
      k

module _ (d : Doubles) (proj : Proj d) (default_projection : Bytes)
    (geometries : Geometries d) where
  -- The geometry of a position that is made without a cache.
  abbrev pub made : PlaceSpecification → ℤ → ℤ → Outcome ℕ
  made ps x y =
      (wdb_transform d proj default_projection (grid_at d proj default_projection geometries ps)
        (d.of_int x) (d.of_int y) []).0
      >>= λ p. ok (geometries.create_point p)

  made-alike :
      (a b : PlaceSpecification) (x y : ℤ) → same_place a b ≡ true → made a x y ≡ made b x y
  made-alike a b x y h =
      let alike = same_place-AreAlike a b h in
      rw (alike.start_x, alike.start_y, alike.x_increment, alike.y_increment, alike.proj_definition)

  get_entry-put_entry :
      (ps q : PlaceSpecification) (entry : Entry d) (cache : List (PlaceSpecification × Entry d))
      → ((same_place ps q ≡ true)
          × (get_entry d proj default_projection geometries q
                (put_entry d proj default_projection geometries ps entry cache)
              ≡ entry))
        ⊎ (get_entry d proj default_projection geometries q
              (put_entry d proj default_projection geometries ps entry cache)
            ≡ get_entry d proj default_projection geometries q cache)
  unfolding get_entry put_entry
  get_entry-put_entry ps q entry [] = elim (Bool-cases (same_place ps q)) [
    | inl e ↦ inl (e, rw e)
    | inr e ↦ inr (rw e)
  ]
  get_entry-put_entry ps q entry ((key, old) ∷ cache) = elim (Bool-cases (same_place key ps)) [
    | inl e ↦ elim (Bool-cases (same_place key q)) [
      | inl k ↦ inl (same_place-same_place key ps q e k, rw (e, k))
      | inr k ↦ inr (rw (e, k))
    ]
    | inr e ↦ elim (Bool-cases (same_place key q)) [
      | inl k ↦ inr (rw (e, k))
      | inr k ↦ rw (e, k) (get_entry-put_entry ps q entry cache)
    ]
  ]

  -- Every geometry that is kept is the one that would be made.
  abbrev IsTrue : Caches d → Type 0
  IsTrue c =
      IsKept d proj default_projection c.projections
      × ((ps : PlaceSpecification) (x y : ℤ) (geom : ℕ)
          → get_geom d proj default_projection geometries x y
              (get_entry d proj default_projection geometries ps c.cache).lon_lat_to_geom
            ≡ some geom
          → made ps x y ≡ ok geom)

  -- A geometry that was made is added to the entry of its place.
  get_geom-added :
      (ps q : PlaceSpecification) (x y a b : ℤ) (geom found : ℕ) (c : Caches d)
      → IsTrue c
      → made ps x y ≡ ok geom
      → same_place ps q ≡ true
      → get_geom d proj default_projection geometries a b (
          ((x, y), geom)
          ∷ (get_entry d proj default_projection geometries ps c.cache).lon_lat_to_geom)
        ≡ some found
      → made q a b ≡ ok found
  unfolding get_geom
  get_geom-added ps q x y a b geom found c (kept, true_geometries) new h k =
      elim (Bool-cases (eq_int64 x a)) [
        | inl ex ↦ elim (Bool-cases (eq_int64 y b)) [
          | inl ey ↦
              let same : geom ≡ found = (let k' = rw (ex, ey) at k in cc) in
              let sx = eq_int64-eq x a ex in
              let sy = eq_int64-eq y b ey in
              sym (made-alike ps q a b h) ∙ (rw (← sx, ← sy, ← same) new)
          | inr ey ↦ sym (made-alike ps q a b h) ∙ true_geometries ps a b found (rw (ex, ey) at k)
        ]
        | inr ex ↦ sym (made-alike ps q a b h) ∙ true_geometries ps a b found (rw ex at k)
      ]

  -- The transformation in `getGeometry`.
  abbrev transformed : PlaceSpecification → ℤ → ℤ → Caches d → Outcome (Point d) × List Bytes
  transformed ps x y c =
      wdb_transform d proj default_projection (grid_at d proj default_projection geometries ps)
        (d.of_int x) (d.of_int y) c.projections

  put-IsTrue :
      (ps : PlaceSpecification) (x y : ℤ) (entry : Entry d) (c : Caches d) (kept : List Bytes)
      → IsTrue c
      → IsKept d proj default_projection kept
      → ((q : PlaceSpecification) (a b : ℤ) (found : ℕ)
          → same_place ps q ≡ true
          → get_geom d proj default_projection geometries a b entry.lon_lat_to_geom ≡ some found
          → made q a b ≡ ok found)
      → IsTrue (record c {
        cache = put_entry d proj default_projection geometries ps entry c.cache;
        projections = kept;
      })
  put-IsTrue ps x y entry c kept (_, true_geometries) h k = (
    h,
    λ q a b found e. elim (get_entry-put_entry ps q entry c.cache) [
      | inl (same, r) ↦ k q a b found same (rw r at e)
      | inr r ↦ true_geometries q a b found (rw r at e)
    ],
  )

  module _ (ps : PlaceSpecification) (x y : ℤ) (c : Caches d) (sound : IsTrue c) where
    abbrev entry_of : Entry d
    entry_of = get_entry d proj default_projection geometries ps c.cache

    -- What the transformation gives does not depend on the projections that are kept.
    transformed-made :
        (made ps x y ≡ ((transformed ps x y c).0 >>= λ p. ok (geometries.create_point p)))
        × IsKept d proj default_projection (transformed ps x y c).1
    transformed-made =
        let (same, kept, _, _) =
          transforms-IsKept d proj default_projection
            (grid_at d proj default_projection geometries ps) c.projections (d.of_int x)
            (d.of_int y) (d.of_int x, d.of_int y) sound.0 in
        (rw same, kept)

    get_geometry-made :
        ((get_geometry d proj default_projection geometries ps x y c).0 ≡ made ps x y)
        × IsTrue (get_geometry d proj default_projection geometries ps x y c).1
    unfolding get_geometry
    get_geometry-made =
        elim (Option-cases
          (get_geom d proj default_projection geometries x y entry_of.lon_lat_to_geom)) [
            | inr (geom, e) ↦
                (rw (get_geometry, e) (sym (sound.1 ps x y geom e)), rw (get_geometry, e) sound)
            | inl e ↦
                let (anew, kept) = transformed-made in
                elim (Outcome-cases (transformed ps x y c).0) [
                  | inr (f, t) ↦ (
                    rw (get_geometry, e, t, anew, t) refl,
                    rw (get_geometry, e, t)
                        (put-IsTrue ps x y entry_of c (transformed ps x y c).1 sound kept
                          (λ q a b found h k.
                            sym (made-alike ps q a b h) ∙ sound.1 ps a b found k)),
                  )
                  | inl (p, t) ↦
                      let new : made ps x y ≡ ok (geometries.create_point p) = rw t at anew in
                      (
                        rw (get_geometry, e, t, new) refl,
                        rw (get_geometry, e, t)
                            (put-IsTrue ps x y _ c (transformed ps x y c).1 sound kept
                              (λ q a b found h k.
                                get_geom-added ps q x y a b _ found c sound new h k)),
                      )
                ]
          ]

  -- Calls of `getGeometry` in a row, with the place and the position of each.
  unfoldable pub get_geometries : List (PlaceSpecification × ℤ × ℤ) → Caches d → List (Outcome ℕ)
  unfolding get_geometry
  get_geometries [] c = []
  get_geometries ((ps, x, y) ∷ calls) c =
      let (geom, c') = get_geometry d proj default_projection geometries ps x y c in
      geom ∷ get_geometries calls c'

  abbrev pub made_all : List (PlaceSpecification × ℤ × ℤ) → List (Outcome ℕ)
  made_all [] = []
  made_all ((ps, x, y) ∷ calls) = made ps x y ∷ made_all calls

  get_geometries-made :
      (calls : List (PlaceSpecification × ℤ × ℤ)) (c : Caches d)
      → IsTrue c
      → get_geometries calls c ≡ made_all calls
  unfolding get_geometries
  get_geometries-made [] c sound = refl
  get_geometries-made ((ps, x, y) ∷ calls) c sound =
      let (same, sound') = get_geometry-made ps x y c sound in
      let c' = (get_geometry d proj default_projection geometries ps x y c).1 in
      rw (same, get_geometries-made calls c' sound')

  clear-IsTrue : (c : Caches d) → IsKept d proj default_projection c.projections → IsTrue (clear c)
  unfolding clear get_entry get_geom
  clear-IsTrue c h = (h, λ ps x y geom e. absurd cc)

  -- After purgeAllCaches any sequence of calls of getGeometry gives the geometries that are made of
  -- the transformed positions without any cache, failed transformations included, if the kept
  -- projections are at most 513 and accepted.
  pub get_geometries-clear :
      (calls : List (PlaceSpecification × ℤ × ℤ)) (c : Caches d)
      → IsKept d proj default_projection c.projections
      → get_geometries calls (clear c) ≡ made_all calls
  get_geometries-clear calls c h = get_geometries-made calls (clear c) (clear-IsTrue c h)
