-- ===== src/Grid/Kept.antt =====
-- The projections that `getWdbProjection` of src/common/projection/WdbProjection.cpp keeps, and the
-- transformations of src/callInterface/core/projTransform.cpp that go through it.
use wdb.Base.{
  ◌≤◌, ltb, true, not, List, [], ◌∷◌, length, All, Bytes, bytes_eq, bytes_eq_iff, Outcome,
  Outcome-cases, ◌>>=◌, if◌then◌else◌, ◌≡◌, refl, sym, arith, inl, inr, Bool-cases,
}
use wdb.Grid.Doubles.{Doubles}
use wdb.Grid.Projection.{
  Point, Proj, wdb_projection, transform, scale, is_metric, has_definition, get_wdb_projection,
}
use wdb.Grid.Polygon.{Grid}
use wdb.Grid.Transform.{project, on_grid, longlat_wgs84, transform_, wdb_transform, r_transform}

module _ (d : Doubles) (proj : Proj d) (default_projection : Bytes) where
  -- All kept definitions are accepted, and they are at most 513.
  abbrev pub IsKept : List Bytes → Type 0
  IsKept projections = All (λ p. proj.accepts p ≡ true) projections × (length projections ≤ 513)

  accepts-kept :
      (definition : Bytes) (projections : List Bytes)
      → All (λ p. proj.accepts p ≡ true) projections
      → has_definition definition projections ≡ true
      → proj.accepts definition ≡ true
  unfolding has_definition
  accepts-kept definition [] all h = absurd cc
  accepts-kept definition (p ∷ projections) (here, all) h =
      elim (Bool-cases (bytes_eq p definition)) [
        | inl e ↦ let same : p ≡ definition = (bytes_eq_iff p definition).0 e in rw (sym same) here
        | inr e ↦ accepts-kept definition projections all (rw e at h)
      ]

  module _ (definition : Bytes) (projections : List Bytes) (kept : IsKept projections) where
    abbrev shortened : List Bytes
    shortened = if ltb 512 (length projections) then [] else projections

    shortened-All : All (λ p. proj.accepts p ≡ true) shortened
    shortened-All = elim (Bool-cases (ltb 512 (length projections))) [
      | inl h ↦ rw h tt
      | inr h ↦ rw h kept.0
    ]

    length-shortened : length shortened ≤ 512
    length-shortened = elim (Bool-cases (ltb 512 (length projections))) [
      | inl h ↦ rw h (omega arith)
      | inr h ↦ rw h (ground arith)
    ]

    -- A projection is as if it were made anew.
    pub get_wdb_projection-IsKept :
        (kept' : List Bytes) × (get_wdb_projection proj default_projection definition projections
          ≡ (wdb_projection d proj default_projection definition, kept'))
        × IsKept kept'
    unfolding get_wdb_projection wdb_projection
    get_wdb_projection-IsKept = elim (Bool-cases (has_definition definition projections)) [
      | inl h ↦ (projections, rw (h, accepts-kept definition projections kept.0 h) refl, kept)
      | inr h ↦ elim (Bool-cases (proj.accepts definition)) [
        | inl a ↦ (
          definition ∷ shortened,
          rw (h, a) refl,
          ((a, shortened-All), omega (arith, length-shortened)),
        )
        | inr a ↦ (shortened, rw (h, a) refl, (shortened-All, omega (arith, length-shortened)))
      ]
    ]

  -- Two projections, and the transformation between them, without the projections that are kept.
  abbrev made_anew : Bytes → Bytes → List (Point d) → Outcome (List (Point d))
  made_anew from to points = wdb_projection d proj default_projection from >>= λ f.
      wdb_projection d proj default_projection to >>= λ t.
      transform d proj default_projection f t points

  module _ (grid : Grid d) (projections : List Bytes) (kept : IsKept projections) where
    project-IsKept :
        (from to : Bytes) (points : List (Point d))
        → (kept' : List Bytes) × (project d proj default_projection grid from to points projections
            ≡ (made_anew from to points, kept'))
          × IsKept kept'
    project-IsKept from to points =
        let (kept1, e1, sound1) = get_wdb_projection-IsKept from projections kept in
        let (kept2, e2, sound2) = get_wdb_projection-IsKept to kept1 sound1 in
        elim (Outcome-cases (wdb_projection d proj default_projection from)) [
          | inr (f, h) ↦ (kept1, rw (project, e1, h, e1) refl, sound1)
          | inl (p, h) ↦ (kept2, rw (project, e1, h, ◌>>=◌, e1, e2) refl, sound2)
        ]

-- Whatever projections are kept, if all of them are accepted and there are at most 513, then the
-- same holds after a transformation of a grid position to longitude and latitude or back, and the
-- results of both are those without any projection kept.
pub transforms-IsKept :
    (d : Doubles) (proj : Proj d) (default_projection : Bytes) (grid : Grid d)
    (projections : List Bytes) (i j : d.Double) (coords : Point d)
    → IsKept d proj default_projection projections
    → ((wdb_transform d proj default_projection grid i j projections).0
        ≡ (wdb_transform d proj default_projection grid i j []).0)
      × IsKept d proj default_projection
          (wdb_transform d proj default_projection grid i j projections).1
      × ((r_transform d proj default_projection grid coords projections).0
          ≡ (r_transform d proj default_projection grid coords []).0)
      × IsKept d proj default_projection
          (r_transform d proj default_projection grid coords projections).1
unfolding wdb_transform transform_ r_transform
transforms-IsKept d proj default_projection grid projections i j coords kept =
    let none_kept : IsKept d proj default_projection [] = (tt, omega arith) in
    let p = on_grid d proj default_projection grid i j in
    let points =
      if not (is_metric grid.proj_definition)
      then scale d proj default_projection d.deg_to_rad p ∷ []
      else p ∷ [] in
    let radians = scale d proj default_projection d.deg_to_rad coords ∷ [] in
    let (_, e1, s1) =
      project-IsKept d proj default_projection grid projections kept grid.proj_definition
        longlat_wgs84 points in
    let (_, e2, s2) =
      project-IsKept d proj default_projection grid [] none_kept grid.proj_definition longlat_wgs84
        points in
    let (_, e3, s3) =
      project-IsKept d proj default_projection grid projections kept longlat_wgs84
        grid.proj_definition radians in
    let (_, e4, s4) =
      project-IsKept d proj default_projection grid [] none_kept longlat_wgs84 grid.proj_definition
        radians in
    (rw (e1, e2) refl, rw e1 s1, rw (e3, e4) refl, rw e3 s3)
