-- ===== src/Grid/Projection.antt =====
-- src/common/projection/WdbProjection.{h,cpp}: projections of points. The PROJ library is a
-- parameter.
use wdb.Base.{
  zero, suc, ltb, Bool, false, not, ◌||◌, List, [], ◌∷◌, ◌++◌, map, length, Bytes, codes, bytes_eq,
  has_text, ℤ, pos, negsuc, Outcome, ok, fail, runtime_error, ◌>>=◌, if◌then◌else◌, ◌==◌,
}
use wdb.Grid.Doubles.{Doubles}

-- Longitude and latitude, or x and y.
abbrev pub Point : Doubles → Type 0
Point d = d.Double × d.Double

pub record Proj (d : Doubles) : Type 0 where
  -- `pj_init_plus` accepts a definition
  pub accepts : Bytes → Bool
  -- `pj_transform` from one definition to another: the error, and the points behind the call
  pub pj_transform : Bytes → Bytes → List (Point d) → ℤ × List (Point d)
  pub pj_strerrno : ℤ → Bytes

-- DEFAULT_PROJECTION is a text of the build's configuration.
module _ (d : Doubles) (proj : Proj d) (default_projection : Bytes) where
  open d use {Double, mul, deg_to_rad, rad_to_deg, huge_val, show}

  -- The constructor: a projection is its text.
  unfoldable pub wdb_projection : Bytes → Outcome Bytes
  wdb_projection definition =
      if proj.accepts definition
      then ok definition
      else fail (runtime_error (codes "Invalid PROJ definition: " ++ definition))

  abbrev coordinates : List (Point d) → Bytes
  coordinates [] = []
  coordinates (p ∷ points) = codes "\nCoordinates: " ++ show p.0 ++ codes " " ++ show p.1

  abbrev failed : ℤ → Bytes → Bytes → List (Point d) → Outcome (List (Point d))
  failed error from dest points = fail (
      runtime_error (
        codes "Error during reprojection: "
        ++ proj.pj_strerrno error
        ++ codes ".\nFrom:\t"
        ++ from
        ++ codes "\nTo:\t"
        ++ dest
        ++ coordinates points))

  -- The end of `transform`, by the error.
  abbrev after_transform : ℤ → Bytes → Bytes → List (Point d) → Outcome (List (Point d))
  after_transform (pos zero) from dest points = ok points
  after_transform (pos (suc n)) from dest points = failed (pos (suc n)) from dest points
  after_transform (negsuc n) from dest points =
      if n == 13
      then ok (map (λ p. (huge_val, huge_val)) points)
      else failed (negsuc n) from dest points

  unfoldable pub transform : Bytes → Bytes → List (Point d) → Outcome (List (Point d))
  transform from dest points =
      let (error, points') = proj.pj_transform from dest points in
      after_transform error from dest points'

  unfoldable pub transform_to_default : Bytes → List (Point d) → Outcome (List (Point d))
  unfolding wdb_projection transform
  transform_to_default self points =
      wdb_projection default_projection >>= λ dest. transform self dest points

  unfoldable pub transform_from_default : Bytes → List (Point d) → Outcome (List (Point d))
  unfolding wdb_projection transform
  transform_from_default self points =
      wdb_projection default_projection >>= λ dest. transform dest self points

  abbrev pub scale : Double → Point d → Point d
  scale factor p = (mul p.0 factor, mul p.1 factor)

-- `isMetric`
abbrev pub is_metric : Bytes → Bool
is_metric definition = not (has_text (codes "longlat") definition)

-- The map of `getWdbProjection` is the list of its definitions: a projection is made from its
-- definition alone.
unfoldable pub has_definition : Bytes → List Bytes → Bool
has_definition definition [] = false
has_definition definition (p ∷ projections) =
    bytes_eq p definition || has_definition definition projections

unfoldable pub get_wdb_projection :
    {d : Doubles} → Proj d → Bytes → Bytes → List Bytes → Outcome Bytes × List Bytes
unfolding wdb_projection has_definition
get_wdb_projection {d} proj default_projection definition projections =
    if has_definition definition projections
    then (ok definition, projections)
    else let kept = if ltb 512 (length projections) then [] else projections in
      elim (wdb_projection d proj default_projection definition) [
        | ok p ↦ (ok p, p ∷ kept)
        | fail e ↦ (fail e, kept)
      ]
