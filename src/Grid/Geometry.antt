-- ===== src/Grid/Geometry.antt =====
-- src/common/projection/GridGeometry.cpp: the corners and the outline of a grid. Logging is left
-- out.
use wdb.Base.{
  ℕ, ◌+◌, ◌-◌, ◌%◌, ◌^◌, Bool, true, false, not, ◌||◌, List, [], ◌∷◌, ◌++◌, Bytes, codes, is_nil,
  has_text, Option, none, some, ℤ, pos, Outcome, ok, fail, ◌>>=◌, if◌then◌else◌, undefined,
}
use wdb.Grid.{to_int, x_from_index, y_from_index, index_from_xy}
use wdb.Grid.Doubles.{Doubles}
use wdb.Grid.Projection.{Point, Proj, wdb_projection, transform, scale, is_metric}
use wdb.Grid.Transform.{round_decimals}

pub data Orientation : Type 0 where
  left_upper_horizontal left_lower_horizontal : Orientation

pub data Corner : Type 0 where
  upper_left upper_right lower_left lower_right : Corner

abbrev pub same_orientation : Orientation → Orientation → Bool
same_orientation left_upper_horizontal left_upper_horizontal = true
same_orientation left_lower_horizontal left_lower_horizontal = true
same_orientation _ _ = false

abbrev pub same_corner : Corner → Corner → Bool
same_corner upper_left upper_left = true
same_corner upper_right upper_right = true
same_corner lower_left lower_left = true
same_corner lower_right lower_right = true
same_corner _ _ = false

-- `geometry_` and `corners_` are filled when they are first asked for.
pub record GridGeometry (d : Doubles) : Type 0 where
  pub orientation_ : Orientation
  pub x_number_ : ℕ
  pub y_number_ : ℕ
  pub x_increment_ : d.Double
  pub y_increment_ : d.Double
  pub start_x_ : d.Double
  pub start_y_ : d.Double
  pub proj_definition_ : Bytes
  pub geometry_ : Bytes
  pub corners_ : List (Corner × Point d)

-- `number - 1` of an `unsigned`, as an `int`.
abbrev pub last : ℕ → ℤ
last number = to_int ((number + (2 ^ 32 - 1)) % 2 ^ 32)

-- `isRotated`, of the definition.
unfoldable pub is_rotated : Bytes → Bool
is_rotated definition =
    has_text (codes "+lon_0=") definition || has_text (codes "+o_lat_p=") definition

module _ (d : Doubles) (proj : Proj d) (default_projection : Bytes) where
  open d use {Double, add, neg, mul, of_int, deg_to_rad, rad_to_deg, show}

  -- `getIndex`
  unfoldable pub get_index : Corner → GridGeometry d → ℤ
  get_index upper_left g = index_from_xy (pos 0) (last g.y_number_) g.x_number_
  get_index upper_right g = index_from_xy (last g.x_number_) (last g.y_number_) g.x_number_
  get_index lower_left g = index_from_xy (pos 0) (pos 0) g.x_number_
  get_index lower_right g = index_from_xy (last g.x_number_) (pos 0) g.x_number_

  abbrev unprojected_lon_lat : GridGeometry d → Point d → Point d
  unprojected_lon_lat g p =
      let q : Point d =
        (add g.start_x_ (mul p.0 g.x_increment_), add g.start_y_ (mul p.1 g.y_increment_)) in
      if not (is_metric g.proj_definition_) then scale d proj default_projection deg_to_rad q else q

  abbrev rounded_degrees : List (Point d) → Outcome (Point d)
  rounded_degrees [] = fail (undefined (codes "no point"))
  rounded_degrees (p ∷ more) =
      ok (round_decimals d (mul p.0 rad_to_deg) 4, round_decimals d (mul p.1 rad_to_deg) 4)

  -- `project_`
  unfoldable pub project_ : GridGeometry d → Point d → Outcome (Point d)
  unfolding wdb_projection transform round_decimals
  project_ g p = wdb_projection d proj default_projection default_projection >>= λ target.
      wdb_projection d proj default_projection g.proj_definition_ >>= λ projection.
      transform d proj default_projection projection target (p ∷ []) >>= rounded_degrees

  -- `lonLatFromIndex`, for positions that are not negative.
  unfoldable pub lon_lat_from_index : GridGeometry d → ℤ → ℤ → Outcome (Point d)
  lon_lat_from_index g x y = project_ g (unprojected_lon_lat g (of_int x, of_int y))

  unfoldable pub find_corner : Corner → List (Corner × Point d) → Option (Point d)
  find_corner c [] = none
  find_corner c ((k, p) ∷ corners) = if same_corner k c then some p else find_corner c corners

  -- `point`, with the grid behind the call.
  unfoldable pub point : Corner → GridGeometry d → Outcome (Point d × GridGeometry d)
  point c g = elim (find_corner c g.corners_) [
    | some p ↦ ok (p, g)
    | none ↦
        let index = get_index c g in
        lon_lat_from_index g (x_from_index index g.x_number_) (y_from_index index g.x_number_)
        >>= λ p. ok (p, record g { corners_ = (c, p) ∷ g.corners_ })
  ]

  abbrev show_point : Point d → Bytes
  show_point p = show p.0 ++ codes " " ++ show p.1

  -- `operator <<`
  unfoldable pub outline : GridGeometry d → Outcome (Bytes × GridGeometry d)
  unfolding point
  outline g = point lower_left g >>= λ (first, g1). point lower_right g1 >>= λ (right, g2).
      point upper_right g2 >>= λ (opposite, g3). point upper_left g3 >>= λ (left, g4). ok (
        codes "("
            ++ show_point first
            ++ codes ","
            ++ show_point right
            ++ codes ","
            ++ show_point opposite
            ++ codes ","
            ++ show_point left
            ++ codes ","
            ++ show_point first
            ++ codes ")",
        g4,
      )

  unfoldable pub wkt_representation : GridGeometry d → Outcome (Bytes × GridGeometry d)
  unfolding outline
  wkt_representation g =
      if is_nil g.geometry_
      then (outline g >>= λ (text, g').
          let wkt = codes "POLYGON(" ++ text ++ codes ")" in
          ok (wkt, record g' { geometry_ = wkt }))
      else ok (g.geometry_, g)

  -- `setOrientation`: both orientations are handled, so that it never throws.
  unfoldable pub set_orientation : Orientation → GridGeometry d → GridGeometry d
  set_orientation o g = if same_orientation o g.orientation_ then g else record g {
    orientation_ = o;
    start_y_ =
        add g.start_y_ (mul g.y_increment_ (of_int (pos ((g.y_number_ + (2 ^ 32 - 1)) % 2 ^ 32))));
    y_increment_ = neg g.y_increment_;
  }
