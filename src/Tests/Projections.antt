-- ===== src/Tests/Projections.antt =====
-- Projections, places and caches of small grids.
use wdb.Base.{
  ℕ, ◌+◌, ◌==◌, List, [], ◌∷◌, length, get_elem?, codes, none, some, pos, ok, ◌≡◌, refl, arith,
}
use wdb.Blob.Store.{Storage}
use wdb.Blob.Store.Files.{write_file}
use wdb.Blob.Store.Floats.{bytes_of_floats}
use wdb.Spec.Place.{nearest}
use wdb.Read.Places.{PlaceSpecification, get_place_specification}
use wdb.Grid.Transform.{wdb_transform, r_transform}
use wdb.Grid.Kept.{IsKept, transforms-IsKept}
use wdb.Grid.Points.{Source, point_type, get_values}
use wdb.Grid.Stored.{with_storage, get_values-write_file}
use wdb.Grid.Rotate.{swap_upper_lower_orientation, get_elem?-swap_upper_lower_orientation}
use wdb.Grid.Geometry.{GridGeometry, left_lower_horizontal, upper_right}
use wdb.Grid.Corners.{points_of, places_of, point-corner}
use wdb.Grid.Geometry.{Corner, lower_left}
use wdb.Grid.Cache.{Caches, Geometries, clear}
use wdb.Grid.Remembered.{get_geometries, made_all, get_geometries-clear}
use wdb.Base.{ℤ}
use wdb.Tests.Store.{disk, var_wdb, two_files, disk-Accepts}
use wdb.Tests.Grids.{halves, plain, utm, longlat, triangle}

transforms-IsKept_example :
    ((wdb_transform halves plain longlat utm 2 4 (codes "+proj=utm" ∷ [])).0
      ≡ (wdb_transform halves plain longlat utm 2 4 []).0)
    × IsKept halves plain longlat
        (wdb_transform halves plain longlat utm 2 4 (codes "+proj=utm" ∷ [])).1
    × ((r_transform halves plain longlat utm (2, 4) (codes "+proj=utm" ∷ [])).0
        ≡ (r_transform halves plain longlat utm (2, 4) []).0)
    × IsKept halves plain longlat
        (r_transform halves plain longlat utm (2, 4) (codes "+proj=utm" ∷ [])).1
transforms-IsKept_example =
    transforms-IsKept halves plain longlat utm (codes "+proj=utm" ∷ []) 2 4 (2, 4)
      ((refl, tt), omega arith)

abbrev source : Source
source = record {
  d = halves;
  proj = plain;
  default_projection = longlat;
  geos = triangle;
  geom_type_id = λ location. point_type;
  get_geometry = λ ps x y. ok 77;
  get_exact_index = λ ps location. ok (2, 1);
  read_float_from_file = λ data_id position. ok 0;
}

abbrev square : PlaceSpecification
square = record {
  start_x_ = 0;
  start_y_ = 0;
  x_number_ = 2;
  y_number_ = 2;
  x_increment_ = 1;
  y_increment_ = 1;
  srid_ = 50000;
  proj_definition_ = codes "+proj=utm";
}

known_square :
    get_place_specification (λ placeid. ok none) (pos 3) ((pos 3, square) ∷ [])
    ≡ (ok (some square), (pos 3, square) ∷ [])
unfolding get_place_specification
known_square = refl

get_values-write_file_example :
    (s' : Storage) × (v : ℕ) × (write_file disk
        (pos 5)
        (bytes_of_floats (10 ∷ 20 ∷ 30 ∷ 40 ∷ []))
        (pos 16)
        two_files
      ≡ (ok tt, s'))
    × (get_elem? (10 ∷ 20 ∷ 30 ∷ 40 ∷ []) 3 ≡ some v)
    × (get_values
          (with_storage source disk s')
          (λ placeid. ok none)
          ((pos 3, square) ∷ [])
          (some 78)
          nearest
          (pos 1)
          (pos 3)
          (pos 5)
        ≡ (
          ok (some (record { location = some 77; value = v; x = pos 1; y = pos 1 } ∷ [])),
          (pos 3, square) ∷ [],
        ))
get_values-write_file_example =
    get_values-write_file source disk two_files var_wdb (pos 3) (pos 5) (10 ∷ 20 ∷ 30 ∷ 40 ∷ [])
      (λ placeid. ok none) ((pos 3, square) ∷ []) ((pos 3, square) ∷ []) square 78 77 1 1 2 1
      (pos 1) (omega arith, (omega arith, (omega arith, (omega arith, tt)))) (refl, refl)
      (disk-Accepts (pos 5) _) refl (omega arith) known_square refl refl refl refl refl
      (omega arith) (omega arith) refl

abbrev six : List ℕ
six = 1 ∷ 2 ∷ 3 ∷ 4 ∷ 5 ∷ 6 ∷ []

get_elem?-swap_upper_lower_orientation_example :
    (length (swap_upper_lower_orientation six 3) ≡ 6)
    × (get_elem? (swap_upper_lower_orientation six 3) 5 ≡ some 3)
    × (get_elem? (swap_upper_lower_orientation (swap_upper_lower_orientation six 3) 3) 5 ≡ some 6)
get_elem?-swap_upper_lower_orientation_example =
    get_elem?-swap_upper_lower_orientation six 3 2 2 1 refl (omega arith) (omega arith)

abbrev four_by_three : GridGeometry halves
four_by_three = record {
  orientation_ = left_lower_horizontal;
  x_number_ = 4;
  y_number_ = 3;
  x_increment_ = 2;
  y_increment_ = 2;
  start_x_ = 0;
  start_y_ = 10;
  proj_definition_ = codes "+proj=utm";
  geometry_ = [];
  corners_ = [];
}

-- A corner is asked for twice.
abbrev asked_corners : List Corner
asked_corners = upper_right ∷ lower_left ∷ upper_right ∷ []

point-corner_example :
    points_of halves plain longlat asked_corners four_by_three
    ≡ places_of halves plain longlat four_by_three asked_corners
point-corner_example =
    point-corner halves plain longlat four_by_three asked_corners (omega arith) (omega arith)
      (omega arith) refl

abbrev sums : Geometries halves
sums = record {
  same_geometry = λ a b. a == b;
  coordinates_of = λ geom. (geom, 0);
  create_point = λ p. p.0 + p.1 + 100;
}

abbrev unused : Caches halves
unused = record { cache = []; geom_to_wkt = []; projections = [] }

-- Two places that differ in the increment in y, and the first of them again.
abbrev asked : List (PlaceSpecification × ℤ × ℤ)
asked =
    (square, pos 1, pos 0)
    ∷ (record square { y_increment_ = 7 }, pos 1, pos 1)
    ∷ (square, pos 1, pos 0)
    ∷ []

get_geometries-clear_example :
    get_geometries halves plain longlat sums asked (clear unused)
    ≡ made_all halves plain longlat sums asked
get_geometries-clear_example =
    get_geometries-clear halves plain longlat sums asked unused (tt, omega arith)
