-- ===== src/Grid/Stored.antt =====
-- From the write of a field to the rows of a query: fileblobImpl.cpp of src/blob, and getData.c,
-- readPoints.cpp and the readers of src/callInterface/core/wciRead.
use wdb.Base.{
  ℕ, ◌+◌, ◌*◌, ◌<◌, ◌≤◌, true, List, [], ◌∷◌, length, All, get_elem?, Bytes, Option, some, ℤ, pos,
  Outcome, ok, ◌>>=◌, ◌≡◌, refl,
}
use wdb.Blob.{path_of}
use wdb.Blob.Store.{Storage, Environment, IsReady}
use wdb.Blob.Store.Files.{write_file, read_float_from_file}
use wdb.Blob.Store.ReadBack.{Accepts}
use wdb.Blob.Store.Floats.{bytes_of_floats}
use wdb.Spec.Place.{nearest}
use wdb.Read.Places.{PlaceSpecification, get_place_specification}
use wdb.Grid.Fields.{read_point-write_file}
use wdb.Grid.Single.{round}
use wdb.Grid.Points.{Source, point_type, reader_of, get_values}

-- The source with the files of a storage.
abbrev pub with_storage : Source → Environment → Storage → Source
with_storage source env s = record source {
  read_float_from_file = λ data_id position. (read_float_from_file env data_id position s).0;
}

-- A field of less than 2^31 + 1 floats is written to a storage that is ready, where the operating
-- system accepts it. Then `getValues`, with `nearest` interpolation at a point whose exact position
-- in the grid of a known place rounds to x and y inside the grid, gives one point: at the
-- geometry of this position, with the value number y * x_number + x of the field.
pub get_values-write_file :
    (source : Source) (env : Environment) (s : Storage) (base : Bytes) (placeid data_id : ℤ)
    (values : List ℕ) (database : ℤ → Outcome (Option PlaceSpecification))
    (table table' : List (ℤ × PlaceSpecification)) (ps : PlaceSpecification)
    (location geometry x y : ℕ) (exact_x exact_y : source.d.Double) (interpolation_param : ℤ)
    → All (λ v. v < 4294967296) values
    → IsReady s base
    → Accepts env (path_of base data_id) (bytes_of_floats values)
    → length values ≡ ps.x_number_ * ps.y_number_
    → ps.x_number_ * ps.y_number_ ≤ 2147483648
    → get_place_specification database placeid table ≡ (ok (some ps), table')
    → source.proj.accepts ps.proj_definition_ ≡ true
    → source.geom_type_id location ≡ point_type
    → source.get_exact_index ps location ≡ ok (exact_x, exact_y)
    → round source.d (reader_of source ps) exact_x ≡ pos x
    → round source.d (reader_of source ps) exact_y ≡ pos y
    → x < ps.x_number_
    → y < ps.y_number_
    → source.get_geometry ps (pos x) (pos y) ≡ ok geometry
    → (s' : Storage) × (v : ℕ) × (write_file env data_id
          (bytes_of_floats values)
          (pos (length (bytes_of_floats values)))
          s
        ≡ (ok tt, s'))
      × (get_elem? values (y * ps.x_number_ + x) ≡ some v)
      × (get_values
            (with_storage source env s')
            database
            table
            (some location)
            nearest
            interpolation_param
            placeid
            data_id
          ≡ (
            ok (some (record { location = some geometry; value = v; x = pos x; y = pos y } ∷ [])),
            table',
          ))
unfolding get_values
get_values-write_file source env s base placeid data_id values database table table' ps location
      geometry x y exact_x exact_y interpolation_param floats ready accepts size small place
      accepted kind at at_x at_y in_x in_y located =
    let (s', v, writes, found, reads) =
      read_point-write_file env s base data_id values ps.x_number_ ps.y_number_
        (source.get_geometry ps) x y geometry floats ready accepts size small in_x in_y located in
    (s', v, writes, found, rw (place, ◌>>=◌, accepted, kind, at, at_x, at_y, reads) refl)
