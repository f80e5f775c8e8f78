-- ===== src/Grid/Fields.antt =====
-- A field on a grid in its file: BaseDataReader.cpp of
-- src/callInterface/core/wciRead/extractGridData over `readFloatFromFile` of
-- src/blob/fileblobImpl.cpp.
use wdb.Base.{
  ℕ, zero, suc, ◌+◌, ◌*◌, ◌<◌, ◌≤◌, false, List, [], ◌∷◌, length, All, get_elem?, Bytes, some, ℤ,
  pos, Outcome, ok, ◌>>=◌, ◌≡◌, refl, arith, leb,
}
use wdb.Blob.{path_of}
use wdb.Blob.Store.{Storage, Environment, IsReady}
use wdb.Blob.Store.Files.{write_file, read_float_from_file}
use wdb.Blob.Store.ReadBack.{Accepts}
use wdb.Blob.Store.Floats.{bytes_of_floats, value_at, read_float_from_file-write_file}
use wdb.Grid.{GridReader, read_point}
use wdb.Grid.Index.{index_from_xy-pos}

-- The reader of a place of this size, in this state of the storage.
abbrev pub base_data_reader : Environment → Storage → ℕ → ℕ → (ℤ → ℤ → Outcome ℕ) → GridReader
base_data_reader env s x_number y_number get_geometry = record {
  x_number = x_number;
  y_number = y_number;
  get_geometry = get_geometry;
  read_float_from_file = λ data_id position. (read_float_from_file env data_id position s).0;
}

get_elem?-below :
    (values : List ℕ) (i : ℕ) → i < length values → (v : ℕ) × (get_elem? values i ≡ some v)
get_elem?-below [] i h = absurd (omega arith)
get_elem?-below (v ∷ values) zero h = (v, refl)
get_elem?-below (v ∷ values) (suc i) h = get_elem?-below values i (omega arith)

position_below :
    (x y x_number y_number : ℕ)
    → x < x_number
    → y < y_number
    → y * x_number + x < x_number * y_number
position_below x y x_number y_number p q = grind arith

not_outside : (x n : ℕ) → x < n → leb n x ≡ false
not_outside x n h = ground arith

-- A field of x_number * y_number floats, at most 2^31, is written row by row to a storage that is
-- ready, where the operating system accepts it. Then reading a position inside the grid, at which
-- the geometry is found, gives a point with the value number y * x_number + x of the field.
pub read_point-write_file :
    (env : Environment) (s : Storage) (base : Bytes) (data_id : ℤ) (values : List ℕ)
    (x_number y_number : ℕ) (get_geometry : ℤ → ℤ → Outcome ℕ) (x y location : ℕ)
    → All (λ v. v < 4294967296) values
    → IsReady s base
    → Accepts env (path_of base data_id) (bytes_of_floats values)
    → length values ≡ x_number * y_number
    → x_number * y_number ≤ 2147483648
    → x < x_number
    → y < y_number
    → get_geometry (pos x) (pos y) ≡ ok location
    → (s' : Storage) × (v : ℕ) × (write_file env data_id
          (bytes_of_floats values)
          (pos (length (bytes_of_floats values)))
          s
        ≡ (ok tt, s'))
      × (get_elem? values (y * x_number + x) ≡ some v)
      × (read_point (base_data_reader env s' x_number y_number get_geometry) (pos x) (pos y) data_id
          ≡ ok (some (record { location = some location; value = v; x = pos x; y = pos y })))
unfolding read_point
read_point-write_file env s base data_id values x_number y_number get_geometry x y location floats
      ready accepts size small p q located =
    let (s', writes, reads) =
      read_float_from_file-write_file env s base data_id values floats ready accepts in
    let below = position_below x y x_number y_number p q in
    let (v, found) = get_elem?-below values (y * x_number + x) (omega arith) in
    (
      s',
      v,
      writes,
      found,
      rw
          (
            not_outside x x_number p,
            not_outside y y_number q,
            located,
            ◌>>=◌,
            index_from_xy-pos x y x_number y_number p q small,
            reads (pos (y * x_number + x)),
            value_at,
            found,
          )
          refl,
    )
