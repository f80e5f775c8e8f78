-- ===== src/Read/Field.antt =====
-- The rows of src/callInterface/core/wciRead/getData.c, each described by itself: a row takes no cell
-- from the row before it.
use wdb.Base.{if◌then◌else◌, none, some, ◌≡◌, refl}
use mathlib.Core.Path.{fun_ext}
use wdb.Read.Store.{
  Cell, HeapTuple, GridPointData, Column, value, dataprovidername, placename, placegeometry,
  referencetime, validtimefrom, validtimeto, validtimeindeterminatecode, valueparametername,
  valueparameterunit, levelparametername, levelunitname, levelfrom, levelto, levelindeterminatecode,
  dataversion, confidencecode, storetime, valueid, valuetype, Row,
}
use wdb.Read.Rows.{Backend, common_row, point_row, float_row}

-- The row of a tuple of the float table.
abbrev pub float_field_row : HeapTuple → Row
float_field_row t value = t 1
float_field_row t placegeometry = t 4
float_field_row t placename = t 3
float_field_row t dataprovidername = t 2
float_field_row t referencetime = t 5
float_field_row t validtimefrom = t 6
float_field_row t validtimeto = t 7
float_field_row t validtimeindeterminatecode = t 8
float_field_row t valueparametername = t 9
float_field_row t valueparameterunit = t 10
float_field_row t levelparametername = t 11
float_field_row t levelunitname = t 12
float_field_row t levelfrom = t 13
float_field_row t levelto = t 14
float_field_row t levelindeterminatecode = t 15
float_field_row t dataversion = t 16
float_field_row t confidencecode = t 17
float_field_row t storetime = t 18
float_field_row t valueid = t 19
float_field_row t valuetype = t 20

module _ (e : Backend) where
  -- The row of one point of a tuple's field.
  abbrev pub field_row : HeapTuple → Cell → GridPointData → Row
  field_row t place p value = if e.is_nan p.value then none else some (e.float_datum p.value)
  field_row t place p placegeometry = elim p.location [
    | none ↦ none
    | some g ↦ some (e.wkt_datum g)
  ]
  field_row t place p placename = place
  field_row t place p dataprovidername = t 2
  field_row t place p referencetime = t 5
  field_row t place p validtimefrom = t 6
  field_row t place p validtimeto = t 7
  field_row t place p validtimeindeterminatecode = t 8
  field_row t place p valueparametername = t 9
  field_row t place p valueparameterunit = t 10
  field_row t place p levelparametername = t 11
  field_row t place p levelunitname = t 12
  field_row t place p levelfrom = t 13
  field_row t place p levelto = t 14
  field_row t place p levelindeterminatecode = t 15
  field_row t place p dataversion = t 16
  field_row t place p confidencecode = t 17
  field_row t place p storetime = t 18
  field_row t place p valueid = t 19
  field_row t place p valuetype = t 20

  point_row-common_row_at :
      (t : HeapTuple) (place : Cell) (old : Row) (p : GridPointData) (c : Column)
      → point_row e p (common_row e t place old) c ≡ field_row t place p c
  point_row-common_row_at t place old p value = refl
  point_row-common_row_at t place old p placegeometry = refl
  point_row-common_row_at t place old p placename = refl
  point_row-common_row_at t place old p dataprovidername = refl
  point_row-common_row_at t place old p referencetime = refl
  point_row-common_row_at t place old p validtimefrom = refl
  point_row-common_row_at t place old p validtimeto = refl
  point_row-common_row_at t place old p validtimeindeterminatecode = refl
  point_row-common_row_at t place old p valueparametername = refl
  point_row-common_row_at t place old p valueparameterunit = refl
  point_row-common_row_at t place old p levelparametername = refl
  point_row-common_row_at t place old p levelunitname = refl
  point_row-common_row_at t place old p levelfrom = refl
  point_row-common_row_at t place old p levelto = refl
  point_row-common_row_at t place old p levelindeterminatecode = refl
  point_row-common_row_at t place old p dataversion = refl
  point_row-common_row_at t place old p confidencecode = refl
  point_row-common_row_at t place old p storetime = refl
  point_row-common_row_at t place old p valueid = refl
  point_row-common_row_at t place old p valuetype = refl

  point_row-point_row_at :
      (p q : GridPointData) (old : Row) (c : Column)
      → point_row e q (point_row e p old) c ≡ point_row e q old c
  point_row-point_row_at p q old value = refl
  point_row-point_row_at p q old placegeometry = refl
  point_row-point_row_at p q old placename = refl
  point_row-point_row_at p q old dataprovidername = refl
  point_row-point_row_at p q old referencetime = refl
  point_row-point_row_at p q old validtimefrom = refl
  point_row-point_row_at p q old validtimeto = refl
  point_row-point_row_at p q old validtimeindeterminatecode = refl
  point_row-point_row_at p q old valueparametername = refl
  point_row-point_row_at p q old valueparameterunit = refl
  point_row-point_row_at p q old levelparametername = refl
  point_row-point_row_at p q old levelunitname = refl
  point_row-point_row_at p q old levelfrom = refl
  point_row-point_row_at p q old levelto = refl
  point_row-point_row_at p q old levelindeterminatecode = refl
  point_row-point_row_at p q old dataversion = refl
  point_row-point_row_at p q old confidencecode = refl
  point_row-point_row_at p q old storetime = refl
  point_row-point_row_at p q old valueid = refl
  point_row-point_row_at p q old valuetype = refl

  -- The row of a point, in a store with these values.
  abbrev pub row_on : Row → GridPointData → Row
  row_on old p = point_row e p old

  pub row_on-common_row :
      (t : HeapTuple) (place : Cell) (old : Row)
      → row_on (common_row e t place old) ≡ field_row t place
  row_on-common_row t place old = fun_ext (λ p. fun_ext (point_row-common_row_at t place old p))

  pub row_on-point_row : (p : GridPointData) (old : Row) → row_on (point_row e p old) ≡ row_on old
  row_on-point_row p old = fun_ext (λ q. fun_ext (point_row-point_row_at p q old))

  float_row-common_row_at :
      (t : HeapTuple) (old : Row) (c : Column)
      → float_row e t (common_row e t (t 3) old) c ≡ float_field_row t c
  float_row-common_row_at t old value = refl
  float_row-common_row_at t old placegeometry = refl
  float_row-common_row_at t old placename = refl
  float_row-common_row_at t old dataprovidername = refl
  float_row-common_row_at t old referencetime = refl
  float_row-common_row_at t old validtimefrom = refl
  float_row-common_row_at t old validtimeto = refl
  float_row-common_row_at t old validtimeindeterminatecode = refl
  float_row-common_row_at t old valueparametername = refl
  float_row-common_row_at t old valueparameterunit = refl
  float_row-common_row_at t old levelparametername = refl
  float_row-common_row_at t old levelunitname = refl
  float_row-common_row_at t old levelfrom = refl
  float_row-common_row_at t old levelto = refl
  float_row-common_row_at t old levelindeterminatecode = refl
  float_row-common_row_at t old dataversion = refl
  float_row-common_row_at t old confidencecode = refl
  float_row-common_row_at t old storetime = refl
  float_row-common_row_at t old valueid = refl
  float_row-common_row_at t old valuetype = refl

  pub float_row-common_row :
      (t : HeapTuple) (old : Row) → float_row e t (common_row e t (t 3) old) ≡ float_field_row t
  float_row-common_row t old = fun_ext (float_row-common_row_at t old)
