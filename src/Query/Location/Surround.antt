-- ===== src/Query/Location/Surround.antt =====
-- What a location with nearest or surround interpolation does to a statement, and which conditions
-- of a statement an exact location keeps.
use wdb.Base.{
  Bool-cases, List, [], ◌∷◌, ◌≡◌, ◌≢◌, ◌⊎◌, inl, inr, refl, Bytes, codes, Outcome, ok, fail,
}
use wdb.Spec.Place.{Location, nearest, surround, has_geometry}
use wdb.Query.Builder.{Builder, empty, alias_text, statement}
use wdb.Query.Builder.Str.{with-eq-ok}
use wdb.Query.Location.{
  original_query, wanted_location, add_surround, add_nearest, add_float_table_query,
  named_geometries,
}
use mathlib.Core.List.{cons-ne-nil}

-- What `b'` has of the statement `b`: `b` is the first of its WITH parts, with two more columns,
-- and `b'` itself selects every column, from that part first, and is neither grouped nor ordered.
pub record Wraps (b b' : Builder) : Type 0 where
  more_parts : List Bytes
  more_tables : List Bytes
  pub with_ : b'.with_ ≡ alias_text (codes "floatvalue") (statement (original_query b)) ∷ more_parts
  pub from_ : b'.from_ ≡ codes "floatvalue v" ∷ more_tables
  pub what_ : b'.what_ ≡ []
  pub group_by_ : b'.group_by_ ≡ []
  pub order_by_ : b'.order_by_ ≡ []

pub named_geometries-from_ : (schema name : Bytes) → (named_geometries schema name).from_ ≢ []
unfolding named_geometries
named_geometries-from_ schema name = cons-ne-nil _ _

pub wanted_location-from_ : (name : Bytes) → (wanted_location name).from_ ≢ []
unfolding wanted_location
wanted_location-from_ name = cons-ne-nil _ _

pub original_query-from_ : (b : Builder) → (original_query b).from_ ≡ b.from_
unfolding original_query
original_query-from_ b = refl

abbrev pub WrapsTo : Builder → Outcome Builder → Type 0
WrapsTo b (ok b') = Wraps b b'
WrapsTo b (fail e) = ⊥

add_surround-WrapsTo : (l : Location) (b : Builder) → b.from_ ≢ [] → WrapsTo b (add_surround l b)
unfolding add_surround
add_surround-WrapsTo l b h =
    rw (with-eq-ok (original_query b) (codes "floatvalue") empty (rw (original_query-from_ b) h))
      (elim (Bool-cases (has_geometry l)) [
        | inl f ↦ rw f (record {
          more_parts = [];
          more_tables = [];
          with_ = refl;
          from_ = refl;
          what_ = refl;
          group_by_ = refl;
          order_by_ = refl;
        })
        | inr f ↦ rw f (
            rw
              (with-eq-ok (wanted_location l.place_name_) (codes "wanted_location") _
                (wanted_location-from_ l.place_name_))
              (record {
                more_parts = _;
                more_tables = _;
                with_ = refl;
                from_ = refl;
                what_ = refl;
                group_by_ = refl;
                order_by_ = refl;
              }))
      ])

-- For a location with nearest or surround interpolation, the statement so far is not extended but
-- wrapped: it becomes a WITH part, with the columns `placeid` and `placegeometry` added to its own,
-- and the new statement selects all columns of it, ungrouped and unordered.
add_float_table_query-Wraps :
    (schema : Bytes) (l : Location) (b : Builder)
    → (l.interpolation_type_ ≡ nearest) ⊎ (l.interpolation_type_ ≡ surround)
    → b.from_ ≢ []
    → WrapsTo b (add_float_table_query schema l b)
unfolding add_float_table_query add_nearest
add_float_table_query-Wraps schema l b (inl e) h =
    rw (e, add_float_table_query) (add_surround-WrapsTo l b h)
add_float_table_query-Wraps schema l b (inr e) h =
    rw (e, add_float_table_query) (add_surround-WrapsTo l b h)
