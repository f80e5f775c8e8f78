-- ===== src/Query/Build.antt =====
-- src/callInterface/core/wciRead/query/buildQuery.cpp: the statement for a call of wci.read or of a
-- browse function.
pub mod Specs
pub mod Steps
pub mod Reads
pub mod Total
use wdb.Base.{
  Bool, true, false, List, [], ◌∷◌, ◌++◌, Bytes, codes, if◌then◌else◌, Option, none, some, ℤ,
  show_ℤ, Outcome, ok, fail, ◌>>=◌, catch_as, data_exception,
}
use wdb.Spec.Place.{parse_location}
use wdb.Query.Externals.{Externals}
use wdb.Query.Builder.{Builder, empty, what, from, order_by, group_by, str}
use wdb.Query.Time.{add_reference_time_query, add_valid_time_query}
use wdb.Query.Select.{
  add_data_provider_query, add_parameter_query, add_level_query, add_data_version_query,
}
use wdb.Query.Location.{add_float_table_query, add_grid_table_query}

pub data DataSource : Type 0 where
  float_table grid_table : DataSource

pub data OutputType : Type 0 where
  output_float output_gid : OutputType

-- `struct WciReadParameterCollection`; `none` is a null pointer.
pub record WciReadParameterCollection : Type 0 where
  pub data_provider : Option (List Bytes)
  pub location : Option Bytes
  pub reference_time : Option Bytes
  pub valid_time : Option Bytes
  pub parameter : Option (List Bytes)
  pub level : Option Bytes
  pub data_version : Option (List ℤ)

-- `addLocationQuery`. The handler there reports `InvalidSpecification`, the only exception that
-- the constructor of `Location` throws.
unfoldable pub add_location_query :
    Externals → Option Bytes → DataSource → OutputType → Builder → Outcome Builder
add_location_query x none source output b = ok b
add_location_query x (some location) source output b =
    catch_as data_exception (parse_location x.grammar location) >>= λ loc. elim source [
      | float_table ↦ add_float_table_query x.wci_schema loc b
      | grid_table ↦ elim output [
        | output_gid ↦ ok (add_grid_table_query x.wci_schema loc b)
        | output_float ↦ ok b
      ]
    ]

-- The conditions of the parameters, in the order of the calls in `build_query`.
unfoldable pub add_parameters :
    Externals → WciReadParameterCollection → DataSource → OutputType → Builder → Outcome Builder
add_parameters x p source output b = add_data_provider_query x p.data_provider b >>= λ b.
    add_reference_time_query x.time_regex p.reference_time b >>= λ b.
    add_valid_time_query x.time_regex p.valid_time b >>= λ b.
    add_parameter_query x.boost p.parameter b >>= λ b. add_level_query x p.level b >>= λ b.
    add_location_query x p.location source output (add_data_version_query p.data_version b)

abbrev pub source_table : DataSource → Bytes
source_table float_table = codes ".floatvalue_v v"
source_table grid_table = codes ".gridvalue_v v"

abbrev pub if_given : (Bytes → Builder → Builder) → Option Bytes → Builder → Builder
if_given add none b = b
if_given add (some text) b = add text b

-- The body of `build_query`'s `try` block.
unfoldable pub build :
    Externals
    → Option WciReadParameterCollection
    → DataSource
    → OutputType
    → Bytes
    → Option Bytes
    → Option Bytes
    → Outcome Bytes
build x parameters source output select_what ordering groupby =
    let start = what select_what (from (x.wci_schema ++ source_table source) empty) in
    elim parameters [ none ↦ ok start | some p ↦ add_parameters x p source output start ] >>= λ b.
    str (if_given group_by groupby (if_given order_by ordering b))

-- `build_query`
unfoldable pub build_query :
    Externals
    → Option WciReadParameterCollection
    → DataSource
    → OutputType
    → Bytes
    → Option Bytes
    → Option Bytes
    → Outcome Bytes
unfolding build
build_query x parameters source output select_what ordering groupby =
    catch_as data_exception (build x parameters source output select_what ordering groupby)

-- `build_placeSpecQuery`
unfoldable pub build_place_spec_query : Bytes → ℤ → Bytes
build_place_spec_query schema placeid =
    codes
      "SELECT startx, starty, numberx, numbery, incrementx, incrementy, originalsrid, projdefinition FROM "
    ++ (schema ++ (codes ".placeregulargrid_mv WHERE placeid=" ++ show_ℤ placeid))

-- `build_placeNameQuery`
unfoldable pub build_place_name_query : Bytes → Bytes → Bytes
build_place_name_query schema place_name =
    codes "SELECT st_astext(placegeometry) FROM "
    ++ (schema
        ++ (codes ".placedefinition_mv p, "
            ++ (schema
                ++ (codes
                      ".getSessionData() s WHERE p.placenamespaceid = s.placenamespaceid AND placename ILIKE '"
                    ++ (place_name ++ codes "'")))))
