-- ===== src/Query/Browse.antt =====
-- src/callInterface/core/wciBrowse.c: the statements of the browse functions. `x` holds the
-- parameters of the query model, `a` the arguments of the call.
use wdb.Base.{Bytes, codes, none, some, Option, Outcome, ◌>>=◌}
use wdb.Query.Externals.{Externals}
use wdb.Query.Build.{
  DataSource, float_table, grid_table, OutputType, output_float, output_gid, build_query,
}
use wdb.Query.Collection.{Arguments, parse_read_parameters}

-- What the functions have in common: the arguments are read, and the statement is built.
unfoldable pub browse :
    DataSource
    → OutputType
    → Bytes
    → Option Bytes
    → Option Bytes
    → Externals
    → Arguments
    → Outcome Bytes
browse source output select_what ordering groupby x a = parse_read_parameters a >>= λ p.
    build_query x (some p) source output select_what ordering groupby

unfoldable pub browse_data_provider_query : Externals → Arguments → Outcome Bytes
browse_data_provider_query =
    browse grid_table output_gid
      (codes "dataprovidername, min(referencetime), max(referencetime), count(*)") none
      (some (codes "dataprovidername"))

unfoldable pub browse_place_query : Externals → Arguments → Outcome Bytes
browse_place_query =
    browse grid_table output_gid
      (codes "placename, min(referencetime), max(referencetime), count(*)") none
      (some (codes "placename"))

unfoldable pub browse_reference_time_query : Externals → Arguments → Outcome Bytes
browse_reference_time_query =
    browse grid_table output_gid (codes "referencetime, count(*)") none
      (some (codes "referencetime"))

unfoldable pub browse_valid_time_query : Externals → Arguments → Outcome Bytes
browse_valid_time_query =
    browse grid_table output_gid (codes "validtimefrom, validtimeto, count(*)") none
      (some (codes "validtimefrom, validtimeto"))

unfoldable pub browse_value_parameter_query : Externals → Arguments → Outcome Bytes
browse_value_parameter_query =
    browse grid_table output_gid (codes "valueparametername, valueunitname, count(*)") none
      (some (codes "valueparametername, valueunitname"))

unfoldable pub browse_level_parameter_query : Externals → Arguments → Outcome Bytes
browse_level_parameter_query =
    browse grid_table output_gid
      (codes "levelparametername, levelunitname, min(levelfrom), max(levelto), count(*)") none
      (some (codes "levelparametername, levelunitname"))

unfoldable pub browse_data_version_query : Externals → Arguments → Outcome Bytes
browse_data_version_query =
    browse grid_table output_gid (codes "dataversion, count(*)") (some (codes "1"))
      (some (codes "1"))

unfoldable pub browse_data_provider_query_grid : Externals → Arguments → Outcome Bytes
browse_data_provider_query_grid =
    browse grid_table output_gid
      (codes "dataprovidername, min(referencetime), max(referencetime), count(*)") none
      (some (codes "dataprovidername"))

unfoldable pub browse_place_query_grid : Externals → Arguments → Outcome Bytes
browse_place_query_grid =
    browse grid_table output_gid
      (codes "placename, min(referencetime), max(referencetime), count(*)") none
      (some (codes "placename"))

unfoldable pub browse_reference_time_query_grid : Externals → Arguments → Outcome Bytes
browse_reference_time_query_grid =
    browse grid_table output_gid (codes "referencetime, count(*)") none
      (some (codes "referencetime"))

unfoldable pub browse_valid_time_query_grid : Externals → Arguments → Outcome Bytes
browse_valid_time_query_grid =
    browse grid_table output_gid (codes "validtimefrom, validtimeto, count(*)") none
      (some (codes "validtimefrom, validtimeto"))

unfoldable pub browse_value_parameter_query_grid : Externals → Arguments → Outcome Bytes
browse_value_parameter_query_grid =
    browse grid_table output_gid (codes "valueparametername, valueunitname, count(*)") none
      (some (codes "valueparametername, valueunitname"))

unfoldable pub browse_level_parameter_query_grid : Externals → Arguments → Outcome Bytes
browse_level_parameter_query_grid =
    browse grid_table output_gid
      (codes "levelparametername, levelunitname, min(levelfrom), max(levelto), count(*)") none
      (some (codes "levelparametername, levelunitname"))

unfoldable pub browse_data_version_query_grid : Externals → Arguments → Outcome Bytes
browse_data_version_query_grid =
    browse grid_table output_gid (codes "dataversion, count(*)") (some (codes "1"))
      (some (codes "1"))

unfoldable pub browse_data_provider_query_float : Externals → Arguments → Outcome Bytes
browse_data_provider_query_float =
    browse float_table output_float
      (codes "dataprovidername, min(referencetime), max(referencetime), count(*)") none
      (some (codes "dataprovidername"))

unfoldable pub browse_place_query_float : Externals → Arguments → Outcome Bytes
browse_place_query_float =
    browse float_table output_float
      (codes "placename, min(referencetime), max(referencetime), count(*)") none
      (some (codes "placename"))

unfoldable pub browse_reference_time_query_float : Externals → Arguments → Outcome Bytes
browse_reference_time_query_float =
    browse float_table output_float (codes "referencetime, count(*)") none
      (some (codes "referencetime"))

unfoldable pub browse_valid_time_query_float : Externals → Arguments → Outcome Bytes
browse_valid_time_query_float =
    browse float_table output_float (codes "validtimefrom, validtimeto, count(*)") none
      (some (codes "validtimefrom, validtimeto"))

unfoldable pub browse_value_parameter_query_float : Externals → Arguments → Outcome Bytes
browse_value_parameter_query_float =
    browse float_table output_float (codes "valueparametername, valueunitname, count(*)") none
      (some (codes "valueparametername, valueunitname"))

unfoldable pub browse_level_parameter_query_float : Externals → Arguments → Outcome Bytes
browse_level_parameter_query_float =
    browse float_table output_float
      (codes "levelparametername, levelunitname, min(levelfrom), max(levelto), count(*)") none
      (some (codes "levelparametername, levelunitname"))

unfoldable pub browse_data_version_query_float : Externals → Arguments → Outcome Bytes
browse_data_version_query_float =
    browse float_table output_float (codes "dataversion, count(*)") (some (codes "1"))
      (some (codes "1"))

-- The functions, by what they list and by the table that they read.
pub data Browse : Type 0 where
  data_provider_query place_query reference_time_query : Browse
  valid_time_query value_parameter_query level_parameter_query : Browse
  data_version_query data_provider_query_grid place_query_grid : Browse
  reference_time_query_grid valid_time_query_grid value_parameter_query_grid : Browse
  level_parameter_query_grid data_version_query_grid data_provider_query_float : Browse
  place_query_float reference_time_query_float valid_time_query_float : Browse
  value_parameter_query_float level_parameter_query_float data_version_query_float : Browse

abbrev pub browse_query : Browse → Externals → Arguments → Outcome Bytes
browse_query data_provider_query = browse_data_provider_query
browse_query place_query = browse_place_query
browse_query reference_time_query = browse_reference_time_query
browse_query valid_time_query = browse_valid_time_query
browse_query value_parameter_query = browse_value_parameter_query
browse_query level_parameter_query = browse_level_parameter_query
browse_query data_version_query = browse_data_version_query
browse_query data_provider_query_grid = browse_data_provider_query_grid
browse_query place_query_grid = browse_place_query_grid
browse_query reference_time_query_grid = browse_reference_time_query_grid
browse_query valid_time_query_grid = browse_valid_time_query_grid
browse_query value_parameter_query_grid = browse_value_parameter_query_grid
browse_query level_parameter_query_grid = browse_level_parameter_query_grid
browse_query data_version_query_grid = browse_data_version_query_grid
browse_query data_provider_query_float = browse_data_provider_query_float
browse_query place_query_float = browse_place_query_float
browse_query reference_time_query_float = browse_reference_time_query_float
browse_query valid_time_query_float = browse_valid_time_query_float
browse_query value_parameter_query_float = browse_value_parameter_query_float
browse_query level_parameter_query_float = browse_level_parameter_query_float
browse_query data_version_query_float = browse_data_version_query_float
