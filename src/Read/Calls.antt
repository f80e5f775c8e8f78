-- ===== src/Read/Calls.antt =====
-- src/callInterface/core/wciRead/{wciReadFloat.c,wciReadGid.c}: the set-returning functions, one call
-- at a time. The executor calls them again until they answer that they are done. SPI is a parameter:
-- `execute` runs a query, with an error where the source raises one.
use wdb.Base.{
  ℕ, zero, suc, ◌+◌, Bool, true, false, List, [], ◌∷◌, Bytes, codes, get_elem?, Option, none, some,
  Outcome, ok, fail, ◌>>=◌, ereport, internal_error,
}
use mathlib.Core.Option
use wdb.Query.Collection.{Arguments, parse_read_parameters}
use wdb.Query.Externals.{Externals}
use wdb.Query.Build.{build_query, float_table, grid_table, output_float, output_gid}
use wdb.Read.Store.{
  HeapTuple, ReadStore, returning_from_float_table, returning_from_grid_table, float_return_init,
  grid_return_init, Row,
}
use wdb.Read.Rows.{Backend, get_next_row_from_float_table, get_next_row_from_grid_table}

abbrev pub what_float : Bytes
what_float =
    codes
      "value::float, dataprovidername, placename::text, st_astext(placegeometry), referencetime, validtimefrom, validtimeto, validtimeindeterminatecode, valueparametername, valueunitname, levelparametername, levelunitname, levelfrom, levelto, levelindeterminatecode, dataversion, confidencecode, valuestoretime, valueid, valuetype"

abbrev pub what_grid : Bytes
what_grid =
    codes
      "value, dataprovidername, placename::text, placegeometry, referencetime, validtimefrom, validtimeto, validtimeindeterminatecode, valueparametername, valueunitname, levelparametername, levelunitname, levelfrom, levelto, levelindeterminatecode, dataversion, confidencecode, valuestoretime, valueid, valuetype, placeid"

abbrev pub what_gid : Bytes
what_gid =
    codes
      "value, dataprovidername, placename::text, st_astext(placegeometry), referencetime, validtimefrom, validtimeto, validtimeindeterminatecode, valueparametername, valueunitname, levelparametername, levelunitname, levelfrom, levelto, levelindeterminatecode, dataversion, confidencecode, valuestoretime, valueid, valuetype"

-- What a session's calls use: the query functions' parameters, SPI, GEOS and the names of places.
pub record Server : Type 0 where
  pub externals : Externals
  pub execute : Bytes → Outcome (List HeapTuple)
  pub geom_from_wkt : Bytes → Option ℕ
  pub named_geometry : Bytes → Option Bytes
  pub backend : Backend

module _ (v : Server) where
  -- `runWciReadFloatQueryFloat`
  unfoldable pub run_wci_read_float_query_float : Arguments → ReadStore → Outcome ReadStore
  run_wci_read_float_query_float a s = parse_read_parameters a >>= λ p.
      build_query v.externals (some p) float_table output_float what_float none none >>= λ query.
      v.execute query >>= λ tuples. ok (record s { tuples = tuples })

  -- `runWciReadFloatQueryGrid`
  unfoldable pub run_wci_read_float_query_grid : Arguments → ReadStore → Outcome ReadStore
  run_wci_read_float_query_grid a s = parse_read_parameters a >>= λ p.
      build_query v.externals (some p) grid_table output_float what_grid none none >>= λ query.
      v.execute query >>= λ tuples.
      grid_return_init v.externals.grammar v.geom_from_wkt v.named_geometry tuples a.location s

  -- The first call of `wciReadFloat`, up to its first row.
  unfoldable pub wci_read_float_init : Arguments → Outcome ReadStore
  unfolding run_wci_read_float_query_float
  wci_read_float_init a = run_wci_read_float_query_float a float_return_init

  abbrev pub from_grid : ReadStore → Outcome (Bool × ReadStore)
  from_grid s = elim s.return_mode [
    | returning_from_grid_table ↦ get_next_row_from_grid_table v.backend s
    | returning_from_float_table ↦
        fail (ereport internal_error (codes "Code flow reached an unexpected point: "))
  ]

  -- What every call of `wciReadFloat` does after `SRF_PERCALL_SETUP`: whether it returns a row, the
  -- store's `values`, or is done.
  unfoldable pub wci_read_float : Arguments → ReadStore → Outcome (Bool × ReadStore)
  unfolding run_wci_read_float_query_grid
  wci_read_float a s = elim s.return_mode [
    | returning_from_grid_table ↦ from_grid s
    | returning_from_float_table ↦ get_next_row_from_float_table v.backend s >>= λ r. elim r.0 [
      | true ↦ ok r
      | false ↦ run_wci_read_float_query_grid a r.1 >>= from_grid
    ]
  ]

  -- The rows of the first `n` calls, where the last of them says that it is done; `none` where it
  -- does not.
  unfoldable pub collect : ℕ → Arguments → ReadStore → Outcome (Option (List Row))
  unfolding wci_read_float
  collect zero a s = ok none
  collect (suc n) a s = wci_read_float a s >>= λ r. elim r.0 [
    | false ↦ ok (some [])
    | true ↦ collect n a r.1 >>= λ rows. ok (Option.map (λ rest. r.1.values ∷ rest) rows)
  ]

  -- `runWciReadGidBaseQuery`
  unfoldable pub run_wci_read_gid_base_query : Arguments → ReadStore → Outcome ReadStore
  run_wci_read_gid_base_query a s = parse_read_parameters a >>= λ p.
      build_query v.externals (some p) grid_table output_gid what_gid none none >>= λ query.
      v.execute query >>= λ tuples. ok (record s {
        tuples = tuples;
        current_tuple_index = 0;
        return_mode = returning_from_grid_table;
      })

  -- A call of `wciReadGid` after `SRF_PERCALL_SETUP`: the tuple, or that it is done.
  unfoldable pub wci_read_gid : ReadStore → Option HeapTuple × ReadStore
  wci_read_gid s = elim (get_elem? s.tuples s.current_tuple_index) [
    | none ↦ (none, s)
    | some tuple ↦ (some tuple, record s { current_tuple_index = s.current_tuple_index + 1 })
  ]
