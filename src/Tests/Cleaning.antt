-- ===== src/Tests/Cleaning.antt =====
-- A cleaning table with a name that must not be called and a function that fails.
use wdb.Base.{
  true, List, [], ◌∷◌, ◌++◌, map, All, Bytes, codes, bytes_eq, some, ereport, internal_error,
  if◌then◌else◌, ◌≡◌, refl,
}
use wdb.Clean.{
  Spi, selected, not_selected, raised, strategies, query_of, final_cleanup, cleanupdb,
  is_valid_function_name,
}
use wdb.Clean.Trace.{IsPlain, valid_names, until_error, cleanupdb-executed}

abbrev names : List Bytes
names = codes "vacuum" ∷ codes "x(); drop table y" ∷ codes "remove_old" ∷ codes "never" ∷ []

abbrev failing : Spi
failing = record {
  Database = Unit {0};
  execute = λ query database. (
    if bytes_eq query strategies
        then selected (map some names)
        else if bytes_eq query (query_of (codes "remove_old"))
        then raised (ereport internal_error (codes "no such function"))
        else not_selected,
    database,
  );
}

table_of_names : (failing.execute strategies tt).0 ≡ selected (map some names)
unfolding bytes_eq
table_of_names = refl

-- The clean-up ends at the function that fails.
until_remove_old :
    (until_error failing
      (map query_of (valid_names names) ++ final_cleanup (codes "wdb_int") ∷ [])
      tt).0
    ≡ query_of (codes "vacuum") ∷ query_of (codes "remove_old") ∷ []
unfolding bytes_eq is_valid_function_name
until_remove_old = refl

cleanupdb-executed_example :
    ((cleanupdb failing true (codes "wdb_int") tt).1.executed
      ≡ strategies
        ∷ (until_error failing
            (map query_of (valid_names names) ++ final_cleanup (codes "wdb_int") ∷ [])
            (failing.execute strategies tt).1).0)
    × ((cleanupdb failing true (codes "wdb_int") tt).0
        ≡ (until_error failing
            (map query_of (valid_names names) ++ final_cleanup (codes "wdb_int") ∷ [])
            (failing.execute strategies tt).1).1)
    × All (All IsPlain) (valid_names names)
cleanupdb-executed_example = cleanupdb-executed failing (codes "wdb_int") tt names table_of_names
