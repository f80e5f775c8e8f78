-- ===== src/Admin/Jobs.antt =====
-- src/admin/operations/transactors: listTables.h, listIndexes.h, listIo.h, performClean.h and
-- performTestClean.h, with what the constructor of `AdminOperations` is given.
use wdb.Base.{Bool, [], ◌∷◌, ◌++◌, Bytes, codes, none, some, Outcome, fail, undefined, ℤ, ◌-ℤ◌}
use wdb.Admin.Transactions.{Result, Pqxx, Job, ◌>>=◌, ◌>>◌, return}
use wdb.Admin.Users.{execute}

-- What the constructor of `AdminOperations` is given, and the texts of the build's configuration.
pub record Setup : Type 0 where
  pub connection_text : Bytes
  pub wci_user : Bytes
  pub print_additional_info : Bool
  pub wci_schema : Bytes
  pub wdb_schema : Bytes
  pub pkglibdir : Bytes
  -- `boost::to_lower_copy`
  pub to_lower_copy : Bytes → Bytes

abbrev pub clean_statement : Bytes
clean_statement = codes "SELECT cleanupdb()"

abbrev pub count_blobs : Bytes
count_blobs = codes "SELECT count(*) FROM admin.blob_v"

abbrev pub test_clean_statement : Bytes
test_clean_statement = codes "SELECT test.cleanTestData()"

abbrev pub count_provided : Bytes
count_provided =
    codes "SELECT count(numberoftuples) FROM wci.browse( NULL::wci.browsedataprovider )"

module _ (Q : Pqxx) where
  -- `r.at(0).at(0).to(c)`; an `int` that NULL leaves as it is has no value.
  unfoldable pub first_int : Result → Outcome ℤ
  first_int r = elim r.rows [
    | [] ↦ fail (Q.no_such_row 0)
    | row ∷ rows ↦ elim row [
      | [] ↦ fail (Q.no_such_column 0)
      | field ∷ fields ↦ elim field [
        | none ↦ fail (undefined (codes "uninitialised count"))
        | some text ↦ Q.to_int text
      ]
    ]
  ]

  -- The rows that a statement takes away, by a count before it and after it.
  unfoldable pub count_around : (count statement : Bytes) → Job Q ℤ
  unfolding first_int
  count_around count statement = do
    r1 ← Q.exec count
    execute Q statement
    r2 ← Q.exec count
    c1 ← λ t. (first_int r1, t)
    c2 ← λ t. (first_int r2, t)
    return (c1 -ℤ c2)

  -- `PerformClean::operator ()`
  unfoldable pub clean_job : Job Q ℤ
  unfolding count_around
  clean_job = count_around count_blobs clean_statement

  -- `PerformTestClean::operator ()`
  unfoldable pub test_clean_job : Bytes → Job Q ℤ
  unfolding count_around
  test_clean_job wci_user = do
    execute Q (codes "SELECT wci.begin('" ++ (Q.esc wci_user ++ codes "')"))
    count_around count_provided test_clean_statement

  module _ (setup : Setup) where
    -- `ListTables::operator ()`
    unfoldable pub list_tables_job : Job Q Result
    list_tables_job = Q.exec (
        codes
          "SELECT relname, seq_scan, seq_tup_read, idx_scan, idx_tup_fetch, n_tup_ins, n_tup_upd, n_tup_del FROM pg_stat_all_tables WHERE schemaname='"
        ++ (setup.wdb_schema ++ (codes "' OR schemaname = '" ++ (setup.wci_schema ++ codes "'"))))

    -- `ListIndexes::operator ()`
    unfoldable pub list_indexes_job : Job Q Result
    list_indexes_job = Q.exec (
        codes
          "SELECT indexrelname, idx_scan, idx_tup_read, idx_tup_fetch FROM pg_stat_all_indexes WHERE schemaname='"
        ++ (setup.wci_schema ++ (codes "' OR schemaname='" ++ (setup.wdb_schema ++ codes "'"))))

    -- `ListIo::operator ()`
    unfoldable pub list_io_job : Job Q Result
    list_io_job = Q.exec (
        codes
          "SELECT relname, heap_blks_read, heap_blks_hit, idx_blks_read, idx_blks_hit, toast_blks_read, toast_blks_hit, tidx_blks_read, tidx_blks_hit FROM pg_statio_all_tables WHERE schemaname='"
        ++ (setup.wdb_schema ++ (codes "' OR schemaname='" ++ (setup.wci_schema ++ codes "';"))))
