-- ===== src/Admin/Output/Ends.antt =====
-- src/admin: the loop of the program, over the operations that it has.
use wdb.Base.{
  ℕ, zero, suc, ◌+◌, ◌-◌, Bool, true, false, ◌&&◌, List, [], ◌∷◌, ◌++◌, Bytes, bytes_eq, codes,
  is_nil, length, Option, none, some, Outcome, ok, fail, Failure, ◌≡◌, refl, arith,
}
use wdb.Admin.{is_exception}
use wdb.Admin.Words.{LineBoost}
use wdb.Admin.Words.Documents.{Documents}
use wdb.Admin.Commands.{Session}
use wdb.Admin.Transactions.{Result, Pqxx}
use wdb.Admin.Jobs.{Setup}
use wdb.Admin.Operations.{Console}
use wdb.Admin.Output
use wdb.Admin.Output.{
  Print, write, found, column_name, field_at, print_cells, print_line, print_rows, print_result,
  list_stats, additional, creation, removal, or_print, output, info,
}
use wdb.Admin.Operations.Steady.{
  Safe, bind-Safe, then-Safe, return-Safe, if-Safe, throw-Safe, Throws,
}
use wdb.Admin.Operations.Safe.{
  perform_vacuum-Safe, perform_create_user-Safe, perform_change_user-Safe, perform_drop_user-Safe,
  perform_test_clean-Safe, perform_clean-Safe, create_database-Safe, drop_database-Safe,
  list_tables-Safe, list_indexes-Safe, list_io-Safe,
}
use wdb.Admin.Loop.{Interpreter, finished, loop}
use wdb.Admin.Loop.Ends.{loop_ends}
use wdb.Admin.Loop.GoesOn.{AllSteady, left_over}

module _ (Q : Pqxx) (setup : Setup) (throws : Throws Q) where
  write-Safe : (text : Bytes) → Safe (write Q setup text)
  unfolding write
  write-Safe text = record { ends = λ c e h. cc }

  additional-Safe : (text : Bytes) → Safe (additional Q setup text)
  unfolding additional
  additional-Safe text =
      if-Safe setup.print_additional_info (write-Safe (text ++ (10 ∷ []))) (return-Safe tt)

  create_user_output-Safe :
      (user : Bytes) (a r w : Bool) → Safe (Output.create_user Q setup user a r w)
  unfolding Output.create_user
  create_user_output-Safe user a r w =
      bind-Safe ((perform_create_user-Safe Q setup throws) user _)
        (λ done. then-Safe (write-Safe _) (return-Safe done))

  change_user_output-Safe :
      (user : Bytes) (a r w : Bool) → Safe (Output.change_user Q setup user a r w)
  unfolding Output.change_user
  change_user_output-Safe user a r w =
      bind-Safe ((perform_change_user-Safe Q setup throws) user _)
        (λ done. then-Safe (write-Safe _) (return-Safe done))

  drop_user_output-Safe : (user : Bytes) → Safe (Output.drop_user Q setup user)
  unfolding Output.drop_user
  drop_user_output-Safe user =
      bind-Safe ((perform_drop_user-Safe Q setup throws) user)
        (λ done. then-Safe (write-Safe _) (return-Safe done))

  test_clean_output-Safe : Safe (Output.test_clean Q setup)
  unfolding Output.test_clean
  test_clean_output-Safe =
      bind-Safe (perform_test_clean-Safe Q setup throws)
        (λ rows. then-Safe (write-Safe _) (return-Safe true))

  vacuum_output-Safe : Safe (Output.vacuum Q setup)
  unfolding Output.vacuum
  vacuum_output-Safe = then-Safe (additional-Safe _) (
      bind-Safe (perform_clean-Safe Q setup throws) (λ rows. then-Safe (additional-Safe _) (
        then-Safe (additional-Safe _) (
          bind-Safe (perform_vacuum-Safe Q setup throws) (λ done.
            then-Safe (if-Safe done (additional-Safe _) (return-Safe tt)) (return-Safe true))))))

  found-Safe : (i : ℕ) (o : Option Bytes) → Safe (found Q setup i o)
  found-Safe i none = throw-Safe (Q.no_such_column i) (throws.columns i)
  found-Safe i (some text) = return-Safe text

  column_name-Safe : (r : Result) (i : ℕ) → Safe (column_name Q setup r i)
  unfolding column_name
  column_name-Safe r i = found-Safe i _

  field_at-Safe : (row : List (Option Bytes)) (i : ℕ) → Safe (field_at Q setup row i)
  unfolding field_at
  field_at-Safe row i = found-Safe i _

  print_cells-Safe :
      (cell : ℕ → Print Q setup Bytes)
      → ((i : ℕ) → Safe (cell i))
      → (rounds i : ℕ) → Safe (print_cells Q setup cell rounds i)
  unfolding print_cells
  print_cells-Safe cell h zero i = return-Safe tt
  print_cells-Safe cell h (suc rounds) i =
      bind-Safe (h i) (λ text. then-Safe (write-Safe _) (print_cells-Safe cell h rounds (i + 1)))

  print_line-Safe :
      (cell : ℕ → Print Q setup Bytes)
      → ((i : ℕ) → Safe (cell i))
      → (columns : ℕ) → Safe (print_line Q setup cell columns)
  unfolding print_line
  print_line-Safe cell h columns = bind-Safe (h 0) (λ text.
      then-Safe (write-Safe _) (then-Safe (print_cells-Safe cell h (columns - 1) 1) (write-Safe _)))

  print_rows-Safe :
      (columns : ℕ) (rows : List (List (Option Bytes))) → Safe (print_rows Q setup columns rows)
  unfolding print_rows
  print_rows-Safe columns [] = return-Safe tt
  print_rows-Safe columns (row ∷ rows) =
      then-Safe (print_line-Safe _ (field_at-Safe row) columns) (print_rows-Safe columns rows)

  print_result-Safe : (r : Result) → Safe (print_result Q setup r)
  unfolding print_result
  print_result-Safe r =
      then-Safe
        (if-Safe setup.print_additional_info
          (print_line-Safe _ (column_name-Safe r) (length r.columns)) (return-Safe tt))
        (then-Safe
          (if-Safe (setup.print_additional_info && is_nil r.rows) (write-Safe _)
            (print_rows-Safe (length r.columns) r.rows))
          (return-Safe true))

  list_stats-Safe : (kind : Bytes) → Safe (list_stats Q setup kind)
  unfolding list_stats
  list_stats-Safe kind =
      if-Safe (bytes_eq kind (codes "table"))
        (bind-Safe (list_tables-Safe Q setup throws) print_result-Safe)
        (if-Safe (bytes_eq kind (codes "index"))
          (bind-Safe (list_indexes-Safe Q setup throws) print_result-Safe)
          (if-Safe (bytes_eq kind (codes "io"))
            (bind-Safe (list_io-Safe Q setup throws) print_result-Safe)
            (bind-Safe (write-Safe _) (λ _. return-Safe false))))

  or_print-Safe :
      (m : Print Q setup (Unit {0}))
      → Safe m
      → (c : Console Q) (e : Failure) → (or_print Q setup (m c)).0 ≡ fail e
      → is_exception e ≡ true
  or_print-Safe m h c = ends (m c) (h.ends c)
    where
      ends :
          (p : Outcome (Unit {0}) × Console Q)
          → ((e : Failure) → p.0 ≡ fail e → is_exception e ≡ true)
          → (e : Failure) → (or_print Q setup p).0 ≡ fail e
          → is_exception e ≡ true
      ends (ok _, c') hp e q = cc
      ends (fail e', c') hp e q = let fine = hp e' refl in ground arith

  creation-Safe : (name : Bytes) → Safe (creation Q setup name)
  creation-Safe name =
      then-Safe (additional-Safe _)
        (then-Safe ((create_database-Safe Q setup throws) name) (write-Safe _))

  removal-Safe : (name : Bytes) → Safe (removal Q setup name)
  removal-Safe name = then-Safe ((drop_database-Safe Q setup throws) name) (write-Safe _)

  output-AllSteady : AllSteady (output Q setup)
  unfolding output Output.create_database Output.drop_database
  output-AllSteady = record {
    creates = λ u a r w. (create_user_output-Safe u a r w).ends;
    changes = λ u a r w. (change_user_output-Safe u a r w).ends;
    drops = λ u. (drop_user_output-Safe u).ends;
    lists = λ kind. (list_stats-Safe kind).ends;
    cleans = test_clean_output-Safe.ends;
    vacuums = vacuum_output-Safe.ends;
    creates_database = λ name. or_print-Safe (creation Q setup name) (creation-Safe name);
    drops_database = λ name. or_print-Safe (removal Q setup name) (removal-Safe name);
  }

  -- The interactive program ends, whatever is typed and whatever the server refuses, where libpqxx
  -- throws only exceptions of C++ and a count is a number: for every list of lines the loop is done
  -- within one round for each line and one more, it ends by the end of the input or a quit command,
  -- and the lines that it has not read are those behind the first whose first word is `quit` or `q`,
  -- in any case, and none if there is no such line.
  pub program_ends :
      (boost : LineBoost)
      → Documents boost
      → (lines : List Bytes) (last : Bytes) (history : List Bytes)
        (session : Session (output Q setup))
      → (i : Interpreter (output Q setup)) × (loop
            (output Q setup)
            boost
            (length lines + 1)
            (record {
              terminal = record { lines = lines; last_command = last; history = history };
              session = session;
            })
          ≡ some (finished i))
        × (i.terminal.lines ≡ left_over lines)
  program_ends boost documents lines last history session =
      loop_ends (output Q setup) output-AllSteady boost documents lines last history session
        (length lines + 1) (omega arith)
