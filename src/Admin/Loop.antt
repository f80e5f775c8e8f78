-- ===== src/Admin/Loop.antt =====
-- src/admin/ui/cmdLine/adminCommandLineInterpreter.cpp: `run(command)` and the loop `run()`, and
-- src/admin/main.cpp, which calls one of them. The loop takes fuel; `none` means that it ran out.
pub mod GoesOn
pub mod Ends
use wdb.Base.{
  ℕ, zero, suc, ◌+◌, Bool, true, false, List, [], ◌∷◌, ◌++◌, Bytes, codes, to_lower, is_nil, length,
  Option, none, some, Failure, undefined, message, if◌then◌else◌,
}
use wdb.Admin.{is_exception, Answer, returned, end_of_file_input, thrown, Performer}
use wdb.Admin.Table.{AvailableCommands, available_commands, find_command}
use wdb.Admin.Words.{stifled, LineBoost, Terminal, read_line}
use wdb.Admin.Commands.{Session, refuse, perform_command}

module _ (P : Performer) where
  -- `run(command)`; `front()` of an empty vector is undefined.
  unfoldable pub run : List Bytes → Session P → Answer × Session P
  run [] s = (thrown (undefined (codes "front")), s)
  run (word ∷ words) s = elim (find_command (to_lower word) available_commands) [
    | some command ↦ perform_command P command (word ∷ words) s
    | none ↦ refuse P (codes "Unrecognized command: " ++ to_lower word) s
  ]

  pub record Interpreter : Type 0 where
    pub terminal : Terminal
    pub session : Session P

  -- How the loop ends: by `EndOfFileInput`, or by what no handler takes.
  pub data Ending : Type 0 where
    finished : Interpreter → Ending
    crashed : Failure → Ending

  abbrev pub say : Bytes → Session P → Session P
  say text s = record s { console = P.info text s.console }

  -- The loop of `run()`.
  unfoldable pub loop : LineBoost → ℕ → Interpreter → Option Ending
  loop boost zero i = none
  loop boost (suc fuel) i =
      let (input, terminal) = read_line boost i.terminal in
      elim input [
        | none ↦
            some (finished (record { terminal = terminal; session = say (codes "") i.session }))
        | some command ↦ elim command [
          | [] ↦ loop boost fuel (record i { terminal = terminal })
          | word ∷ words ↦
              let (answer, session) = run (word ∷ words) i.session in
              elim answer [
                | returned done ↦
                    loop boost fuel (record { terminal = terminal; session = session })
                | end_of_file_input ↦
                    some (finished (record { terminal = terminal; session = session }))
                | thrown e ↦
                    let rest =
                      loop boost fuel
                        (record { terminal = terminal; session = say (message e) session }) in
                    if is_exception e then rest else some (crashed e)
              ]
        ]
      ]

  -- `run()`, on a terminal with the history that `read_history` reads, with a round for each line and one for the end of the input.
  unfoldable pub run_interactive : LineBoost → Interpreter → Option Ending
  unfolding loop read_line run
  run_interactive boost i = loop boost (length i.terminal.lines + 1) (record i {
    terminal = record i.terminal { history = stifled i.terminal.history };
    session = say (codes "Type <help> to get help") (
        say (codes "====================================")
          (say (codes "wdb administration") i.session));
  })

  -- The exit status of `main` with commands on the command line; `none` is a crash. The text that
  -- `main` prints of an exception on `clog` is left out.
  unfoldable pub exit_status : Answer → Option ℕ
  exit_status (returned true) = some 0
  exit_status (returned false) = some 1
  exit_status end_of_file_input = some 0
  exit_status (thrown e) = if is_exception e then some 1 else none
