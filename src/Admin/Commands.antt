-- ===== src/Admin/Commands.antt =====
-- src/admin/ui/cmdLine/adminCommandLineInterpreter.cpp: what each command does with its words.
pub mod Asked
use wdb.Base.{
  ℕ, leb, Bool, true, false, ◌&&◌, List, [], ◌∷◌, ◌++◌, Bytes, codes, bytes_eq, to_lower, is_nil,
  Option, none, some, Outcome, ◌==◌, if◌then◌else◌,
}
use wdb.Admin.{Answer, returned, end_of_file_input, answer_of, Performer}
use wdb.Admin.Table.{
  Command, help_command, quit_command, create_user_command, change_user_command, drop_user_command,
  stats_command, test_clean_command, vacuum_command, create_database_command, drop_database_command,
  available_commands, help_text,
}

pub record Rights : Type 0 where
  pub admin : Bool
  pub read : Bool
  pub write : Bool

-- One round of the loop of `CreateUserCommand`; `none` is an invalid option.
unfoldable pub create_option : Bytes → Rights → Option Rights
create_option option r =
    if bytes_eq option (codes "admin")
    then some (record r { admin = true })
    else if bytes_eq option (codes "write")
    then some (record r { write = true })
    else if bytes_eq option (codes "noread")
    then some (record r { read = false })
    else none

-- One round of the loop of `ChangeUserCommand`.
unfoldable pub change_option : Bytes → Rights → Option Rights
change_option option r =
    if bytes_eq option (codes "admin")
    then some (record r { admin = true })
    else if bytes_eq option (codes "write")
    then some (record r { write = true })
    else if bytes_eq option (codes "read")
    then some (record r { read = true })
    else none

pub data Options : Type 0 where
  options : Rights → Options
  invalid_option : Bytes → Options

-- The loop over the options; an option is read without regard to case.
unfoldable pub read_options : (Bytes → Rights → Option Rights) → List Bytes → Rights → Options
read_options set_option [] r = options r
read_options set_option (word ∷ words) r = elim (set_option (to_lower word) r) [
  | none ↦ invalid_option word
  | some r' ↦ read_options set_option words r'
]

-- What the interpreter keeps between commands: what stands behind the performer, and the text that
-- `HelpCommand` keeps in a static variable.
pub record Session (P : Performer) : Type 0 where
  pub console : P.Console
  pub help : Bytes

abbrev pub create_user_usage : Bytes
create_user_usage = codes "Usage: createuser username [admin] [write] [noread] "

abbrev pub change_user_usage : Bytes
change_user_usage = codes "Usage: changeuser username [admin] [write] [read] "

module _ (P : Performer) where
  -- A usage or an error is printed, and the answer is `false`.
  abbrev pub refuse : Bytes → Session P → Answer × Session P
  refuse usage s = (returned false, record s { console = P.info usage s.console })

  abbrev pub perform : (P.Console → Outcome Bool × P.Console) → Session P → Answer × Session P
  perform action s =
      let (done, console) = action s.console in (answer_of done, record s { console = console })

  -- What follows the loop over the options, or the `return` in it.
  abbrev pub with_options :
      Bytes
      → (Rights → P.Console → Outcome Bool × P.Console)
      → Options
      → Session P
      → Answer × Session P
  with_options usage action (options r) s = perform (action r) s
  with_options usage action (invalid_option word) s =
      refuse usage (record s { console = P.info (codes "Invalid option: " ++ word) s.console })

  -- `CreateUserCommand`
  unfoldable pub create_user : List Bytes → Session P → Answer × Session P
  unfolding create_option read_options
  create_user [] s = refuse create_user_usage s
  create_user (name ∷ []) s = refuse create_user_usage s
  create_user (name ∷ username ∷ words) s =
      with_options create_user_usage (λ r. P.create_user username r.admin r.read r.write)
        (read_options create_option words (record { admin = false; read = true; write = false })) s

  -- `ChangeUserCommand`
  unfoldable pub change_user : List Bytes → Session P → Answer × Session P
  unfolding change_option read_options
  change_user [] s = refuse change_user_usage s
  change_user (name ∷ []) s = refuse change_user_usage s
  change_user (name ∷ username ∷ words) s =
      with_options change_user_usage (λ r. P.change_user username r.admin r.read r.write)
        (read_options change_option words (record { admin = false; read = false; write = false })) s

  -- A command of one argument, which `DropUserCommand`, `StatsCommand`, `CreateDatabaseCommand`
  -- and `DropDatabaseCommand` are.
  abbrev pub with_argument :
      Bytes
      → (Bytes → P.Console → Outcome Bool × P.Console)
      → List Bytes
      → Session P
      → Answer × Session P
  with_argument usage action (name ∷ argument ∷ []) s = perform (action argument) s
  with_argument usage action _ s = refuse usage s

  -- `DropUserCommand`
  unfoldable pub drop_user : List Bytes → Session P → Answer × Session P
  drop_user = with_argument (codes "Usage: dropuser username ") P.drop_user

  -- `StatsCommand`
  unfoldable pub stats : List Bytes → Session P → Answer × Session P
  stats =
      with_argument (codes "Usage: stats <table|index|io>") (λ kind. P.list_stats (to_lower kind))

  -- `CreateDatabaseCommand`
  unfoldable pub create_database : List Bytes → Session P → Answer × Session P
  create_database = with_argument (codes "Usage: createdb NAME") P.create_database

  -- `DropDatabaseCommand`
  unfoldable pub drop_database : List Bytes → Session P → Answer × Session P
  drop_database = with_argument (codes "Usage: dropdb NAME") P.drop_database

  abbrev pub without_arguments :
      (P.Console → Outcome Bool × P.Console) → List Bytes → Session P → Answer × Session P
  without_arguments action (name ∷ []) s = perform action s
  without_arguments action _ s = refuse (codes "No arguments required for this command") s

  -- `TestCleanCommand`
  unfoldable pub test_clean : List Bytes → Session P → Answer × Session P
  test_clean = without_arguments P.test_clean

  -- `VacuumCommand`
  unfoldable pub vacuum : List Bytes → Session P → Answer × Session P
  vacuum = without_arguments P.vacuum

  -- `HelpCommand`: the text is built once.
  unfoldable pub show_help : Session P → Answer × Session P
  unfolding help_text available_commands
  show_help s =
      let text = if is_nil s.help then help_text available_commands else s.help in
      (returned true, record { console = P.info text s.console; help = text })

  -- The call of a command through the map.
  unfoldable pub perform_command : Command → List Bytes → Session P → Answer × Session P
  unfolding create_user change_user drop_user stats create_database drop_database test_clean vacuum
      show_help
  perform_command help_command input s = show_help s
  perform_command quit_command input s = (end_of_file_input, s)
  perform_command create_user_command input s = create_user input s
  perform_command change_user_command input s = change_user input s
  perform_command drop_user_command input s = drop_user input s
  perform_command stats_command input s = stats input s
  perform_command test_clean_command input s = test_clean input s
  perform_command vacuum_command input s = vacuum input s
  perform_command create_database_command input s = create_database input s
  perform_command drop_database_command input s = drop_database input s
