-- ===== src/Admin/Table.antt =====
-- src/admin/ui/cmdLine/adminCommandLineInterpreter.cpp: the commands, the map from their names, in
-- the order of `std::map`, and the help text.
pub mod Find
use wdb.Base.{
  ℕ, ltb, leb, Bool, true, false, not, ◌&&◌, List, [], ◌∷◌, ◌++◌, Bytes, codes, bytes_eq, length,
  Option, none, some, ◌==◌, if◌then◌else◌,
}

pub data Command : Type 0 where
  help_command quit_command create_user_command change_user_command drop_user_command : Command
  stats_command test_clean_command vacuum_command : Command
  create_database_command drop_database_command : Command

-- `help()` of each command
abbrev pub help_help : Bytes
help_help = codes "Display this help"

abbrev pub quit_help : Bytes
quit_help = codes "Quit program"

abbrev pub create_user_help : Bytes
create_user_help = codes "Create WDB User (usage: createuser username [admin] [write] [noread])"

abbrev pub change_user_help : Bytes
change_user_help =
    codes "Change WDB user attributes (usage: changeuser username [admin] [write] [noread])"

abbrev pub drop_user_help : Bytes
drop_user_help = codes "Delete WDB User (usage: dropuser username)"

abbrev pub stats_help : Bytes
stats_help = codes "Display database stats (usage: stats <table|index|io>)"

abbrev pub test_clean_help : Bytes
test_clean_help = codes "Clean the database of all test data (usage: testClean)"

abbrev pub vacuum_help : Bytes
vacuum_help = codes "Vacuum the database (usage: vacuum)"

abbrev pub create_database_help : Bytes
create_database_help = codes "Create a new wdb database instance. (Usage: createdb NAME)"

abbrev pub drop_database_help : Bytes
drop_database_help = codes "Drop a wdb database instance. (Usage: dropdb NAME)"

unfoldable pub help : Command → Bytes
help help_command = help_help
help quit_command = quit_help
help create_user_command = create_user_help
help change_user_command = change_user_help
help drop_user_command = drop_user_help
help stats_command = stats_help
help test_clean_command = test_clean_help
help vacuum_command = vacuum_help
help create_database_command = create_database_help
help drop_database_command = drop_database_help

-- `operator <` of `std::string`
unfoldable pub bytes_lt : Bytes → Bytes → Bool
bytes_lt a [] = false
bytes_lt [] (y ∷ ys) = true
bytes_lt (x ∷ xs) (y ∷ ys) = let rest = bytes_lt xs ys in if x == y then rest else ltb x y

abbrev pub AvailableCommands : Type 0
AvailableCommands = List (Bytes × Command)

-- `commands[name] = command` on a `std::map`
unfoldable pub set_command : Bytes → Command → AvailableCommands → AvailableCommands
unfolding bytes_lt bytes_eq
set_command name command [] = (name, command) ∷ []
set_command name command ((key, c) ∷ commands) =
    let rest = set_command name command commands in
    if bytes_eq name key
    then (name, command) ∷ commands
    else if bytes_lt name key
    then (name, command) ∷ (key, c) ∷ commands
    else (key, c) ∷ rest

-- `commands.find(name)`
unfoldable pub find_command : Bytes → AvailableCommands → Option Command
find_command name [] = none
find_command name ((key, c) ∷ commands) =
    if bytes_eq name key then some c else find_command name commands

abbrev pub set_commands : AvailableCommands → AvailableCommands → AvailableCommands
set_commands [] commands = commands
set_commands ((name, command) ∷ more) commands =
    set_commands more (set_command name command commands)

abbrev pub assignments : AvailableCommands
assignments =
    (codes "help", help_command)
    ∷ (codes "?", help_command)
    ∷ (codes "quit", quit_command)
    ∷ (codes "q", quit_command)
    ∷ (codes "createuser", create_user_command)
    ∷ (codes "changeuser", change_user_command)
    ∷ (codes "dropuser", drop_user_command)
    ∷ (codes "stats", stats_command)
    ∷ (codes "testclean", test_clean_command)
    ∷ (codes "vacuum", vacuum_command)
    ∷ (codes "createdb", create_database_command)
    ∷ (codes "dropdb", drop_database_command)
    ∷ []

-- What the constructor of `AdminCommandLineInterpreter` makes.
unfoldable pub available_commands : AvailableCommands
unfolding set_command
available_commands = set_commands assignments []

-- `printHelp`
unfoldable pub print_help : Bytes → Command → Bytes
unfolding help
print_help name command =
    name ++ ((if ltb (length name) 8 then 9 ∷ [] else []) ++ (9 ∷ codes "  " ++ help command))

abbrev pub is_listed : Bytes → Bool
is_listed name =
    ltb 1 (length name)
    && (not (bytes_eq name (codes "help")) && not (bytes_eq name (codes "quit")))

abbrev pub help_lines : AvailableCommands → Bytes
help_lines [] = []
help_lines ((name, command) ∷ commands) =
    let rest = help_lines commands in
    if is_listed name then print_help name command ++ (10 ∷ rest) else rest

-- The text that `HelpCommand` builds; 10 is the end of a line.
unfoldable pub help_text : AvailableCommands → Bytes
unfolding print_help find_command bytes_eq
help_text commands =
    codes "Available functions"
    ++ (10
        ∷ (help_lines commands ++ elim (find_command (codes "quit") commands) [
          | none ↦ []
          | some command ↦ print_help (codes "quit") command ++ (10 ∷ [])
        ]))
