-- ===== src/Admin/Table/Find.antt =====
-- src/admin/ui/cmdLine/adminCommandLineInterpreter.cpp: which command a name finds.
use wdb.Base.{true, Bytes, codes, bytes_eq, bytes_eq_iff, some, ◌≡◌, ◌↔◌, ◌⊎◌, inl, inr, arith}
use wdb.Admin.Table.{quit_command, find_command, available_commands}

finds :
    (name : Bytes)
    → find_command name available_commands ≡ some quit_command
    → (bytes_eq name (codes "quit") ≡ true) ⊎ (bytes_eq name (codes "q") ≡ true)
unfolding find_command available_commands
finds name h = ground arith

-- A name finds the quit command exactly when it is `quit` or `q`.
pub find_command-quit :
    (name : Bytes)
    → (find_command name available_commands ≡ some quit_command)
      ↔ ((bytes_eq name (codes "quit") ≡ true) ⊎ (bytes_eq name (codes "q") ≡ true))
unfolding find_command available_commands bytes_eq
find_command-quit name = (
  finds name,
  λ h. elim h [
    | inl e ↦ rw ((bytes_eq_iff name (codes "quit")).0 e)
    | inr e ↦ rw ((bytes_eq_iff name (codes "q")).0 e)
  ],
)
