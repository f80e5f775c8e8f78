-- ===== src/Admin/Users.antt =====
-- src/admin/operations/transactors: queryUtility.h, changeUser.h, createUser.h and dropUser.h.
pub mod Membership
use wdb.Base.{
  ℕ, Bool, true, false, not, ◌&&◌, List, [], ◌∷◌, ◌++◌, Bytes, codes, is_nil, length, Failure,
  logic_error, runtime_error, ◌==◌, if◌then◌else◌, show_ℕ,
}
use wdb.Admin.Commands.{Rights}
use wdb.Admin.Transactions.{Result, Pqxx, Job, and_then, ◌>>=◌, ◌>>◌, return, throw}

-- The statements. `esc` has been applied to a name as often as the sources apply it.
abbrev pub user_query : Bytes → Bytes
user_query user = codes "SELECT usename FROM pg_user WHERE usename='" ++ (user ++ codes "'")

abbrev pub member_query : Bytes → Bytes → Bytes
member_query role user =
    codes "select * from pg_user where usename = '"
    ++ (user
        ++ (codes
              "' AND usesysid IN ( select grolist[s] from (SELECT grolist, generate_subscripts(grolist, 1) as s FROM pg_group where groname = '"
            ++ (role ++ codes "') AS gs )")))

abbrev pub revoke_statement : Bytes → Bytes → Bytes
revoke_statement role user = codes "REVOKE " ++ (role ++ (codes " FROM " ++ user))

abbrev pub grant_statement : Bytes → Bytes → Bytes
grant_statement role user = codes "GRANT " ++ (role ++ (codes " TO " ++ user))

abbrev pub create_statement : Bytes → Bytes
create_statement user = codes "CREATE ROLE " ++ (user ++ codes " LOGIN")

abbrev pub drop_statement : Bytes → Bytes
drop_statement user = codes "DROP ROLE " ++ user

abbrev pub begin_statement : Bytes → Bytes
begin_statement user = codes "SELECT wci.begin( '" ++ (user ++ codes "' );")

abbrev pub provider_statement : Bytes → Bytes
provider_statement user = codes "SELECT wci.addwciuser('" ++ (user ++ codes "')")

abbrev pub admin_role : Bytes
admin_role = codes "wdb_admin"

abbrev pub read_role : Bytes
read_role = codes "wdb_read"

abbrev pub write_role : Bytes
write_role = codes "wdb_write"

module _ (Q : Pqxx) where
  -- A statement whose result is not looked at.
  abbrev pub execute : Bytes → Job Q (Unit {0})
  execute statement = do r ← Q.exec statement; return tt

  abbrev pub when : Bool → Job Q (Unit {0}) → Job Q (Unit {0})
  when true job = job
  when false job = return tt

  -- `query::roleExists`
  unfoldable pub role_exists : Bytes → Job Q Bool
  role_exists user = do
    r ← Q.exec (user_query (Q.esc user))
    (if is_nil r.rows
        then return false
        else if length r.rows == 1
        then return true
        else throw (
            logic_error
              (show_ℕ (length r.rows) ++ codes "users returned. This should not be possible.")))

  -- `query::revokeRole`
  unfoldable pub revoke_role : Bytes → Bytes → Job Q (Unit {0})
  revoke_role user role = execute (revoke_statement role (Q.esc user))

  -- `query::grantRole`
  unfoldable pub grant_role : Bytes → Bytes → Job Q (Unit {0})
  grant_role user role = execute (grant_statement role (Q.esc user))

  abbrev pub has_role : Bytes → Bytes → Job Q Bool
  has_role user role = do r ← Q.exec (member_query role (Q.esc user)); return (not (is_nil r.rows))

  -- `ChangeUser::checkRoles`
  unfoldable pub check_roles : Bytes → Job Q Rights
  check_roles user = do
    read ← has_role user read_role
    write ← has_role user write_role
    admin ← has_role user admin_role
    return (record { admin = admin; read = read; write = write })

  -- `ChangeUser::revokeRoles`, which escapes the name before `revokeRole` does.
  unfoldable pub revoke_roles : Bytes → (asked has : Rights) → Job Q (Unit {0})
  revoke_roles user asked has = do
    when (not asked.admin && has.admin) (revoke_role (Q.esc user) admin_role)
    when (not asked.read && has.read) (revoke_role (Q.esc user) read_role)
    when (not asked.write && has.write) (revoke_role (Q.esc user) write_role)

  -- `ChangeUser::grantRoles`
  unfoldable pub grant_roles : Bytes → (asked has : Rights) → Job Q (Unit {0})
  grant_roles user asked has = do
    when (asked.admin && not has.admin) (grant_role (Q.esc user) admin_role)
    when (asked.read && not has.read) (grant_role (Q.esc user) read_role)
    when (asked.write && not has.write) (grant_role (Q.esc user) write_role)

  -- `ChangeUser::operator ()`
  unfoldable pub change_user : Bytes → Rights → Job Q (Unit {0})
  change_user user asked = do
    has ← check_roles user
    revoke_roles user asked has
    grant_roles user asked has

  -- `CreateUser::createRole`
  unfoldable pub create_role : Bytes → Job Q (Unit {0})
  create_role user = execute (create_statement (Q.esc user))

  -- `CreateUser::createDataProvider`
  unfoldable pub create_data_provider : Bytes → Job Q (Unit {0})
  create_data_provider user = execute (provider_statement (Q.esc user))

  -- The creation of a role that is not there.
  unfoldable pub ensure_role : Bytes → Job Q (Unit {0})
  ensure_role user = do
    exists ← role_exists user
    (if exists then return tt else (do
      create_role user
      created ← role_exists user
      (if created
          then return tt
          else throw (runtime_error (codes "Error when trying to create role " ++ user)))))

  -- `CreateUser::operator ()`
  unfoldable pub create_user : Bytes → Bytes → Rights → Job Q (Unit {0})
  create_user my_user user asked = do
    execute (begin_statement (Q.esc my_user))
    ensure_role user
    change_user user asked
    create_data_provider user

  -- `DropUser::operator ()`
  unfoldable pub drop_user : Bytes → Job Q (Unit {0})
  drop_user user = do
    exists ← role_exists user
    (if exists
        then (do
          execute (drop_statement (Q.esc user))
          remains ← role_exists user
          (if remains
              then throw (runtime_error (codes "Unable to drop role " ++ user))
              else return tt))
        else throw (runtime_error (codes "Role " ++ (user ++ codes " does not exist"))))
