-- ===== src/Admin/Users/Membership.antt =====
-- src/admin/operations/transactors/changeUser.h: the roles that a user has after the transactor.
use wdb.Base.{Bool, true, false, not, ◌&&◌, Bytes, is_nil, ok, ◌≡◌, refl, ◌∙◌, arith, if◌then◌else◌}
use wdb.Admin.Commands.{Rights}
use wdb.Admin.Transactions.{Result, Pqxx, Job, ◌>>◌}
use wdb.Admin.Users.{
  member_query, revoke_statement, grant_statement, admin_role, read_role, write_role, when,
  revoke_role, grant_role, check_roles, revoke_roles, grant_roles, change_user,
}

pub data Role : Type 0 where
  admin read write : Role

abbrev pub role_name : Role → Bytes
role_name admin = admin_role
role_name read = read_role
role_name write = write_role

abbrev pub has : Rights → Role → Bool
has r admin = r.admin
has r read = r.read
has r write = r.write

abbrev pub put : Role → Bool → Rights → Rights
put admin b r = record r { admin = b }
put read b r = record r { read = b }
put write b r = record r { write = b }

-- The documented behaviour of the server, for one user, whose roles of the three a transaction
-- shows as `holds`: the query finds a row exactly when the user has the role, and changes nothing;
-- `GRANT` and `REVOKE` give and take the one role.
pub record Serves (Q : Pqxx) (user : Bytes) : Type 0 where
  pub holds : Q.Transaction → Rights
  pub asks :
      (role : Role) (t : Q.Transaction)
      → (r : Result) × (Q.exec (member_query (role_name role) (Q.esc user)) t ≡ (ok r, t))
        × (not (is_nil r.rows) ≡ has (holds t) role)
  pub grants :
      (role : Role) (t : Q.Transaction)
      → (r : Result) × (t' : Q.Transaction) × (Q.exec
            (grant_statement (role_name role) (Q.esc (Q.esc user)))
            t
          ≡ (ok r, t'))
        × (holds t' ≡ put role true (holds t))
  pub revokes :
      (role : Role) (t : Q.Transaction)
      → (r : Result) × (t' : Q.Transaction) × (Q.exec
            (revoke_statement (role_name role) (Q.esc (Q.esc user)))
            t
          ≡ (ok r, t'))
        × (holds t' ≡ put role false (holds t))

module _ (Q : Pqxx) (user : Bytes) (serves : Serves Q user) where
  open serves use {holds}

  -- A job ends well, and changes the roles by a function.
  abbrev Does : Job Q (Unit {0}) → (Rights → Rights) → Type 0
  Does job f =
      (t : Q.Transaction) → (t' : Q.Transaction) × (job t ≡ (ok tt, t')) × (holds t' ≡ f (holds t))

  Does-grant : (role : Role) → Does (grant_role Q (Q.esc user) (role_name role)) (put role true)
  unfolding grant_role
  Does-grant role t = let (r, t', e, h) = serves.grants role t in (t', rw e, h)

  Does-revoke : (role : Role) → Does (revoke_role Q (Q.esc user) (role_name role)) (put role false)
  unfolding revoke_role
  Does-revoke role t = let (r, t', e, h) = serves.revokes role t in (t', rw e, h)

  Does-when :
      (b : Bool) (job : Job Q (Unit {0})) (f : Rights → Rights)
      → Does job f
      → Does (when Q b job) (λ r. if b then f r else r)
  Does-when true job f h t = h t
  Does-when false job f h t = (t, refl, refl)

  Does-then :
      (m k : Job Q (Unit {0})) (f g : Rights → Rights)
      → Does m f
      → Does k g
      → Does (m >> k) (λ r. g (f r))
  Does-then m k f g hm hk t =
      let (t1, e1, h1) = hm t in let (t2, e2, h2) = hk t1 in (t2, rw e1 e2, h2 ∙ (rw h1))

  check_roles-holds : (t : Q.Transaction) → check_roles Q user t ≡ (ok (holds t), t)
  unfolding check_roles
  check_roles-holds t =
      let (r, e, h) = serves.asks read t in
      let (w, e', h') = serves.asks write t in
      let (a, e'', h'') = serves.asks admin t in rw (e, e', e'', h, h', h'')

  abbrev put_if : Bool → Role → Bool → Rights → Rights
  put_if test role b r = if test then put role b r else r

  abbrev put_three : (a r w b : Bool) → Rights → Rights
  put_three a r w b rights = put_if w write b (put_if r read b (put_if a admin b rights))

  Does-three :
      (a r w b : Bool) (job : Role → Job Q (Unit {0}))
      → ((role : Role) → Does (job role) (put role b))
      → Does
          (λ t. (when Q a (job admin) >> (λ t. (when Q r (job read) >> when Q w (job write)) t)) t)
          (put_three a r w b)
  Does-three a r w b job h =
      Does-then _ _ (put_if a admin b) (λ s. put_if w write b (put_if r read b s))
        (Does-when a (job admin) (put admin b) (h admin))
        (Does-then _ _ (put_if r read b) (put_if w write b)
          (Does-when r (job read) (put read b) (h read))
          (Does-when w (job write) (put write b) (h write)))

  Does-revoke_roles :
      (asked had : Rights)
      → Does (revoke_roles Q user asked had) (
          put_three
            (not asked.admin && had.admin)
            (not asked.read && had.read)
            (not asked.write && had.write)
            false)
  unfolding revoke_roles
  Does-revoke_roles asked had =
      Does-three _ _ _ false (λ role. revoke_role Q (Q.esc user) (role_name role)) Does-revoke

  Does-grant_roles :
      (asked had : Rights)
      → Does (grant_roles Q user asked had) (
          put_three
            (asked.admin && not had.admin)
            (asked.read && not had.read)
            (asked.write && not had.write)
            true)
  unfolding grant_roles
  Does-grant_roles asked had =
      Does-three _ _ _ true (λ role. grant_role Q (Q.esc user) (role_name role)) Does-grant

  -- What is revoked and granted makes of the roles that the user has those that were asked for.
  put_three-asked :
      (asked had : Rights)
      → put_three
          (asked.admin && not had.admin)
          (asked.read && not had.read)
          (asked.write && not had.write)
          true
          (put_three
            (not asked.admin && had.admin)
            (not asked.read && had.read)
            (not asked.write && had.write)
            false
            had)
        ≡ asked
  put_three-asked asked had = ground arith

  -- On a server that grants and revokes as documented the transactor ends well, whatever roles the
  -- user has, and the user has exactly the roles that were asked for after it.
  pub change_user-holds :
      (asked : Rights) (t : Q.Transaction)
      → (t' : Q.Transaction) × (change_user Q user asked t ≡ (ok tt, t')) × (holds t' ≡ asked)
  unfolding change_user
  change_user-holds asked t =
      let (t1, e1, h1) = Does-revoke_roles asked (holds t) t in
      let (t2, e2, h2) = Does-grant_roles asked (holds t) t1 in
      (t2, rw (check_roles-holds t, e1) e2, h2 ∙ ((rw h1) ∙ put_three-asked asked (holds t)))
