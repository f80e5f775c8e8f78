-- ===== src/Tests/Sessions.antt =====
-- Sessions and roles, src/callInterface/core/wciSession.cpp, at concrete calls.
use wdb.Base.{List, [], ◌∷◌, refl, Bytes, codes, bytes_eq, none, pos, Bool}
use wdb.Session.{session_set_role, new_session}
use wdb.Session.History.{Call, initializes, resets, run, Reports, logins, run-Reports}
use wdb.Session.Role.{AllPlain, session_set_role-AllPlain}

abbrev visits : List Call
visits =
    initializes (codes "met") (pos 1) (pos 2) (pos 3)
    ∷ resets
    ∷ initializes (codes "wdb") (pos 4) (pos 5) (pos 6)
    ∷ []

run-Reports_example : Reports (logins visits none) (run visits new_session)
run-Reports_example = run-Reports visits

-- An expression that matches one role.
abbrev match_wdb : Bytes → Bool
match_wdb s = bytes_eq s (codes "wdb_admin")

session_set_role-AllPlain_example : AllPlain (codes "SET ROLE wdb_admin;")
unfolding session_set_role bytes_eq
session_set_role-AllPlain_example =
    session_set_role-AllPlain match_wdb (codes "wdb_admin") (codes "SET ROLE wdb_admin;")
      (λ h. (refl, (refl, (refl, (refl, (refl, (refl, (refl, (refl, (refl, tt)))))))))) refl
