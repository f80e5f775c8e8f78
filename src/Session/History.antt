-- ===== src/Session/History.antt =====
-- What the session functions return after any history of calls.
use wdb.Base.{
  true, false, List, [], ◌∷◌, ◌++◌, ◌≡◌, ◌≢◌, refl, arith, Bytes, codes, Option, none, some, ℤ,
  Outcome, ok, fail, ereport, raise_exception, catch_as,
}
use wdb.Session.{
  WciSession, new_session, session_initialize, session_reset, session_get, session_user,
  session_initialized,
}

-- A call that may change the session.
pub data Call : Type 0 where
  initializes : Bytes → ℤ → ℤ → ℤ → Call
  resets : Call

abbrev pub call : Call → WciSession → Outcome WciSession
call (initializes u d p q) s = session_initialize u d p q s
call resets s = session_reset s

-- The session behind a call; an error changes nothing.
unfoldable pub after : WciSession → Outcome WciSession → WciSession
after s (ok s') = s'
after s (fail e) = s

unfoldable pub run : List Call → WciSession → WciSession
run [] s = s
run (c ∷ cs) s = run cs (after s (call c s))

-- The specification: what the last call that counts has set.
pub record Login : Type 0 where
  pub user : Bytes
  pub namespaces : ℤ × ℤ × ℤ

abbrev login : Call → Option Login → Option Login
login (initializes [] d p q) l = l
login (initializes (c ∷ u) d p q) l = some (record { user = c ∷ u; namespaces = (d, p, q) })
login resets l = none

pub logins : List Call → Option Login → Option Login
logins [] l = l
logins (c ∷ cs) l = logins cs (login c l)

-- A session that stands for a login, or for none.
abbrev Represents : WciSession → Option Login → Type 0
Represents s none = s ≡ new_session
Represents s (some l) =
    (l.user ≢ [])
    × (s ≡ record {
      user_ = l.user;
      data_provider_ns_ = l.namespaces.0;
      place_ns_ = l.namespaces.1;
      parameter_ns_ = l.namespaces.2;
    })

call-Represents :
    (c : Call) (s : WciSession) (l : Option Login)
    → Represents s l
    → Represents (after s (call c s)) (login c l)
unfolding after session_initialize session_reset catch_as
call-Represents (initializes [] d p q) s none r = ground arith
call-Represents (initializes [] d p q) s (some l) r = ground arith
call-Represents (initializes (c ∷ u) d p q) s none r = ground arith
call-Represents (initializes (c ∷ u) d p q) s (some l) r = ground arith
call-Represents resets s none r = ground arith
call-Represents resets s (some l) r = ground arith

run-Represents :
    (cs : List Call) (s : WciSession) (l : Option Login)
    → Represents s l
    → Represents (run cs s) (logins cs l)
unfolding run logins
run-Represents [] s l r = r
run-Represents (c ∷ cs) s l r = run-Represents cs _ (login c l) (call-Represents c s l r)

abbrev pub Reports : Option Login → WciSession → Type 0
Reports none s =
    (session_initialized s ≡ false)
    × (session_get s ≡ fail (ereport raise_exception (codes "wci has not been initialized.")))
    × (session_user s ≡ fail (ereport raise_exception (codes "wci has not been initialized.")))
Reports (some l) s =
    (session_initialized s ≡ true)
    × (session_get s ≡ ok l.namespaces)
    × (session_user s ≡ ok (l.user ++ 0 ∷ []))

Represents-Reports : (l : Option Login) (s : WciSession) → Represents s l → Reports l s
unfolding session_initialized session_get session_user
Represents-Reports none s r = ground arith
Represents-Reports (some l) s r = ground arith

-- After any calls of initialize and reset on a fresh session, the session reports the user and the
-- namespaces of the last initialize with a user's name, unless a reset came after it; then, and
-- before the first such call, it reports that it is not initialised. The user's name is reported
-- with a zero byte behind it.
pub run-Reports : (cs : List Call) → Reports (logins cs none) (run cs new_session)
run-Reports cs =
    Represents-Reports (logins cs none) (run cs new_session)
      (run-Represents cs new_session none refl)
