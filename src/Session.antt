-- ===== src/Session.antt =====
-- The session of a backend: src/callInterface/core/wciSession.{h,cpp}, and `setRole` of
-- src/callInterface/core/psqlTupleInterface.c. The one object `session_` is the state that each
-- function takes and returns; an `ereport` leaves it as it is at that point.
pub mod History
pub mod Role
use wdb.Base.{
  ℕ, Bool, true, false, not, List, [], ◌∷◌, ◌++◌, Bytes, codes, is_nil, take, if◌then◌else◌, Option,
  none, some, ℤ, negsuc, Outcome, ok, fail, logic_error, ereport, raise_exception,
  null_value_not_allowed, invalid_role_specification, connection_exception, catch_as, ◌>>=◌,
}

pub record WciSession : Type 0 where
  pub user_ : Bytes
  pub data_provider_ns_ : ℤ
  pub place_ns_ : ℤ
  pub parameter_ns_ : ℤ

-- `WciSession()`
abbrev pub new_session : WciSession
new_session = record {
  user_ = [];
  data_provider_ns_ = negsuc 0;
  place_ns_ = negsuc 0;
  parameter_ns_ = negsuc 0;
}

abbrev is_initialized : WciSession → Bool
is_initialized s = not (is_nil s.user_)

-- `WciSession::initialize`
unfoldable pub initialize : Bytes → ℤ → ℤ → ℤ → WciSession → Outcome WciSession
initialize user_name data_provider_ns place_ns parameter_ns s =
    if is_nil user_name
    then fail (logic_error (codes "username cannot be empty"))
    else ok (record s {
      user_ = user_name;
      data_provider_ns_ = data_provider_ns;
      place_ns_ = place_ns;
      parameter_ns_ = parameter_ns;
    })

-- `WciSession::reset`
unfoldable pub reset : WciSession → Outcome WciSession
reset s =
    if not (is_initialized s)
    then fail (logic_error (codes "Session was never initialized"))
    else ok (record s {
      user_ = [];
      data_provider_ns_ = negsuc 0;
      place_ns_ = negsuc 0;
      parameter_ns_ = negsuc 0;
    })

-- The SQL functions `wciSession_initialize` and `wciSession_reset`.
unfoldable pub session_initialize : Bytes → ℤ → ℤ → ℤ → WciSession → Outcome WciSession
unfolding initialize
session_initialize user d p q s = catch_as raise_exception (initialize user d p q s)

unfoldable pub session_reset : WciSession → Outcome WciSession
unfolding reset
session_reset s = catch_as raise_exception (reset s)

-- `WciSession_initialized`
unfoldable pub session_initialized : WciSession → Bool
session_initialized s = is_initialized s

-- `assertInitialized`
unfoldable assert_initialized : WciSession → Outcome (Unit {0})
assert_initialized s =
    if not (is_initialized s)
    then fail (ereport raise_exception (codes "wci has not been initialized."))
    else ok tt

-- `wciSession_get`
unfoldable pub session_get : WciSession → Outcome (ℤ × ℤ × ℤ)
unfolding assert_initialized
session_get s = assert_initialized s >>= λ _. ok (s.data_provider_ns_, s.place_ns_, s.parameter_ns_)

-- `wciSession_user`: the bytes of the text. The size counts the terminator of `c_str()` too.
unfoldable pub session_user : WciSession → Outcome Bytes
unfolding assert_initialized
session_user s = assert_initialized s >>= λ _. ok (s.user_ ++ 0 ∷ [])

-- `setRole`: the command that is executed; `connected` tells whether `SPI_connect` succeeds, and
-- the buffer of 128 bytes holds a terminator.
unfoldable set_role : Bool → Bytes → Outcome Bytes
set_role connected user =
    if connected
    then ok (take 127 (codes "SET ROLE " ++ (user ++ codes ";")))
    else fail (ereport connection_exception (codes "Unable to create SPI connection to database."))

-- `wciSession_setRole`; `match_role` is `regex_match` with "[a-zA-Z_][a-zA-Z_0-9]*".
unfoldable pub session_set_role : (Bytes → Bool) → Bool → Option Bytes → Outcome Bytes
unfolding set_role
session_set_role match_role connected none =
    fail (ereport null_value_not_allowed (codes "Role cannot be NULL"))
session_set_role match_role connected (some role) =
    if not (match_role role)
    then fail (ereport invalid_role_specification (codes "Invalid role name: " ++ role))
    else set_role connected role
