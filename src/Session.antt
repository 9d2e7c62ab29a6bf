-- ===== src/Session.antt =====
-- internal/admin/session.go: the sessions of the admin pages and their signed cookies. The HMAC in
-- hexadecimal digits is the parameter `mac`, of the secret and the id; the id that generateSessionID
-- draws is an argument, `none` for its error. A request is the value of its cookie, `none` if it has
-- none. The names and the flags of cookies are left out.
pub mod Cookie
pub mod Laws
mod Examples
use Prim.Native.Char.{Char, code}
use Prim.Native.String.{◌++◌ as append, count}
use llms_proxy.Base.{
  ℕ, ◌+◌, ◌*◌, Bool, true, false, not, ◌||◌, String, Option, none, some, List, [], ◌∷◌, ◌==◌,
  if◌then◌else◌,
}
use llms_proxy.Base.Int.{ℤ}
use llms_proxy.Base.Maps.{Map, lookup, insert, delete}
use llms_proxy.Base.Strings.{is_blank, trim_string}
use llms_proxy.Base.Time.{Time, add_duration, seconds, after}

pub record Session : Type 0 where
  pub id : String
  pub username : String
  pub role : String
  pub created_at : Time
  pub last_seen : Time
  pub expires_at : Time

-- AdminSessionConfig
pub record SessionConfig : Type 0 where
  pub secret : String
  pub ttl_seconds : ℤ  -- int
  pub sliding_expiration : Bool

pub record SessionManager : Type 0 where
  pub secret : String
  pub config : SessionConfig
  pub sessions : Map Session

-- NewSessionManager
abbrev pub new_session_manager : SessionConfig → SessionManager
new_session_manager cfg = record { secret = trim_string cfg.secret; config = cfg; sessions = [] }

-- UpdateConfig
unfoldable pub update_config : SessionManager → SessionConfig → SessionManager
update_config m cfg = record m { secret = trim_string cfg.secret; config = cfg }

abbrev pub expires_from : SessionManager → Time → Time
expires_from m now = add_duration now (seconds m.config.ttl_seconds)

-- sessionByID
abbrev pub unless_expired :
    SessionManager → String → Time → Option Session → SessionManager × Option Session
unless_expired m id now none = (m, none)
unless_expired m id now (some s) =
    if after now s.expires_at
    then (record m { sessions = delete id m.sessions }, none)
    else (m, some s)

unfoldable pub session_by_id : SessionManager → String → Time → SessionManager × Option Session
session_by_id m id now = unless_expired m id now (lookup id m.sessions)

abbrev pub slid : SessionManager → Time → Session → Session
slid m now s = record s { last_seen = now; expires_at = expires_from m now }

abbrev pub slide : SessionManager → String → Time → Option Session → SessionManager × Option Session
slide m id now none = (record m { sessions = delete id m.sessions }, none)
slide m id now (some s) =
    if after now s.expires_at
    then (record m { sessions = delete id m.sessions }, none)
    else (record m { sessions = insert id (slid m now s) m.sessions }, some (slid m now s))

-- touch
unfoldable pub touch : SessionManager → String → Time → SessionManager × Option Session
touch m id now =
    if m.config.sliding_expiration
    then slide m id now (lookup id m.sessions)
    else session_by_id m id now

abbrev pub cons_first : Char → List String → List String
cons_first c [] = String.◌∷◌ c "" ∷ []
cons_first c (p ∷ ps) = String.◌∷◌ c p ∷ ps

-- strings.Split(s, ".")
unfoldable pub split_dots : String → List String
split_dots String.[] = "" ∷ []
split_dots (String.◌∷◌ c s) =
    let rest = split_dots s in if code c == b'.' then "" ∷ rest else cons_first c rest

-- The loop of subtleConstantTimeStringCompare, which only tells whether `v` is zero at the end.
unfoldable pub differs : Bool → String → String → Bool
differs v (String.◌∷◌ c s) (String.◌∷◌ d t) = differs (v || not (code c == code d)) s t
differs v _ _ = v

-- subtleConstantTimeStringCompare
unfoldable pub constant_time_compare : String → String → Bool
constant_time_compare a b = if count a == count b then not (differs false a b) else false

abbrev pub role_or_admin : String → String
role_or_admin role = if is_blank role then "admin" else role

module _ (mac : String → String → String) where
  -- sign
  unfoldable pub sign : SessionManager → String → String
  sign m id = append id (append "." (mac m.secret id))

  abbrev pub verify_parts : SessionManager → String → List String → Option String
  verify_parts m value (id ∷ signature ∷ []) =
      if is_blank id || is_blank signature
      then none
      else if constant_time_compare (sign m id) value
      then some id
      else none
  verify_parts m value _ = none

  -- verifyCookie
  unfoldable pub verify_cookie : SessionManager → String → Option String
  verify_cookie m value = verify_parts m value (split_dots value)

  abbrev pub session_of : String → String → String → SessionManager → Time → Session
  session_of id username role m now = record {
    id = id;
    username = trim_string username;
    role = trim_string (role_or_admin role);
    created_at = now;
    last_seen = now;
    expires_at = expires_from m now;
  }

  -- CreateSession: the session and the value of its cookie.
  unfoldable pub create_session :
      SessionManager
      → Option String
      → String
      → String
      → Time
      → SessionManager × Option (Session × String)
  create_session m none username role now = (m, none)
  create_session m (some id) username role now =
      let s = session_of id username role m now in
      (record m { sessions = insert id s m.sessions }, some (s, sign m id))

  abbrev pub verified : SessionManager → Option String → Option String
  verified m none = none
  verified m (some value) = verify_cookie m value

  abbrev pub session_for : SessionManager → Time → Option String → SessionManager × Option Session
  session_for m now none = (m, none)
  session_for m now (some id) = session_by_id m id now

  -- CurrentSession
  unfoldable pub current_session :
      SessionManager → Option String → Time → SessionManager × Option Session
  current_session m cookie now = session_for m now (verified m cookie)

  abbrev pub destroy_of : SessionManager → Option String → SessionManager
  destroy_of m none = m
  destroy_of m (some id) = record m { sessions = delete id m.sessions }

  -- DestroySession
  unfoldable pub destroy_session : SessionManager → Option String → SessionManager
  destroy_session m cookie = destroy_of m (verified m cookie)

  abbrev pub touched_or :
      Session → SessionManager × Option Session → SessionManager × Option (Session × Option String)
  touched_or s (m, none) = (m, some (s, none))
  touched_or s (m, some t) = (m, some (t, some (sign m t.id)))

  abbrev pub admit :
      Time → SessionManager × Option Session → SessionManager × Option (Session × Option String)
  admit now (m, none) = (m, none)
  admit now (m, some s) = touched_or s (touch m s.id now)

  -- Middleware: the session that the handler sees and the cookie that is set, or `none` where the
  -- request is unauthorized.
  unfoldable pub middleware :
      SessionManager → Option String → Time → SessionManager × Option (Session × Option String)
  middleware m cookie now = admit now (current_session m cookie now)
