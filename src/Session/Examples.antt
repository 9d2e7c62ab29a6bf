-- ===== src/Session/Examples.antt =====
-- internal/admin/session.go: runs, and theorems at a manager with a signature of one digit.
use llms_proxy.Base.{
  arith, ◌+◌, ◌*◌, if◌then◌else◌, ◌≡◌, refl, ◌↔◌, true, false, String, none, some, [], ◌∷◌,
}
use llms_proxy.Base.Int.{pos}
use llms_proxy.Base.Maps.{lookup, delete}
use llms_proxy.Base.Strings.{is_blank}
use llms_proxy.Base.Time.{after, second, seconds}
use llms_proxy.Session.{
  Session, SessionManager, sign, verify_cookie, session_of, create_session, current_session,
  session_by_id, destroy_session, expires_from, split_dots, constant_time_compare, differs,
}
use llms_proxy.Session.Cookie.{no_dot, verify_cookie-sign}
use llms_proxy.Session.Laws.{
  Created, SignedFor, create_session-current_session, current_session-signed,
}

-- A stand-in for the HMAC.
abbrev short_mac : String → String → String
short_mac secret id = "f"

short_mac-hex :
    (secret id : String)
    → (no_dot (short_mac secret id) ≡ true) × (is_blank (short_mac secret id) ≡ false)
unfolding no_dot
short_mac-hex secret id = (refl, refl)

abbrev manager : SessionManager
manager = record {
  secret = "s";
  config = record { secret = " s "; ttl_seconds = pos 60; sliding_expiration = false };
  sessions = [];
}

verify_cookie-sign_example :
    (verify_cookie short_mac manager "ab.f" ≡ some "ab")
    ↔ ("ab.f" ≡ sign short_mac manager "ab") × (is_blank "ab" ≡ false) × (no_dot "ab" ≡ true)
verify_cookie-sign_example = verify_cookie-sign short_mac short_mac-hex manager "ab.f" "ab"

create_session-current_session_example :
    let n = Created short_mac short_mac-hex manager "ab" "root" "" 5 in
    let s = session_of short_mac "ab" "root" "" manager 5 in
    let cookie = sign short_mac n "ab" in
    (create_session short_mac manager (some "ab") "root" "" 5 ≡ (n, some (s, cookie)))
    × (current_session short_mac n (some cookie) 9 ≡ (
        if after 9 (5 + 60 * second)
        then (record n { sessions = delete "ab" n.sessions }, none)
        else (n, some s)))
    × ((current_session short_mac (destroy_session short_mac n (some cookie)) (some cookie) 9).1
        ≡ none)
unfolding no_dot
create_session-current_session_example =
    create_session-current_session short_mac short_mac-hex manager "ab" "root" "" 5 9 60 refl refl
      refl (omega arith)

abbrev root_session : Session
root_session = record {
  id = "ab";
  username = "root";
  role = "admin";
  created_at = 5;
  last_seen = 5;
  expires_at = 60000000005;
}

abbrev with_root : SessionManager
with_root = record manager { sessions = ("ab", root_session) ∷ [] }

with_root_current :
    current_session short_mac with_root (some "ab.f") 7 ≡ (with_root, some root_session)
unfolding current_session verify_cookie split_dots constant_time_compare differs sign session_by_id
    lookup
with_root_current = refl

current_session-signed_example :
    (id : String) × SignedFor short_mac short_mac-hex with_root with_root
      (some "ab.f")
      7
      root_session
      id
current_session-signed_example =
    current_session-signed short_mac short_mac-hex with_root with_root (some "ab.f") 7 root_session
      with_root_current

-- A lifetime of more than 292 years wraps around: 10^10 seconds are a negative duration.
long_lifetime :
    after 9000000000000000000 (
      expires_from
        (record manager {
          config = record {
            secret = "s";
            ttl_seconds = pos 10000000000;
            sliding_expiration = false;
          };
        })
        9000000000000000000)
    ≡ true
unfolding seconds
long_lifetime = refl
