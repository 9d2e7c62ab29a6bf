-- ===== src/Session/Laws.antt =====
-- internal/admin/session.go: the life of a session.
use mathlib.Core.Option.{some-injective}
use text.Mathlib.TextPositions.{eq_refl}
use llms_proxy.Base.{
  ℕ, ◌+◌, ◌*◌, ◌^◌, ◌<◌, ◌≤◌, ◌≡◌, refl, sym, ap, subst, ◌∙◌, Bool, true, false, String, str_eq,
  Option, none, some, arith, if-true, if◌then◌else◌,
}
use llms_proxy.Base.Int.{pos}
use llms_proxy.Base.Maps.{lookup, insert, delete, lookup-insert_self, lookup-delete}
use llms_proxy.Base.Strings.{is_blank}
use llms_proxy.Base.Time.{Time, after, second, seconds, seconds-pos, add_duration}
use llms_proxy.Session.{
  Session, SessionManager, unless_expired, session_by_id, sign, verify_cookie, session_of,
  create_session, session_for, current_session, destroy_of, destroy_session, expires_from,
}
use llms_proxy.Session.Cookie.{no_dot, verify_cookie-sign}

module _ (mac : String → String → String)
    (hex : (secret id : String)
      → (no_dot (mac secret id) ≡ true) × (is_blank (mac secret id) ≡ false)) where
  current_session-sign :
      (m : SessionManager) (id : String) (now : Time)
      → is_blank id ≡ false
      → no_dot id ≡ true
      → current_session mac m (some (sign mac m id)) now ≡ session_by_id m id now
  unfolding current_session
  current_session-sign m id now b n =
      ap (session_for mac m now) ((verify_cookie-sign mac hex m (sign mac m id) id).1 (refl, b, n))

  session_by_id-missing :
      (m : SessionManager) (id : String) (now : Time)
      → lookup id m.sessions ≡ none
      → session_by_id m id now ≡ (m, none)
  unfolding session_by_id
  session_by_id-missing m id now e = ap (unless_expired m id now) e

  -- The manager with the session that CreateSession makes.
  abbrev pub Created : SessionManager → String → String → String → Time → SessionManager
  Created m id username role at = record m {
    sessions = insert id (session_of mac id username role m at) m.sessions;
  }

  -- If the configured lifetime is not negative and fits a time.Duration (292 years), the cookie of a new
  -- session gives that session as long as its lifetime since it was created is not over; from then
  -- on it gives none and the session is dropped; and once it has been destroyed, it gives none at
  -- any time.
  pub create_session-current_session :
      (m : SessionManager) (id username role : String) (at now : Time) (n : ℕ)
      → is_blank id ≡ false
      → no_dot id ≡ true
      → m.config.ttl_seconds ≡ pos n
      → n * second < 2 ^ 63
      → let new = Created m id username role at in
        let s = session_of mac id username role m at in
        let cookie = sign mac new id in
        (create_session mac m (some id) username role at ≡ (new, some (s, cookie)))
        × (current_session mac new (some cookie) now ≡ (
            if after now (at + n * second)
            then (record new { sessions = delete id new.sessions }, none)
            else (new, some s)))
        × ((current_session mac (destroy_session mac new (some cookie)) (some cookie) now).1 ≡ none)
  unfolding create_session sign destroy_session session_by_id
  create_session-current_session m id username role at now n b dots ttl fits = (
    refl,
    current_session-sign new id now b dots
        ∙ ap (unless_expired new id now) kept
        ∙ ap
            (λ end.
              if after now end
              then (gone, none)
              else (new, some (session_of mac id username role m at)))
            lifetime,
    ap (λ k. (current_session mac k (some (sign mac new id)) now).1) destroyed
        ∙ ap (λ r. r.1)
            (current_session-sign gone id now b dots ∙ session_by_id-missing gone id now forgotten),
  )
    where
      new : SessionManager
      new = Created m id username role at

      gone : SessionManager
      gone = record new { sessions = delete id new.sessions }

      lifetime : expires_from m at ≡ at + n * second
      lifetime =
          ap (λ t. add_duration at (seconds t)) ttl ∙ ap (add_duration at) (seconds-pos n fits)

      kept : lookup id new.sessions ≡ some (session_of mac id username role m at)
      kept = lookup-insert_self id (session_of mac id username role m at) m.sessions

      destroyed : destroy_session mac new (some (sign mac new id)) ≡ gone
      destroyed =
          ap (destroy_of mac new)
            ((verify_cookie-sign mac hex new (sign mac new id) id).1 (refl, b, dots))

      forgotten : lookup id gone.sessions ≡ none
      forgotten = lookup-delete id id new.sessions ∙ if-true (str_eq id id) _ _ (eq_refl id)

  -- The cookie is signed for `id`, under which the session is kept, and `now` is not after its end.
  abbrev pub SignedFor :
      SessionManager → SessionManager → Option String → Time → Session → String → Type 0
  SignedFor m m' cookie now s id =
      (cookie ≡ some (sign mac m id))
      × (lookup id m.sessions ≡ some s)
      × (now ≤ s.expires_at)
      × (m' ≡ m)

  -- CurrentSession gives a session only to a cookie that was signed with the secret, for the id under
  -- which the session is kept, and not after the session's end; and it changes nothing then.
  pub current_session-signed :
      (m m' : SessionManager) (cookie : Option String) (now : Time) (s : Session)
      → current_session mac m cookie now ≡ (m', some s)
      → (id : String) × SignedFor m m' cookie now s id
  unfolding current_session session_by_id
  current_session-signed m m' none now s h = cc
  current_session-signed m m' (some value) now s h = by_id (verify_cookie mac m value) refl h
    where
      outcome : String → Session → Bool → SessionManager × Option Session
      outcome id t b =
          if b then (record m { sessions = delete id m.sessions }, none) else (m, some t)

      in_time : (t : Session) → after now t.expires_at ≡ false → now ≤ t.expires_at
      in_time t e = ground arith

      live :
          (id : String) (t : Session) (b : Bool)
          → value ≡ sign mac m id
          → lookup id m.sessions ≡ some t
          → after now t.expires_at ≡ b
          → outcome id t b ≡ (m', some s)
          → SignedFor m m' (some value) now s id
      live id t true v e f h = cc
      live id t false v e f h =
          let kept_one = ap (λ r. r.1) h in
          (
            ap some v,
            e ∙ kept_one,
            subst (λ u. now ≤ u.expires_at) (some-injective _ _ kept_one) (in_time t f),
            sym (ap (λ r. r.0) h),
          )

      kept :
          (id : String) (o : Option Session)
          → value ≡ sign mac m id
          → lookup id m.sessions ≡ o
          → unless_expired m id now o ≡ (m', some s)
          → SignedFor m m' (some value) now s id
      kept id none v e h = cc
      kept id (some t) v e h = live id t (after now t.expires_at) v e refl h

      by_id :
          (o : Option String)
          → verify_cookie mac m value ≡ o
          → session_for mac m now o ≡ (m', some s)
          → (id : String) × SignedFor m m' (some value) now s id
      by_id none e h = cc
      by_id (some id) e h = (
        id,
        kept id (lookup id m.sessions) ((verify_cookie-sign mac hex m value id).0 e).0 refl h,
      )
