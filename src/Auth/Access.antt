-- ===== src/Auth/Access.antt =====
-- Who sees the metrics.
use text.Mathlib.TextPositions.{eq_refl}
use bundle_broadcaster.Auth.Guard.{
  AuthGuard, Request, is_locked, clear_attempts, create_session, set_session, is_valid_session,
  client_ip, verify_password, session_lifetime,
}
use bundle_broadcaster.Common.{
  some, true, false, inl, inr, arith, Bool, String, ℕ, ◌≡◌, ◌≢◌, Option-cases, lookup, ◌↔◌, ◌≤◌,
  insert, ◌+◌, Bool-cases, ◌==◌, sym, ap, List, lookup-insert, ◌∙◌, eq_iff, none, refl,
}
use bundle_broadcaster.Auth.Handler.{
  Reply, metrics, login, redirect, Moment, accept, refuse, post_password, show_login, check_cookie,
  handle_guarded,
}

abbrev is_metrics : Reply → Bool
is_metrics metrics = true
is_metrics (login error until) = false
is_metrics (redirect id path) = false

-- The request's cookie names a session that has not expired.
pub record HasSession (t : Moment) (r : Request) (a : AuthGuard) : Type 0 where
  pub session_id : String
  pub expiry : ℕ
  pub presented : r.cookie ≡ some session_id
  pub stored : lookup session_id a.sessions ≡ some expiry
  pub current : t.session_check ≤ expiry

module _ (md5_hex : String → String) (format : ℕ → String) (t : Moment) (r : Request) where
  post_password-ne-metrics : (a : AuthGuard) → (post_password md5_hex format t r a).1 ≢ metrics
  unfolding post_password
  post_password-ne-metrics a = ground arith

  show_login-ne-metrics : (a : AuthGuard) → (show_login md5_hex format t r a).1 ≢ metrics
  unfolding show_login
  show_login-ne-metrics a = ground arith

  metrics-check_cookie :
      (a : AuthGuard)
      → ((handle_guarded md5_hex format t r a).1 ≡ metrics)
        ↔ ((check_cookie md5_hex format t r a).0 ≡ true)
  unfolding handle_guarded
  metrics-check_cookie a =
      let a' = (check_cookie md5_hex format t r a).1 in
      let no_post = post_password-ne-metrics a' in
      let no_login = show_login-ne-metrics a' in (λ h. ground arith, λ h. ground arith)

  check_cookie-HasSession :
      (a : AuthGuard) → (check_cookie md5_hex format t r a).0 ≡ true → HasSession t r a
  unfolding check_cookie is_valid_session
  check_cookie-HasSession a h = elim (Option-cases r.cookie) [
    | inl e ↦ absurd (ground arith)
    | inr (id, e) ↦ elim (Option-cases (lookup id a.sessions)) [
      | inl missing ↦ absurd (ground arith)
      | inr (expiry, found) ↦ record {
        session_id = id;
        expiry = expiry;
        presented = e;
        stored = found;
        current = ground arith;
      }
    ]
  ]

  HasSession-check_cookie :
      (a : AuthGuard) → HasSession t r a → (check_cookie md5_hex format t r a).0 ≡ true
  unfolding check_cookie is_valid_session
  HasSession-check_cookie a s = ground (arith, s.presented, s.stored, s.current)

  -- A request is shown the metrics exactly if its cookie names a session that the guard holds and
  -- that has not expired. A right password alone shows nothing.
  pub metrics_iff_HasSession :
      (a : AuthGuard) → ((handle_guarded md5_hex format t r a).1 ≡ metrics) ↔ HasSession t r a
  metrics_iff_HasSession a = (
    λ h. check_cookie-HasSession a ((metrics-check_cookie a).0 h),
    λ s. (metrics-check_cookie a).1 (HasSession-check_cookie a s),
  )

  -- What a login has done, from the guard after the check of the cookie.
  record LoggedIn (a a' : AuthGuard) (id : String) : Type 0 where
    created : id ≡ (create_session t.random).0
    verified : verify_password md5_hex a r.password ≡ true
    sessions : a'.sessions ≡ insert id (t.set_at + session_lifetime) a.sessions

  accept-LoggedIn :
      (a : AuthGuard) (id path : String)
      → verify_password md5_hex a r.password ≡ true
      → (accept md5_hex format t r a).1 ≡ redirect id path
      → LoggedIn a (accept md5_hex format t r a).0 id
  unfolding accept set_session clear_attempts
  accept-LoggedIn a id path right h =
      let same : (create_session t.random).0 ≡ id = cc in
      record {
        created = sym same;
        verified = right;
        sessions = ap (λ k. insert k (t.set_at + session_lifetime) a.sessions) same;
      }

  refuse-ne-redirect :
      (a : AuthGuard) (id path : String) → (refuse md5_hex format t r a).1 ≢ redirect id path
  unfolding refuse
  refuse-ne-redirect a id path = ground arith

  post_password-LoggedIn :
      (a : AuthGuard) (id path : String)
      → (post_password md5_hex format t r a).1 ≡ redirect id path
      → LoggedIn a (post_password md5_hex format t r a).0 id
  unfolding post_password
  post_password-LoggedIn a id path h = elim (Bool-cases (is_locked a (client_ip r) t.lock_check)) [
    | inl locked ↦ absurd (ground arith)
    | inr free ↦ elim (Bool-cases (verify_password md5_hex a r.password)) [
      | inl right ↦ rw (free, right, post_password) (accept-LoggedIn a id path right (ground arith))
      | inr wrong ↦ absurd (ground (arith, refuse-ne-redirect a id path))
    ]
  ]

  show_login-ne-redirect :
      (a : AuthGuard) (id path : String) → (show_login md5_hex format t r a).1 ≢ redirect id path
  unfolding show_login
  show_login-ne-redirect a id path = ground arith

  handle_guarded-LoggedIn :
      (a : AuthGuard) (id path : String)
      → (handle_guarded md5_hex format t r a).1 ≡ redirect id path
      → LoggedIn (check_cookie md5_hex format t r a).1 (handle_guarded md5_hex format t r a).0 id
  unfolding handle_guarded
  handle_guarded-LoggedIn a id path h = elim (Bool-cases (check_cookie md5_hex format t r a).0) [
    | inl valid ↦ absurd (ground arith)
    | inr invalid ↦ elim (Bool-cases (r.method == "POST")) [
      | inl post ↦
          rw (invalid, post, handle_guarded)
            (post_password-LoggedIn (check_cookie md5_hex format t r a).1 id path (ground arith))
      | inr other ↦
          absurd
            (ground (arith, show_login-ne-redirect (check_cookie md5_hex format t r a).1 id path))
    ]
  ]

  check_cookie-password_hash :
      (a : AuthGuard) → (check_cookie md5_hex format t r a).1.password_hash ≡ a.password_hash
  unfolding check_cookie is_valid_session
  check_cookie-password_hash a = ground arith

module _ (md5_hex : String → String) (format : ℕ → String) (t t' : Moment) (r r' : Request) where
  session_of :
      (a : AuthGuard) (id : String) (old : List (String × ℕ))
      → a.sessions ≡ insert id (t.set_at + session_lifetime) old
      → r'.cookie ≡ some id
      → HasSession t' r' a ↔ (t'.session_check ≤ t.set_at + session_lifetime)
  session_of a id old e cookie = (
    λ s.
        let same : s.session_id ≡ id = cc (s.presented) in
        let found : some (t.set_at + session_lifetime) ≡ some s.expiry =
          sym stored ∙ ap (λ k. lookup k a.sessions) (sym same) ∙ s.stored in
        ground (arith, s.current),
    λ early. record {
      session_id = id;
      expiry = t.set_at + session_lifetime;
      presented = cookie;
      stored = stored;
      current = early;
    },
  )
    where
      stored : lookup id a.sessions ≡ some (t.set_at + session_lifetime)
      stored = rw (e, lookup-insert id id (t.set_at + session_lifetime) old, eq_refl id)

  -- The guard starts a session only for a password whose hash is the configured one, and the next
  -- request with that session's cookie is shown the metrics exactly if at most 24 hours have passed
  -- since.
  pub session_after_login :
      (a : AuthGuard) (id path : String)
      → (handle_guarded md5_hex format t r a).1 ≡ redirect id path
      → r'.cookie ≡ some id
      → (id ≡ (create_session t.random).0)
        × (md5_hex r.password ≡ a.password_hash)
        × (((handle_guarded md5_hex format t' r' (handle_guarded md5_hex format t r a).0).1
              ≡ metrics)
            ↔ (t'.session_check ≤ t.set_at + session_lifetime))
  unfolding verify_password
  session_after_login a id path h cookie =
      let l = handle_guarded-LoggedIn md5_hex format t r a id path h in
      let a' = (handle_guarded md5_hex format t r a).0 in
      let (to, from) = session_of a' id _ l.sessions cookie in
      let (seen, shown) = metrics_iff_HasSession md5_hex format t' r' a' in
      (
        l.created,
        (eq_iff _ _).0 l.verified ∙ check_cookie-password_hash md5_hex format t r a,
        (λ m. to (seen m), λ early. shown (from early)),
      )

  -- If rand.Read fails during a login, the session is the empty text: unless 24 hours have passed, the
  -- next request is shown the metrics if its session cookie is empty.
  pub empty_session :
      (a : AuthGuard) (id path : String)
      → (handle_guarded md5_hex format t r a).1 ≡ redirect id path
      → t.random ≡ none
      → r'.cookie ≡ some ""
      → t'.session_check ≤ t.set_at + session_lifetime
      → (handle_guarded md5_hex format t' r' (handle_guarded md5_hex format t r a).0).1 ≡ metrics
  empty_session a id path h failed cookie early =
      let l = handle_guarded-LoggedIn md5_hex format t r a id path h in
      let empty : id ≡ "" = l.created ∙ rw failed (unfold create_session in refl) in
      (session_after_login a id path h (rw empty cookie)).2.1 early
