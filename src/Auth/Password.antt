-- ===== src/Auth/Password.antt =====
-- Without the password nobody gets in.
use bundle_broadcaster.Auth.Guard.{
  AuthGuard, Request, new_auth_guard, is_locked, record_failed_attempt, is_valid_session, client_ip,
  verify_password,
}
use bundle_broadcaster.Common.{
  false, inl, inr, arith, String, ℕ, ◌≡◌, ◌≢◌, Option-cases, lookup, Bool-cases, ◌==◌, List, ◌∙◌,
  [], refl, eq_iff, none, ◌∷◌, All, ℤ,
}
use bundle_broadcaster.Auth.Handler.{
  metrics, Moment, refuse, post_password, show_login, check_cookie, handle_guarded, run_requests,
}
use bundle_broadcaster.Auth.Access.{HasSession, metrics_iff_HasSession}

-- No session is held.
abbrev NoSession : AuthGuard → Type 0
NoSession a = a.sessions ≡ []

module _ (md5_hex : String → String) (format : ℕ → String) where
  check_cookie-NoSession :
      (t : Moment) (r : Request) (a : AuthGuard)
      → NoSession a
      → check_cookie md5_hex format t r a ≡ (false, a)
  unfolding check_cookie is_valid_session
  check_cookie-NoSession t r a e = elim (Option-cases r.cookie) [
    | inl missing ↦ rw (missing, check_cookie)
    | inr (id, given) ↦
        let none_found : lookup id a.sessions ≡ none = rw e (unfold lookup in refl) in
        rw (given, check_cookie) (rw (none_found, is_valid_session))
  ]

  -- The sessions and the password of a guard are those of another.
  abbrev Keeps : AuthGuard → AuthGuard → Type 0
  Keeps a a' = (a'.sessions ≡ a.sessions) × (a'.password_hash ≡ a.password_hash)

  refuse-Keeps :
      (t : Moment) (r : Request) (a : AuthGuard) → Keeps a (refuse md5_hex format t r a).0
  unfolding refuse record_failed_attempt
  refuse-Keeps t r a = (refl, refl)

  post_password-Keeps :
      (t : Moment) (r : Request) (a : AuthGuard)
      → verify_password md5_hex a r.password ≡ false
      → Keeps a (post_password md5_hex format t r a).0
  unfolding post_password
  post_password-Keeps t r a wrong = elim (Bool-cases (is_locked a (client_ip r) t.lock_check)) [
    | inl locked ↦ rw (locked, post_password) (refl, refl)
    | inr free ↦ rw (free, wrong, post_password) (refuse-Keeps t r a)
  ]

  handle_guarded-Keeps :
      (t : Moment) (r : Request) (a : AuthGuard)
      → verify_password md5_hex a r.password ≡ false
      → NoSession a
      → Keeps a (handle_guarded md5_hex format t r a).0
  unfolding handle_guarded show_login
  handle_guarded-Keeps t r a wrong e =
      rw (check_cookie-NoSession t r a e, handle_guarded)
        (elim (Bool-cases (r.method == "POST")) [
          | inl post ↦ rw post (post_password-Keeps t r a wrong)
          | inr other ↦ rw other (refl, refl)
        ])

  verify_password-wrong :
      (a : AuthGuard) (password : String)
      → md5_hex password ≢ a.password_hash
      → verify_password md5_hex a password ≡ false
  unfolding verify_password
  verify_password-wrong a password h = ground (arith, eq_iff (md5_hex password) a.password_hash)

  run_requests-NoSession :
      (a : AuthGuard) (rs : List (Moment × Request))
      → All (λ q. md5_hex q.1.password ≢ a.password_hash) rs
      → NoSession a
      → NoSession (run_requests md5_hex format a rs)
  unfolding run_requests
  run_requests-NoSession a [] h e = e
  run_requests-NoSession a ((t, r) ∷ rs) h e =
      let (kept, hash) = handle_guarded-Keeps t r a (verify_password-wrong a r.password h.0) e in
      run_requests-NoSession (handle_guarded md5_hex format t r a).0 rs (rw hash h.1) (kept ∙ e)

  -- As long as no request has brought a password whose hash is the configured one, no request at all
  -- is shown the metrics, whatever its cookie and address, and however many came before.
  pub metrics_need_password :
      (hash : String) (max_attempts minutes : ℤ) (rs : List (Moment × Request)) (t : Moment)
      (r : Request)
      → All (λ q. md5_hex q.1.password ≢ hash) rs
      → (handle_guarded md5_hex format t r
          (run_requests md5_hex format (new_auth_guard hash max_attempts minutes) rs)).1
        ≢ metrics
  unfolding new_auth_guard
  metrics_need_password hash max_attempts minutes rs t r h shown =
      let start = new_auth_guard hash max_attempts minutes in
      let session =
        (metrics_iff_HasSession md5_hex format t r (run_requests md5_hex format start rs)).0
          shown in
      no_entry _ session (run_requests-NoSession start rs h refl)
    where
      no_entry : (a : AuthGuard) → HasSession t r a → ¬ NoSession a
      no_entry a s e =
          let gone : lookup s.session_id a.sessions ≡ none = rw e (unfold lookup in refl) in
          cc (s.stored, gone)
