-- ===== src/Auth/Handler.antt =====
-- The handler of metrics_handler.go, with what it answers in place of the HTML.
use bundle_broadcaster.Common.{
  none, some, [], false, ◌∷◌, String, ℕ, Bool, List, Option, if◌then◌else◌, lookup, ltb, ◌==◌,
}
use bundle_broadcaster.Auth.Guard.{
  AuthGuard, Request, is_locked, record_failed_attempt, clear_attempts, create_session, set_session,
  is_valid_session, client_ip, verify_password,
}

-- `login` has the error and the text of the lock's end; `redirect` sets the session cookie.
pub data Reply : Type 0 where
  metrics : Reply
  login : String → String → Reply
  redirect : String → String → Reply

-- The clock at each place where one request reads it, and what rand.Read gives it.
pub record Moment : Type 0 where
  pub session_check : ℕ
  pub lock_check : ℕ
  pub reset_at : ℕ
  pub lock_at : ℕ
  pub lock_recheck : ℕ
  pub set_at : ℕ
  pub shown_at : ℕ
  pub random : Option (List ℕ)

-- `format` is the method Format of a time.
unfoldable pub get_locked_until : (ℕ → String) → AuthGuard → String → ℕ → String
get_locked_until format a ip now = elim (lookup ip a.attempts) [
  | none ↦ ""
  | some rec ↦ if ltb rec.locked_until now then "" else format rec.locked_until
]

module _ (md5_hex : String → String) (format : ℕ → String) (t : Moment) (r : Request) where
  unfoldable pub show_lock : AuthGuard → String → Reply
  unfolding get_locked_until
  show_lock a error = login error (get_locked_until format a (client_ip r) t.shown_at)

  -- A right password. The error of createSession is dropped.
  unfoldable pub accept : AuthGuard → AuthGuard × Reply
  accept a =
      let session_id = (create_session t.random).0 in
      (set_session (clear_attempts a (client_ip r)) session_id t.set_at, redirect session_id r.path)

  unfoldable pub refuse : AuthGuard → AuthGuard × Reply
  unfolding show_lock
  refuse a =
      let a' = record_failed_attempt a (client_ip r) t.reset_at t.lock_at in
      (
        a',
        if is_locked a' (client_ip r) t.lock_recheck
            then show_lock a' "Too many failed attempts."
            else login "Invalid password." "",
      )

  unfoldable pub post_password : AuthGuard → AuthGuard × Reply
  unfolding accept refuse
  post_password a =
      if is_locked a (client_ip r) t.lock_check
      then (a, show_lock a "")
      else if verify_password md5_hex a r.password
      then accept a
      else refuse a

  unfoldable pub show_login : AuthGuard → AuthGuard × Reply
  unfolding show_lock
  show_login a = (a, if is_locked a (client_ip r) t.lock_check then show_lock a "" else login "" "")

  -- The request's cookie, if it has one, and the session behind it.
  unfoldable pub check_cookie : AuthGuard → Bool × AuthGuard
  check_cookie a = elim r.cookie [
    | none ↦ (false, a)
    | some session_id ↦ is_valid_session a session_id t.session_check
  ]

  unfoldable pub handle_guarded : AuthGuard → AuthGuard × Reply
  handle_guarded a =
      let (valid, a') = check_cookie a in
      if valid
      then (a', metrics)
      else if r.method == "POST"
      then post_password a'
      else show_login a'

  -- With no guard configured everybody sees the metrics.
  unfoldable pub metrics_handler : Option AuthGuard → Option AuthGuard × Reply
  unfolding handle_guarded
  metrics_handler none = (none, metrics)
  metrics_handler (some a) = let (a', reply) = handle_guarded a in (some a', reply)

-- The requests that a guard gets, one after the other.
unfoldable pub run_requests :
    (String → String) → (ℕ → String) → AuthGuard → List (Moment × Request) → AuthGuard
run_requests md5_hex format a [] = a
run_requests md5_hex format a ((t, r) ∷ rest) =
    run_requests md5_hex format (handle_guarded md5_hex format t r a).0 rest
