-- ===== src/Auth/Lockout.antt =====
-- The lock after failed attempts.
use bundle_broadcaster.Auth.Guard.{
  AuthGuard, AttemptRecord, Request, new_auth_guard, is_locked, record_failed_attempt,
  clear_attempts, set_session, is_valid_session, client_ip, verify_password, or_fresh,
  reset_if_past, count_attempt, lock_end,
}
use bundle_broadcaster.Common.{
  pos, negsuc, refl, arith, String, ◌≤◌, lookup, ℕ, ℤ, to_ℕ, ◌<◌, ◌≡◌, ◌≢◌, if◌then◌else◌,
  is_positive, true, false, inl, inr, ◌==◌, ◌⊎◌, insert, remove, lookup-insert, lookup-remove,
  Bool-cases, [], ◌∷◌, List, Option-cases, All, ◌*◌, ◌+◌,
}
use text.Mathlib.TextPositions.{eq_refl}
use bundle_broadcaster.Auth.Handler.{
  Moment, post_password, check_cookie, handle_guarded, run_requests, refuse, show_lock, show_login,
}

-- No address has ever been locked, and one failure is not enough to lock it.
pub record NeverLocked (a : AuthGuard) : Type 0 where
  pub several : 2 ≤ a.max_attempts
  pub unlocked : (ip : String) → (or_fresh (lookup ip a.attempts)).locked_until ≡ 0

new_auth_guard-NeverLocked :
    (hash : String) (n m : ℤ) → to_ℕ n ≢ 1 → NeverLocked (new_auth_guard hash n m)
unfolding new_auth_guard
new_auth_guard-NeverLocked hash n m h = record {
  several = several n h;
  unlocked = λ ip. unfold lookup in refl;
}
  where
    several : (n : ℤ) → to_ℕ n ≢ 1 → 2 ≤ (if is_positive n then to_ℕ n else 5)
    several (pos k) h = ground arith
    several (negsuc k) h = omega arith

count_attempt-unlocked :
    (a : AuthGuard) (rec : AttemptRecord) (reset_at lock_at : ℕ)
    → 0 < reset_at
    → 2 ≤ a.max_attempts
    → rec.locked_until ≡ 0
    → (count_attempt a (reset_if_past rec reset_at) lock_at).locked_until ≡ 0
unfolding count_attempt reset_if_past
count_attempt-unlocked a rec reset_at lock_at h k e = ground arith

record_failed_attempt-NeverLocked :
    (a : AuthGuard) (ip : String) (reset_at lock_at : ℕ)
    → 0 < reset_at
    → NeverLocked a
    → NeverLocked (record_failed_attempt a ip reset_at lock_at)
unfolding record_failed_attempt
record_failed_attempt-NeverLocked a ip reset_at lock_at h v = record {
  several = v.several;
  unlocked = λ ip'. unlocked ip' (Bool-cases (ip == ip'));
}
  where
    counted : AttemptRecord
    counted = count_attempt a (reset_if_past (or_fresh (lookup ip a.attempts)) reset_at) lock_at

    unlocked :
        (ip' : String)
        → (((ip == ip') ≡ true) ⊎ ((ip == ip') ≡ false))
        → (or_fresh (lookup ip' (insert ip counted a.attempts))).locked_until ≡ 0
    unlocked ip' (inl same) =
        rw (lookup-insert ip ip' counted a.attempts, same)
          (count_attempt-unlocked a _ reset_at lock_at h v.several (v.unlocked ip))
    unlocked ip' (inr other) = rw (lookup-insert ip ip' counted a.attempts, other) (v.unlocked ip')

clear_attempts-NeverLocked :
    (a : AuthGuard) (ip : String) → NeverLocked a → NeverLocked (clear_attempts a ip)
unfolding clear_attempts
clear_attempts-NeverLocked a ip v = record {
  several = v.several;
  unlocked = λ ip'. unlocked ip' (Bool-cases (ip == ip'));
}
  where
    unlocked :
        (ip' : String)
        → (((ip == ip') ≡ true) ⊎ ((ip == ip') ≡ false))
        → (or_fresh (lookup ip' (remove ip a.attempts))).locked_until ≡ 0
    unlocked ip' (inl same) = rw (lookup-remove ip ip' a.attempts, same)
    unlocked ip' (inr other) = rw (lookup-remove ip ip' a.attempts, other) (v.unlocked ip')

is_locked_of_NeverLocked :
    (a : AuthGuard) (ip : String) (now : ℕ) → NeverLocked a → is_locked a ip now ≡ false
unfolding is_locked
is_locked_of_NeverLocked a ip now v = ground (arith, v.unlocked ip)

set_session-NeverLocked :
    (a : AuthGuard) (id : String) (now : ℕ) → NeverLocked a → NeverLocked (set_session a id now)
unfolding set_session
set_session-NeverLocked a id now v = record { several = v.several; unlocked = v.unlocked }

record_failed_attempt-locks :
    (a : AuthGuard) (ip : String) (reset_at lock_at now : ℕ)
    → a.max_attempts ≡ 1
    → a.lockout_minutes * 60000000000 < 9223372036854775808
    → now < lock_at + a.lockout_minutes * 60000000000
    → is_locked (record_failed_attempt a ip reset_at lock_at) ip now ≡ true
unfolding is_locked record_failed_attempt count_attempt lock_end
record_failed_attempt-locks a ip reset_at lock_at now one fits early = ground (
  arith,
  lookup-insert ip ip
      (count_attempt a (reset_if_past (or_fresh (lookup ip a.attempts)) reset_at) lock_at)
      a.attempts,
  eq_refl ip,
)

same-NeverLocked :
    (a a' : AuthGuard)
    → a'.attempts ≡ a.attempts
    → a'.max_attempts ≡ a.max_attempts
    → NeverLocked a
    → NeverLocked a'
same-NeverLocked a a' e e' v = record {
  several = rw e' v.several;
  unlocked = λ ip. rw e (v.unlocked ip);
}

is_valid_session-attempts :
    (a : AuthGuard) (id : String) (now : ℕ)
    → ((is_valid_session a id now).1.attempts ≡ a.attempts)
      × ((is_valid_session a id now).1.max_attempts ≡ a.max_attempts)
unfolding is_valid_session
is_valid_session-attempts a id now = ground arith

module _ (md5_hex : String → String) (format : ℕ → String) (t : Moment) (r : Request) where
  check_cookie-NeverLocked :
      (a : AuthGuard) → NeverLocked a → NeverLocked (check_cookie md5_hex format t r a).1
  unfolding check_cookie
  check_cookie-NeverLocked a v = elim (Option-cases r.cookie) [
    | inl e ↦ rw (e, check_cookie) v
    | inr (id, e) ↦
        let (kept, capped) = is_valid_session-attempts a id t.session_check in
        rw (e, check_cookie) (same-NeverLocked a _ kept capped v)
  ]

  post_password-NeverLocked :
      (a : AuthGuard)
      → 0 < t.reset_at
      → NeverLocked a
      → NeverLocked (post_password md5_hex format t r a).0
  unfolding post_password
  post_password-NeverLocked a h v =
      rw (is_locked_of_NeverLocked a (client_ip r) t.lock_check v, post_password)
        (elim (Bool-cases (verify_password md5_hex a r.password)) [
          | inl right ↦
              rw right (
                set_session-NeverLocked _ _ t.set_at (clear_attempts-NeverLocked a (client_ip r) v))
          | inr wrong ↦
              rw wrong (record_failed_attempt-NeverLocked a (client_ip r) t.reset_at t.lock_at h v)
        ])

  handle_guarded-NeverLocked :
      (a : AuthGuard)
      → 0 < t.reset_at
      → NeverLocked a
      → NeverLocked (handle_guarded md5_hex format t r a).0
  unfolding handle_guarded show_login
  handle_guarded-NeverLocked a h v =
      let v' = check_cookie-NeverLocked a v in
      elim (Bool-cases (check_cookie md5_hex format t r a).0) [
        | inl valid ↦ rw valid v'
        | inr invalid ↦ elim (Bool-cases (r.method == "POST")) [
          | inl post ↦ rw (invalid, post) (post_password-NeverLocked _ h v')
          | inr other ↦ rw (invalid, other) v'
        ]
      ]

run_requests-NeverLocked :
    (md5_hex : String → String) (format : ℕ → String) (a : AuthGuard) (rs : List (Moment × Request))
    → All (λ q. 0 < q.0.reset_at) rs
    → NeverLocked a
    → NeverLocked (run_requests md5_hex format a rs)
unfolding run_requests
run_requests-NeverLocked md5_hex format a [] h v = v
run_requests-NeverLocked md5_hex format a ((t, r) ∷ rs) h v =
    run_requests-NeverLocked md5_hex format (handle_guarded md5_hex format t r a).0 rs h.1
      (handle_guarded-NeverLocked md5_hex format t r a h.0 v)

-- The lock does not work: unless the configured number of attempts is 1, no history of requests,
-- however many wrong passwords it holds, ever locks an address, at any time, as long as the clock is
-- past the zero time.
pub is_locked-run_requests :
    (md5_hex : String → String) (format : ℕ → String) (hash : String) (max_attempts minutes : ℤ)
    (rs : List (Moment × Request)) (ip : String) (now : ℕ)
    → to_ℕ max_attempts ≢ 1
    → All (λ q. 0 < q.0.reset_at) rs
    → is_locked (run_requests md5_hex format (new_auth_guard hash max_attempts minutes) rs) ip now
      ≡ false
is_locked-run_requests md5_hex format hash max_attempts minutes rs ip now h past =
    is_locked_of_NeverLocked _ ip now (
      run_requests-NeverLocked md5_hex format _ rs past
        (new_auth_guard-NeverLocked hash max_attempts minutes h))

module _ (md5_hex : String → String) (format : ℕ → String) where
  -- With the number of attempts set to 1 a wrong password locks its address until the lock's length has
  -- passed, unless that length is past the range of a duration: until then a POST from the address with
  -- no valid session is answered by the login page and changes nothing, whatever its password.
  pub locked_after_one :
      (a : AuthGuard) (t t' : Moment) (r r' : Request)
      → a.max_attempts ≡ 1
      → a.lockout_minutes * 60000000000 < 9223372036854775808
      → client_ip r' ≡ client_ip r
      → t'.lock_check < t.lock_at + a.lockout_minutes * 60000000000
      → let a' = (refuse md5_hex format t r a).0 in
        post_password md5_hex format t' r' a' ≡ (a', show_lock md5_hex format t' r' a' "")
  unfolding post_password refuse
  locked_after_one a t t' r r' one fits same early = rw (
    same,
    record_failed_attempt-locks a (client_ip r) t.reset_at t.lock_at t'.lock_check one fits early,
  )
