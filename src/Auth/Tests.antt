-- ===== src/Auth/Tests.antt =====
-- The guard on sample requests.
use bundle_broadcaster.Common.{
  String, ℕ, [], ◌∷◌, none, some, ◌≡◌, ◌≢◌, ◌≤◌, ◌+◌, ◌↔◌, refl, arith, pos, false, lookup,
  encode_hex, eq_iff, true,
}
use bundle_broadcaster.Auth.Guard.{
  AuthGuard, Request, new_auth_guard, is_locked, create_session, client_ip, session_lifetime,
  verify_password,
}
use bundle_broadcaster.Auth.Handler.{
  Moment, handle_guarded, run_requests, metrics, redirect, post_password, check_cookie, accept,
}
use bundle_broadcaster.Auth.Access.{session_after_login, empty_session}
use bundle_broadcaster.Auth.Password.{metrics_need_password}
use bundle_broadcaster.Auth.Lockout.{is_locked-run_requests}

-- A hash that is no hash.
abbrev md5 : String → String
md5 s = s

abbrev clock : ℕ → String
clock t = "then"

abbrev noon : Moment
noon = record {
  session_check = 1000;
  lock_check = 1001;
  reset_at = 1002;
  lock_at = 1003;
  lock_recheck = 1004;
  set_at = 1005;
  shown_at = 1006;
  random = some (171 ∷ 205 ∷ []);
}

-- As noon, with an error of rand.Read.
abbrev dry_noon : Moment
dry_noon = record noon { random = none }

abbrev login_with : String → Request
login_with password = record {
  method = "POST";
  path = "/metrics/view";
  forwarded_for = "";
  remote_addr = "10.0.0.1:4000";
  cookie = none;
  password = password;
}

abbrev visit_with : String → Request
visit_with id = record (login_with "") { method = "GET"; cookie = some id }

abbrev guard : AuthGuard
guard = record {
  password_hash = "secret";
  max_attempts = 5;
  lockout_minutes = 15;
  sessions = [];
  attempts = [];
}

abbrev strict_guard : AuthGuard
strict_guard = record guard { max_attempts = 1 }

logged_in :
    (handle_guarded md5 clock noon (login_with "secret") guard).1 ≡ redirect "abcd" "/metrics/view"
unfolding handle_guarded check_cookie post_password is_locked verify_password accept create_session
    encode_hex lookup client_ip
logged_in = refl

session_after_login_example :
    ("abcd" ≡ (create_session noon.random).0)
    × (md5 "secret" ≡ guard.password_hash)
    × (((handle_guarded md5 clock noon
            (visit_with "abcd")
            (handle_guarded md5 clock noon (login_with "secret") guard).0).1
          ≡ metrics)
        ↔ (noon.session_check ≤ noon.set_at + session_lifetime))
session_after_login_example =
    session_after_login md5 clock noon noon (login_with "secret") (visit_with "abcd") guard "abcd"
      "/metrics/view" logged_in refl

logged_in_dry :
    (handle_guarded md5 clock dry_noon (login_with "secret") guard).1 ≡ redirect "" "/metrics/view"
unfolding handle_guarded check_cookie post_password is_locked verify_password accept create_session
    lookup client_ip
logged_in_dry = refl

empty_session_example :
    (handle_guarded md5 clock noon
      (visit_with "")
      (handle_guarded md5 clock dry_noon (login_with "secret") guard).0).1
    ≡ metrics
empty_session_example =
    empty_session md5 clock dry_noon noon (login_with "secret") (visit_with "") guard ""
      "/metrics/view" logged_in_dry refl refl (omega arith)

metrics_need_password_example :
    (handle_guarded md5 clock noon (visit_with "abcd") (
      run_requests md5 clock
        (new_auth_guard "secret" (pos 5) (pos 15))
        ((noon, login_with "guess") ∷ []))).1
    ≢ metrics
metrics_need_password_example =
    metrics_need_password md5 clock "secret" (pos 5) (pos 15) ((noon, login_with "guess") ∷ []) noon
      (visit_with "abcd") (guess_wrong, tt)
  where
    guess_wrong : ◌≢◌ {A = String} "guess" "secret"
    guess_wrong e = let h : false ≡ true = (eq_iff "guess" "secret").1 e in cc h

-- Three wrong passwords with the number of attempts set to two.
is_locked-run_requests_example :
    is_locked
      (run_requests md5 clock
        (new_auth_guard "secret" (pos 2) (pos 15))
        ((noon, login_with "a") ∷ (noon, login_with "b") ∷ (noon, login_with "c") ∷ []))
      "10.0.0.1:4000"
      1010
    ≡ false
is_locked-run_requests_example =
    is_locked-run_requests md5 clock "secret" (pos 2) (pos 15)
      ((noon, login_with "a") ∷ (noon, login_with "b") ∷ (noon, login_with "c") ∷ [])
      "10.0.0.1:4000" 1010 (λ e. omega (arith, e)) (omega arith, (omega arith, (omega arith, tt)))
