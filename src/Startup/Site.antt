-- ===== src/Startup/Site.antt =====
-- Who sees the counters on which path.
use bundle_broadcaster.Common.{
  String, ℕ, List, [], ◌∷◌, some, ◌==◌, if◌then◌else◌, true, false, ◌≡◌, ◌≢◌, refl, keep, Bool,
  ◌&&◌, Bool-cases, inl, inr, eq_iff, arith, Option, ℤ, All, ◌↔◌, All-keep, subst,
}
use bundle_broadcaster.Auth.Guard.{AuthGuard, Request, new_auth_guard}
use bundle_broadcaster.Auth.Handler.{Moment, metrics_handler, handle_guarded, run_requests, metrics}
use bundle_broadcaster.Auth.Password.{metrics_need_password}
use bundle_broadcaster.Startup.Routes.{
  Route, ws, exposition, view, root, health, route, serve_route, serve, serve_all, page, serve_root,
  counters,
}

is_other : (s t x : String) → (s == t) ≡ false → (x == s) ≡ true → (x == t) ≡ false
is_other s t x differ same = rw ((eq_iff x s).0 same) differ

-- The patterns name different paths.
route-view : (path : String) → (path == "/metrics/view") ≡ true → route path ≡ view
unfolding route
route-view path h =
    rw
      (
        is_other "/metrics/view" "/ws" path refl h,
        is_other "/metrics/view" "/metrics" path refl h,
        h,
      )
      refl

route-ne-view : (path : String) → (path == "/metrics/view") ≡ false → route path ≢ view
unfolding route
route-ne-view path h e = ground arith

route-exposition : (path : String) → (path == "/metrics") ≡ true → route path ≡ exposition
unfolding route
route-exposition path h = rw (is_other "/metrics" "/ws" path refl h, h) refl

route-ne-exposition : (path : String) → (path == "/metrics") ≡ false → route path ≢ exposition
unfolding route
route-ne-exposition path h e = ground arith

module _ (clean : String → String) (md5_hex : String → String) (format : ℕ → String) where
  -- The requests that reach the handler of the page.
  abbrev at_view : Moment × Request → Bool
  at_view (t, r) = (clean r.path == r.path) && (r.path == "/metrics/view")

  -- Only they change the guard.
  serve_route-guard :
      (p : Route) (t : Moment) (r : Request) (a : AuthGuard)
      → p ≢ view
      → (serve_route clean md5_hex format p t r (some a)).0 ≡ some a
  unfolding serve_route
  serve_route-guard ws t r a h = refl
  serve_route-guard exposition t r a h = refl
  serve_route-guard view t r a h = absurd (h refl)
  serve_route-guard root t r a h = refl
  serve_route-guard health t r a h = refl

  serve-guard :
      (t : Moment) (r : Request) (a : AuthGuard)
      → (serve clean md5_hex format t r (some a)).0
        ≡ (if at_view (t, r) then some (handle_guarded md5_hex format t r a).0 else some a)
  unfolding serve serve_route metrics_handler
  serve-guard t r a = elim (Bool-cases (clean r.path == r.path)) [
    | inr unclean ↦ rw (unclean, serve) refl
    | inl good ↦ elim (Bool-cases (r.path == "/metrics/view")) [
      | inl here ↦ rw (good, here, serve) (rw (route-view r.path here) refl)
      | inr there ↦
          rw (good, there, serve)
            (serve_route-guard (route r.path) t r a (route-ne-view r.path there))
    ]
  ]

  serve_all-guard :
      (rs : List (Moment × Request)) (a : AuthGuard)
      → serve_all clean md5_hex format (some a) rs
        ≡ some (run_requests md5_hex format a (keep at_view rs))
  unfolding serve_all run_requests
  serve_all-guard [] a = refl
  serve_all-guard ((t, r) ∷ rs) a = elim (Bool-cases (at_view (t, r))) [
    | inl here ↦
        rw (serve-guard t r a, here, run_requests)
          (serve_all-guard rs (handle_guarded md5_hex format t r a).0)
    | inr there ↦ rw (serve-guard t r a, there) (serve_all-guard rs a)
  ]

  serve_route-page :
      (p : Route) (t : Moment) (r : Request) (a : AuthGuard)
      → (serve_route clean md5_hex format p t r (some a)).1 ≡ page metrics
      → (handle_guarded md5_hex format t r a).1 ≡ metrics
  unfolding serve_route metrics_handler serve_root
  serve_route-page ws t r a h = cc h
  serve_route-page exposition t r a h = cc h
  serve_route-page view t r a h = cc h
  serve_route-page root t r a h = ground (arith, h)
  serve_route-page health t r a h = cc h

  serve-page :
      (t : Moment) (r : Request) (a : AuthGuard)
      → (serve clean md5_hex format t r (some a)).1 ≡ page metrics
      → (handle_guarded md5_hex format t r a).1 ≡ metrics
  unfolding serve
  serve-page t r a h = elim (Bool-cases (clean r.path == r.path)) [
    | inr unclean ↦ cc (rw (unclean, serve) at h)
    | inl good ↦ serve_route-page (route r.path) t r a (rw (good, serve) at h)
  ]

  serve_route-counters :
      (p : Route) (t : Moment) (r : Request) (guard : Option AuthGuard)
      → (serve_route clean md5_hex format p t r guard).1 ≡ counters
      → p ≡ exposition
  unfolding serve_route serve_root
  serve_route-counters ws t r guard h = cc h
  serve_route-counters exposition t r guard h = refl
  serve_route-counters view t r guard h = cc h
  serve_route-counters root t r guard h = ground (arith, h)
  serve_route-counters health t r guard h = cc h

  -- Which requests are answered by the counters, whatever the guard.
  serve-counters_iff :
      (t : Moment) (r : Request) (guard : Option AuthGuard)
      → ((serve clean md5_hex format t r guard).1 ≡ counters)
        ↔ ((clean r.path ≡ r.path) × (r.path ≡ "/metrics"))
  unfolding serve serve_route
  serve-counters_iff t r guard = (to, from)
    where
      to :
          (serve clean md5_hex format t r guard).1 ≡ counters
          → (clean r.path ≡ r.path) × (r.path ≡ "/metrics")
      to h = elim (Bool-cases (clean r.path == r.path)) [
        | inr unclean ↦ absurd (cc (rw (unclean, serve) at h))
        | inl good ↦ elim (Bool-cases (r.path == "/metrics")) [
          | inl here ↦ ((eq_iff (clean r.path) r.path).0 good, (eq_iff r.path "/metrics").0 here)
          | inr there ↦ absurd (
              route-ne-exposition r.path there
                (serve_route-counters (route r.path) t r guard (rw (good, serve) at h)))
        ]
      ]

      from :
          (clean r.path ≡ r.path) × (r.path ≡ "/metrics")
          → (serve clean md5_hex format t r guard).1 ≡ counters
      from (good, here) =
          rw ((eq_iff (clean r.path) r.path).1 good, serve)
            (rw (route-exposition r.path ((eq_iff r.path "/metrics").1 here)) refl)

  -- With a password configured, and as long as no request to any path has brought one with its hash, no
  -- request to any path is shown the metrics page. But the same counters are the answer to every
  -- request for /metrics, and to no other, whatever it brings: the password does not protect them.
  pub site_needs_password :
      (hash : String) (max_attempts minutes : ℤ) (rs : List (Moment × Request)) (t : Moment)
      (r : Request)
      → All (λ q. md5_hex q.1.password ≢ hash) rs
      → let guard =
          serve_all clean md5_hex format (some (new_auth_guard hash max_attempts minutes)) rs in
        ((serve clean md5_hex format t r guard).1 ≢ page metrics)
        × (((serve clean md5_hex format t r guard).1 ≡ counters)
            ↔ ((clean r.path ≡ r.path) × (r.path ≡ "/metrics")))
  site_needs_password hash max_attempts minutes rs t r h =
      let start = new_auth_guard hash max_attempts minutes in
      let same = serve_all-guard rs start in
      (
        λ shown.
            metrics_need_password md5_hex format hash max_attempts minutes (keep at_view rs) t r
              (All-keep _ at_view rs h)
              (serve-page t r (run_requests md5_hex format start (keep at_view rs))
                (subst (λ g. (serve clean md5_hex format t r g).1 ≡ page metrics) same shown)),
        serve-counters_iff t r (serve_all clean md5_hex format (some start) rs),
      )
