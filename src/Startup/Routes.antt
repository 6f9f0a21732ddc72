-- ===== src/Startup/Routes.antt =====
-- The HTTP routes of main.go. Of net/http: a ServeMux answers a path that is not clean by a redirect to
-- the clean one, then prefers the pattern that is the path itself, and "/" takes the rest.
use bundle_broadcaster.Common.{String, List, [], ◌∷◌, Option, ◌==◌, if◌then◌else◌, not, ℕ}
use bundle_broadcaster.Auth.Guard.{AuthGuard, Request}
use bundle_broadcaster.Auth.Handler.{Moment, Reply, metrics_handler}

-- The handlers that are registered, and those that are written out in main.
pub data Route : Type 0 where
  ws exposition view root health : Route

unfoldable pub route : String → Route
route path =
    if path == "/ws"
    then ws
    else if path == "/metrics"
    then exposition
    else if path == "/metrics/view"
    then view
    else if path == "/health"
    then health
    else root

-- What a request is answered: by the upgrade of HandleWS, the counters as promhttp writes them, the
-- page or its login form, a redirect (301 by the mux, 302 by main), 404, or 200 and "OK".
pub data Response : Type 0 where
  upgraded : Response
  counters : Response
  page : Reply → Response
  moved : String → Response
  found : String → Response
  not_found : Response
  ok : Response

-- The handler of "/".
unfoldable pub serve_root : String → Response
serve_root path = if not (path == "/") then not_found else found "/metrics/view"

-- `clean` is what the mux takes for the clean form of a path.
module _ (clean : String → String) (md5_hex : String → String) (format : ℕ → String) where
  unfoldable pub serve_route :
      Route → Moment → Request → Option AuthGuard → Option AuthGuard × Response
  unfolding serve_root
  serve_route ws t r guard = (guard, upgraded)
  serve_route exposition t r guard = (guard, counters)
  serve_route view t r guard =
      let (guard', reply) = metrics_handler md5_hex format t r guard in (guard', page reply)
  serve_route root t r guard = (guard, serve_root r.path)
  serve_route health t r guard = (guard, ok)

  unfoldable pub serve : Moment → Request → Option AuthGuard → Option AuthGuard × Response
  serve t r guard =
      if not (clean r.path == r.path)
      then (guard, moved (clean r.path))
      else serve_route (route r.path) t r guard

  -- The requests that the server gets, one after the other.
  unfoldable pub serve_all : Option AuthGuard → List (Moment × Request) → Option AuthGuard
  serve_all guard [] = guard
  serve_all guard ((t, r) ∷ rest) = serve_all (serve t r guard).0 rest
