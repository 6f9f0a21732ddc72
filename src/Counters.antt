-- ===== src/Counters.antt =====
-- metrics.go: the counters of bundles and the histogram of latencies, as functions of what has been
-- done. The counters of a process start at 0.
use bundle_broadcaster.Common.{
  ℕ, zero, suc, ◌+◌, ◌*◌, ◌≡◌, refl, arith, map, String, List, [], ◌∷◌, ◌++◌, length, leb,
  if◌then◌else◌, ◌==◌,
}
use bundle_broadcaster.Relay.Client.{
  Effect, sent, failed, rate_limited, observed, posted, recorded, panicked,
}
use bundle_broadcaster.Relay.Client.Outcomes.{Outcome, outcomes}
use bundle_broadcaster.Server.State.{WsServer}

-- How often something has been counted.
abbrev pub tally : (Effect → ℕ) → List Effect → ℕ
tally f [] = 0
tally f (e ∷ es) = f e + tally f es

-- `WithLabelValues(relay)` picks the counter of one relay.
abbrev pub one_if : String → String → ℕ
one_if relay name = if relay == name then 1 else 0

abbrev sent_by : String → Effect → ℕ
sent_by name (sent relay) = one_if relay name
sent_by name _ = 0

abbrev failed_by : String → Effect → ℕ
failed_by name (failed relay) = one_if relay name
failed_by name _ = 0

abbrev rate_limited_by : String → Effect → ℕ
rate_limited_by name (rate_limited relay) = one_if relay name
rate_limited_by name _ = 0

unfoldable pub bundle_received_total : WsServer → ℕ
bundle_received_total s = length s.received

unfoldable pub bundle_sent_total : String → List Effect → ℕ
bundle_sent_total name = tally (sent_by name)

unfoldable pub bundle_failed_total : String → List Effect → ℕ
bundle_failed_total name = tally (failed_by name)

unfoldable pub bundle_rate_limited_total : String → List Effect → ℕ
bundle_rate_limited_total name = tally (rate_limited_by name)

-- The three counters of one relay together.
abbrev pub counted : String → List Effect → ℕ
counted name es =
    bundle_sent_total name es + bundle_failed_total name es + bundle_rate_limited_total name es

-- The outcomes of one relay.
abbrev pub outcomes_of : String → List (Outcome × String) → ℕ
outcomes_of name [] = 0
outcomes_of name ((o, relay) ∷ os) = one_if relay name + outcomes_of name os

pub counted-outcomes :
    (name : String) (es : List Effect) → counted name es ≡ outcomes_of name (outcomes es)
unfolding bundle_sent_total bundle_failed_total bundle_rate_limited_total
counted-outcomes name [] = refl
counted-outcomes name (sent relay ∷ es) = omega (arith, counted-outcomes name es)
counted-outcomes name (failed relay ∷ es) = omega (arith, counted-outcomes name es)
counted-outcomes name (rate_limited relay ∷ es) = omega (arith, counted-outcomes name es)
counted-outcomes name (observed relay ms ∷ es) = omega (arith, counted-outcomes name es)
counted-outcomes name (posted request ∷ es) = omega (arith, counted-outcomes name es)
counted-outcomes name (recorded event ∷ es) = omega (arith, counted-outcomes name es)
counted-outcomes name (panicked ∷ es) = omega (arith, counted-outcomes name es)

tally-append : (f : Effect → ℕ) (xs ys : List Effect) → tally f (xs ++ ys) ≡ tally f xs + tally f ys
tally-append f [] ys = omega arith
tally-append f (x ∷ xs) ys = omega (arith, tally-append f xs ys)

pub counted-append :
    (name : String) (xs ys : List Effect)
    → counted name (xs ++ ys) ≡ counted name xs + counted name ys
unfolding bundle_sent_total bundle_failed_total bundle_rate_limited_total
counted-append name xs ys = omega (
  arith,
  tally-append (sent_by name) xs ys,
  tally-append (failed_by name) xs ys,
  tally-append (rate_limited_by name) xs ys,
)

-- `ExponentialBuckets(start, factor, count)`
unfoldable pub exponential_buckets : ℕ → ℕ → ℕ → List ℕ
exponential_buckets start factor zero = []
exponential_buckets start factor (suc count) =
    start ∷ exponential_buckets (start * factor) factor count

abbrev latency_buckets : List ℕ
latency_buckets = exponential_buckets 10 2 12

abbrev latency_by : String → ℕ → Effect → ℕ
latency_by name bound (observed relay ms) = if leb ms bound then one_if relay name else 0
latency_by name bound _ = 0

-- Each bucket of RelayLatencyMs with the observations of one relay that are not above its bound.
unfoldable pub relay_latency_ms : String → List Effect → List (ℕ × ℕ)
unfolding exponential_buckets
relay_latency_ms name es = map (λ bound. (bound, tally (latency_by name bound) es)) latency_buckets

last_bucket :
    relay_latency_ms "a" (observed "a" 15 ∷ observed "b" 5 ∷ observed "a" 10000 ∷ [])
    ≡ (10, 0)
      ∷ (20, 1)
      ∷ (40, 1)
      ∷ (80, 1)
      ∷ (160, 1)
      ∷ (320, 1)
      ∷ (640, 1)
      ∷ (1280, 1)
      ∷ (2560, 1)
      ∷ (5120, 1)
      ∷ (10240, 2)
      ∷ (20480, 2)
      ∷ []
unfolding relay_latency_ms
last_bucket = refl
