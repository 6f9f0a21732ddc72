-- ===== src/Metrics/Tests.antt =====
-- The page of one counter.
use bundle_broadcaster.Common.{ℕ, [], ◌∷◌, List, some, none, ◌≡◌}
use bundle_broadcaster.Metrics.Parse.{Floats, MetricFamily, parse_metrics}
use bundle_broadcaster.Metrics.Readings.{Shown}
use bundle_broadcaster.Metrics.Page.{parse_metrics-Shown}

abbrev floats : Floats
floats = record { Float = ℕ; to_uint64 = λ x. x; zero_float = 0 }

abbrev families : List (MetricFamily floats)
families =
    record {
      family_name = "bundle_sent_total";
      metric =
          record {
            label = record { name = some "relay"; value = some "quasar" } ∷ [];
            counter = some (some 7);
            histogram = none;
          }
          ∷ [];
    }
    ∷ []

parse_metrics-Shown_example :
    parse_metrics floats families
    ≡ Shown floats
        (record { bundle_received = 0; bundle_sent = []; bundle_failed = []; relay_latency = [] })
        families
parse_metrics-Shown_example = parse_metrics-Shown floats families
