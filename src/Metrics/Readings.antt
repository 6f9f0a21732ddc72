-- ===== src/Metrics/Readings.antt =====
-- What the metrics page shows of the gathered families.
use bundle_broadcaster.Common.{
  ℕ, String, Option, none, some, List, [], ◌∷◌, ◌++◌, ◌==◌, ◌≡◌, ◌∙◌, refl, sym, ap, if◌then◌else◌,
  Option-cases, inl, inr,
}
use mathlib.Core.List.{append_assoc, append-nil}
use bundle_broadcaster.Metrics.Parse.{
  Floats, Metric, Histogram, MetricFamily, RelayMetric, RelayLatencyMetric, MetricsTemplateData,
  counter_value, relay_metric, latency_metric, count_received, add_sent, add_failed, add_latency,
}

abbrev pub flat {ℓ κ} : {A : Type ℓ} {B : Type κ} → (A → List B) → List A → List B
flat f [] = []
flat f (a ∷ rest) = f a ++ flat f rest

module _ (f : Floats) where
  -- The metrics of a family with a name.
  abbrev pub metrics_of : String → MetricFamily f → List (Metric f)
  metrics_of name g = if g.family_name == name then g.metric else []

  abbrev pub reading_of : Metric f → Option f.Float → List (RelayMetric f)
  reading_of m none = []
  reading_of m (some v) = relay_metric f m v ∷ []

  abbrev pub reading : Metric f → List (RelayMetric f)
  reading m = reading_of m (counter_value f m)

  abbrev pub latency_of : Metric f → Option (Histogram f) → List (RelayLatencyMetric f)
  latency_of m none = []
  latency_of m (some h) = latency_metric f m h ∷ []

  abbrev pub latency : Metric f → List (RelayLatencyMetric f)
  latency m = latency_of m m.histogram

  pub add_sent-flat :
      (d : MetricsTemplateData f) (ms : List (Metric f))
      → add_sent f d ms ≡ record d { bundle_sent = d.bundle_sent ++ flat reading ms }
  unfolding add_sent
  add_sent-flat d [] = ap (λ l. record d { bundle_sent = l }) (sym (append-nil d.bundle_sent))
  add_sent-flat d (m ∷ ms) = elim (Option-cases (counter_value f m)) [
    | inl e ↦ rw (e, add_sent) (add_sent-flat d ms)
    | inr (v, e) ↦
        let x : RelayMetric f = relay_metric f m v in
        rw (e, add_sent)
          (add_sent-flat (record d { bundle_sent = d.bundle_sent ++ (x ∷ []) }) ms
            ∙ ap (λ l. record d { bundle_sent = l })
                (append_assoc d.bundle_sent (x ∷ []) (flat reading ms)))
  ]

  pub add_failed-flat :
      (d : MetricsTemplateData f) (ms : List (Metric f))
      → add_failed f d ms ≡ record d { bundle_failed = d.bundle_failed ++ flat reading ms }
  unfolding add_failed
  add_failed-flat d [] = ap (λ l. record d { bundle_failed = l }) (sym (append-nil d.bundle_failed))
  add_failed-flat d (m ∷ ms) = elim (Option-cases (counter_value f m)) [
    | inl e ↦ rw (e, add_failed) (add_failed-flat d ms)
    | inr (v, e) ↦
        let x : RelayMetric f = relay_metric f m v in
        rw (e, add_failed)
          (add_failed-flat (record d { bundle_failed = d.bundle_failed ++ (x ∷ []) }) ms
            ∙ ap (λ l. record d { bundle_failed = l })
                (append_assoc d.bundle_failed (x ∷ []) (flat reading ms)))
  ]

  pub add_latency-flat :
      (d : MetricsTemplateData f) (ms : List (Metric f))
      → add_latency f d ms ≡ record d { relay_latency = d.relay_latency ++ flat latency ms }
  unfolding add_latency
  add_latency-flat d [] =
      ap (λ l. record d { relay_latency = l }) (sym (append-nil d.relay_latency))
  add_latency-flat d (m ∷ ms) = elim (Option-cases (m.histogram)) [
    | inl e ↦ rw (e, add_latency) (add_latency-flat d ms)
    | inr (v, e) ↦
        let x : RelayLatencyMetric f = latency_metric f m v in
        rw (e, add_latency)
          (add_latency-flat (record d { relay_latency = d.relay_latency ++ (x ∷ []) }) ms
            ∙ ap (λ l. record d { relay_latency = l })
                (append_assoc d.relay_latency (x ∷ []) (flat latency ms)))
  ]

  -- The count after some metrics: the last value, if there is one.
  abbrev value_or : ℕ → Option f.Float → ℕ
  value_or n none = n
  value_or n (some v) = f.to_uint64 v

  abbrev pub last_value : ℕ → List (Metric f) → ℕ
  last_value n [] = n
  last_value n (m ∷ ms) = last_value (value_or n (counter_value f m)) ms

  pub count_received-last_value :
      (d : MetricsTemplateData f) (ms : List (Metric f))
      → count_received f d ms ≡ record d { bundle_received = last_value d.bundle_received ms }
  unfolding count_received
  count_received-last_value d [] = refl
  count_received-last_value d (m ∷ ms) = elim (Option-cases (counter_value f m)) [
    | inl e ↦ rw (e, count_received) (count_received-last_value d ms)
    | inr (v, e) ↦
        rw (e, count_received)
          (count_received-last_value (record d { bundle_received = f.to_uint64 v }) ms)
  ]

  -- The page after some families.
  abbrev pub Shown : MetricsTemplateData f → List (MetricFamily f) → MetricsTemplateData f
  Shown d gs = record {
    bundle_received = last_value d.bundle_received (flat (metrics_of "bundle_received_total") gs);
    bundle_sent = d.bundle_sent ++ flat reading (flat (metrics_of "bundle_sent_total") gs);
    bundle_failed = d.bundle_failed ++ flat reading (flat (metrics_of "bundle_failed_total") gs);
    relay_latency = d.relay_latency ++ flat latency (flat (metrics_of "relay_latency_ms") gs);
  }
