-- ===== src/Metrics/Page.antt =====
-- The metrics page as a whole.
use bundle_broadcaster.Common.{
  ℕ, String, true, false, List, [], ◌∷◌, ◌++◌, ◌==◌, ◌≡◌, ◌∙◌, refl, sym, ap, eq_iff, Bool-cases,
  inl, inr,
}
use mathlib.Core.List.{append_assoc, append-nil}
use bundle_broadcaster.Metrics.Parse.{
  Floats, Metric, MetricFamily, MetricsTemplateData, add_family, add_families, parse_metrics,
}
use bundle_broadcaster.Metrics.Readings.{
  flat, metrics_of, reading, latency, last_value, Shown, add_sent-flat, add_failed-flat,
  add_latency-flat, count_received-last_value,
}

flat-append {ℓ κ} :
    {A : Type ℓ} {B : Type κ} (f : A → List B) (xs ys : List A)
    → flat f (xs ++ ys) ≡ flat f xs ++ flat f ys
flat-append f [] ys = refl
flat-append f (x ∷ xs) ys =
    ap (λ l. f x ++ l) (flat-append f xs ys) ∙ sym (append_assoc (f x) (flat f xs) (flat f ys))

-- A text that is one name is not another one.
is_other : (s t x : String) → (s == t) ≡ false → (x == s) ≡ true → (x == t) ≡ false
is_other s t x differ same = rw ((eq_iff x s).0 same) differ

module _ (f : Floats) where
  add_family-Shown :
      (d : MetricsTemplateData f) (g : MetricFamily f) → add_family f d g ≡ Shown f d (g ∷ [])
  unfolding add_family
  add_family-Shown d g = elim (Bool-cases (g.family_name == "bundle_received_total")) [
    | inl a ↦
        rw
          (
            a,
            add_family,
            is_other "bundle_received_total" "bundle_sent_total" _ refl a,
            is_other "bundle_received_total" "bundle_failed_total" _ refl a,
            is_other "bundle_received_total" "relay_latency_ms" _ refl a,
          )
          (rw
            (
              append-nil d.bundle_sent,
              append-nil d.bundle_failed,
              append-nil d.relay_latency,
              append-nil g.metric,
            )
            (count_received-last_value f d g.metric))
    | inr a ↦ elim (Bool-cases (g.family_name == "bundle_sent_total")) [
      | inl b ↦
          rw
            (
              a,
              b,
              add_family,
              is_other "bundle_sent_total" "bundle_failed_total" _ refl b,
              is_other "bundle_sent_total" "relay_latency_ms" _ refl b,
            )
            (rw (append-nil d.bundle_failed, append-nil d.relay_latency, append-nil g.metric)
              (add_sent-flat f d g.metric))
      | inr b ↦ elim (Bool-cases (g.family_name == "bundle_failed_total")) [
        | inl e ↦
            rw (a, b, e, add_family, is_other "bundle_failed_total" "relay_latency_ms" _ refl e)
              (rw (append-nil d.bundle_sent, append-nil d.relay_latency, append-nil g.metric)
                (add_failed-flat f d g.metric))
        | inr e ↦ elim (Bool-cases (g.family_name == "relay_latency_ms")) [
          | inl k ↦
              rw (a, b, e, k, add_family)
                (rw (append-nil d.bundle_sent, append-nil d.bundle_failed, append-nil g.metric)
                  (add_latency-flat f d g.metric))
          | inr k ↦
              rw (a, b, e, k, add_family)
                (rw
                  (append-nil d.bundle_sent, append-nil d.bundle_failed, append-nil d.relay_latency)
                  refl)
        ]
      ]
    ]
  ]

  last_value-append :
      (xs ys : List (Metric f)) (n : ℕ)
      → last_value f n (xs ++ ys) ≡ last_value f (last_value f n xs) ys
  last_value-append [] ys n = refl
  last_value-append (x ∷ xs) ys n = last_value-append xs ys _

  grow :
      {B : Type 0} (h : Metric f → List B) (l : List B) (xs ys : List (Metric f))
      → (l ++ flat h (xs ++ [])) ++ flat h ys ≡ l ++ flat h (xs ++ ys)
  grow h l xs ys = rw (append-nil xs, flat-append h xs ys) (append_assoc l (flat h xs) (flat h ys))

  grow_value :
      (n : ℕ) (xs ys : List (Metric f))
      → last_value f (last_value f n (xs ++ [])) ys ≡ last_value f n (xs ++ ys)
  grow_value n xs ys = rw (append-nil xs) (sym (last_value-append xs ys n))

  -- What one family adds, the others add to.
  Shown-cons :
      (d : MetricsTemplateData f) (g : MetricFamily f) (gs : List (MetricFamily f))
      → Shown f (Shown f d (g ∷ [])) gs ≡ Shown f d (g ∷ gs)
  Shown-cons d g gs = λ i. record {
    bundle_received =
        grow_value d.bundle_received (metrics_of f "bundle_received_total" g)
          (flat (metrics_of f "bundle_received_total") gs) i;
    bundle_sent =
        grow (reading f) d.bundle_sent (metrics_of f "bundle_sent_total" g)
          (flat (metrics_of f "bundle_sent_total") gs) i;
    bundle_failed =
        grow (reading f) d.bundle_failed (metrics_of f "bundle_failed_total" g)
          (flat (metrics_of f "bundle_failed_total") gs) i;
    relay_latency =
        grow (latency f) d.relay_latency (metrics_of f "relay_latency_ms" g)
          (flat (metrics_of f "relay_latency_ms") gs) i;
  }

  add_families-Shown :
      (d : MetricsTemplateData f) (gs : List (MetricFamily f)) → add_families f d gs ≡ Shown f d gs
  unfolding add_families
  add_families-Shown d [] =
      rw (append-nil d.bundle_sent, append-nil d.bundle_failed, append-nil d.relay_latency) refl
  add_families-Shown d (g ∷ gs) =
      add_families-Shown (add_family f d g) gs
      ∙ ap (λ e. Shown f e gs) (add_family-Shown d g)
      ∙ Shown-cons d g gs

-- The page lists, for every family of its name and in the order of the families, each metric of sent
-- and failed bundles that has a value and each of the latency that has a histogram, none twice and no
-- other; the count of received bundles is the last value of its families, 0 if there is none.
pub parse_metrics-Shown :
    (f : Floats) (gs : List (MetricFamily f))
    → parse_metrics f gs
      ≡ Shown f
          (record { bundle_received = 0; bundle_sent = []; bundle_failed = []; relay_latency = [] })
          gs
unfolding parse_metrics
parse_metrics-Shown f gs = add_families-Shown f _ gs
