-- ===== src/Metrics/Parse.antt =====
-- parseMetrics and getLabel. A float64 is an element of `Float`, with its conversion to uint64 and 0.
use bundle_broadcaster.Common.{
  ℕ, String, Bool, false, Option, none, some, List, [], ◌∷◌, ◌++◌, ◌==◌, if◌then◌else◌,
}

-- dto.LabelPair: both pointers may be nil.
pub record LabelPair : Type 0 where
  pub name : Option String
  pub value : Option String

pub record Floats : Type 1 where
  pub Float : Type 0
  pub to_uint64 : Float → ℕ
  pub zero_float : Float

module _ (f : Floats) where
  pub record Histogram : Type 0 where
    pub sample_count : Option ℕ
    pub sample_sum : Option f.Float

  -- dto.Metric. The counter holds its value; nil at either place is `none`.
  pub record Metric : Type 0 where
    pub label : List LabelPair
    pub counter : Option (Option f.Float)
    pub histogram : Option Histogram

  pub record MetricFamily : Type 0 where
    pub family_name : String
    pub metric : List Metric

  pub record RelayMetric : Type 0 where
    pub relay : String
    pub value : ℕ

  pub record RelayLatencyMetric : Type 0 where
    pub relay : String
    pub count : ℕ
    pub sum : f.Float

  -- metricsTemplateData, without the time of the page.
  pub record MetricsTemplateData : Type 0 where
    pub bundle_received : ℕ
    pub bundle_sent : List RelayMetric
    pub bundle_failed : List RelayMetric
    pub relay_latency : List RelayLatencyMetric

  abbrev is_text : Option String → String → Bool
  is_text none name = false
  is_text (some s) name = s == name

  -- The loop of getLabel.
  unfoldable pub find_label : List LabelPair → String → String
  find_label [] name = ""
  find_label (l ∷ ls) name =
      let rest = find_label ls name in
      elim l.value [ none ↦ rest | some v ↦ if is_text l.name name then v else rest ]

  unfoldable pub get_label : Metric → String → String
  unfolding find_label
  get_label m name = find_label m.label name

  -- `m.Counter != nil && m.Counter.Value != nil`, and the value.
  abbrev pub counter_value : Metric → Option f.Float
  counter_value m = elim m.counter [ none ↦ none | some value ↦ value ]

  abbrev pub or_zero {ℓ} : {A : Type ℓ} → A → Option A → A
  or_zero a0 none = a0
  or_zero a0 (some a) = a

  unfoldable pub count_received : MetricsTemplateData → List Metric → MetricsTemplateData
  count_received d [] = d
  count_received d (m ∷ ms) = elim (counter_value m) [
    | none ↦ count_received d ms
    | some v ↦ count_received (record d { bundle_received = f.to_uint64 v }) ms
  ]

  abbrev pub relay_metric : Metric → f.Float → RelayMetric
  relay_metric m v = record { relay = get_label m "relay"; value = f.to_uint64 v }

  unfoldable pub add_sent : MetricsTemplateData → List Metric → MetricsTemplateData
  unfolding get_label
  add_sent d [] = d
  add_sent d (m ∷ ms) = elim (counter_value m) [
    | none ↦ add_sent d ms
    | some v ↦ add_sent (record d { bundle_sent = d.bundle_sent ++ (relay_metric m v ∷ []) }) ms
  ]

  unfoldable pub add_failed : MetricsTemplateData → List Metric → MetricsTemplateData
  unfolding get_label
  add_failed d [] = d
  add_failed d (m ∷ ms) = elim (counter_value m) [
    | none ↦ add_failed d ms
    | some v ↦
        add_failed (record d { bundle_failed = d.bundle_failed ++ (relay_metric m v ∷ []) }) ms
  ]

  abbrev pub latency_metric : Metric → Histogram → RelayLatencyMetric
  latency_metric m h = record {
    relay = get_label m "relay";
    count = or_zero 0 h.sample_count;
    sum = or_zero f.zero_float h.sample_sum;
  }

  unfoldable pub add_latency : MetricsTemplateData → List Metric → MetricsTemplateData
  unfolding get_label
  add_latency d [] = d
  add_latency d (m ∷ ms) = elim m.histogram [
    | none ↦ add_latency d ms
    | some h ↦
        add_latency (record d { relay_latency = d.relay_latency ++ (latency_metric m h ∷ []) }) ms
  ]

  -- The switch on the name of a family.
  unfoldable pub add_family : MetricsTemplateData → MetricFamily → MetricsTemplateData
  unfolding count_received add_sent add_failed add_latency
  add_family d family =
      if family.family_name == "bundle_received_total"
      then count_received d family.metric
      else if family.family_name == "bundle_sent_total"
      then add_sent d family.metric
      else if family.family_name == "bundle_failed_total"
      then add_failed d family.metric
      else if family.family_name == "relay_latency_ms"
      then add_latency d family.metric
      else d

  unfoldable pub add_families : MetricsTemplateData → List MetricFamily → MetricsTemplateData
  unfolding add_family
  add_families d [] = d
  add_families d (family ∷ families) = add_families (add_family d family) families

  unfoldable pub parse_metrics : List MetricFamily → MetricsTemplateData
  unfolding add_families
  parse_metrics families =
      add_families
        (record { bundle_received = 0; bundle_sent = []; bundle_failed = []; relay_latency = [] })
        families
