-- ===== src/Relay/Client/Verdict.antt =====
-- Which counter a call of Broadcast increments, and which requests it sends, on every branch.
use bundle_broadcaster.Common.{
  ℕ, ◌+◌, ◌≡◌, refl, inl, inr, true, false, List, [], ◌∷◌, replicate, Bool-cases,
}
use mathlib.Core.List.{append-nil}
use bundle_broadcaster.Bundle.{IncomingBundle}
use bundle_broadcaster.Relay.Transport.Retries.{deliver-Stopped, IsLast}
use bundle_broadcaster.Relay.Client.{
  RelayClient, HttpRequest, Effect, failed, Services, Call, is_cooling, exchange, send, broadcast,
}
use bundle_broadcaster.Relay.Client.Paths.{Prepared, send-paths}
use bundle_broadcaster.Relay.Client.Outcomes.{
  Outcome, lost, limited, posts, outcomes-posted, panics-posted, posts-posted, Counted,
  outcome_of_answer, conclude-Counted, conclude-posts,
}

module _ (w : Services) (c : RelayClient) (b : IncomingBundle) where
  pub data Verdict (call : Call) (o : Outcome) (rs : List HttpRequest) : Type 0 where
    skipped : is_cooling c call.now ≡ true → o ≡ limited → rs ≡ [] → Verdict call o rs
    unprepared :
        is_cooling c call.now ≡ false
        → ((r : HttpRequest) → ¬ Prepared w c b r)
        → o ≡ lost
        → rs ≡ []
        → Verdict call o rs
    answered :
        is_cooling c call.now ≡ false
        → (r : HttpRequest) → Prepared w c b r
        → (last : ℕ) → IsLast w.to_lower call.do_request 3 last
        → o ≡ outcome_of_answer (call.do_request last)
        → rs ≡ replicate (last + 1) r
        → Verdict call o rs

  -- What a call of Broadcast with result `p` has done.
  pub record Judged (call : Call) (p : RelayClient × List Effect) : Type 0 where
    pub outcome : Outcome
    pub verdict : Verdict call outcome (posts p.1)
    pub counts : Counted c.relay.name outcome p.1

  failed-Judged :
      (call : Call)
      → is_cooling c call.now ≡ false
      → ((r : HttpRequest) → ¬ Prepared w c b r)
      → Judged call (c, failed c.relay.name ∷ [])
  failed-Judged call cold h = record {
    outcome = lost;
    verdict = unprepared cold h refl refl;
    counts = record { counted = refl; calm = refl };
  }

  -- One outcome is counted for a request that is exchanged, whatever the state of the client.
  pub exchange-Counted :
      (call : Call) (r : HttpRequest)
      → (o : Outcome) × Counted c.relay.name o (exchange w c b call r).1
  unfolding exchange
  exchange-Counted call r =
      let s = deliver-Stopped w.to_lower call.do_request in
      let answer = call.do_request s.last in
      let counts = conclude-Counted w c b call.limited_at answer in
      rw (s.answer, s.made)
        (
          outcome_of_answer answer,
          record {
            counted = rw outcomes-posted counts.counted;
            calm = rw panics-posted counts.calm;
          },
        )

  exchange-Judged :
      (call : Call) (r : HttpRequest)
      → is_cooling c call.now ≡ false
      → Prepared w c b r
      → Judged call (exchange w c b call r)
  unfolding exchange
  exchange-Judged call r cold h =
      let s = deliver-Stopped w.to_lower call.do_request in
      let answer = call.do_request s.last in
      let no_more = conclude-posts w c b call.limited_at answer in
      let counts = conclude-Counted w c b call.limited_at answer in
      rw (s.answer, s.made)
        (record {
          outcome = outcome_of_answer answer;
          verdict =
              answered cold r h s.last s.is_last refl (rw posts-posted (rw no_more (append-nil _)));
          counts = record {
            counted = rw outcomes-posted counts.counted;
            calm = rw panics-posted counts.calm;
          };
        })

  send-Judged : (call : Call) → is_cooling c call.now ≡ false → Judged call (send w c b call)
  send-Judged call cold =
      send-paths w c b call (Judged call) (failed-Judged call cold)
        (λ r h. exchange-Judged call r cold h)

  -- Every call of Broadcast increments exactly one of the counters of sent, failed and rate-limited
  -- bundles, by one, under this relay's name, and never panics. While the relay cools down it counts
  -- the bundle as rate-limited and sends nothing. If the request cannot be built, encoded, signed or
  -- created it counts a failure and sends nothing. Otherwise it sends that one request once or up to
  -- three times, again only after an error worth a retry, and counts by the last answer: sent for a
  -- status from 200 to 299, rate-limited for 429, failed for any other status or an error.
  pub broadcast-Judged : (call : Call) → Judged call (broadcast w c b call)
  unfolding broadcast
  broadcast-Judged call = elim (Bool-cases (is_cooling c call.now)) [
    | inl cooling ↦
        rw (cooling, broadcast)
          (record {
            outcome = limited;
            verdict = skipped cooling refl refl;
            counts = record { counted = refl; calm = refl };
          })
    | inr cold ↦ rw (cold, broadcast) (send-Judged call cold)
  ]
