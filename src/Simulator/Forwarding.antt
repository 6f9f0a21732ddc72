-- ===== src/Simulator/Forwarding.antt =====
-- Which simulation results reach the tracker.
use bundle_broadcaster.Common.{
  ℕ, ◌+◌, ◌≡◌, inl, inr, true, none, some, List, [], ◌∷◌, All, Bool-cases, Option-cases, refl,
  arith, eq_iff, subst,
}
use bundle_broadcaster.Bundle.{IncomingBundle}
use bundle_broadcaster.Tracker.Events.{SimEvent}
use bundle_broadcaster.Manager.Build.{Simulator}
use bundle_broadcaster.Simulator.Run.{
  CallBundleTxResult, CallBundleResult, CallBundleResponse, SimServices, SimEffect, forwarded,
  call_bundle, find_reverted, sim_event_of, summarise, conclude_call, simulate_async,
}

abbrev pub events : List SimEffect → List SimEvent
events [] = []
events (forwarded e ∷ rest) = e ∷ events rest
events (_ ∷ rest) = events rest

abbrev pub NoError : CallBundleTxResult → Type 0
NoError tx = tx.error ≡ ""

module _ (w : SimServices) (s : Simulator) (b : IncomingBundle) where
  -- The call was answered by a result in which every transaction went through, and there is a tracker.
  pub record Succeeded (e : SimEvent) : Type 0 where
    pub response : CallBundleResponse
    pub r : CallBundleResult
    pub called : call_bundle w s b ≡ some response
    pub accepted : response.error ≡ none
    pub filled : response.result ≡ some r
    pub clean : All NoError r.results
    pub tracked : s.tracked ≡ true
    pub event : e ≡ sim_event_of w s b r

  find_reverted-clean :
      (i : ℕ) (txs : List CallBundleTxResult) → find_reverted w s b i txs ≡ none → All NoError txs
  unfolding find_reverted
  find_reverted-clean i [] h = tt
  find_reverted-clean i (tx ∷ txs) h =
      ground (arith, eq_iff tx.error "", find_reverted-clean (i + 1) txs)

  find_reverted_dirty :
      (i : ℕ) (txs : List CallBundleTxResult) (hit : ℕ × CallBundleTxResult)
      → find_reverted w s b i txs ≡ some hit
      → ¬ All NoError txs
  unfolding find_reverted
  find_reverted_dirty i [] hit h clean = cc
  find_reverted_dirty i (tx ∷ txs) hit h clean = ground (
    arith,
    eq_iff tx.error "",
    clean.0,
    λ (k : find_reverted w s b (i + 1) txs ≡ some hit).
        find_reverted_dirty (i + 1) txs hit k clean.1,
  )

  -- What is forwarded, if anything.
  pub data Forwards (effects : List SimEffect) : Type 0 where
    forwards : (e : SimEvent) → Succeeded e → events effects ≡ e ∷ [] → Forwards effects
    keeps : ((e : SimEvent) → ¬ Succeeded e) → events effects ≡ [] → Forwards effects

  summarise-Forwards :
      (response : CallBundleResponse) (r : CallBundleResult)
      → call_bundle w s b ≡ some response
      → response.error ≡ none
      → response.result ≡ some r
      → All NoError r.results
      → Forwards (summarise w s b r)
  unfolding summarise
  summarise-Forwards response r called accepted filled clean = elim (Bool-cases s.tracked) [
    | inl tracked ↦
        forwards (sim_event_of w s b r)
          (record {
            response = response;
            r = r;
            called = called;
            accepted = accepted;
            filled = filled;
            clean = clean;
            tracked = tracked;
            event = refl;
          })
          (ground arith)
    | inr untracked ↦ keeps (λ e h. cc (h.tracked)) (ground arith)
  ]

  clean_of :
      (response : CallBundleResponse) (r : CallBundleResult)
      → call_bundle w s b ≡ some response
      → response.result ≡ some r
      → (e : SimEvent) → Succeeded e
      → All NoError r.results
  clean_of response r called filled e h =
      let same : h.response ≡ response = cc (h.called) in
      let same_r : h.r ≡ r = cc (h.filled) in subst (λ q. All NoError q.results) same_r h.clean

  conclude_call-Forwards :
      (response : CallBundleResponse)
      → call_bundle w s b ≡ some response
      → Forwards (conclude_call w s b response)
  unfolding conclude_call
  conclude_call-Forwards response called = elim (Option-cases response.error) [
    | inr (e, refused) ↦ rw refused (keeps (λ e' h. cc (h.called, h.accepted)) refl)
    | inl accepted ↦ elim (Option-cases response.result) [
      | inl missing ↦ rw (accepted, missing) (keeps (λ e h. cc (h.called, h.filled)) refl)
      | inr (r, filled) ↦ elim (Option-cases (find_reverted w s b 0 r.results)) [
        | inl clean ↦
            rw (accepted, filled, clean)
              (summarise-Forwards response r called accepted filled
                (find_reverted-clean 0 r.results clean))
        | inr (hit, dirty) ↦
            rw (accepted, filled, dirty)
              (keeps
                (λ e h.
                  find_reverted_dirty 0 r.results hit dirty (clean_of response r called filled e h))
                refl)
      ]
    ]
  ]

  -- At most one event is forwarded to the tracker: exactly if there is a tracker, the call was answered,
  -- the answer has a result and no error, and no transaction in it has an error; the event then has
  -- the bundle's id and the amounts of the result.
  pub simulate_async-Forwards : Forwards (simulate_async w s b)
  unfolding simulate_async
  simulate_async-Forwards = elim (Option-cases (call_bundle w s b)) [
    | inl failed ↦ rw (failed, simulate_async) (keeps (λ e h. cc (h.called)) refl)
    | inr (response, called) ↦ rw (called, simulate_async) (conclude_call-Forwards response called)
  ]
