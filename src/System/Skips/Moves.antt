-- ===== src/System/Skips/Moves.antt =====
-- What each step of a call of Broadcast does to the shared field and the notices.
use bundle_broadcaster.Common.{
  ℕ, ◌≢◌, ◌<◌, ◌≡◌, inl, inr, sym, ap, subst, refl, arith, List, [], ◌∷◌, ◌++◌, some, Bool-cases,
  true,
}
use mathlib.Core.Option.{some-injective}
use bundle_broadcaster.Bundle.{IncomingBundle}
use bundle_broadcaster.Relay.Client.{RelayClient, Services, Call, is_cooling, cooldown_ms}
use bundle_broadcaster.Relay.Client.Cooldown.{send-client}
use bundle_broadcaster.System.State.{
  Phase, waiting, checking, sending, answered, Notice, skipped, ended, Moved, at_cell, move,
}
use bundle_broadcaster.System.Skips.{Source, Reasoned, FromPause, FromPause-later, IsLoaded}

module _ (w : Services) where
  -- What a step of a call leaves behind.
  pub record Traced (n : ℕ) (es : List Notice) (moved : Moved) : Type 0 where
    pub cell : FromPause w n moved.cell (moved.notices ++ es)
    pub loaded : (p : Phase) → moved.goes_on ≡ some p → IsLoaded w (moved.notices ++ es) n p
    pub reasoned : Reasoned w (moved.notices ++ es)

  positive_cooling :
      (c : RelayClient) (until now : ℕ)
      → is_cooling (at_cell c until) now ≡ true
      → (until ≢ 0) × (now < until)
  unfolding is_cooling
  positive_cooling c until now h = (λ e. ground arith, ground arith)

  set_by_pause :
      (n until : ℕ) (es : List Notice) → until ≢ 0 → FromPause w n until es → Source w n until es
  set_by_pause n until es h (inl unset) = absurd (h unset)
  set_by_pause n until es h (inr set) = set

  check-Traced :
      (n : ℕ) (c : RelayClient) (until now cell : ℕ) (es : List Notice)
      → FromPause w n cell es
      → FromPause w n until es
      → Reasoned w es
      → (b : IncomingBundle) (world : Call)
      → Traced n es (move w b n c (checking until) now world cell)
  unfolding move
  check-Traced n c until now cell es h l r b world =
      elim (Bool-cases (is_cooling (at_cell c until) now)) [
        | inr cold ↦ rw (cold) (record {
          cell = h;
          loaded = λ p e. subst (IsLoaded w es n) (some-injective sending p e) tt;
          reasoned = r;
        })
        | inl cooling ↦
            let positive = positive_cooling c until now cooling in
            rw (cooling) (record {
              cell = FromPause-later w n cell (skipped n now ∷ []) es h;
              loaded = λ p e. cc;
              reasoned = ((until, positive.1, set_by_pause n until es positive.0 l), r);
            })
      ]

  store-Traced :
      (n : ℕ) (c : RelayClient) (call : Call) (now cell : ℕ) (es : List Notice)
      → FromPause w n cell es
      → Reasoned w es
      → (b : IncomingBundle) (world : Call)
      → Traced n es (move w b n c (answered call) now world cell)
  unfolding move cooldown_ms
  store-Traced n c call now cell es h r b world = record {
    cell = elim (send-client w (at_cell c cell) b call) [
      | inl same ↦
          subst (λ (x : RelayClient). FromPause w n x.rate_limited_until (ended n c b call ∷ es))
            (sym same) (FromPause-later w n cell (ended n c b call ∷ []) es h)
      | inr (moved, limited) ↦ inr (inl (refl, limited, ap (λ x. x.rate_limited_until) moved))
    ];
    loaded = λ p e. cc;
    reasoned = r;
  }

  pub move-Traced :
      (b : IncomingBundle) (n : ℕ) (c : RelayClient) (p : Phase) (now : ℕ) (world : Call) (cell : ℕ)
      (es : List Notice)
      → FromPause w n cell es
      → IsLoaded w es n p
      → Reasoned w es
      → Traced n es (move w b n c p now world cell)
  unfolding move
  move-Traced b n c waiting now world cell es h l r = record {
    cell = h;
    loaded = λ p e. subst (IsLoaded w es n) (some-injective (checking cell) p e) h;
    reasoned = r;
  }
  move-Traced b n c (checking until) now world cell es h l r =
      check-Traced n c until now cell es h l r b world
  move-Traced b n c sending now world cell es h l r = record {
    cell = h;
    loaded = λ p e.
        subst (IsLoaded w es n) (some-injective (answered (record world { limited_at = now })) p e)
          tt;
    reasoned = r;
  }
  move-Traced b n c (answered call) now world cell es h l r =
      store-Traced n c call now cell es h r b world
