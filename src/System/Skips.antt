-- ===== src/System/Skips.antt =====
-- Why a bundle is skipped: what the guard of RelayClient.Broadcast reads from the shared field.
pub mod Moves
pub mod Reasons
use bundle_broadcaster.Common.{
  All-imp, map, eqb, eqb_iff, ℕ, ◌≢◌, if◌then◌else◌, ◌+◌, ◌*◌, ◌<◌, ◌≤◌, ◌≡◌, ◌∙◌, ◌⊎◌, inl, inr,
  sym, ap, subst, refl, arith, List, [], ◌∷◌, ◌++◌, All, All-at, All-set, All-remove, Option, none,
  some, Bool-cases, true, false,
}
use native.Mathlib.Nat.{le_trans, le_refl}
use mathlib.Core.Option.{some-injective}
use bundle_broadcaster.Bundle.{IncomingBundle}
use bundle_broadcaster.Relay.Client.{
  RelayClient, Services, Call, send, is_cooling, cooldown_ms, cooldown_end,
}
use bundle_broadcaster.Relay.Transport.{deliver}
use bundle_broadcaster.Relay.Client.Cooldown.{WasLimited, cooled, send-client}
use bundle_broadcaster.Manager.Build.{RelayManager}
use bundle_broadcaster.Manager.Fanout.{number_from}
use bundle_broadcaster.System.State.{
  Phase, waiting, checking, sending, answered, Notice, skipped, ended, Job, ClientCall, System,
  Moved, at_cell, set_cell, move, goes_to, after_move, start_job, start_call, start_system,
}
use bundle_broadcaster.System.Interleaving.{
  Step, serves, starts, moves, finishes, Reachable, Reachable-keep, Reachable-server,
}

module _ (w : Services) where
  -- A call of client `n` has ended whose last answer was a 429, and the pause that it asks for, from the
  -- time that was read for it, ends at `until`.
  abbrev pub Paused : ℕ → ℕ → Notice → Type 0
  Paused n until (skipped k t) = ⊥
  Paused n until (ended k c b call) =
      (k ≡ n)
      × WasLimited (deliver w.to_lower call.do_request).0
      × (until ≡ cooldown_end call.limited_at (cooldown_ms c))

  -- One of the notices is such.
  abbrev pub Source : ℕ → ℕ → List Notice → Type 0
  Source n until [] = ⊥
  Source n until (e ∷ es) = Paused n until e ⊎ Source n until es

  -- Each notice of a skip has its reason among the notices before it: a pause that had not ended.
  abbrev pub Reasoned : List Notice → Type 0
  Reasoned [] = Unit
  Reasoned (skipped n t ∷ es) = ((until : ℕ) × (t < until) × Source n until es) × Reasoned es
  Reasoned (ended n c b call ∷ es) = Reasoned es

  Source-later :
      (n until : ℕ) (new es : List Notice) → Source n until es → Source n until (new ++ es)
  Source-later n until [] es h = h
  Source-later n until (e ∷ new) es h = inr (Source-later n until new es h)

  -- The value of a shared field: unset, or set by a 429.
  abbrev pub FromPause : ℕ → ℕ → List Notice → Type 0
  FromPause n until es = (until ≡ 0) ⊎ Source n until es

  pub FromPause-later :
      (n until : ℕ) (new es : List Notice) → FromPause n until es → FromPause n until (new ++ es)
  FromPause-later n until new es (inl h) = inl h
  FromPause-later n until new es (inr h) = inr (Source-later n until new es h)

  -- What a call holds while it decides.
  abbrev pub IsLoaded : List Notice → ℕ → Phase → Type 0
  IsLoaded es n waiting = Unit
  IsLoaded es n (checking until) = FromPause n until es
  IsLoaded es n sending = Unit
  IsLoaded es n (answered call) = Unit

  pub IsLoaded-later :
      (n : ℕ) (p : Phase) (new es : List Notice) → IsLoaded es n p → IsLoaded (new ++ es) n p
  IsLoaded-later n waiting new es h = tt
  IsLoaded-later n (checking until) new es h = FromPause-later n until new es h
  IsLoaded-later n sending new es h = tt
  IsLoaded-later n (answered call) new es h = tt
