-- ===== src/System/Recording/Events.antt =====
-- Where the bundle hashes of the whole server come from.
use mathlib.Core.List.{Memᴰ}
use mathlib.Core.List.Memᴰ
use bundle_broadcaster.Common.{
  ℕ, List, [], ◌∷◌, ◌++◌, ◌≡◌, ap, subst, sym, refl, All, All-append, All-imp, Option, Bool-cases,
  inl, inr,
}
use bundle_broadcaster.Bundle.{IncomingBundle}
use bundle_broadcaster.Tracker.Events.{HashEvent}
use bundle_broadcaster.Relay.Transport.{Answer, deliver}
use bundle_broadcaster.Relay.Client.{
  RelayClient, HttpRequest, Effect, posted, recorded, Services, Call, is_cooling, conclude,
  exchange, failed, send, rate_limited, sent, observed, panicked,
}
use bundle_broadcaster.Relay.Client.Recording.{
  recordings, recordings-posted, one, no_one, Hashed, conclude-Records,
}
use bundle_broadcaster.Relay.Client.Paths.{send-paths}
use bundle_broadcaster.Manager.Build.{RelayManager}
use bundle_broadcaster.System.State.{
  Phase, waiting, checking, sending, answered, Notice, ended, at_cell, move, System, after_move,
  start_system,
}
use bundle_broadcaster.System.Interleaving.{
  Step, serves, starts, moves, finishes, Reachable, Reachable-keep,
}

pub recordings-append :
    (xs ys : List Effect) → recordings (xs ++ ys) ≡ recordings xs ++ recordings ys
recordings-append [] ys = refl
recordings-append (recorded e ∷ xs) ys = ap (◌∷◌ e) (recordings-append xs ys)
recordings-append (posted r ∷ xs) ys = recordings-append xs ys
recordings-append (failed n ∷ xs) ys = recordings-append xs ys
recordings-append (rate_limited n ∷ xs) ys = recordings-append xs ys
recordings-append (sent n ∷ xs) ys = recordings-append xs ys
recordings-append (observed n t ∷ xs) ys = recordings-append xs ys
recordings-append (panicked ∷ xs) ys = recordings-append xs ys

module _ (w : Services) where
  abbrev pub last_answer : Call → Option Answer
  last_answer call = (deliver w.to_lower call.do_request).0

  -- A call of Broadcast has ended, and its last answer was accepted and named the hash, and the event is
  -- of that call's bundle and relay.
  pub record Origin (es : List Notice) (e : HashEvent) : Type 0 where
    pub number : ℕ
    pub client : RelayClient
    pub bundle : IncomingBundle
    pub call : Call
    pub has_ended : Memᴰ (ended number client bundle call) es
    pub hashed : Hashed w client bundle (last_answer call) e

  pub Origin-later : (new es : List Notice) (e : HashEvent) → Origin es e → Origin (new ++ es) e
  Origin-later new es e o = record {
    number = o.number;
    client = o.client;
    bundle = o.bundle;
    call = o.call;
    has_ended = Memᴰ.append_right new o.has_ended;
    hashed = o.hashed;
  }

  Origin-more : (new es : List Notice) (e : HashEvent) → Origin new e → Origin (new ++ es) e
  Origin-more new es e o = record {
    number = o.number;
    client = o.client;
    bundle = o.bundle;
    call = o.call;
    has_ended = Memᴰ.append_left es o.has_ended;
    hashed = o.hashed;
  }

  conclude-Hashed :
      (c : RelayClient) (b : IncomingBundle) (t : ℕ) (answer : Option Answer)
      → All (Hashed w c b answer) (recordings (conclude w c b t answer).1)
  conclude-Hashed c b t answer = elim (conclude-Records w c b t answer) [
    | one e h same ↦ subst (All (Hashed w c b answer)) (sym same) (h, tt)
    | no_one h same ↦ subst (All (Hashed w c b answer)) (sym same) tt
  ]

  exchange-Hashed :
      (c : RelayClient) (b : IncomingBundle) (call : Call) (r : HttpRequest)
      → All (Hashed w c b (last_answer call)) (recordings (exchange w c b call r).1)
  unfolding exchange
  exchange-Hashed c b call r =
      subst (All (Hashed w c b (last_answer call)))
        (sym (recordings-posted (deliver w.to_lower call.do_request).1 r _))
        (conclude-Hashed c b call.limited_at (last_answer call))

  send-Hashed :
      (c : RelayClient) (b : IncomingBundle) (call : Call)
      → All (Hashed w c b (last_answer call)) (recordings (send w c b call).1)
  send-Hashed c b call =
      send-paths w c b call (λ p. All (Hashed w c b (last_answer call)) (recordings p.1)) (λ h. tt)
        (λ r h. exchange-Hashed c b call r)

  -- The field that a pause changes plays no part.
  Hashed-at_cell :
      (c : RelayClient) (until : ℕ) (b : IncomingBundle) (answer : Option Answer) (e : HashEvent)
      → Hashed w (at_cell c until) b answer e
      → Hashed w c b answer e
  Hashed-at_cell c until b answer e h = record {
    tracked = h.tracked;
    status = h.status;
    body = h.body;
    answered = h.answered;
    accepted = h.accepted;
    named = h.named;
    event = h.event;
  }

  move-Origin :
      (b : IncomingBundle) (n : ℕ) (c : RelayClient) (p : Phase) (now : ℕ) (world : Call) (cell : ℕ)
      → All
          (Origin (move w b n c p now world cell).notices)
          (recordings (move w b n c p now world cell).effects)
  unfolding move
  move-Origin b n c waiting now world cell = tt
  move-Origin b n c (checking until) now world cell =
      elim (Bool-cases (is_cooling (at_cell c until) now)) [
        | inl cooling ↦ rw cooling tt
        | inr cold ↦ rw cold tt
      ]
  move-Origin b n c sending now world cell = tt
  move-Origin b n c (answered call) now world cell =
      All-imp _ _ (recordings (send w (at_cell c cell) b call).1)
        (λ e h. record {
          number = n;
          client = c;
          bundle = b;
          call = call;
          has_ended = Memᴰ.head refl;
          hashed = Hashed-at_cell c cell b (last_answer call) e h;
        })
        (send-Hashed (at_cell c cell) b call)

  module _ (m : RelayManager) where
    -- The notices of a step come before the earlier ones.
    pub Step-notices :
        {s t : System} → Step w m s t → (new : List Notice) × (t.notices ≡ new ++ s.notices)
    unfolding after_move
    Step-notices (serves t st e) = ([], refl)
    Step-notices (starts before after e b rest q) = ([], refl)
    Step-notices (moves jb ja job e before after call e' now world) = (_, refl)
    Step-notices (finishes before after b e jb ja job e' same done) = ([], refl)

    abbrev pub AreFound : System → Type 0
    AreFound s = All (Origin s.notices) (recordings s.effects)

    Step-AreFound : (s t : System) → Step w m s t → AreFound s → AreFound t
    unfolding after_move
    Step-AreFound s t (serves u st e) h = h
    Step-AreFound s t (starts before after e b rest q) h = h
    Step-AreFound s t (moves jb ja job e before after call e' now world) h =
        let moved =
          move w job.prepared call.number call.client call.phase now world (s.cells call.number) in
        let mine =
          move-Origin job.prepared call.number call.client call.phase now world
            (s.cells call.number) in
        subst (All (Origin (moved.notices ++ s.notices)))
          (sym (recordings-append moved.effects s.effects))
          (All-append _ (recordings moved.effects) (recordings s.effects)
            (All-imp _ _ (recordings moved.effects) (Origin-more moved.notices s.notices) mine)
            (All-imp _ _ (recordings s.effects) (Origin-later moved.notices s.notices) h))
    Step-AreFound s t (finishes before after b e jb ja job e' same done) h = h

    pub Reachable-AreFound : {now : ℕ} {s : System} → Reachable w m now s → AreFound s
    unfolding start_system
    Reachable-AreFound {now} r = Reachable-keep w m AreFound now tt Step-AreFound r
