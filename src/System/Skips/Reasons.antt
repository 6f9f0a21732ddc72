-- ===== src/System/Skips/Reasons.antt =====
-- Every skip has a reason, in every state of the whole server.
use bundle_broadcaster.Common.{
  All-imp, map, eqb, eqb_iff, ℕ, ◌+◌, ◌≡◌, inl, inr, subst, refl, List, [], ◌∷◌, ◌++◌, All, All-at,
  All-set, All-remove, Option, none, some, Bool-cases,
}
use bundle_broadcaster.Relay.Client.{RelayClient, Services, Call}
use bundle_broadcaster.Manager.Build.{RelayManager}
use bundle_broadcaster.Manager.Fanout.{number_from}
use bundle_broadcaster.System.State.{
  Phase, Notice, Job, ClientCall, System, set_cell, move, goes_to, after_move, start_job,
  start_call, start_system,
}
use bundle_broadcaster.System.Interleaving.{
  Step, serves, starts, moves, finishes, Reachable, Reachable-keep,
}
use bundle_broadcaster.System.Skips.{Reasoned, FromPause, FromPause-later, IsLoaded, IsLoaded-later}
use bundle_broadcaster.System.Skips.Moves.{Traced, move-Traced}

module _ (w : Services) where
  -- What holds of the whole state.
  abbrev AreLoaded : List Notice → List ClientCall → Type 0
  AreLoaded es = All (λ (call : ClientCall). IsLoaded w es call.number call.phase)

  record Inv (s : System) : Type 0 where
    cell : (n : ℕ) → FromPause w n (s.cells n) s.notices
    loaded : All (λ (job : Job). AreLoaded s.notices job.calls) s.jobs
    reasoned : Reasoned w s.notices

  AreLoaded-later :
      (new es : List Notice) (calls : List ClientCall)
      → AreLoaded es calls
      → AreLoaded (new ++ es) calls
  AreLoaded-later new es calls h =
      All-imp _ _ calls (λ call l. IsLoaded-later w call.number call.phase new es l) h

  AreLoaded-start :
      (es : List Notice) (k : ℕ) (cs : List RelayClient)
      → AreLoaded es (map start_call (number_from k cs))
  unfolding number_from
  AreLoaded-start es k [] = tt
  AreLoaded-start es k (c ∷ cs) = (tt, AreLoaded-start es (k + 1) cs)

  AreLoaded-goes_to :
      (es : List Notice) (call : ClientCall) (o : Option Phase) (before after : List ClientCall)
      → ((p : Phase) → o ≡ some p → IsLoaded w es call.number p)
      → AreLoaded es (before ++ (call ∷ after))
      → AreLoaded es (before ++ (goes_to call o ++ after))
  AreLoaded-goes_to es call none before after h all = All-remove _ before after call all
  AreLoaded-goes_to es call (some p) before after h all =
      All-set _ before after call _ (h p refl) all

  set_cell-FromPause :
      (cells : ℕ → ℕ) (n until : ℕ) (new es : List Notice)
      → FromPause w n until (new ++ es)
      → ((k : ℕ) → FromPause w k (cells k) es)
      → (k : ℕ) → FromPause w k (set_cell cells n until k) (new ++ es)
  set_cell-FromPause cells n until new es h all k = elim (Bool-cases (eqb n k)) [
    | inl same ↦ rw same (subst (λ j. FromPause w j until (new ++ es)) ((eqb_iff n k).0 same) h)
    | inr other ↦ rw other (FromPause-later w k (cells k) new es (all k))
  ]

module _ (w : Services) (m : RelayManager) where
  after_move-Inv :
      (s : System) (jb ja : List Job) (job : Job) (before after : List ClientCall)
      (call : ClientCall) (now : ℕ) (world : Call)
      → s.jobs ≡ jb ++ (job ∷ ja)
      → job.calls ≡ before ++ (call ∷ after)
      → Inv w s
      → Inv w (
          after_move s jb job ja before call after now (
            move w job.prepared call.number call.client call.phase now world (s.cells call.number)))
  unfolding after_move
  after_move-Inv s jb ja job before after call now world e e' v =
      let moved =
        move w job.prepared call.number call.client call.phase now world (s.cells call.number) in
      record {
        cell =
            set_cell-FromPause w s.cells call.number moved.cell moved.notices s.notices traced.cell
              v.cell;
        loaded =
            All-set _ jb ja job _
              (AreLoaded-goes_to w (moved.notices ++ s.notices) call moved.goes_on before after
                traced.loaded
                (AreLoaded-later w moved.notices s.notices (before ++ (call ∷ after)) mine))
              (All-imp _ _ (jb ++ (job ∷ ja))
                (λ j h. AreLoaded-later w moved.notices s.notices j.calls h) jobs);
        reasoned = traced.reasoned;
      }
    where
      jobs : All (λ (j : Job). AreLoaded w s.notices j.calls) (jb ++ (job ∷ ja))
      jobs = subst (All (λ (j : Job). AreLoaded w s.notices j.calls)) e v.loaded

      mine : AreLoaded w s.notices (before ++ (call ∷ after))
      mine = subst (AreLoaded w s.notices) e' (All-at _ jb ja job jobs)

      traced :
          Traced w call.number s.notices
            (move w job.prepared call.number call.client call.phase now world (s.cells call.number))
      traced =
          move-Traced w job.prepared call.number call.client call.phase now world
            (s.cells call.number) s.notices (v.cell call.number) (All-at _ before after call mine)
            v.reasoned

  Step-Inv : (s t : System) → Step w m s t → Inv w s → Inv w t
  unfolding start_job
  Step-Inv s t (serves u st e) v = record {
    cell = v.cell;
    loaded = v.loaded;
    reasoned = v.reasoned;
  }
  Step-Inv s t (starts before after e b rest q) v = record {
    cell = v.cell;
    loaded = (AreLoaded-start w s.notices 0 m.clients, v.loaded);
    reasoned = v.reasoned;
  }
  Step-Inv s t (moves jb ja job e before after call e' now world) v =
      after_move-Inv s jb ja job before after call now world e e' v
  Step-Inv s t (finishes before after b e jb ja job e' same done) v = record {
    cell = v.cell;
    loaded =
        All-remove _ jb ja job
          (subst (All (λ (j : Job). AreLoaded w s.notices j.calls)) e' v.loaded);
    reasoned = v.reasoned;
  }

  -- A bundle is skipped only for a pause that its relay has asked for: whenever a call of Broadcast has
  -- counted its bundle as rate-limited with nothing sent, some other call of the same client had ended
  -- before with a 429 as its last answer, and the time of the skip is before the end of that pause. This
  -- holds however the calls on the client interleave, and if the clock goes back, too.
  pub Reachable-Reasoned : (now : ℕ) (s : System) → Reachable w m now s → Reasoned w s.notices
  unfolding start_system
  Reachable-Reasoned now s reached =
      let inv : Inv w s =
        Reachable-keep w m (Inv w) now (record { cell = λ n. inl refl; loaded = tt; reasoned = tt })
          Step-Inv reached in
      inv.reasoned
