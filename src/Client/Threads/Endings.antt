-- ===== src/Client/Threads/Endings.antt =====
-- How many steps a call of Send takes.
use bundle_broadcaster.Common.{
  ℕ, suc, ◌+◌, ◌-◌, ◌*◌, ◌≡◌, ◌≤◌, ◌<◌, ap, arith, Bool, false, Option, List, [], ◌∷◌, ◌++◌, All,
  All-at, All-set, subst,
}
use bundle_broadcaster.Client.Send.{Client}
use bundle_broadcaster.Client.Threads.{
  Sender, checking, reconnecting, rereading, writing, dropping, rechecking, back, is_back,
  first_section, send_step, Senders, calls, goes_on, closes, Steps, here, next,
}

-- An upper bound of the steps that a sender has left: six for each attempt.
abbrev pub steps_left : Sender → ℕ
steps_left (checking attempt) = 6 * (3 - attempt)
steps_left (reconnecting attempt) = 6 * (3 - attempt) - 1
steps_left (rereading attempt) = 6 * (3 - attempt) - 2
steps_left (writing attempt k) = 6 * (3 - attempt) - 3
steps_left (dropping attempt) = 6 * (3 - attempt) - 4
steps_left (rechecking attempt) = 6 * (3 - attempt) - 5
steps_left (back result) = 0

-- The number of the attempt is one of the three.
abbrev pub IsCounted : Sender → Type 0
IsCounted (checking attempt) = attempt < 3
IsCounted (reconnecting attempt) = attempt < 3
IsCounted (rereading attempt) = attempt < 3
IsCounted (writing attempt k) = attempt < 3
IsCounted (dropping attempt) = attempt < 3
IsCounted (rechecking attempt) = attempt < 3
IsCounted (back result) = Unit

abbrev pub all_left : List Sender → ℕ
all_left [] = 0
all_left (p ∷ ps) = steps_left p + all_left ps

all_left-append : (ps qs : List Sender) → all_left (ps ++ qs) ≡ all_left ps + all_left qs
all_left-append [] qs = omega arith
all_left-append (p ∷ ps) qs = omega (arith, all_left-append ps qs)

send_step-IsCounted :
    (dialled : Option ℕ) (wrote : Bool) (p : Sender) (c : Client)
    → IsCounted p
    → IsCounted (send_step dialled wrote p c).1
unfolding send_step first_section
send_step-IsCounted dialled wrote (checking attempt) c h = ground arith
send_step-IsCounted dialled wrote (reconnecting attempt) c h = ground arith
send_step-IsCounted dialled wrote (rereading attempt) c h = ground arith
send_step-IsCounted dialled wrote (writing attempt k) c h = ground arith
send_step-IsCounted dialled wrote (dropping attempt) c h = ground arith
send_step-IsCounted dialled wrote (rechecking attempt) c h = ground arith
send_step-IsCounted dialled wrote (back result) c h = tt

-- A step brings a sender nearer to its end.
send_step-steps_left :
    (dialled : Option ℕ) (wrote : Bool) (p : Sender) (c : Client)
    → IsCounted p
    → is_back p ≡ false
    → steps_left (send_step dialled wrote p c).1 < steps_left p
unfolding send_step first_section is_back
send_step-steps_left dialled wrote (checking attempt) c h going = ground arith
send_step-steps_left dialled wrote (reconnecting attempt) c h going = ground arith
send_step-steps_left dialled wrote (rereading attempt) c h going = ground arith
send_step-steps_left dialled wrote (writing attempt k) c h going = ground arith
send_step-steps_left dialled wrote (dropping attempt) c h going = ground arith
send_step-steps_left dialled wrote (rechecking attempt) c h going = ground arith
send_step-steps_left dialled wrote (back result) c h going = ground arith

-- No goroutine is in Send, on a client in any state.
abbrev pub nobody_sends : Client → Senders
nobody_sends c = record { client = c; senders = [] }

-- The calls of Send on the way to a state, and the steps of them.
abbrev pub calls_made : {s t : Senders} → Steps s t → ℕ
calls_made here = 0
calls_made (next r calls) = suc (calls_made r)
calls_made (next r (goes_on before after p e going dialled wrote)) = calls_made r
calls_made (next r closes) = calls_made r

abbrev pub steps_made : {s t : Senders} → Steps s t → ℕ
steps_made here = 0
steps_made (next r calls) = steps_made r
steps_made (next r (goes_on before after p e going dialled wrote)) = suc (steps_made r)
steps_made (next r closes) = steps_made r

Steps-IsCounted : {c : Client} {t : Senders} → Steps (nobody_sends c) t → All IsCounted t.senders
Steps-IsCounted here = tt
Steps-IsCounted (next r calls) = (omega arith, Steps-IsCounted r)
Steps-IsCounted (next {t} r (goes_on before after p e going dialled wrote)) =
    let before_it = subst (All IsCounted) e (Steps-IsCounted r) in
    All-set IsCounted before after p _
      (send_step-IsCounted dialled wrote p t.client (All-at IsCounted before after p before_it))
      before_it
Steps-IsCounted (next r closes) = Steps-IsCounted r

-- However the goroutines in Send of a client run, whatever Dial and WriteMessage return and whenever Close
-- is called, if each Dial and each WriteMessage returns: the steps that they have taken, with those that
-- they may have left, are never more than eighteen for each call of Send. (The client sets no deadline for a
-- write, so that a WriteMessage may block; this says nothing of one that does.)
pub sends_end :
    {c : Client} {t : Senders} (r : Steps (nobody_sends c) t)
    → steps_made r + all_left t.senders ≤ 18 * calls_made r
sends_end here = omega arith
sends_end (next r calls) = omega (arith, sends_end r)
sends_end (next {t} r (goes_on before after p e going dialled wrote)) =
    let counted = All-at IsCounted before after p (subst (All IsCounted) e (Steps-IsCounted r)) in
    omega (
      arith,
      sends_end r,
      ap all_left e,
      all_left-append before (p ∷ after),
      all_left-append before ((send_step dialled wrote p t.client).1 ∷ after),
      send_step-steps_left dialled wrote p t.client counted going,
    )
sends_end (next r closes) = sends_end r
