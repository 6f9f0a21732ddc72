-- ===== src/System/State.antt =====
-- One call of RelayClient.Broadcast as several atomic steps, and the state that the calls share.
use bundle_broadcaster.Common.{ℕ, List, [], ◌∷◌, ◌++◌, Option, none, some, map, eqb, if◌then◌else◌}
use bundle_broadcaster.Bundle.{IncomingBundle}
use bundle_broadcaster.Relay.Client.{
  RelayClient, Effect, rate_limited, Services, Call, is_cooling, send,
}
use bundle_broadcaster.Manager.Build.{RelayManager}
use bundle_broadcaster.Manager.Fanout.{prepare, number_from}
use bundle_broadcaster.Server.State.{WsServer, start_server}

-- Where a call of Broadcast is: its goroutine has not begun; it has loaded rateLimitedUntil; it is past
-- the guard; it has its answer, and has read the clock for the pause that a 429 asks for.
pub data Phase : Type 0 where
  waiting : Phase
  checking : ℕ → Phase
  sending : Phase
  answered : Call → Phase

-- The call of client `number`. All the calls of that number share its rateLimitedUntil, the field of
-- `client` stays as the manager built it.
pub record ClientCall : Type 0 where
  pub number : ℕ
  pub client : RelayClient
  pub phase : Phase

-- One RelayManager.Broadcast: the bundle as it came and as it goes to the clients, and the goroutines
-- that have not called wg.Done.
pub record Job : Type 0 where
  pub origin : IncomingBundle
  pub prepared : IncomingBundle
  pub calls : List ClientCall

-- What the calls leave behind, with the clock: a bundle was skipped, or a call has ended.
pub data Notice : Type 0 where
  skipped : ℕ → ℕ → Notice
  ended : ℕ → RelayClient → IncomingBundle → Call → Notice

-- `cells` holds rateLimitedUntil of each client. `effects` and `notices` have the latest first.
pub record System : Type 0 where
  pub server : WsServer
  pub cells : ℕ → ℕ
  pub jobs : List Job
  pub clock : ℕ
  pub effects : List Effect
  pub notices : List Notice

abbrev pub at_cell : RelayClient → ℕ → RelayClient
at_cell c until = record c { rate_limited_until = until }

-- What one step of a call leaves: the value of the shared field, the call if it goes on, what it did.
pub record Moved : Type 0 where
  pub cell : ℕ
  pub goes_on : Option Phase
  pub effects : List Effect
  pub notices : List Notice

module _ (w : Services) where
  -- One atomic step of a call, by its phase. `cell` is the shared field before it, `now` the clock, and
  -- `world` the answers that the relay gives.
  unfoldable pub move : IncomingBundle → ℕ → RelayClient → Phase → ℕ → Call → ℕ → Moved
  move b n c waiting now world cell = record {
    cell = cell;
    goes_on = some (checking cell);
    effects = [];
    notices = [];
  }
  move b n c (checking until) now world cell =
      if is_cooling (at_cell c until) now
      then record {
        cell = cell;
        goes_on = none;
        effects = rate_limited c.relay.name ∷ [];
        notices = skipped n now ∷ [];
      }
      else record { cell = cell; goes_on = some sending; effects = []; notices = [] }
  move b n c sending now world cell = record {
    cell = cell;
    goes_on = some (answered (record world { limited_at = now }));
    effects = [];
    notices = [];
  }
  move b n c (answered call) now world cell = record {
    cell = (send w (at_cell c cell) b call).0.rate_limited_until;
    goes_on = none;
    effects = (send w (at_cell c cell) b call).1;
    notices = ended n c b call ∷ [];
  }

abbrev pub set_cell : (ℕ → ℕ) → ℕ → ℕ → ℕ → ℕ
set_cell cells n until k = if eqb n k then until else cells k

-- The call with its next phase, or nothing once it has returned.
abbrev pub goes_to : ClientCall → Option Phase → List ClientCall
goes_to call none = []
goes_to call (some p) = record call { phase = p } ∷ []

-- The state after a step of a call, between the jobs and the calls around it.
unfoldable pub after_move :
    System
    → List Job
    → Job
    → List Job
    → List ClientCall
    → ClientCall
    → List ClientCall
    → ℕ
    → Moved
    → System
after_move s jobs_before job jobs_after before call after now moved = record s {
  cells = set_cell s.cells call.number moved.cell;
  jobs =
      jobs_before
      ++ (record job { calls = before ++ (goes_to call moved.goes_on ++ after) } ∷ jobs_after);
  clock = now;
  effects = moved.effects ++ s.effects;
  notices = moved.notices ++ s.notices;
}

abbrev pub start_call : ℕ × RelayClient → ClientCall
start_call (n, c) = record { number = n; client = c; phase = waiting }

-- RelayManager.Broadcast up to the wait. The simulation runs by itself, see Simulator.
unfoldable pub start_job : RelayManager → IncomingBundle → Job
unfolding prepare number_from
start_job m b = record {
  origin = b;
  prepared = (prepare m b).0;
  calls = map start_call (number_from 0 m.clients);
}

-- The server after Start, with the clients as the manager has built them.
unfoldable pub start_system : ℕ → System
unfolding start_server
start_system now = record {
  server = start_server;
  cells = λ n. 0;
  jobs = [];
  clock = now;
  effects = [];
  notices = [];
}
