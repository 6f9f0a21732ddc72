-- ===== src/Client/Threads/Writers.antt =====
-- Goroutines that write at a time.
use bundle_broadcaster.Common.{ℕ, zero, suc, false, none, some, List, [], ◌∷◌, ◌≡◌, refl, replicate}
use bundle_broadcaster.Client.Send.{Client, new_client, connect}
use bundle_broadcaster.Client.Threads.{
  Sender, checking, writing, is_back, first_section, send_step, Senders, calls, goes_on, Steps,
  here, next,
}
use bundle_broadcaster.Client.Threads.Endings.{nobody_sends}

abbrev pub open_client : ℕ → Client
open_client k = record { conn = some k; closed = false }

-- One more goroutine writes.
one_more :
    (k : ℕ) (ps : List Sender) {s : Senders}
    → Steps s (record { client = open_client k; senders = ps })
    → Steps s (record { client = open_client k; senders = writing 0 k ∷ ps })
unfolding send_step first_section is_back
one_more k ps r = next (next r calls) (goes_on [] ps (checking 0) refl refl none false)

-- WriteMessage is called with the mutex free: on the client that New returns with a connection, any number
-- of goroutines that call Send may all be in WriteMessage on that one connection at a time, in the first
-- attempt of each.
pub concurrent_writes :
    (k n : ℕ)
    → (new_client (some k) ≡ some (open_client k))
      × Steps
          (nobody_sends (open_client k))
          (record { client = open_client k; senders = replicate n (writing 0 k) })
unfolding new_client connect
concurrent_writes k zero = (refl, here)
concurrent_writes k (suc n) =
    (refl, one_more k (replicate n (writing 0 k)) (concurrent_writes k n).1)
