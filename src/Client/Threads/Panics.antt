-- ===== src/Client/Threads/Panics.antt =====
-- Two calls of Send, the second of which drops the connection that the first has just dialled.
use bundle_broadcaster.Common.{ℕ, ◌≡◌, false, none, some, [], ◌∷◌, refl}
use bundle_broadcaster.Client.Send.{Client, panicked, new_client, disconnect, connect}
use bundle_broadcaster.Client.Threads.{
  reconnecting, rereading, writing, dropping, rechecking, checking, back, is_back, first_section,
  send_step, goes_on, Steps, next,
}
use bundle_broadcaster.Client.Threads.Endings.{nobody_sends}
use bundle_broadcaster.Client.Threads.Writers.{open_client, concurrent_writes}

abbrev pub without_conn : Client
without_conn = record { conn = none; closed = false }

-- Two goroutines that call Send on the client that New returns, and nothing else, may make one of them panic, whatever
-- connection Dial gives it: both write on the old connection and fail; one dials anew, and before it
-- reads `conn` again the other, which is in disconnect, drops the new connection.
pub two_sends_may_panic :
    (k new : ℕ)
    → (new_client (some k) ≡ some (open_client k))
      × Steps
          (nobody_sends (open_client k))
          (record { client = without_conn; senders = back panicked ∷ rechecking 0 ∷ [] })
unfolding send_step first_section is_back disconnect connect
two_sends_may_panic k new =
    let both = (concurrent_writes k 2).1 in
    let one = next both (goes_on [] (writing 0 k ∷ []) (writing 0 k) refl refl none false) in
    let two = next one (goes_on (dropping 0 ∷ []) [] (writing 0 k) refl refl none false) in
    let drops = next two (goes_on [] (dropping 0 ∷ []) (dropping 0) refl refl none false) in
    let again = next drops (goes_on [] (dropping 0 ∷ []) (rechecking 0) refl refl none false) in
    let checks = next again (goes_on [] (dropping 0 ∷ []) (checking 1) refl refl none false) in
    let dials =
      next checks (goes_on [] (dropping 0 ∷ []) (reconnecting 1) refl refl (some new) false) in
    let dropped = next dials (goes_on (rereading 1 ∷ []) [] (dropping 0) refl refl none false) in
    (
      (concurrent_writes k 2).0,
      next dropped (goes_on [] (rechecking 0 ∷ []) (rereading 1) refl refl none false),
    )
