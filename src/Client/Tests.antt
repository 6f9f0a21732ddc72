-- ===== src/Client/Tests.antt =====
-- The client on a network that takes nothing.
use bundle_broadcaster.Common.{some, ◌≡◌, refl, true, false, none, [], ◌∷◌, ◌+◌, ◌*◌, ◌≤◌}
use bundle_broadcaster.Client.Send.{
  Network, Others, write_error, client_closed, panicked, close, disconnect, send_bytes, send_rounds,
  choose_conn, write_chosen, after_failure, new_client, dial_error, connect, reread_conn,
}
use bundle_broadcaster.Client.Alone.{nobody, Delivery, send_alone}
use bundle_broadcaster.Client.Races.{idle, OnlyCall, close_may_crash}
use bundle_broadcaster.Client.Threads.Panics.{without_conn, two_sends_may_panic}
use bundle_broadcaster.Client.Threads.{
  checking, reconnecting, writing, dropping, rechecking, back, is_back, first_section, send_step,
  calls, goes_on, Steps, here, next,
}
use bundle_broadcaster.Client.Threads.Endings.{nobody_sends, steps_made, all_left, sends_end}
use bundle_broadcaster.Client.Threads.Writers.{open_client, concurrent_writes}

abbrev deaf : Network
deaf = record { dial = λ attempt. some attempt; write = λ attempt conn. false }

send_test : send_bytes deaf nobody idle ≡ (idle, write_error)
unfolding send_bytes send_rounds choose_conn write_chosen after_failure connect reread_conn
    disconnect
send_test = refl

send_alone_example :
    (idle.closed ≡ false → Delivery deaf idle.conn (send_bytes deaf nobody idle))
    × (idle.closed ≡ true → send_bytes deaf nobody idle ≡ (idle, client_closed))
send_alone_example = send_alone deaf idle

close_may_crash_example :
    (others : Others) × OnlyCall close others × ((send_bytes deaf others idle).1 ≡ panicked)
close_may_crash_example = close_may_crash deaf

two_sends_may_panic_example :
    (new_client (some 7) ≡ some (open_client 7))
    × Steps
        (nobody_sends (open_client 7))
        (record { client = without_conn; senders = back panicked ∷ rechecking 0 ∷ [] })
two_sends_may_panic_example = two_sends_may_panic 7 8

-- One goroutine, whose connection fails, and which gets no other.
unfoldable failing_send :
    Steps
      (nobody_sends (open_client 7))
      (record { client = record { conn = none; closed = false }; senders = back dial_error ∷ [] })
unfolding send_step first_section is_back disconnect connect
failing_send =
    let went = next (next here calls) (goes_on [] [] (checking 0) refl refl none false) in
    let wrote = next went (goes_on [] [] (writing 0 7) refl refl none false) in
    let dropped = next wrote (goes_on [] [] (dropping 0) refl refl none false) in
    let again = next dropped (goes_on [] [] (rechecking 0) refl refl none false) in
    let checked = next again (goes_on [] [] (checking 1) refl refl none false) in
    next checked (goes_on [] [] (reconnecting 1) refl refl none false)

failing_send_test : steps_made failing_send ≡ 6
unfolding failing_send
failing_send_test = refl

sends_end_example : steps_made failing_send + all_left (back dial_error ∷ []) ≤ 18 * 1
unfolding failing_send
sends_end_example = sends_end failing_send

concurrent_writes_example :
    (new_client (some 7) ≡ some (open_client 7))
    × Steps
        (nobody_sends (open_client 7))
        (record { client = open_client 7; senders = writing 0 7 ∷ writing 0 7 ∷ [] })
concurrent_writes_example = concurrent_writes 7 2
