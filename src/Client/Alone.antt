-- ===== src/Client/Alone.antt =====
-- Sending while no other goroutine uses the client.
use bundle_broadcaster.Common.{
  ℕ, zero, suc, ◌+◌, ◌<◌, ◌≡◌, refl, arith, true, false, Option, none, some, Bool-cases,
  Option-cases, inl, inr, sym, subst, ap, ◌∙◌, if◌then◌else◌,
}
use bundle_broadcaster.Client.Send.{
  Client, SendResult, sent, client_closed, dial_error, write_error, Network, Others, connect,
  disconnect, send_rounds, send_bytes, choose_conn, reread_conn, after_failure, ends, chosen,
  write_chosen, Chosen,
}

abbrev pub nobody : Others
nobody attempt point c = c

-- The connection of an attempt, for a client that began with this one or none: the first attempt uses it
-- if it is there, and any other dials, since the one before has dropped its own.
abbrev pub conn_at : Network → Option ℕ → ℕ → Option ℕ
conn_at net (some conn) zero = some conn
conn_at net none zero = net.dial 0
conn_at net o (suc attempt) = net.dial (suc attempt)

-- Each of the first attempts had a connection, and its write failed.
abbrev pub FailedBefore : Network → Option ℕ → ℕ → Type 0
FailedBefore net o zero = Unit
FailedBefore net o (suc n) =
    FailedBefore net o n × ((conn : ℕ) × (conn_at net o n ≡ some conn) × (net.write n conn ≡ false))

-- What a call has done to a client that began with this connection or none.
pub data Delivery (net : Network) (o : Option ℕ) (p : Client × SendResult) : Type 0 where
  delivered :
      (attempt conn : ℕ)
      → attempt < 3
      → FailedBefore net o attempt
      → conn_at net o attempt ≡ some conn
      → net.write attempt conn ≡ true
      → p.0 ≡ record { conn = some conn; closed = false }
      → p.1 ≡ sent
      → Delivery net o p
  undialled :
      (attempt : ℕ)
      → attempt < 3
      → FailedBefore net o attempt
      → conn_at net o attempt ≡ none
      → p.0 ≡ record { conn = none; closed = false }
      → p.1 ≡ dial_error
      → Delivery net o p
  exhausted :
      FailedBefore net o 3
      → p.0 ≡ record { conn = none; closed = false }
      → p.1 ≡ write_error
      → Delivery net o p

module _ (net : Network) (begun : Option ℕ) where
  abbrev usable : Option ℕ → Client
  usable o = record { conn = o; closed = false }

  -- An attempt with the connection to write to, given what the later ones do if it fails.
  with_conn :
      (rounds attempt conn : ℕ)
      → attempt < 3
      → FailedBefore net begun attempt
      → conn_at net begun attempt ≡ some conn
      → (FailedBefore net begun (suc attempt)
          → Delivery net begun (send_rounds net nobody rounds (attempt + 1) (usable none)))
      → Delivery net begun (send_rounds net nobody (suc rounds) attempt (usable (some conn)))
  unfolding send_rounds choose_conn write_chosen after_failure disconnect
  with_conn rounds attempt conn lt before at later = elim (Bool-cases (net.write attempt conn)) [
    | inl ok ↦ rw ok (delivered attempt conn lt before at ok refl refl)
    | inr failed ↦ rw failed (later (before, (conn, at, failed)))
  ]

  -- What `choose_conn` gives for a client with no connection, by the result of Dial.
  abbrev chosen_of : ℕ → Option ℕ → Client × Chosen net nobody
  chosen_of attempt none = (usable none, ends dial_error)
  chosen_of attempt (some conn) = (usable (some conn), chosen conn)

  connect_new : ℕ → Option ℕ → Client × Chosen net nobody
  unfolding connect reread_conn
  connect_new attempt dialled =
      let (c, ok) = connect dialled (usable none) in
      if ok then reread_conn net nobody c else (c, ends dial_error)

  connect_new-chosen_of :
      (attempt : ℕ) (dialled : Option ℕ) → connect_new attempt dialled ≡ chosen_of attempt dialled
  unfolding connect_new
  connect_new-chosen_of attempt none = refl
  connect_new-chosen_of attempt (some conn) = refl

  choose_conn-chosen_of :
      (attempt : ℕ) (o : Option ℕ)
      → net.dial attempt ≡ o
      → choose_conn net nobody attempt (usable none) ≡ chosen_of attempt o
  unfolding choose_conn connect_new
  choose_conn-chosen_of attempt o e =
      connect_new-chosen_of attempt (net.dial attempt) ∙ ap (chosen_of attempt) e

  -- An attempt with no connection dials, and goes on with the new one.
  with_none :
      (rounds attempt : ℕ)
      → attempt < 3
      → FailedBefore net begun attempt
      → conn_at net begun attempt ≡ net.dial attempt
      → (FailedBefore net begun (suc attempt)
          → Delivery net begun (send_rounds net nobody rounds (attempt + 1) (usable none)))
      → Delivery net begun (send_rounds net nobody (suc rounds) attempt (usable none))
  unfolding send_rounds choose_conn write_chosen
  with_none rounds attempt lt before at later =
      let next : Client → Client × SendResult = send_rounds net nobody rounds (attempt + 1) in
      elim (Option-cases (net.dial attempt)) [
        | inl refused ↦
            subst (λ p. Delivery net begun (write_chosen net nobody attempt next p))
              (sym (choose_conn-chosen_of attempt none refused))
              (undialled attempt lt before (at ∙ refused) refl refl)
        | inr (conn, dialled) ↦
            subst (λ p. Delivery net begun (write_chosen net nobody attempt next p))
              (sym (choose_conn-chosen_of attempt (some conn) dialled))
              (with_conn rounds attempt conn lt before (at ∙ dialled) later)
      ]

  over : FailedBefore net begun 3 → Delivery net begun (send_rounds net nobody 0 3 (usable none))
  unfolding send_rounds
  over failed = exhausted failed refl refl

  third : FailedBefore net begun 2 → Delivery net begun (send_rounds net nobody 1 2 (usable none))
  third before = with_none 0 2 (omega arith) before refl over

  second : FailedBefore net begun 1 → Delivery net begun (send_rounds net nobody 2 1 (usable none))
  second before = with_none 1 1 (omega arith) before refl third

first :
    (net : Network) (o : Option ℕ)
    → Delivery net o (send_rounds net nobody 3 0 (record { conn = o; closed = false }))
first net (some conn) =
    with_conn net (some conn) 2 0 conn (omega arith) tt refl (second net (some conn))
first net none = with_none net none 2 0 (omega arith) tt refl (second net none)

-- Unless another goroutine interferes, Send on a client that is not closed makes at most three attempts,
-- each after the first only if every write before has failed. The first one is on the connection that is
-- there, and on a new one if there is none; each other is on a new one. The first write that works ends
-- it, and the client keeps that connection; a Dial that fails ends it at once; and after three failed
-- writes it returns an error. Without a delivery the client has no connection. It never panics. A closed
-- client returns ErrClientClosed and is not changed.
pub send_alone :
    (net : Network) (c : Client)
    → (c.closed ≡ false → Delivery net c.conn (send_bytes net nobody c))
      × (c.closed ≡ true → send_bytes net nobody c ≡ (c, client_closed))
unfolding send_bytes
send_alone net c = (
  λ h.
      let same : record { conn = c.conn; closed = false } ≡ c =
        sym (λ i. record { conn = c.conn; closed = h i }) in
      subst (λ d. Delivery net c.conn (send_rounds net nobody 3 0 d)) same (first net c.conn),
  λ h. unfold send_rounds choose_conn in rw h refl,
)
