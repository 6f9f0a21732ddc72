-- ===== src/Client/Send.antt =====
-- The state of Client and its methods, with what other goroutines do between the locked sections.
use bundle_broadcaster.Common.{
  ℕ, zero, suc, ◌+◌, Bool, true, false, Option, none, some, ◌||◌, is_some, if◌then◌else◌,
}

-- A connection is known by a number. A nil `conn` is `none`.
pub record Client : Type 0 where
  pub conn : Option ℕ
  pub closed : Bool

-- What sendBytes returns: nil, ErrClientClosed, an error of the dialer or one of WriteMessage.
-- WriteMessage on a nil connection panics.
pub data SendResult : Type 0 where
  sent client_closed dial_error write_error panicked : SendResult

-- What the dialer and WriteMessage do in an attempt; `none` is an error of Dial.
pub record Network : Type 0 where
  pub dial : ℕ → Option ℕ
  pub write : ℕ → ℕ → Bool

-- The places in an attempt where the mutex is free, each before the locked section that it names.
pub data Point : Type 0 where
  check reconnect reread drop recheck : Point

-- The methods that other goroutines may call there.
abbrev pub Others : Type 0
Others = ℕ → Point → Client → Client

-- Close, without its error.
unfoldable pub close : Client → Client
close c = record { conn = none; closed = true }

unfoldable pub disconnect : Client → Client
disconnect c = record c { conn = none }

-- The client after connect, and whether there was no error. `dialled` is what Dial returns.
unfoldable pub connect : Option ℕ → Client → Client × Bool
connect dialled c =
    if c.closed || is_some c.conn
    then (c, true)
    else elim dialled [ none ↦ (c, false) | some conn ↦ (record c { conn = some conn }, true) ]

-- `New`: no client if there was an error.
unfoldable pub new_client : Option ℕ → Option Client
unfolding connect
new_client dialled =
    let (c, ok) = connect dialled (record { conn = none; closed = false }) in
    if ok then some c else none

module _ (net : Network) (others : Others) where
  -- The connection that an attempt writes to, or the result that ends the call.
  pub data Chosen : Type 0 where
    chosen : ℕ → Chosen
    ends : SendResult → Chosen

  unfoldable pub reread_conn : Client → Client × Chosen
  reread_conn c = elim c.conn [ none ↦ (c, ends panicked) | some conn ↦ (c, chosen conn) ]

  unfoldable pub choose_conn : ℕ → Client → Client × Chosen
  unfolding reread_conn
  choose_conn attempt c = if c.closed then (c, ends client_closed) else elim c.conn [
    | some conn ↦ (c, chosen conn)
    | none ↦
        let (c', ok) = connect (net.dial attempt) (others attempt reconnect c) in
        if ok then reread_conn (others attempt reread c') else (c', ends dial_error)
  ]

  -- After a failed write: the client, which has dropped its connection, when it reads `closed` again.
  unfoldable pub after_failure : ℕ → Client → Client
  unfolding disconnect
  after_failure attempt c = others attempt recheck (disconnect (others attempt drop c))

  -- The attempt from the write on. `rest` are the attempts after it.
  unfoldable pub write_chosen :
      ℕ → (Client → Client × SendResult) → Client × Chosen → Client × SendResult
  unfolding after_failure
  write_chosen attempt rest (c, ends result) = (c, result)
  write_chosen attempt rest (c, chosen conn) =
      if net.write attempt conn
      then (c, sent)
      else if (after_failure attempt c).closed
      then (after_failure attempt c, write_error)
      else rest (after_failure attempt c)

  -- `rounds` are the attempts left.
  unfoldable pub send_rounds : ℕ → ℕ → Client → Client × SendResult
  unfolding choose_conn write_chosen
  send_rounds zero attempt c = (c, write_error)
  send_rounds (suc rounds) attempt c =
      write_chosen attempt (send_rounds rounds (attempt + 1))
        (choose_conn attempt (others attempt check c))

  unfoldable pub send_bytes : Client → Client × SendResult
  unfolding send_rounds
  send_bytes c = send_rounds 3 0 c
