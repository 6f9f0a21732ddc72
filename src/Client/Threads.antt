-- ===== src/Client/Threads.antt =====
-- Any number of goroutines in Send of one client, with calls of Close between: each step is a locked
-- section, a Dial with it, or a WriteMessage.
pub mod Endings
pub mod Writers
pub mod Panics
use bundle_broadcaster.Common.{
  ℕ, zero, suc, ◌+◌, Bool, true, false, Option, none, some, List, [], ◌∷◌, ◌++◌, ◌≡◌, ltb,
  if◌then◌else◌,
}
use bundle_broadcaster.Client.Send.{
  Client, SendResult, sent, client_closed, dial_error, write_error, panicked, close, disconnect,
  connect,
}

-- Where a call of sendBytes is: before its first locked section, before connect, before it reads `conn`
-- again, in WriteMessage on a connection, before disconnect, before it reads `closed` again, or back.
-- The number is that of the attempt.
pub data Sender : Type 0 where
  checking reconnecting rereading : ℕ → Sender
  writing : ℕ → ℕ → Sender
  dropping rechecking : ℕ → Sender
  back : SendResult → Sender

abbrev pub max_retries : ℕ
max_retries = 3

-- The loop goes on, or returns the error of the last write.
abbrev pub next_attempt : ℕ → Sender
next_attempt attempt =
    if ltb (attempt + 1) max_retries then checking (attempt + 1) else back write_error

-- The first locked section.
unfoldable pub first_section : ℕ → Client → Sender
first_section attempt c =
    if c.closed
    then back client_closed
    else elim c.conn [ none ↦ reconnecting attempt | some k ↦ writing attempt k ]

-- One step of a sender. `dialled` is what Dial would return, and `wrote` whether WriteMessage has worked.
unfoldable pub send_step : Option ℕ → Bool → Sender → Client → Client × Sender
unfolding first_section connect disconnect
send_step dialled wrote (checking attempt) c = (c, first_section attempt c)
send_step dialled wrote (reconnecting attempt) c =
    let (c', ok) = connect dialled c in (c', if ok then rereading attempt else back dial_error)
send_step dialled wrote (rereading attempt) c =
    (c, elim c.conn [ none ↦ back panicked | some k ↦ writing attempt k ])
send_step dialled wrote (writing attempt k) c = (c, if wrote then back sent else dropping attempt)
send_step dialled wrote (dropping attempt) c = (disconnect c, rechecking attempt)
send_step dialled wrote (rechecking attempt) c =
    (c, if c.closed then back write_error else next_attempt attempt)
send_step dialled wrote (back result) c = (c, back result)

unfoldable pub is_back : Sender → Bool
is_back (back result) = true
is_back (checking attempt) = false
is_back (reconnecting attempt) = false
is_back (rereading attempt) = false
is_back (writing attempt k) = false
is_back (dropping attempt) = false
is_back (rechecking attempt) = false

-- A client and the goroutines that have called Send.
pub record Senders : Type 0 where
  pub client : Client
  pub senders : List Sender

pub data Step (s : Senders) : Senders → Type 0 where
  -- A goroutine calls Send.
  calls : Step s (record s { senders = checking 0 ∷ s.senders })
  -- A goroutine that is not back goes on.
  goes_on :
      (before after : List Sender) (p : Sender)
      → s.senders ≡ before ++ (p ∷ after)
      → is_back p ≡ false
      → (dialled : Option ℕ) (wrote : Bool)
      → Step s (record {
        client = (send_step dialled wrote p s.client).0;
        senders = before ++ ((send_step dialled wrote p s.client).1 ∷ after);
      })
  -- A goroutine calls Close.
  closes : Step s (record s { client = close s.client })

pub data Steps (s : Senders) : Senders → Type 0 where
  here : Steps s s
  next : {t u : Senders} → Steps s t → Step t u → Steps s u
