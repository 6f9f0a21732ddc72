-- ===== src/Client/Races.antt =====
-- Sending while another goroutine closes the client.
use bundle_broadcaster.Common.{ℕ, ◌≡◌, ◌⊎◌, inl, inr, refl, false, none}
use bundle_broadcaster.Client.Send.{
  Client, panicked, Network, Point, reconnect, reread, check, drop, recheck, Others, connect, close,
  send_rounds, send_bytes, choose_conn, reread_conn, write_chosen,
}

-- All that other goroutines do is call the method, or nothing.
abbrev pub OnlyCall : (Client → Client) → Others → Type 0
OnlyCall f others =
    (attempt : ℕ) (point : Point) (c : Client)
    → (others attempt point c ≡ c) ⊎ (others attempt point c ≡ f c)

abbrev closing : Others
closing attempt reconnect c = close c
closing attempt check c = c
closing attempt reread c = c
closing attempt drop c = c
closing attempt recheck c = c

closing-OnlyCall : OnlyCall close closing
closing-OnlyCall attempt reconnect c = inr refl
closing-OnlyCall attempt check c = inl refl
closing-OnlyCall attempt reread c = inl refl
closing-OnlyCall attempt drop c = inl refl
closing-OnlyCall attempt recheck c = inl refl

-- A client that New or an earlier failure has left without a connection.
abbrev pub idle : Client
idle = record { conn = none; closed = false }

-- An open client with no connection may panic in Send, whatever the network does, if Close is called
-- while Send is about to connect.
pub close_may_crash :
    (net : Network)
    → (others : Others) × OnlyCall close others × ((send_bytes net others idle).1 ≡ panicked)
unfolding send_bytes send_rounds choose_conn reread_conn connect close write_chosen
close_may_crash net = (closing, closing-OnlyCall, refl)
