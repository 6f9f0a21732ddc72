-- ===== src/Relay/Client/Cooldown.antt =====
-- The pause after a 429, and which answers change the client.
use bundle_broadcaster.Common.{
  List, All, map, ◌∙◌, ltb, if◌then◌else◌, ◌≢◌, ℤ, pos, negsuc, is_positive, to_ℕ, ◌+◌, ◌*◌, ◌<◌, ℕ,
  ◌≡◌, refl, ◌⊎◌, inl, inr, String, Option, none, some, arith, Bool-cases, Option-cases, true, ◌∷◌,
  [],
}
use bundle_broadcaster.Bundle.{IncomingBundle}
use bundle_broadcaster.Config.{resolved_url}
use bundle_broadcaster.Signer.{sign_body}
use bundle_broadcaster.Relay.Transport.{Answer, response, failure, deliver}
use bundle_broadcaster.Relay.Client.{
  RelayClient, Services, Call, Effect, cooldown_ms, cooldown_end, conclude, exchange, send_body,
  send, broadcast, is_cooling, rate_limited,
}

-- The client after a 429 that was answered at time `t`.
abbrev pub cooled : RelayClient → ℕ → RelayClient
cooled c t = record c { rate_limited_until = cooldown_end t (cooldown_ms c) }

-- The last answer was a 429.
abbrev pub WasLimited : Option Answer → Type 0
WasLimited none = ⊥
WasLimited (some (failure e)) = ⊥
WasLimited (some (response status body)) = status ≡ 429

module _ (w : Services) (c : RelayClient) (b : IncomingBundle) where
  -- A call leaves the client as it was, or its last answer was a 429 and the pause begins.
  abbrev pub Moved : Call → RelayClient → Type 0
  Moved call c' =
      (c' ≡ c)
      ⊎ ((c' ≡ cooled c call.limited_at) × WasLimited (deliver w.to_lower call.do_request).0)

  conclude-client :
      (t : ℕ) (a : Option Answer)
      → ((conclude w c b t a).0 ≡ c) ⊎ (((conclude w c b t a).0 ≡ cooled c t) × WasLimited a)
  unfolding conclude
  conclude-client t none = inl refl
  conclude-client t (some (failure e)) = inl refl
  conclude-client t (some (response status body)) = ground arith

  send_body-client : (call : Call) (body : String) → Moved call (send_body w c b call body).0
  unfolding send_body exchange
  send_body-client call body = elim (Option-cases (sign_body w.crypto w.signer body)) [
    | inl e ↦ rw (e, send_body) (inl refl)
    | inr (signature, e) ↦ elim (Bool-cases (w.is_url (resolved_url c.relay))) [
      | inl good ↦
          rw (e, send_body)
            (rw good (conclude-client call.limited_at (deliver w.to_lower call.do_request).0))
      | inr bad ↦ rw (e, send_body) (rw bad (inl refl))
    ]
  ]

  pub send-client : (call : Call) → Moved call (send w c b call).0
  unfolding send
  send-client call = ground (arith, λ (body : String). send_body-client call body)

  broadcast-client : (call : Call) → Moved call (broadcast w c b call).0
  unfolding broadcast
  broadcast-client call = ground (arith, send-client call)

positive_to_ℕ : (n : ℤ) → is_positive n ≡ true → 0 < to_ℕ n
positive_to_ℕ (pos n) h = ground arith
positive_to_ℕ (negsuc n) h = cc

cooldown_ms-pos : (c : RelayClient) → 0 < cooldown_ms c
unfolding cooldown_ms
cooldown_ms-pos c = ground (arith, positive_to_ℕ c.relay.rate_limit_cooldown_ms)

is_cooling-cooled :
    (c : RelayClient) (t now : ℕ)
    → t + cooldown_ms c * 1000000 < 9223372036854775808
    → is_cooling (cooled c t) now ≡ ltb now (t + cooldown_ms c * 1000000)
unfolding is_cooling cooldown_end
is_cooling-cooled c t now h = ground (arith, cooldown_ms-pos c)

-- Calls of Broadcast of one client, one after another.
unfoldable pub broadcast_each :
    Services → RelayClient → List (IncomingBundle × Call) → RelayClient × List (List Effect)
broadcast_each w c [] = (c, [])
broadcast_each w c ((b, call) ∷ rest) =
    let first = broadcast w c b call in
    let others = broadcast_each w first.0 rest in (others.0, first.1 ∷ others.1)

module _ (w : Services) (c : RelayClient) where
  -- What a bundle meets that comes after a 429.
  abbrev pub after_limit : ℕ → RelayClient → IncomingBundle → Call → RelayClient × List Effect
  after_limit until c' b call =
      if ltb call.now until then (c', rate_limited c.relay.name ∷ []) else send w c' b call

  broadcast-cooled :
      (t : ℕ)
      → t + cooldown_ms c * 1000000 < 9223372036854775808
      → (b : IncomingBundle) (call : Call)
      → broadcast w (cooled c t) b call
        ≡ after_limit (t + cooldown_ms c * 1000000) (cooled c t) b call
  unfolding broadcast
  broadcast-cooled t fits b call = rw (is_cooling-cooled c t call.now fits) refl

  -- The calls before the end of the pause.
  abbrev pub AreEarly : ℕ → List (IncomingBundle × Call) → Type 0
  AreEarly until calls = All (λ (x : IncomingBundle × Call). x.1.now < until) calls

  -- Each of them is skipped.
  abbrev pub skips : RelayClient → List (IncomingBundle × Call) → RelayClient × List (List Effect)
  skips c' calls = (c', map (λ x. rate_limited c.relay.name ∷ []) calls)

  broadcast-early :
      (t : ℕ)
      → t + cooldown_ms c * 1000000 < 9223372036854775808
      → (b : IncomingBundle) (call : Call) → call.now < t + cooldown_ms c * 1000000
      → broadcast w (cooled c t) b call ≡ (cooled c t, rate_limited c.relay.name ∷ [])
  broadcast-early t fits b call early = broadcast-cooled t fits b call ∙ ground (arith, early)

  broadcast_each-cooled :
      (t : ℕ)
      → t + cooldown_ms c * 1000000 < 9223372036854775808
      → (calls : List (IncomingBundle × Call)) → AreEarly (t + cooldown_ms c * 1000000) calls
      → broadcast_each w (cooled c t) calls ≡ skips (cooled c t) calls
  unfolding broadcast_each
  broadcast_each-cooled t fits [] early = refl
  broadcast_each-cooled t fits ((b, call) ∷ rest) early =
      rw
        (
          broadcast-early t fits b call early.0,
          broadcast_each-cooled t fits rest early.1,
          broadcast_each,
        )
        refl

  -- Broadcast changes the client only if the last answer was a 429. From then on, unless the end of
  -- the pause is past the range of an int64 and as long as the calls of this client come one after
  -- another: any number of bundles that come before the configured number of milliseconds (1000 if that is
  -- not positive) has passed are each counted as rate-limited, with nothing sent and the client not
  -- changed; and the next bundle after them is skipped, too, if it comes before, and is sent if not.
  pub broadcast_after_429 :
      (b : IncomingBundle) (call : Call)
      → (broadcast w c b call).0 ≢ c
      → call.limited_at + cooldown_ms c * 1000000 < 9223372036854775808
      → (between : List (IncomingBundle × Call))
      → AreEarly (call.limited_at + cooldown_ms c * 1000000) between
      → (b' : IncomingBundle) (later : Call)
      → WasLimited (deliver w.to_lower call.do_request).0
        × (broadcast_each w (broadcast w c b call).0 between
            ≡ skips (broadcast w c b call).0 between)
        × (broadcast w (broadcast w c b call).0 b' later
            ≡ after_limit
                (call.limited_at + cooldown_ms c * 1000000)
                (broadcast w c b call).0
                b'
                later)
  broadcast_after_429 b call changed fits between early b' later =
      elim (broadcast-client w c b call) [
        | inl same ↦ absurd (changed same)
        | inr (moved, limited) ↦ (
          limited,
          rw moved (broadcast_each-cooled call.limited_at fits between early),
          rw moved (broadcast-cooled call.limited_at fits b' later),
        )
      ]
