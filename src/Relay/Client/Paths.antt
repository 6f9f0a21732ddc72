-- ===== src/Relay/Client/Paths.antt =====
-- The two ways through `send`: no request could be prepared, or one is exchanged.
use bundle_broadcaster.Common.{
  ◌≡◌, refl, ◌⊎◌, inl, inr, String, true, some, List, [], ◌∷◌, Bool-cases, Option-cases,
}
use bundle_broadcaster.Bundle.{IncomingBundle, Params, BuildResult, built, build_error}
use bundle_broadcaster.Config.{resolved_url}
use bundle_broadcaster.Signer.{sign_body}
use bundle_broadcaster.Relay.Client.{
  RelayClient, HttpRequest, Effect, failed, Services, Call, exchange, send_body, send,
}

BuildResult-cases :
    (r : BuildResult)
    → ((e : String) × (r ≡ build_error e))
      ⊎ ((method : String) × (params : Params) × (r ≡ built method params))
BuildResult-cases (build_error e) = inl (e, refl)
BuildResult-cases (built method params) = inr (method, params, refl)

module _ (w : Services) (c : RelayClient) (b : IncomingBundle) where
  -- The relay's request for the bundle could be built, encoded, signed and created.
  pub record Prepared (r : HttpRequest) : Type 0 where
    pub method : String
    pub params : Params
    pub is_built : c.strategy b ≡ built method params
    pub encoded : w.encode method params ≡ some r.body
    pub signed : sign_body w.crypto w.signer r.body ≡ some r.signature
    pub addressed : r.url ≡ resolved_url c.relay
    pub created : w.is_url (resolved_url c.relay) ≡ true

  -- A property of the result of a call holds if it holds on both ways.
  module _ {ℓ} (call : Call) (R : RelayClient × List Effect → Type ℓ)
      (if_unprepared : ((r : HttpRequest) → ¬ Prepared r) → R (c, failed c.relay.name ∷ []))
      (if_prepared : (r : HttpRequest) → Prepared r → R (exchange w c b call r)) where
    send_body-paths :
        (method : String) (params : Params) (body : String)
        → c.strategy b ≡ built method params
        → w.encode method params ≡ some body
        → R (send_body w c b call body)
    unfolding send_body
    send_body-paths method params body is_built encoded =
        elim (Option-cases (sign_body w.crypto w.signer body)) [
          | inl unsigned ↦
              rw (unsigned, send_body) (if_unprepared λ r h. cc (h.is_built, h.encoded, h.signed))
          | inr (signature, signed) ↦ elim (Bool-cases (w.is_url (resolved_url c.relay))) [
            | inl good ↦
                rw (signed, send_body)
                  (rw good (
                    if_prepared _ (record {
                      method = method;
                      params = params;
                      is_built = is_built;
                      encoded = encoded;
                      signed = signed;
                      addressed = refl;
                      created = good;
                    })))
            | inr bad ↦ rw (signed, send_body) (rw bad (if_unprepared λ r h. cc (h.created)))
          ]
        ]

    encode-paths :
        (method : String) (params : Params)
        → c.strategy b ≡ built method params
        → R (send w c b call)
    unfolding send
    encode-paths method params is_built =
        rw (is_built, send)
          (elim (Option-cases (w.encode method params)) [
            | inl e ↦ rw e (if_unprepared λ r h. cc (h.is_built, h.encoded))
            | inr (body, e) ↦ rw e (send_body-paths method params body is_built e)
          ])

    pub send-paths : R (send w c b call)
    unfolding send
    send-paths = elim (BuildResult-cases (c.strategy b)) [
      | inl (e, refused) ↦ rw (refused, send) (if_unprepared λ r h. cc (h.is_built))
      | inr (method, params, is_built) ↦ encode-paths method params is_built
    ]
