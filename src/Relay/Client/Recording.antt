-- ===== src/Relay/Client/Recording.antt =====
-- Which calls of Broadcast hand a bundle hash to the tracker.
use bundle_broadcaster.Common.{
  ℕ, zero, suc, String, true, false, ◌&&◌, ◌≡◌, ◌==◌, refl, inl, inr, Option, none, some, List, [],
  ◌∷◌, ◌++◌, replicate, leb, ltb, Bool-cases, arith, subst, sym, ◌∙◌,
}
use bundle_broadcaster.Bundle.{IncomingBundle}
use bundle_broadcaster.Transaction.{compute_last_tx_hash, decode_tx_details}
use bundle_broadcaster.Tracker.Events.{HashEvent}
use bundle_broadcaster.Relay.Transport.{Answer, response, failure, deliver}
use bundle_broadcaster.Relay.Response.{parse_bundle_hash}
use bundle_broadcaster.Relay.Client.{
  RelayClient, HttpRequest, Effect, posted, recorded, Services, Call, is_cooling, hash_events,
  conclude, limit_body, exchange, failed, broadcast,
}
use bundle_broadcaster.Relay.Client.Paths.{Prepared, send-paths}

abbrev pub recordings : List Effect → List HashEvent
recordings [] = []
recordings (recorded e ∷ es) = e ∷ recordings es
recordings (_ ∷ es) = recordings es

pub recordings-posted :
    (n : ℕ) (r : HttpRequest) (es : List Effect)
    → recordings (replicate n (posted r) ++ es) ≡ recordings es
recordings-posted zero r es = refl
recordings-posted (suc n) r es = recordings-posted n r es

-- A list of effects records one event with the property, or no event has it and none is recorded.
pub data Records (P : HashEvent → Type 0) (es : List Effect) : Type 0 where
  one : (e : HashEvent) → P e → recordings es ≡ e ∷ [] → Records P es
  no_one : ((e : HashEvent) → ¬ P e) → recordings es ≡ [] → Records P es

module _ (w : Services) (c : RelayClient) (b : IncomingBundle) where
  abbrev pub event_of : String → HashEvent
  event_of hash = record {
    bundle_id = b.bundle_id;
    builder = c.relay.name;
    bundle_hash = hash;
    target_block = b.target_block;
    last_tx_hash = compute_last_tx_hash w.eth b.raw_txs;
    transactions = decode_tx_details w.eth b.raw_txs;
  }

  -- The last answer has a status from 200 to 299 and a bundle hash, and the relay is tracked.
  pub record Hashed (answer : Option Answer) (e : HashEvent) : Type 0 where
    pub tracked : c.tracked ≡ true
    pub status : ℕ
    pub body : String
    pub answered : answer ≡ some (response status body)
    pub accepted : (leb 200 status && ltb status 300) ≡ true
    pub named : (parse_bundle_hash w.unmarshal (limit_body body) == "") ≡ false
    pub event : e ≡ event_of (parse_bundle_hash w.unmarshal (limit_body body))

  -- The relay was asked, and its answer has a hash.
  pub record Landed (call : Call) (e : HashEvent) : Type 0 where
    pub cold : is_cooling c call.now ≡ false
    pub request : HttpRequest
    pub prepared : Prepared w c b request
    pub hashed : Hashed (deliver w.to_lower call.do_request).0 e

  hash_events-event_of :
      (body : String)
      → c.tracked ≡ true
      → (parse_bundle_hash w.unmarshal body == "") ≡ false
      → recordings (hash_events w c b body) ≡ event_of (parse_bundle_hash w.unmarshal body) ∷ []
  unfolding hash_events
  hash_events-event_of body tracked named = rw (tracked, named) refl

  hash_events_untracked :
      (body : String) → c.tracked ≡ false → recordings (hash_events w c b body) ≡ []
  unfolding hash_events
  hash_events_untracked body untracked = rw untracked refl

  hash_events_unnamed :
      (body : String)
      → (parse_bundle_hash w.unmarshal body == "") ≡ true
      → recordings (hash_events w c b body) ≡ []
  unfolding hash_events
  hash_events_unnamed body unnamed = rw unnamed (ground arith)

  recordings-accepted :
      (t status : ℕ) (body : String)
      → (leb 200 status && ltb status 300) ≡ true
      → recordings (conclude w c b t (some (response status body))).1
        ≡ recordings (hash_events w c b (limit_body body))
  unfolding conclude
  recordings-accepted t status body accepted = ground arith

  recordings-refused :
      (t status : ℕ) (body : String)
      → (leb 200 status && ltb status 300) ≡ false
      → recordings (conclude w c b t (some (response status body))).1 ≡ []
  unfolding conclude
  recordings-refused t status body refused = ground arith

  -- What `Hashed` says of an answer that is there.
  abbrev Fits : ℕ → String → Type 0
  Fits status body =
      ((leb 200 status && ltb status 300) ≡ true)
      × ((parse_bundle_hash w.unmarshal (limit_body body) == "") ≡ false)

  abbrev FitsAnswer : Option Answer → Type 0
  FitsAnswer none = ⊥
  FitsAnswer (some (failure x)) = ⊥
  FitsAnswer (some (response status body)) = Fits status body

  Hashed-FitsAnswer : (answer : Option Answer) (e : HashEvent) → Hashed answer e → FitsAnswer answer
  Hashed-FitsAnswer answer e h = subst FitsAnswer (sym h.answered) (h.accepted, h.named)

  response-Records :
      (t status : ℕ) (body : String)
      → (leb 200 status && ltb status 300) ≡ true
      → Records
          (Hashed (some (response status body)))
          (conclude w c b t (some (response status body))).1
  response-Records t status body accepted =
      let same = recordings-accepted t status body accepted in
      elim (Bool-cases c.tracked) [
        | inr untracked ↦
            no_one (λ e h. cc (h.tracked))
              (same ∙ hash_events_untracked (limit_body body) untracked)
        | inl tracked ↦ elim (Bool-cases (parse_bundle_hash w.unmarshal (limit_body body) == "")) [
          | inl unnamed ↦
              no_one (λ e h. cc ((Hashed-FitsAnswer _ e h).1, unnamed))
                (same ∙ hash_events_unnamed (limit_body body) unnamed)
          | inr named ↦
              one (event_of (parse_bundle_hash w.unmarshal (limit_body body)))
                (record {
                  tracked = tracked;
                  status = status;
                  body = body;
                  answered = refl;
                  accepted = accepted;
                  named = named;
                  event = refl;
                })
                (same ∙ hash_events-event_of (limit_body body) tracked named)
        ]
      ]

  pub conclude-Records :
      (t : ℕ) (answer : Option Answer) → Records (Hashed answer) (conclude w c b t answer).1
  unfolding conclude
  conclude-Records t none = no_one (λ e h. Hashed-FitsAnswer none e h) refl
  conclude-Records t (some (failure x)) = no_one (λ e h. Hashed-FitsAnswer _ e h) refl
  conclude-Records t (some (response status body)) =
      elim (Bool-cases (leb 200 status && ltb status 300)) [
        | inl accepted ↦ response-Records t status body accepted
        | inr refused ↦
            no_one (λ e h. cc ((Hashed-FitsAnswer _ e h).0, refused))
              (recordings-refused t status body refused)
      ]

  -- A call that fails before its request is made records nothing.
  unprepared-Records :
      (call : Call) (es : List Effect)
      → ((r : HttpRequest) → ¬ Prepared w c b r)
      → recordings es ≡ []
      → Records (Landed call) es
  unprepared-Records call es h quiet = no_one (λ e l. h l.request l.prepared) quiet

  exchange-Records :
      (call : Call) (r : HttpRequest)
      → is_cooling c call.now ≡ false
      → Prepared w c b r
      → Records (Landed call) (exchange w c b call r).1
  unfolding exchange
  exchange-Records call r cold prepared =
      let answer = (deliver w.to_lower call.do_request).0 in
      let made = (deliver w.to_lower call.do_request).1 in
      let skip = recordings-posted made r _ in
      elim (conclude-Records call.limited_at answer) [
        | one e h same ↦
            one e (record { cold = cold; request = r; prepared = prepared; hashed = h })
              (skip ∙ same)
        | no_one h same ↦ no_one (λ e l. h e l.hashed) (skip ∙ same)
      ]

  -- Broadcast hands at most one bundle hash to the tracker. It does so exactly if the relay is not
  -- cooling down, its request could be built, encoded, signed and created, the relay is tracked, and
  -- the last answer has a status from 200 to 299 and a bundle hash; the event names the bundle, the
  -- relay, that hash, the target block and the bundle's transactions.
  pub broadcast-Records : (call : Call) → Records (Landed call) (broadcast w c b call).1
  unfolding broadcast
  broadcast-Records call = elim (Bool-cases (is_cooling c call.now)) [
    | inl cooling ↦ rw (cooling, broadcast) (no_one (λ e l. cc (l.cold, cooling)) refl)
    | inr cold ↦
        rw (cold, broadcast)
          (send-paths w c b call (λ p. Records (Landed call) p.1)
            (λ h. unprepared-Records call (failed c.relay.name ∷ []) h refl)
            (λ r h. exchange-Records call r cold h))
  ]
