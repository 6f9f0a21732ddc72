-- ===== src/Relay/Client/Outcomes.antt =====
-- What Broadcast counts: one outcome for each bundle.
use bundle_broadcaster.Common.{
  ◌&&◌, ℕ, zero, suc, ◌≡◌, refl, ap, String, Bool, true, false, some, List, [], ◌∷◌, ◌++◌, arith,
  replicate, leb, ltb, eqb, if◌then◌else◌,
}
use bundle_broadcaster.Bundle.{IncomingBundle}
use bundle_broadcaster.Relay.Transport.{Answer, response, failure}
use bundle_broadcaster.Relay.Client.{
  RelayClient, HttpRequest, Effect, sent, failed, rate_limited, observed, posted, recorded,
  panicked, Services, hash_events, conclude,
}

pub data Outcome : Type 0 where
  delivered lost limited : Outcome

-- The counters that go up, in order. A panic is none of them.
abbrev pub outcomes : List Effect → List (Outcome × String)
outcomes [] = []
outcomes (sent name ∷ es) = (delivered, name) ∷ outcomes es
outcomes (failed name ∷ es) = (lost, name) ∷ outcomes es
outcomes (rate_limited name ∷ es) = (limited, name) ∷ outcomes es
outcomes (observed name ms ∷ es) = outcomes es
outcomes (posted request ∷ es) = outcomes es
outcomes (recorded event ∷ es) = outcomes es
outcomes (panicked ∷ es) = outcomes es

abbrev pub panics : List Effect → Bool
panics [] = false
panics (panicked ∷ es) = true
panics (_ ∷ es) = panics es

-- The requests that are sent.
abbrev pub posts : List Effect → List HttpRequest
posts [] = []
posts (posted request ∷ es) = request ∷ posts es
posts (_ ∷ es) = posts es

pub outcomes-posted :
    (n : ℕ) (r : HttpRequest) (es : List Effect)
    → outcomes (replicate n (posted r) ++ es) ≡ outcomes es
outcomes-posted zero r es = refl
outcomes-posted (suc n) r es = outcomes-posted n r es

pub panics-posted :
    (n : ℕ) (r : HttpRequest) (es : List Effect) → panics (replicate n (posted r) ++ es) ≡ panics es
panics-posted zero r es = refl
panics-posted (suc n) r es = panics-posted n r es

pub posts-posted :
    (n : ℕ) (r : HttpRequest) (es : List Effect)
    → posts (replicate n (posted r) ++ es) ≡ replicate n r ++ posts es
posts-posted zero r es = refl
posts-posted (suc n) r es = ap (◌∷◌ r) (posts-posted n r es)

-- One counter went up, that of this relay, and nothing panicked.
pub record Counted (name : String) (o : Outcome) (es : List Effect) : Type 0 where
  pub counted : outcomes es ≡ (o, name) ∷ []
  pub calm : panics es ≡ false

abbrev pub outcome_of_status : ℕ → Outcome
outcome_of_status status =
    if leb 200 status && ltb status 300 then delivered else if eqb status 429 then limited else lost

abbrev pub outcome_of_answer : Answer → Outcome
outcome_of_answer (response status body) = outcome_of_status status
outcome_of_answer (failure e) = lost

module _ (w : Services) (c : RelayClient) (b : IncomingBundle) where
  status-Counted :
      (limited_at status : ℕ) (body : String)
      → Counted c.relay.name
          (outcome_of_status status)
          (conclude w c b limited_at (some (response status body))).1
  unfolding conclude hash_events
  status-Counted t status body = record { counted = ground arith; calm = ground arith }

  pub conclude-Counted :
      (limited_at : ℕ) (a : Answer)
      → Counted c.relay.name (outcome_of_answer a) (conclude w c b limited_at (some a)).1
  unfolding conclude
  conclude-Counted t (failure e) = record { counted = refl; calm = refl }
  conclude-Counted t (response status body) = status-Counted t status body

  status-posts :
      (limited_at status : ℕ) (body : String)
      → posts (conclude w c b limited_at (some (response status body))).1 ≡ []
  unfolding conclude hash_events
  status-posts t status body = ground arith

  pub conclude-posts :
      (limited_at : ℕ) (a : Answer) → posts (conclude w c b limited_at (some a)).1 ≡ []
  unfolding conclude
  conclude-posts t (failure e) = refl
  conclude-posts t (response status body) = status-posts t status body
