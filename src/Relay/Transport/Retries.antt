-- ===== src/Relay/Transport/Retries.antt =====
-- Which answer the retry loop ends with, and after how many requests.
use bundle_broadcaster.Common.{
  Option, none, some, ℕ, zero, suc, ◌+◌, ◌<◌, ◌≡◌, refl, ◌⊎◌, inl, inr, String, true, false, arith,
  Bool-cases,
}
use native.Mathlib.Decide.{ℕ_discrete}
use bundle_broadcaster.Relay.Transport.{Answer, is_final, attempts, deliver}

-- Request number `last`, counted from 0, is the one to stop after: every earlier answer calls for a
-- retry, and either this one does not or no request is left of `limit`.
pub record IsLast (to_lower : String → String) (answers : ℕ → Answer) (limit last : ℕ)
    : Type 0 where
  pub bounded : last < limit
  pub retried : (i : ℕ) → i < last → is_final to_lower (answers i) ≡ false
  pub ended : (is_final to_lower (answers last) ≡ true) ⊎ (last + 1 ≡ limit)

pub record Stopped (to_lower : String → String) (answers : ℕ → Answer) (limit : ℕ)
    (result : Option Answer × ℕ) : Type 0 where
  pub last : ℕ
  pub is_last : IsLast to_lower answers limit last
  pub answer : result.0 ≡ some (answers last)
  pub made : result.1 ≡ last + 1

module _ (to_lower : String → String) (answers : ℕ → Answer) where
  one_more :
      (n : ℕ)
      → ((i : ℕ) → i < n → is_final to_lower (answers i) ≡ false)
      → is_final to_lower (answers n) ≡ false
      → (i : ℕ) → i < n + 1
      → is_final to_lower (answers i) ≡ false
  one_more n h e i lt = elim (ℕ_discrete i n) [
    | yes same ↦ rw same e
    | no other ↦ h i (omega arith)
  ]

  stop_here :
      (n limit : ℕ)
      → n < limit
      → ((i : ℕ) → i < n → is_final to_lower (answers i) ≡ false)
      → (is_final to_lower (answers n) ≡ true) ⊎ (n + 1 ≡ limit)
      → Stopped to_lower answers limit (some (answers n), n + 1)
  stop_here n limit b h ended = record {
    last = n;
    is_last = record { bounded = b; retried = h; ended = ended };
    answer = refl;
    made = refl;
  }

  attempts-Stopped :
      (rounds attempt limit : ℕ) (last : Option Answer)
      → attempt + suc rounds ≡ limit
      → ((i : ℕ) → i < attempt → is_final to_lower (answers i) ≡ false)
      → Stopped to_lower answers limit (attempts to_lower answers (suc rounds) attempt last)
  unfolding attempts
  attempts-Stopped zero attempt limit last e h =
      elim (Bool-cases (is_final to_lower (answers attempt))) [
        | inl final ↦ rw (final, attempts) (stop_here attempt limit (omega arith) h (inl final))
        | inr again ↦
            rw (again, attempts) (stop_here attempt limit (omega arith) h (inr (omega arith)))
      ]
  attempts-Stopped (suc rounds) attempt limit last e h =
      elim (Bool-cases (is_final to_lower (answers attempt))) [
        | inl final ↦ rw (final, attempts) (stop_here attempt limit (omega arith) h (inl final))
        | inr again ↦
            rw (again, attempts)
              (attempts-Stopped rounds (attempt + 1) limit (some (answers attempt)) (omega arith)
                (one_more attempt h again))
      ]

  -- A bundle is posted at least once and at most three times. The loop keeps the answer to the last
  -- request; each answer before it was an error worth a retry, and the last one is not unless it is
  -- the third.
  pub deliver-Stopped : Stopped to_lower answers 3 (deliver to_lower answers)
  unfolding deliver
  deliver-Stopped = attempts-Stopped 2 0 3 none refl (λ i lt. elim lt [ ])
