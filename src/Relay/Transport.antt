-- ===== src/Relay/Transport.antt =====
-- The retry loop of RelayClient.Broadcast and isRetryableConnError.
pub mod Retries
use bundle_broadcaster.Common.{
  Option, none, some, ℕ, zero, suc, ◌+◌, String, Bool, true, false, not, ◌||◌, List, [], ◌∷◌,
  contains, if◌then◌else◌,
}

-- What the client asks of a Go error: errors.Is, errors.As and the message.
pub record GoError : Type 0 where
  pub is_canceled : Bool
  pub is_deadline_exceeded : Bool
  pub is_op_error : Bool
  pub is_unexpected_eof : Bool
  pub is_eof : Bool
  pub message : String

-- `resp` or `lastErr` after a call of `client.Do`, which sets one of them.
pub data Answer : Type 0 where
  response : ℕ → String → Answer
  failure : GoError → Answer

abbrev pub max_retries : ℕ
max_retries = 3

abbrev pub conn_error_texts : List String
conn_error_texts =
    "connection refused" ∷ "connection reset" ∷ "broken pipe" ∷ "connection timed out"
    ∷ "i/o timeout" ∷ "tls handshake" ∷ "eof" ∷ []

unfoldable pub contains_any : String → List String → Bool
contains_any s [] = false
contains_any s (sub ∷ subs) = if contains s sub then true else contains_any s subs

-- `to_lower` is strings.ToLower.
module _ (to_lower : String → String) where
  unfoldable pub is_retryable_conn_error : GoError → Bool
  is_retryable_conn_error e =
      if e.is_op_error
      then true
      else if e.is_unexpected_eof || e.is_eof
      then true
      else contains_any (to_lower e.message) conn_error_texts

  -- The loop goes on after an error that neither is the context's nor forbids a retry.
  unfoldable pub is_final : Answer → Bool
  is_final (response status body) = true
  is_final (failure e) =
      (e.is_canceled || e.is_deadline_exceeded) || not (is_retryable_conn_error e)

  -- `rounds` are the attempts that are left, and `last` is `none` while `resp` and `lastErr` are nil.
  -- The result holds the number of attempts that were made.
  unfoldable pub attempts : (ℕ → Answer) → ℕ → ℕ → Option Answer → Option Answer × ℕ
  attempts do_request zero attempt last = (last, attempt)
  attempts do_request (suc rounds) attempt last = elim (is_final (do_request attempt)) [
    | true ↦ (some (do_request attempt), attempt + 1)
    | false ↦ attempts do_request rounds (attempt + 1) (some (do_request attempt))
  ]

  unfoldable pub deliver : (ℕ → Answer) → Option Answer × ℕ
  deliver do_request = attempts do_request max_retries 0 none
