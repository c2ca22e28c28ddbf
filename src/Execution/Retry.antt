-- ===== src/Execution/Retry.antt =====
-- `_with_retry`: an operation is tried again only after a code that asks for a new quote.
pub mod Once
use llm_trade.Prelude.{
  ℕ, zero, suc, Bool, true, false, not, ◌&&◌, ◌||◌, Option, none, some, if◌then◌else◌,
}
use llm_trade.Execution.{
  Retcode, retcode_requote, retcode_price_changed, retcode_price_off, ExecutionResult, failed,
  no_connection, no_attempts,
}

-- `_RETRYABLE_CODES`
abbrev pub is_retryable : Option Retcode → Bool
is_retryable (some retcode_requote) = true
is_retryable (some retcode_price_changed) = true
is_retryable (some retcode_price_off) = true
is_retryable _ = false

-- `MAX_RETRIES`
abbrev pub max_retries : ℕ
max_retries = 3

module _ {F : Type 0} where
  abbrev pub again : ExecutionResult F → Bool
  again result = not result.success && is_retryable result.retcode

  -- The loop, with the result of each attempt, from an attempt on: the last result and the number of
  -- attempts that were made.
  unfoldable pub attempt_from :
      (ℕ → ExecutionResult F) → ℕ → ℕ → ExecutionResult F × ℕ → ExecutionResult F × ℕ
  attempt_from submit zero attempt last = last
  attempt_from submit (suc left) attempt last = elim (again (submit attempt)) [
    | true ↦ attempt_from submit left (suc attempt) (submit attempt, attempt)
    | false ↦ (submit attempt, attempt)
  ]

  unfoldable pub with_retry : Bool → Bool → (ℕ → ExecutionResult F) → ExecutionResult F × ℕ
  with_retry is_connected initializes submit =
      if not is_connected && not initializes
      then (failed none no_connection, 0)
      else attempt_from submit max_retries 1 (failed none no_attempts, 0)
