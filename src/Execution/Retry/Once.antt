-- ===== src/Execution/Retry/Once.antt =====
-- How often an operation is tried, and why again.
use llm_trade.Prelude.{
  from_first, ℕ, zero, suc, ◌+◌, ◌≤◌, ◌<◌, ◌≡◌, refl, Bool, true, false, not, ◌&&◌, none, arith,
  Bool-cases, ◌⊎◌, inl, inr,
}
use llm_trade.Execution.{ExecutionResult, failed, no_connection}
use llm_trade.Execution.Retry.{again, attempt_from, with_retry}

module _ {F : Type 0} where
  -- The last attempt is the result; each before it failed with a code that asks for a new quote.
  pub record IsTried (submit : ℕ → ExecutionResult F) (first limit : ℕ)
      (made : ExecutionResult F × ℕ) : Type 0 where
    pub result_is : made.0 ≡ submit made.1
    pub bounds : (first ≤ made.1) × (made.1 < limit)
    pub retried : (i : ℕ) → first ≤ i → i < made.1 → again (submit i) ≡ true
    pub ended : (made.1 + 1 < limit) → again made.0 ≡ false

  later-IsTried :
      (submit : ℕ → ExecutionResult F) (attempt limit : ℕ) (made : ExecutionResult F × ℕ)
      → again (submit attempt) ≡ true
      → IsTried submit (suc attempt) limit made
      → IsTried submit attempt limit made
  later-IsTried submit attempt limit made retries t = record {
    result_is = t.result_is;
    bounds = (omega (arith, t.bounds.0), t.bounds.1);
    retried = from_first attempt (λ h. retries) t.retried;
    ended = t.ended;
  }

  attempt_from-IsTried :
      (submit : ℕ → ExecutionResult F) (left attempt limit : ℕ) (last : ExecutionResult F × ℕ)
      → attempt + suc left ≡ limit
      → IsTried submit attempt limit (attempt_from submit (suc left) attempt last)
  unfolding attempt_from
  attempt_from-IsTried submit zero attempt limit last is =
      elim (Bool-cases (again (submit attempt))) [
        | inl retries ↦
            rw (attempt_from, retries)
              record {
                result_is = refl;
                bounds = (omega arith, omega arith);
                retried = λ i l h. absurd (omega arith);
                ended = λ h. absurd (omega arith);
              }
        | inr ends ↦
            rw (attempt_from, ends)
              record {
                result_is = refl;
                bounds = (omega arith, omega arith);
                retried = λ i l h. absurd (omega arith);
                ended = λ h. ends;
              }
      ]
  attempt_from-IsTried submit (suc left) attempt limit last is =
      elim (Bool-cases (again (submit attempt))) [
        | inl retries ↦
            rw (attempt_from, retries)
              (later-IsTried submit attempt limit
                (attempt_from submit (suc left) (suc attempt) (submit attempt, attempt)) retries
                (attempt_from-IsTried submit left (suc attempt) limit (submit attempt, attempt)
                  (omega arith)))
        | inr ends ↦
            rw (attempt_from, ends)
              record {
                result_is = refl;
                bounds = (omega arith, omega arith);
                retried = λ i l h. absurd (omega arith);
                ended = λ h. ends;
              }
      ]

  -- Without a connection nothing is tried. With one there are one to three attempts: the result is that
  -- of the last, each before it failed with a code that asks for a new quote, and if there were fewer
  -- than three then the last did not.
  pub with_retry-IsTried :
      (is_connected initializes : Bool) (submit : ℕ → ExecutionResult F)
      → (with_retry is_connected initializes submit ≡ (failed none no_connection, 0))
        ⊎ IsTried submit 1 4 (with_retry is_connected initializes submit)
  unfolding with_retry
  with_retry-IsTried is_connected initializes submit =
      elim (Bool-cases (not is_connected && not initializes)) [
        | inl offline ↦ inl (rw offline refl)
        | inr online ↦ inr (rw online (attempt_from-IsTried submit 2 1 4 _ refl))
      ]
