-- ===== src/Execution/Open/Single.antt =====
-- How often `open_trade` changes anything at the broker.
use llm_trade.Prelude.{
  ℕ, zero, suc, ◌≡◌, ◌≤◌, ◌<◌, refl, ap, subst, ◌∙◌, Bool, true, false, Option, none, some, List,
  arith, ◌⊎◌, inl, inr,
}
use llm_trade.Float.{Float}
use llm_trade.Settings.{Settings}
use llm_trade.Timebase.{Offsets}
use llm_trade.Instruments.{SymbolInfo}
use llm_trade.Execution.{
  ExecutionResult, OpenPosition, SendResult, failed, Retcode, retcode_done, retcode_done_partial,
  retcode_requote, retcode_price_changed, retcode_price_off, retcode_other, no_connection,
}
use llm_trade.Execution.Results.{is_completed_code, completed_retcode, parse_result}
use llm_trade.Execution.OpenResult.{reconcile_open_result}
use llm_trade.Execution.OpenResult.Changed.{reconcile_open_result-retcode, parse_result-retcode}
use llm_trade.Execution.Retry.{again}
use llm_trade.Execution.Retry.Once.{IsTried, with_retry-IsTried}
use llm_trade.Execution.{Submission}
use llm_trade.Execution.Open.{OpenMoments, OpenOrder, reads, open_attempt, open_trade}
use llm_trade.Execution.Open.Ended.{IsEnded, submit_open-IsEnded, submit_open-changed}

module _ {F : Type 0} where
  again_code :
      (result : ExecutionResult F) (code : Retcode)
      → again result ≡ true
      → result.retcode ≡ some code
      → is_completed_code code ≡ false
  again_code result retcode_done h e = ground (arith, e)
  again_code result retcode_done_partial h e = ground (arith, e)
  again_code result retcode_requote h e = refl
  again_code result retcode_price_changed h e = refl
  again_code result retcode_price_off h e = refl
  again_code result (retcode_other n) h e = refl

module _ {F : Type 0} ⦃fl : Float F⦄ (config : Settings F) (m : OpenMoments F)
    (o : OpenOrder F) where
  -- The result after the answer keeps its code, so it is tried again only if that was not completed.
  reconciled_retry :
      (answer : Option (SendResult F)) (before : List (OpenPosition F)) (info : SymbolInfo F)
      → again (
          reconcile_open_result config.strategy_magic answer
            (parse_result answer)
            o.side
            o.lot
            before
            info
            (reads config m o))
        ≡ true
      → completed_retcode answer ≡ false
  unfolding completed_retcode
  reconciled_retry none before info h = refl
  reconciled_retry (some answer) before info h =
      let kept =
        reconcile_open_result-retcode config.strategy_magic answer (parse_result (some answer))
          o.side o.lot before info (reads config m o)
        ∙ parse_result-retcode answer in
      again_code
        (reconcile_open_result config.strategy_magic (some answer) (parse_result (some answer))
          o.side o.lot before info (reads config m o))
        answer.retcode h kept

  unsent_again :
      (s : Submission F)
      → IsEnded config m o s
      → again s.result ≡ true
      → completed_retcode s.answer ≡ false
  unfolding completed_retcode
  unsent_again s (inl u) h = rw u.answer_none refl
  unsent_again s (inr a) h =
      reconciled_retry s.answer a.before a.info (subst (λ r. again r ≡ true) a.result_is h)

module _ {F : Type 0} ⦃fl : Float F⦄ where
  -- What the attempts of one call promise.
  pub record IsSingle (config : Settings F) (moments : ℕ → OpenMoments F) (o : OpenOrder F)
      (offsets : Offsets) (made : ExecutionResult F × ℕ) : Type 0 where
    pub bounds : (1 ≤ made.1) × (made.1 ≤ 3)
    pub result_is : made.0 ≡ (open_attempt config moments o offsets made.1).result
    pub uncompleted :
        (i : ℕ)
        → i < made.1
        → completed_retcode (open_attempt config moments o offsets i).answer ≡ false
    pub changed :
        made.0.state_changed
        ≡ completed_retcode (open_attempt config moments o offsets made.1).answer

  attempt_again :
      (config : Settings F) (moments : ℕ → OpenMoments F) (o : OpenOrder F) (offsets : Offsets)
      (i : ℕ)
      → again (open_attempt config moments o offsets i).result ≡ true
      → completed_retcode (open_attempt config moments o offsets i).answer ≡ false
  unfolding open_attempt
  attempt_again config moments o offsets zero h = cc
  attempt_again config moments o offsets (suc n) h =
      unsent_again config (moments (suc n)) o _ (submit_open-IsEnded config (moments (suc n)) o _) h

  attempt_changed :
      (config : Settings F) (moments : ℕ → OpenMoments F) (o : OpenOrder F) (offsets : Offsets)
      (i : ℕ)
      → (open_attempt config moments o offsets i).result.state_changed
        ≡ completed_retcode (open_attempt config moments o offsets i).answer
  unfolding open_attempt completed_retcode
  attempt_changed config moments o offsets zero = refl
  attempt_changed config moments o offsets (suc n) =
      submit_open-changed config (moments (suc n)) o _

  -- Before the first attempt there is no answer.
  earlier_uncompleted :
      (config : Settings F) (moments : ℕ → OpenMoments F) (o : OpenOrder F) (offsets : Offsets)
      (made : ExecutionResult F × ℕ)
      → IsTried (λ n. (open_attempt config moments o offsets n).result) 1 4 made
      → (i : ℕ) → i < made.1
      → completed_retcode (open_attempt config moments o offsets i).answer ≡ false
  unfolding open_attempt completed_retcode
  earlier_uncompleted config moments o offsets made t zero h = refl
  earlier_uncompleted config moments o offsets made t (suc i) h =
      attempt_again config moments o offsets (suc i) (t.retried (suc i) (omega arith) h)

  tried-IsSingle :
      (config : Settings F) (moments : ℕ → OpenMoments F) (o : OpenOrder F) (offsets : Offsets)
      (made : ExecutionResult F × ℕ)
      → IsTried (λ n. (open_attempt config moments o offsets n).result) 1 4 made
      → IsSingle config moments o offsets made
  tried-IsSingle config moments o offsets made t = record {
    bounds = (t.bounds.0, omega (arith, t.bounds.1));
    result_is = t.result_is;
    uncompleted = earlier_uncompleted config moments o offsets made t;
    changed =
        ap (λ r. r.state_changed) t.result_is ∙ attempt_changed config moments o offsets made.1;
  }

  -- `open_trade` with a connection makes one to three attempts, of which at most the last is an order
  -- that the broker completed: it never sends a second order after a completed one. The result is that
  -- of the last attempt and reports a change exactly if that was completed.
  pub open_trade-IsSingle :
      (config : Settings F) (is_connected initializes : Bool) (moments : ℕ → OpenMoments F)
      (o : OpenOrder F) (offsets : Offsets)
      → let made = open_trade config is_connected initializes moments o offsets in
        (made ≡ (failed none no_connection, 0)) ⊎ IsSingle config moments o offsets made
  unfolding open_trade
  open_trade-IsSingle config is_connected initializes moments o offsets =
      elim (with_retry-IsTried is_connected initializes
        (λ n. (open_attempt config moments o offsets n).result)) [
          | inl offline ↦ inl offline
          | inr t ↦ inr (tried-IsSingle config moments o offsets _ t)
        ]
