-- ===== src/Execution/OpenResult/Changed.antt =====
-- When a reconciled opening reports a change, and the code that it keeps.
use llm_trade.Prelude.{
  ℕ, ◌≡◌, refl, Bool, true, false, Option, none, some, List, [], ◌∷◌, arith, inl, inr, Bool-cases,
}
use llm_trade.Float.{Float}
use llm_trade.Risk.Trade.{Side}
use llm_trade.Instruments.{SymbolInfo}
use llm_trade.Execution.{ExecutionResult, OpenPosition, SendResult}
use llm_trade.Execution.Results.{is_completed_code, completed_retcode, parse_result}
use llm_trade.Execution.OpenResult.{bind_candidates, reconcile_open_result}

module _ {F : Type 0} where
  -- Without completion the parsed answer is a failure that changed nothing.
  pub parse_result-uncompleted :
      (answer : Option (SendResult F))
      → completed_retcode answer ≡ false
      → ((parse_result answer).success ≡ false) × ((parse_result answer).state_changed ≡ false)
  unfolding completed_retcode parse_result
  parse_result-uncompleted none h = (refl, refl)
  parse_result-uncompleted (some answer) h = ground arith

  pub parse_result-retcode :
      (answer : SendResult F) → (parse_result (some answer)).retcode ≡ some answer.retcode
  unfolding parse_result
  parse_result-retcode answer = ground arith

module _ {F : Type 0} ⦃fl : Float F⦄ where
  bind_candidates-changed :
      (answer : SendResult F) (parsed : ExecutionResult F) (requested : F)
      (before : List (OpenPosition F)) (info : SymbolInfo F) (found : Bool × List (OpenPosition F))
      → (bind_candidates answer parsed requested before info found).state_changed ≡ true
  bind_candidates-changed answer parsed requested before info (true, cs) = refl
  bind_candidates-changed answer parsed requested before info (false, []) = refl
  bind_candidates-changed answer parsed requested before info (false, c ∷ cs) = ground arith

  -- Whether an opening reports a change is whether the broker completed the order.
  pub reconcile_open_result-changed :
      (magic : ℕ) (answer : Option (SendResult F)) (side : Side) (requested : F)
      (before : List (OpenPosition F)) (info : SymbolInfo F)
      (reads : List (Option (List (OpenPosition F))))
      → (reconcile_open_result magic answer
          (parse_result answer)
          side
          requested
          before
          info
          reads).state_changed
        ≡ completed_retcode answer
  unfolding reconcile_open_result completed_retcode
  reconcile_open_result-changed magic none side requested before info reads =
      (parse_result-uncompleted {F = F} none refl).1
  reconcile_open_result-changed magic (some answer) side requested before info reads =
      elim (Bool-cases (is_completed_code answer.retcode)) [
        | inl done ↦
            rw done
              (bind_candidates-changed answer (parse_result (some answer)) requested before info _)
        | inr open_order ↦ rw open_order (parse_result-uncompleted (some answer) open_order).1
      ]

  bind_candidates-retcode :
      (answer : SendResult F) (parsed : ExecutionResult F) (requested : F)
      (before : List (OpenPosition F)) (info : SymbolInfo F) (found : Bool × List (OpenPosition F))
      → (bind_candidates answer parsed requested before info found).retcode ≡ parsed.retcode
  bind_candidates-retcode answer parsed requested before info (true, cs) = refl
  bind_candidates-retcode answer parsed requested before info (false, []) = refl
  bind_candidates-retcode answer parsed requested before info (false, c ∷ cs) = ground arith

  -- The result keeps the code of the answer.
  pub reconcile_open_result-retcode :
      (magic : ℕ) (answer : SendResult F) (parsed : ExecutionResult F) (side : Side) (requested : F)
      (before : List (OpenPosition F)) (info : SymbolInfo F)
      (reads : List (Option (List (OpenPosition F))))
      → (reconcile_open_result magic (some answer) parsed side requested before info reads).retcode
        ≡ parsed.retcode
  unfolding reconcile_open_result
  reconcile_open_result-retcode magic answer parsed side requested before info reads =
      elim (Bool-cases (completed_retcode (some answer))) [
        | inl done ↦ rw done (bind_candidates-retcode answer parsed requested before info _)
        | inr open_order ↦ rw open_order refl
      ]
