-- ===== src/Execution/ModifyResult/Kept.antt =====
-- A modification counts as done only when the broker shows the levels.
use llm_trade.Prelude.{
  ℕ, ◌≡◌, refl, Bool, true, false, Option, none, some, List, [], ◌∷◌, Bool-cases, inl, inr,
}
use llm_trade.Float.{Float}
use llm_trade.Instruments.{SymbolInfo}
use llm_trade.Execution.{ExecutionResult, OpenPosition, SendResult}
use llm_trade.Execution.Results.{completed_retcode, parse_result}
use llm_trade.Execution.OpenResult.Bound.{IsReported}
use llm_trade.Execution.OpenResult.Changed.{parse_result-uncompleted}
use llm_trade.Execution.ModifyResult.{
  level_tolerance, has_levels, verify_levels, reconcile_modify_result,
}

module _ {F : Type 0} ⦃fl : Float F⦄ where
  -- What a successful modification promises.
  pub record IsKept (sl tp : F) (info : SymbolInfo F)
      (reads : List (Option (List (OpenPosition F)))) (ticket : ℕ) (result : ExecutionResult F)
      : Type 0 where
    pub position : OpenPosition F
    pub reported : IsReported reads position
    pub levels : has_levels (level_tolerance info) sl tp position ≡ true
    pub ticket_is : result.ticket ≡ some ticket
    pub verified_is : (result.verified ≡ true) × (result.state_changed ≡ true)

  -- Of any test of a position.
  record IsVerified (kept : OpenPosition F → Bool) (reads : List (Option (List (OpenPosition F))))
      (ticket : ℕ) (result : ExecutionResult F) : Type 0 where
    position : OpenPosition F
    reported : IsReported reads position
    passed : kept position ≡ true
    ticket_is : result.ticket ≡ some ticket
    verified_is : (result.verified ≡ true) × (result.state_changed ≡ true)

  later-IsVerified :
      (kept : OpenPosition F → Bool) (read : Option (List (OpenPosition F)))
      (reads : List (Option (List (OpenPosition F)))) (ticket : ℕ) (result : ExecutionResult F)
      → IsVerified kept reads ticket result
      → IsVerified kept (read ∷ reads) ticket result
  later-IsVerified kept none reads ticket result v = record {
    position = v.position;
    reported = v.reported;
    passed = v.passed;
    ticket_is = v.ticket_is;
    verified_is = v.verified_is;
  }
  later-IsVerified kept (some positions) reads ticket result v = record {
    position = v.position;
    reported = inr v.reported;
    passed = v.passed;
    ticket_is = v.ticket_is;
    verified_is = v.verified_is;
  }

  verify_levels-IsVerified :
      (parsed : ExecutionResult F) (ticket : ℕ) (kept : OpenPosition F → Bool) (query_failed : Bool)
      (reads : List (Option (List (OpenPosition F))))
      → (verify_levels parsed ticket kept query_failed reads).success ≡ true
      → IsVerified kept reads ticket (verify_levels parsed ticket kept query_failed reads)
  unfolding verify_levels
  verify_levels-IsVerified parsed ticket kept query_failed [] = λ s. cc
  verify_levels-IsVerified parsed ticket kept query_failed (none ∷ reads) = λ s.
      later-IsVerified kept none reads ticket _
        (verify_levels-IsVerified parsed ticket kept true reads s)
  verify_levels-IsVerified parsed ticket kept query_failed (some [] ∷ reads) = λ s. cc
  verify_levels-IsVerified parsed ticket kept query_failed (some (p ∷ ps) ∷ reads) =
      elim (Bool-cases (kept p)) [
        | inl good ↦
            rw (verify_levels, good)
              (λ s. record {
                position = p;
                reported = inl (inl refl);
                passed = good;
                ticket_is = refl;
                verified_is = (refl, refl);
              })
        | inr bad ↦
            rw (verify_levels, bad)
              (λ s.
                later-IsVerified kept (some (p ∷ ps)) reads ticket _
                  (verify_levels-IsVerified parsed ticket kept false reads s))
      ]

  verify_levels-changed :
      (parsed : ExecutionResult F) (ticket : ℕ) (kept : OpenPosition F → Bool) (query_failed : Bool)
      (reads : List (Option (List (OpenPosition F))))
      → (verify_levels parsed ticket kept query_failed reads).state_changed ≡ true
  unfolding verify_levels
  verify_levels-changed parsed ticket kept query_failed [] = refl
  verify_levels-changed parsed ticket kept query_failed (none ∷ reads) =
      verify_levels-changed parsed ticket kept true reads
  verify_levels-changed parsed ticket kept query_failed (some [] ∷ reads) = refl
  verify_levels-changed parsed ticket kept query_failed (some (p ∷ ps) ∷ reads) =
      elim (Bool-cases (kept p)) [
        | inl good ↦ rw (verify_levels, good) refl
        | inr bad ↦ rw (verify_levels, bad) (verify_levels-changed parsed ticket kept false reads)
      ]

  -- A modification is successful only if the broker completed it and one of the reads shows the
  -- position with both requested levels, within the tolerance; and whether it reports a change is
  -- whether the broker completed it.
  pub reconcile_modify_result-IsKept :
      (answer : Option (SendResult F)) (ticket : ℕ) (sl tp : F) (info : SymbolInfo F)
      (reads : List (Option (List (OpenPosition F))))
      → let result = reconcile_modify_result answer (parse_result answer) ticket sl tp info reads in
        (result.success ≡ true
          → (completed_retcode answer ≡ true) × IsKept sl tp info reads ticket result)
        × (result.state_changed ≡ completed_retcode answer)
  unfolding reconcile_modify_result
  reconcile_modify_result-IsKept answer ticket sl tp info reads =
      let kept = has_levels (level_tolerance info) sl tp in
      elim (Bool-cases (completed_retcode answer)) [
        | inl done ↦ rw done (
          (λ s.
              let v = verify_levels-IsVerified (parse_result answer) ticket kept false reads s in
              (
                refl,
                record {
                  position = v.position;
                  reported = v.reported;
                  levels = v.passed;
                  ticket_is = v.ticket_is;
                  verified_is = v.verified_is;
                },
              )),
          verify_levels-changed (parse_result answer) ticket kept false reads,
        )
        | inr pending ↦
            let (fails, still) = parse_result-uncompleted answer pending in
            rw pending ((λ s. cc), still)
      ]
