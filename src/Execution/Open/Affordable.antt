-- ===== src/Execution/Open/Affordable.antt =====
-- What the last check of an opening says of its risk and its reward.
use llm_trade.Prelude.{◌≡◌, refl, false, Option, none, some, arith}
use llm_trade.Float.{Float, nought, gt, eq, max}
use llm_trade.Settings.{Settings}
use llm_trade.Instruments.{SymbolInfo}
use llm_trade.Costs.{ExecutionRiskEstimate, estimate_execution_risk}
use llm_trade.Execution.Open.{
  OpenMoments, OpenOrder, check_reward, check_estimate, check_final_risk,
}

module _ {F : Type 0} ⦃fl : Float F⦄ (config : Settings F) (m : OpenMoments F)
    (o : OpenOrder F) where
  open fl use {dec, add, sub, mul, div, lt, le, is_finite}

  -- The reward at the target covers the minimum ratio, after the configured costs.
  pub record IsRewarding (estimate : ExecutionRiskEstimate F) (tp : F) : Type 0 where
    pub reward : F
    pub reward_is :
        m.at_reward.broker.order_calc_profit o.side o.symbol o.lot estimate.worst_entry tp
        ≡ some reward
    pub ratio :
        lt
          (add
            (div (max nought (sub reward estimate.configured_cost_usd)) estimate.total_risk_usd)
            (dec 1 9))
          config.min_risk_reward_ratio
        ≡ false

  -- The worst allowed fill is within the budget.
  pub record IsAffordable (budget price sl tp : F) (info : SymbolInfo F) : Type 0 where
    pub estimate : ExecutionRiskEstimate F
    pub estimate_is :
        estimate_execution_risk config m.at_risk.broker o.symbol
          (some o.side)
          o.lot
          price
          sl
          info
          none
        ≡ some estimate
    pub within : gt estimate.total_risk_usd (add budget (dec 1 9)) ≡ false
    pub rewarding : eq tp nought ≡ false → IsRewarding estimate tp

  check_reward-IsRewarding :
      (estimate : ExecutionRiskEstimate F) (tp : F) (found : Option F)
      → m.at_reward.broker.order_calc_profit o.side o.symbol o.lot estimate.worst_entry tp ≡ found
      → check_reward config m o estimate found ≡ none
      → IsRewarding estimate tp
  check_reward-IsRewarding estimate tp none is h = cc
  check_reward-IsRewarding estimate tp (some reward) is h = record {
    reward = reward;
    reward_is = is;
    ratio = ground arith;
  }

  check_estimate-IsAffordable :
      (budget price sl tp : F) (info : SymbolInfo F) (found : Option (ExecutionRiskEstimate F))
      → estimate_execution_risk config m.at_risk.broker o.symbol
          (some o.side)
          o.lot
          price
          sl
          info
          none
        ≡ found
      → check_estimate config m o budget tp found ≡ none
      → IsAffordable budget price sl tp info
  check_estimate-IsAffordable budget price sl tp info none is h = cc
  check_estimate-IsAffordable budget price sl tp info (some estimate) is h = record {
    estimate = estimate;
    estimate_is = is;
    within = ground arith;
    rewarding = λ target. check_reward-IsRewarding estimate tp _ refl (ground arith);
  }

  check_final_risk-IsAffordable :
      (budget price sl tp : F) (info : SymbolInfo F)
      → check_final_risk config m o price sl tp info (some budget) ≡ none
      → eq sl nought ≡ false
      → IsAffordable budget price sl tp info
  check_final_risk-IsAffordable budget price sl tp info h stop =
      check_estimate-IsAffordable budget price sl tp info _ refl (ground arith)

  pub max_risk-IsAffordable :
      (price sl tp : F) (info : SymbolInfo F) (max_risk : Option F)
      → check_final_risk config m o price sl tp info max_risk ≡ none
      → (budget : F) → max_risk ≡ some budget
      → eq sl nought ≡ false
      → IsAffordable budget price sl tp info
  max_risk-IsAffordable price sl tp info none h budget is stop = cc
  max_risk-IsAffordable price sl tp info (some b) h budget is stop =
      check_final_risk-IsAffordable budget price sl tp info (ground arith) stop
