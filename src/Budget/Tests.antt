-- ===== src/Budget/Tests.antt =====
-- Runs of the budget, and the theorems at a concrete account.
use llm_trade.Prelude.{◌≡◌, refl, ◌⊎◌, none}
use llm_trade.Float.{nought, ◌≼◌}
use llm_trade.Float.Fixed.{nan, fixed_float, Fixed-IsOrdered, Fixed-IsMonotone}
use llm_trade.Cell.{number}
use llm_trade.Settings.Sample.{usd, sample_settings, sample_account}
use llm_trade.Budget.{risk_capital, daily_loss_limit, entry_refused, entry_risk_budget, percent_of}
use llm_trade.Budget.Bounds.{
  IsBacked, IsDailyCap, IsEntryCap, risk_capital_bounds, daily_loss_limit_bounds,
  entry_risk_budget_bounds,
}
use llm_trade.Budget.Daily.{entry_risk_budget_anti}

runs :
    (risk_capital sample_account ≡ usd 180)
    × (daily_loss_limit sample_account sample_settings ≡ usd 5)
    × (entry_risk_budget sample_account sample_settings none (usd 4) ≡ usd 1)
    × (entry_risk_budget sample_account sample_settings none (usd 9) ≡ nought)
    × (entry_risk_budget sample_account sample_settings none nan ≡ nought)
unfolding risk_capital daily_loss_limit entry_refused entry_risk_budget
runs = (refl, refl, refl, refl, refl)

risk_capital_bounds_example :
    (risk_capital sample_account ≡ nought)
    ⊎ IsBacked (number (usd 200)) (number (usd 180)) (risk_capital sample_account)
risk_capital_bounds_example = risk_capital_bounds Fixed-IsOrdered sample_account

daily_loss_limit_bounds_example :
    IsDailyCap
      (usd 5)
      (percent_of (risk_capital sample_account) (usd 3))
      (daily_loss_limit sample_account sample_settings)
unfolding risk_capital daily_loss_limit
daily_loss_limit_bounds_example =
    daily_loss_limit_bounds Fixed-IsOrdered sample_account sample_settings refl

entry_risk_budget_bounds_example :
    (entry_risk_budget sample_account sample_settings none (usd 4) ≡ nought)
    ⊎ IsEntryCap sample_account sample_settings
        (usd 2)
        (usd 4)
        (entry_risk_budget sample_account sample_settings none (usd 4))
entry_risk_budget_bounds_example =
    entry_risk_budget_bounds Fixed-IsOrdered sample_account sample_settings none (usd 4)

entry_risk_budget_anti_example :
    entry_risk_budget sample_account sample_settings none (usd 4)
    ≼ entry_risk_budget sample_account sample_settings none (usd 1)
unfolding risk_capital
entry_risk_budget_anti_example =
    entry_risk_budget_anti Fixed-IsOrdered Fixed-IsMonotone sample_account sample_settings none
      (usd 1) (usd 4) refl refl refl refl
