-- ===== src/Risk/Override.antt =====
-- `validate_manual_override`: the operator's confirmation of a direction. The terminal is asked at
-- four moments, so there are four values of it.
pub mod Approved
mod Tests
use llm_trade.Prelude.{ℕ, Bool, true, false, Option, none, some, List, if◌then◌else◌}
use llm_trade.Float.{Float, min}
use llm_trade.Settings.{Settings}
use llm_trade.Account.{Account}
use llm_trade.Text.{Text}
use llm_trade.Risk.Trade.{Trade, Side}
use llm_trade.Risk.State.{State}
use llm_trade.Risk.Reason.{Reason, manual_side, manual_net_reward}
use llm_trade.Broker.{Broker}
use llm_trade.Risk.Sizing.{
  Decision, SizingOptions, Sizing, SizingResult, sized, refused, crashed, stuck, compute_lot_size,
}
use llm_trade.Risk.Checks.{
  Position, ◌also◌, check_spread, check_max_positions, check_duplicate, check_daily_loss,
  check_drawdown, check_free_margin, check_margin_level, check_margin_usage,
}
use llm_trade.Risk.Exposure.{check_portfolio_risk, check_margin_for_lot}

-- The terminal when each part asks it.
pub record Moments (F : Type 0) : Type 0 where
  pub at_spread : Broker F
  pub at_sizing : Broker F
  pub at_portfolio : Broker F
  pub at_margin : Broker F

-- `broken` is an exception of the sizing.
pub data Validation (F : Type 0) : Type 0 where
  approved : F → Sizing F → Validation F
  rejected : Reason → Validation F
  broken unending : Validation F

module _ {F : Type 0} ⦃fl : Float F⦄ (config : Settings F) (moments : Moments F)
    (symbol : Text) where
  open fl use {dec, add, lt}

  -- The gates before sizing.
  abbrev pub gates :
      State F → Account F → Bool → Decision F → List (Position F) → Option Side → Option Reason
  gates s account has_snapshot decision positions action =
      check_spread config moments.at_spread symbol has_snapshot decision
      also check_max_positions config positions
      also check_duplicate symbol action positions
      also check_daily_loss config s account
      also check_drawdown config s account
      also check_free_margin config account
      also check_margin_level config account
      also check_margin_usage config account

  abbrev pub manual_options : SizingOptions F
  manual_options = record {
    losing_streak = some 0;
    apply_streak_scaling = false;
    risk_pct_override = some (min config.risk_percent config.manual_override_max_risk_pct);
    force_minimum_lot = true;
    enforce_profit_objective = false;
  }

  abbrev pub decide : F → Sizing F → Option Reason → Validation F
  decide lot sizing none = approved lot sizing
  decide lot sizing (some reason) = rejected reason

  -- The gates after sizing.
  abbrev pub confirm :
      State F → Account F → List (Position F) → Option Side → SizingResult F → Validation F
  confirm s account positions action (refused reason) = rejected reason
  confirm s account positions action crashed = broken
  confirm s account positions action stuck = unending
  confirm s account positions action (sized lot sizing) =
      if lt (add sizing.rr (dec 1 9)) config.min_risk_reward_ratio
      then rejected manual_net_reward
      else decide lot sizing (
          check_portfolio_risk config moments.at_portfolio s account positions sizing.risk_usd
          also check_margin_for_lot config moments.at_margin account lot symbol action)

  abbrev pub after_gates : Option Reason → Validation F → Validation F
  after_gates none next = next
  after_gates (some reason) next = rejected reason

  unfoldable pub validate_manual_override :
      ℕ
      → State F
      → Account F
      → Bool
      → Decision F
      → List (Position F)
      → List (Trade F)
      → Option Side
      → Validation F
  validate_manual_override now s account has_snapshot decision positions history none =
      rejected manual_side
  validate_manual_override now s account has_snapshot decision positions history (some side) =
      after_gates (gates s account has_snapshot decision positions (some side)) (
        confirm s account positions (some side) (
          compute_lot_size config moments.at_sizing symbol now s account decision history
            manual_options))
