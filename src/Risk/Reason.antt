-- ===== src/Risk/Reason.antt =====
-- Why a trade is refused, one constructor for each rejection text; `uncaught` is an exception that
-- leaves the check.
use llm_trade.Instruments.Spread.{SpreadError}

pub data Reason : Type 0 where
  weekend_closed news_unavailable news_lockout : Reason
  spread_unavailable quote_unavailable : Reason
  spread : SpreadError → Reason
  max_positions duplicate_trade : Reason
  daily_limits_invalid daily_loss drawdown loss_cooldown : Reason
  free_margin_invalid free_margin margin_level_invalid margin_level : Reason
  margin_usage_invalid margin_usage : Reason
  levels_missing buy_levels sell_levels zero_risk risk_reward net_risk_reward : Reason
  lot_capital lot_percent lot_budget lot_quote lot_volume lot_estimate minimum_lot : Reason
  lot_unverified no_lot lot_reward profit_objective : Reason
  portfolio_capital portfolio_proposed portfolio_no_stop portfolio_unpriced portfolio_risk : Reason
  remaining_daily_risk : Reason
  margin_for_lot_invalid margin_for_lot projected_margin margin_unknown : Reason
  manual_side manual_net_reward uncaught : Reason
