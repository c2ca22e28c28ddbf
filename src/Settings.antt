-- ===== src/Settings.antt =====
-- The fields of `Settings` in app_config/settings.py that the modelled code reads. Each is a
-- parameter of the process, read from the environment once.
pub mod Sample
use llm_trade.Prelude.{ℕ, Bool, List}
use llm_trade.Text.{Text}
use llm_trade.Prelude.Int.{ℤ}

pub record Settings (F : Type 0) : Type 0 where
  pub max_open_positions : ℤ
  pub weekend_trading_enabled : Bool
  pub weekend_symbols : List Text
  pub news_lockout_minutes : ℤ
  pub require_news_calendar : Bool
  pub risk_percent : F
  pub manual_override_max_risk_pct : F
  pub max_portfolio_risk_pct : F
  pub max_margin_usage_pct : F
  pub max_daily_loss_usd : F
  pub max_daily_loss_pct : F
  pub drawdown_entry_lock_enabled : Bool
  pub max_drawdown_pct : F
  pub max_spread_pips : F
  pub max_crypto_spread_bps : F
  pub max_spread_to_stop_pct : F
  pub max_order_deviation_points : ℤ
  pub fx_round_turn_cost_usd_per_lot : F
  pub crypto_round_turn_cost_usd_per_lot : F
  pub cfd_round_turn_cost_usd_per_lot : F
  pub fixed_execution_cost_usd : F
  pub min_risk_reward_ratio : F
  pub min_free_margin_usd : F
  pub min_margin_level_pct : F
  pub loss_cooldown_minutes : ℤ
  pub loss_streak_pause_hours : ℤ
  pub dry_run : Bool
  pub require_sl_tp : Bool
  pub max_tick_age_seconds : F
  pub strategy_magic : ℕ
  pub auto_close_profit_enabled : Bool
  pub auto_close_profit_usd : F
  pub auto_close_loss_enabled : Bool
  pub auto_close_loss_usd : F
