-- ===== src/Settings/Sample.antt =====
-- One configuration and one account, for the runs and the examples of every component.
use llm_trade.Prelude.{ℕ, ◌*◌, true, false, [], ◌∷◌}
use llm_trade.Text.{codes}
use llm_trade.Prelude.Int.{pos}
use llm_trade.Float.Fixed.{Fixed, num}
use llm_trade.Cell.{number}
use llm_trade.Account.{Account}
use llm_trade.Settings.{Settings}

-- Whole dollars, percents or ratios, and thousandths of them.
abbrev pub usd : ℕ → Fixed
usd n = num (pos (n * 1000))

abbrev pub mills : ℕ → Fixed
mills n = num (pos n)

abbrev pub sample_settings : Settings Fixed
sample_settings = record {
  max_open_positions = pos 2;
  weekend_trading_enabled = true;
  weekend_symbols = codes "btcusd" ∷ [];
  news_lockout_minutes = pos 30;
  require_news_calendar = true;
  risk_percent = usd 2;
  manual_override_max_risk_pct = usd 4;
  max_portfolio_risk_pct = usd 6;
  max_margin_usage_pct = usd 35;
  max_daily_loss_usd = usd 5;
  max_daily_loss_pct = usd 3;
  drawdown_entry_lock_enabled = true;
  max_drawdown_pct = usd 20;
  max_spread_pips = usd 3;
  max_crypto_spread_bps = usd 20;
  max_spread_to_stop_pct = usd 20;
  max_order_deviation_points = pos 20;
  fx_round_turn_cost_usd_per_lot = usd 7;
  crypto_round_turn_cost_usd_per_lot = usd 0;
  cfd_round_turn_cost_usd_per_lot = usd 0;
  fixed_execution_cost_usd = usd 0;
  min_risk_reward_ratio = mills 1470;
  min_free_margin_usd = usd 5;
  min_margin_level_pct = usd 250;
  loss_cooldown_minutes = pos 60;
  loss_streak_pause_hours = pos 24;
  dry_run = false;
  require_sl_tp = true;
  max_tick_age_seconds = usd 10;
  strategy_magic = 202_600;
  auto_close_profit_enabled = false;
  auto_close_profit_usd = mills 500;
  auto_close_loss_enabled = true;
  auto_close_loss_usd = usd 3;
}

abbrev pub sample_account : Account Fixed
sample_account = record {
  balance = number (usd 200);
  equity = number (usd 180);
  margin = number (usd 20);
  margin_free = number (usd 160);
  margin_level = number (usd 900);
}
