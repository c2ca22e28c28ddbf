-- ===== src/Risk/Checks.antt =====
-- The gates of `RiskManager` before and after sizing. A gate returns `none` for `True, ""` and the
-- reason otherwise; the positions are those that MetaTrader reports, with numbers in their fields.
pub mod Passed
use llm_trade.Prelude.{
  ℕ, ◌+◌, ◌*◌, Bool, true, false, not, ◌&&◌, ◌||◌, Option, none, some, List, [], ◌∷◌, length, any,
  if◌then◌else◌, ltb, ◌==◌, ◌⊎◌, inl, inr,
}
use llm_trade.Prelude.Int.{ℤ, pos, negsuc, pos_part, ltb_ℤ, leb_ℤ}
use llm_trade.Float.{Float, nought, eq, gt, ge, max}
use llm_trade.Cell.{required, or_default}
use llm_trade.Settings.{Settings}
use llm_trade.Account.{Account}
use llm_trade.Text.{Text, upper, same_text}
use llm_trade.Budget.{risk_capital, daily_loss_limit, is_nonneg}
use llm_trade.Risk.Trade.{
  Trade, Side, buy, sell, parse_utc_datetime, or_stamp, profit_of, is_loss, microseconds_per_minute,
}
use llm_trade.Risk.State.{State, is_after, later_of}
use llm_trade.Risk.Reason.{
  Reason, spread_unavailable, quote_unavailable, spread, max_positions, duplicate_trade,
  daily_limits_invalid, daily_loss, drawdown, loss_cooldown, free_margin_invalid, free_margin,
  margin_level_invalid, margin_level, margin_usage_invalid, margin_usage, levels_missing,
  buy_levels, sell_levels, zero_risk, risk_reward, portfolio_capital, portfolio_proposed,
  portfolio_no_stop, portfolio_unpriced, portfolio_risk, remaining_daily_risk,
  margin_for_lot_invalid, margin_for_lot, projected_margin, margin_unknown, uncaught,
}
use llm_trade.Instruments.{SymbolInfo, Tick}
use llm_trade.Instruments.Spread.{or_nought, validate_spread, SpreadError, downside_risk_usd}
use llm_trade.Broker.{Broker}
use llm_trade.Risk.Sizing.{Decision}

pub record Position (F : Type 0) : Type 0 where
  pub symbol : Text
  pub type : ℤ
  pub volume : F
  pub price_open : F
  pub sl : F

-- The verdict of two gates in the order of the code: the second gate counts if the first passes.
infixr 30 ◌also◌
abbrev pub ◌also◌ : Option Reason → Option Reason → Option Reason
none also next = next
(some reason) also next = some reason

-- MT5: 0 is BUY and 1 is SELL.
abbrev pub type_code : Option Side → ℤ
type_code (some buy) = pos 0
type_code _ = pos 1

abbrev pub same_ℤ : ℤ → ℤ → Bool
same_ℤ a b = leb_ℤ a b && leb_ℤ b a

abbrev pub as_spread : Option SpreadError → Option Reason
as_spread none = none
as_spread (some error) = some (spread error)

abbrev pub later : Option ℕ → Option ℕ → Option ℕ
later none last = last
later (some t) last = some (later_of t last)

abbrev pub cooling : ℕ → ℕ → Option ℕ → Option Reason
cooling minutes now none = none
cooling minutes now (some last) =
    if ltb now (last + minutes * microseconds_per_minute) then some loss_cooldown else none

module _ {F : Type 0} ⦃fl : Float F⦄ where
  open fl use {dec, add, sub, mul, div, abs, lt, le, is_finite}

  -- the quote on the side of the action
  abbrev pub quoted : Option Side → Tick F → Option F
  quoted none tick = none
  quoted (some buy) tick = some tick.ask
  quoted (some sell) tick = some tick.bid

  abbrev pub check_quoted :
      Settings F → Text → Decision F → Option (SymbolInfo F) → Option (Tick F) → Option Reason
  check_quoted config symbol decision (some info) (some tick) =
      as_spread
        (validate_spread config symbol info tick (quoted decision.action tick) decision.stop_loss)
  check_quoted config symbol decision _ _ = some quote_unavailable

  -- `has_snapshot` is `market_snapshot is not None`.
  unfoldable pub check_spread : Settings F → Broker F → Text → Bool → Decision F → Option Reason
  check_spread config broker symbol has_snapshot decision =
      if not has_snapshot
      then some spread_unavailable
      else check_quoted config symbol decision (broker.symbol_info symbol)
          (broker.symbol_info_tick symbol)

  unfoldable pub check_max_positions : Settings F → List (Position F) → Option Reason
  check_max_positions config positions =
      if leb_ℤ config.max_open_positions (pos (length positions)) then some max_positions else none

  abbrev pub is_duplicate : Text → Option Side → Position F → Bool
  is_duplicate symbol action position =
      same_text (upper position.symbol) (upper symbol) && same_ℤ position.type (type_code action)

  unfoldable pub check_duplicate : Text → Option Side → List (Position F) → Option Reason
  check_duplicate symbol action positions =
      if any (is_duplicate symbol action) positions then some duplicate_trade else none

  unfoldable pub check_daily_loss : Settings F → State F → Account F → Option Reason
  check_daily_loss config s account =
      let limit = daily_loss_limit account config in
      if le limit nought
      then some daily_limits_invalid
      else if ge s.daily_loss_usd limit
      then some daily_loss
      else none

  -- the share of the peak that is lost, in percent
  abbrev pub drawdown_pct : F → F → F
  drawdown_pct peak equity = mul (div (sub peak equity) peak) (dec 100 0)

  abbrev pub check_drawdown_of : Settings F → F → Option F → Option Reason
  check_drawdown_of config peak none = some uncaught
  check_drawdown_of config peak (some equity) =
      if ge (drawdown_pct peak equity) config.max_drawdown_pct then some drawdown else none

  unfoldable pub check_drawdown : Settings F → State F → Account F → Option Reason
  check_drawdown config s account =
      if not config.drawdown_entry_lock_enabled || le config.max_drawdown_pct nought
      then none
      else if le s.peak_balance nought
      then none
      else check_drawdown_of config s.peak_balance (or_default nought account.equity)

  abbrev pub loss_after : Option ℕ → ℕ → F → Bool
  loss_after marker t pnl = is_finite pnl && is_loss pnl && is_after marker t

  abbrev pub loss_time : Option ℕ → Option ℕ → Option F → Option ℕ
  loss_time marker (some t) (some pnl) = if loss_after marker t pnl then some t else none
  loss_time marker _ _ = none

  -- the time of the latest loss after the marker
  unfoldable pub latest_loss : Option ℕ → List (Trade F) → Option ℕ
  latest_loss marker [] = none
  latest_loss marker (trade ∷ trades) =
      later
        (loss_time marker (parse_utc_datetime (or_stamp trade.close_time trade.time))
          (profit_of trade))
        (latest_loss marker trades)

  abbrev pub last_loss_of : State F → Option (List (Trade F)) → Option ℕ
  last_loss_of s none = s.last_loss_time
  last_loss_of s (some history) = latest_loss s.loss_cooldown_reset_after history

  -- The elapsed minutes are compared exactly, in microseconds.
  unfoldable pub check_loss_cooldown :
      Settings F → ℕ → State F → Option (List (Trade F)) → Option Reason
  check_loss_cooldown config now s history =
      if leb_ℤ config.loss_cooldown_minutes (pos 0)
      then none
      else cooling (pos_part config.loss_cooldown_minutes) now (last_loss_of s history)

  abbrev pub check_margin_free : Settings F → Option F → Option Reason
  check_margin_free config none = some free_margin_invalid
  check_margin_free config (some free) =
      if not (is_finite free)
      then some free_margin_invalid
      else if lt free config.min_free_margin_usd
      then some free_margin
      else none

  unfoldable pub check_free_margin : Settings F → Account F → Option Reason
  check_free_margin config account = check_margin_free config (required account.margin_free)

  abbrev pub check_level : Settings F → Option F → Option F → Option Reason
  check_level config (some level) (some margin) =
      if not (is_nonneg level && is_nonneg margin)
      then some margin_level_invalid
      else if eq level nought && eq margin nought
      then none
      else if lt level config.min_margin_level_pct
      then some margin_level
      else none
  check_level config _ _ = some margin_level_invalid

  unfoldable pub check_margin_level : Settings F → Account F → Option Reason
  check_margin_level config account =
      check_level config (required account.margin_level) (or_default nought account.margin)

  -- `margin / equity * 100.0`
  abbrev pub usage_pct : F → F → F
  usage_pct margin equity = mul (div margin equity) (dec 100 0)

  abbrev pub check_usage : Settings F → Option F → Option F → Option Reason
  check_usage config (some equity) (some margin) =
      if not (is_finite equity && is_finite margin) || le equity nought || lt margin nought
      then some margin_usage_invalid
      else if ge (usage_pct margin equity) config.max_margin_usage_pct
      then some margin_usage
      else none
  check_usage config _ _ = some margin_usage_invalid

  unfoldable pub check_margin_usage : Settings F → Account F → Option Reason
  check_margin_usage config account =
      check_usage config (required account.equity) (or_default nought account.margin)
