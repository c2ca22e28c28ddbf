-- ===== src/Risk/Exposure.antt =====
-- The gates that look at prices and at the exposure after an order: the raw ratio of reward to
-- risk, the stops of all positions together, and the margin that the broker asks for.
pub mod Margin
pub mod Stops
pub mod Bounded
use llm_trade.Prelude.{
  Bool, true, false, not, ◌&&◌, ◌||◌, Option, none, some, List, [], ◌∷◌, if◌then◌else◌, ◌⊎◌, inl,
  inr,
}
use llm_trade.Prelude.Int.{ℤ, pos}
use llm_trade.Float.{Float, nought, eq, gt, ge, max}
use llm_trade.Cell.{required, or_default}
use llm_trade.Settings.{Settings}
use llm_trade.Account.{Account}
use llm_trade.Text.{Text}
use llm_trade.Budget.{risk_capital, daily_loss_limit, is_nonneg, is_positive}
use llm_trade.Risk.Trade.{Side, buy, sell}
use llm_trade.Risk.State.{State}
use llm_trade.Risk.Reason.{
  Reason, levels_missing, buy_levels, sell_levels, zero_risk, risk_reward, portfolio_capital,
  portfolio_proposed, portfolio_no_stop, portfolio_unpriced, portfolio_risk, remaining_daily_risk,
  margin_for_lot_invalid, margin_for_lot, projected_margin, margin_unknown,
}
use llm_trade.Instruments.{SymbolInfo, Tick}
use llm_trade.Instruments.Spread.{or_nought, downside_risk_usd}
use llm_trade.Broker.{Broker}
use llm_trade.Risk.Sizing.{Decision}
use llm_trade.Risk.Checks.{Position, same_ℤ, usage_pct}

-- `BUY if type == 0 else SELL`
abbrev pub side_of_type : ℤ → Side
side_of_type type = if same_ℤ type (pos 0) then buy else sell

-- All but SELL is a BUY.
abbrev pub margin_side : Option Side → Side
margin_side (some sell) = sell
margin_side _ = buy

module _ {F : Type 0} ⦃fl : Float F⦄ where
  open fl use {dec, add, sub, mul, div, abs, lt, le, is_finite}

  -- The live price: the ask for a BUY and the bid otherwise.
  abbrev pub live_price : Option Side → Tick F → F
  live_price (some buy) tick = tick.ask
  live_price _ tick = tick.bid

  -- The levels of the action surround the entry; another action is not looked at.
  abbrev pub misplaced : Option Side → F → F → F → Option Reason
  misplaced none stop entry target = none
  misplaced (some buy) stop entry target =
      if lt stop entry && lt entry target then none else some buy_levels
  misplaced (some sell) stop entry target =
      if lt target entry && lt entry stop then none else some sell_levels

  abbrev pub check_ratio : Settings F → F → F → Option Reason
  check_ratio config risk reward =
      if eq risk nought
      then some zero_risk
      else if lt (add (div reward risk) (dec 1 9)) config.min_risk_reward_ratio
      then some risk_reward
      else none

  abbrev pub check_levels :
      Settings F → Option Side → Option F → Option F → Option (Tick F) → Option Reason
  check_levels config action (some stop) (some target) (some tick) =
      let entry = live_price action tick in
      elim (misplaced action stop entry target) [
        | some reason ↦ some reason
        | none ↦ check_ratio config (abs (sub entry stop)) (abs (sub target entry))
      ]
  check_levels config action _ _ _ = some levels_missing

  unfoldable pub check_risk_reward : Settings F → Broker F → Text → Decision F → Option Reason
  check_risk_reward config broker symbol decision =
      check_levels config decision.action decision.stop_loss decision.take_profit
        (broker.symbol_info_tick symbol)

  abbrev pub stop_risk : Broker F → Position F → Option F
  stop_risk broker position = downside_risk_usd (
      broker.order_calc_profit (side_of_type position.type) position.symbol position.volume
        position.price_open (or_nought position.sl))

  -- The loop over the positions, from the risk so far: the sum, or why it ended early.
  unfoldable pub sum_stop_risks : Broker F → List (Position F) → F → Reason ⊎ F
  sum_stop_risks broker [] total = inr total
  sum_stop_risks broker (position ∷ positions) total =
      if le (or_nought position.sl) nought
      then inl portfolio_no_stop
      else elim (stop_risk broker position) [
        | none ↦ inl portfolio_unpriced
        | some risk ↦ sum_stop_risks broker positions (add total risk)
      ]

  -- What is left of the daily limit.
  abbrev pub daily_left : Settings F → State F → Account F → F
  daily_left config s account = max nought (sub (daily_loss_limit account config) s.daily_loss_usd)

  abbrev pub check_total : Settings F → State F → Account F → Reason ⊎ F → Option Reason
  check_total config s account (inl reason) = some reason
  check_total config s account (inr total) =
      if gt (usage_pct total (risk_capital account)) (add config.max_portfolio_risk_pct (dec 1 9))
      then some portfolio_risk
      else if gt total (add (daily_left config s account) (dec 1 9))
      then some remaining_daily_risk
      else none

  unfoldable pub check_portfolio_risk :
      Settings F → Broker F → State F → Account F → List (Position F) → F → Option Reason
  check_portfolio_risk config broker s account positions proposed =
      if le (risk_capital account) nought
      then some portfolio_capital
      else if not (is_finite proposed) || lt proposed nought
      then some portfolio_proposed
      else check_total config s account (sum_stop_risks broker positions proposed)

  -- The margin that the broker asks for, with its buffer, and the usage that it leads to.
  abbrev pub check_needed : Settings F → F → F → F → Option F → Option Reason
  check_needed config free equity current none = some margin_unknown
  check_needed config free equity current (some needed) =
      if not (is_positive needed)
      then some margin_unknown
      else if lt free (mul needed (dec 105 2))
      then some margin_for_lot
      else if gt (usage_pct (add current needed) equity) config.max_margin_usage_pct
      then some projected_margin
      else none

  abbrev pub margin_price : Side → SymbolInfo F → F
  margin_price buy info = info.ask
  margin_price sell info = info.bid

  abbrev pub margin_needed : Broker F → Text → Side → F → Option (SymbolInfo F) → Option F
  margin_needed broker symbol side lot none = none
  margin_needed broker symbol side lot (some info) =
      broker.order_calc_margin side symbol lot (margin_price side info)

  -- `symbol_info(symbol) if symbol else None`
  abbrev pub named_info : Broker F → Text → Option (SymbolInfo F)
  named_info broker [] = none
  named_info broker (c ∷ cs) = broker.symbol_info (c ∷ cs)

  abbrev pub check_margin_of :
      Settings F
      → Broker F
      → F
      → Text
      → Option Side
      → Option F
      → Option F
      → Option F
      → Option Reason
  check_margin_of config broker lot symbol action (some free) (some equity) (some current) =
      if not (is_nonneg free && is_positive equity && is_nonneg current && is_positive lot)
      then some margin_for_lot_invalid
      else check_needed config free equity current
          (margin_needed broker symbol (margin_side action) lot (named_info broker symbol))
  check_margin_of config broker lot symbol action _ _ _ = some margin_for_lot_invalid

  unfoldable pub check_margin_for_lot :
      Settings F → Broker F → Account F → F → Text → Option Side → Option Reason
  check_margin_for_lot config broker account lot symbol action =
      check_margin_of config broker lot symbol action (required account.margin_free)
        (required account.equity) (or_default nought account.margin)
