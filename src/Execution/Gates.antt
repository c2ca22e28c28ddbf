-- ===== src/Execution/Gates.antt =====
-- The checks of `MT5OrderExecutor` before an order, each at one moment of the terminal: `none` is no
-- error.
use llm_trade.Prelude.{
  ◌%◌, ◌/◌, ℕ, Bool, false, not, ◌&&◌, ◌||◌, Option, none, some, if◌then◌else◌, ◌==◌,
}
use llm_trade.Prelude.Int.{ℤ, pos_part}
use llm_trade.Float.{Float, nought, gt, eq, max}
use llm_trade.Text.{Text, same_text}
use llm_trade.Settings.{Settings}
use llm_trade.Timebase.{Offsets, broker_tick_age_seconds}
use llm_trade.Risk.Trade.{Side, buy, sell}
use llm_trade.Instruments.{
  SymbolInfo, Tick, ModeError, validate_symbol_trade_mode, check_raw_mode, unset,
}
use llm_trade.Instruments.Spread.{SpreadError, or_nought, validate_spread}
use llm_trade.Execution.{
  Filling, fill_or_kill, immediate_or_cancel, return_rest, ExecError, account_unverified,
  terminal_disconnected, trading_disabled, account_changed, symbol_unselected, symbol_missing,
  symbol_hidden, spread_unavailable, quote_stale, bad_mode, bad_spread, lot_too_small,
  lot_too_large, lot_off_step, margin_quote, margin_unknown, margin_account, margin_short,
  levels_required, constraints_unknown, buy_levels, sell_levels, stop_distance, uncaught,
  AccountState, TerminalState, Terminal,
}

-- `expected_account`: the keys that it has, with values that are not None.
pub record ExpectedAccount : Type 0 where
  pub login : Option ℕ
  pub server : Option Text
  pub company : Option Text
  pub trade_mode : Option ℕ

infixr 30 ◌orelse◌
abbrev pub ◌orelse◌ : Option ExecError → Option ExecError → Option ExecError
none orelse next = next
(some error) orelse next = some error

abbrev pub differs : Option ℕ → ℕ → Bool
differs none actual = false
differs (some expected) actual = not (expected == actual)

abbrev pub differs_text : Option Text → Text → Bool
differs_text none actual = false
differs_text (some expected) actual = not (same_text actual expected)

-- The rounding of a price to the tick grid.
pub data Rounding : Type 0 where
  down up nearest_tick : Rounding

abbrev pub as_mode : Option ModeError → Option ExecError
as_mode none = none
as_mode (some error) = some (bad_mode error)

-- `int(getattr(symbol_info, "digits", 5) or 5)`: the digits are not negative
abbrev pub digits_or_five : ℤ → ℕ
digits_or_five digits = if pos_part digits == 0 then 5 else pos_part digits

-- `_get_filling_mode`; the flags are the two lowest bits
abbrev pub get_filling_mode : ℕ → Filling
get_filling_mode flags =
    if flags % 2 == 1
    then fill_or_kill
    else if flags / 2 % 2 == 1
    then immediate_or_cancel
    else return_rest

module _ {F : Type 0} where
  abbrev pub is_other_account : Option ExpectedAccount → AccountState F → Bool
  is_other_account none account = false
  is_other_account (some e) account =
      differs e.login account.login
      || differs_text e.server account.server
      || differs_text e.company account.company
      || differs e.trade_mode account.trade_mode

  abbrev pub check_identity :
      Bool
      → Option ExpectedAccount
      → Option (AccountState F)
      → Option TerminalState
      → Option ExecError
  check_identity dry_run expected (some account) (some terminal) =
      if not terminal.connected
      then some terminal_disconnected
      else if not dry_run
          && (not account.trade_allowed
              || not account.trade_expert
              || not terminal.trade_allowed
              || terminal.tradeapi_disabled)
      then some trading_disabled
      else if is_other_account expected account
      then some account_changed
      else none
  check_identity dry_run expected _ _ = some account_unverified

  unfoldable pub validate_account_identity :
      Settings F → Terminal F → Option ExpectedAccount → Option ExecError
  validate_account_identity config terminal expected =
      check_identity config.dry_run expected terminal.account_info terminal.terminal_info

  abbrev pub check_visible : Option (SymbolInfo F) → Option ExecError
  check_visible none = some symbol_missing
  check_visible (some info) = if info.visible then none else some symbol_hidden

  unfoldable pub validate_symbol : Terminal F → Text → Option ExecError
  validate_symbol terminal symbol =
      if terminal.symbol_select symbol
      then check_visible (terminal.broker.symbol_info symbol)
      else some symbol_unselected

  -- The trade mode of the symbol; without metadata it has the default, the full mode.
  abbrev pub check_mode_of : Option (SymbolInfo F) → Side → Option ExecError
  check_mode_of none side = as_mode (check_raw_mode unset side)
  check_mode_of (some info) side = as_mode (validate_symbol_trade_mode info (some side))

abbrev pub as_bad_spread : Option SpreadError → Option ExecError
as_bad_spread none = none
as_bad_spread (some error) = some (bad_spread error)

module _ {F : Type 0} ⦃fl : Float F⦄ where
  open fl use {dec, add, sub, mul, div, abs, lt, le, is_finite, floor, ceil, round, of_int}

  -- the price on the side of the order
  abbrev pub entry_of : Side → Tick F → F
  entry_of buy tick = tick.ask
  entry_of sell tick = tick.bid

  abbrev pub check_fresh :
      Settings F → Text → Side → Option F → SymbolInfo F → Tick F → F → Option ExecError
  check_fresh config symbol side stop info tick age =
      if not (is_finite age) || gt age config.max_tick_age_seconds
      then some quote_stale
      else as_bad_spread (validate_spread config symbol info tick (some (entry_of side tick)) stop)

  abbrev pub check_spread_at :
      Settings F
      → F
      → Offsets
      → Text
      → Side
      → Option F
      → Option (SymbolInfo F)
      → Option (Tick F)
      → Option ExecError × Offsets
  check_spread_at config now offsets symbol side stop (some info) (some tick) =
      let (age, offsets') = broker_tick_age_seconds symbol (or_nought tick.time) now offsets in
      (check_fresh config symbol side stop info tick age, offsets')
  check_spread_at config now offsets symbol side stop _ _ = (some spread_unavailable, offsets)

  -- `_validate_spread`, with what the time base remembers afterwards
  unfoldable pub validate_live_spread :
      Settings F → Terminal F → F → Offsets → Text → Side → Option F → Option ExecError × Offsets
  validate_live_spread config terminal now offsets symbol side stop =
      check_spread_at config now offsets symbol side stop (terminal.broker.symbol_info symbol)
        (terminal.broker.symbol_info_tick symbol)

  -- The volume in steps against `round(lot / step)`, which raises (`none`) on NaN and on an infinity.
  abbrev pub check_steps : F → Option ℤ → Option ExecError
  check_steps units none = some uncaught
  check_steps units (some whole) =
      if gt (abs (sub units (of_int whole))) (dec 1 7) then some lot_off_step else none

  abbrev pub check_lot : F → Option (SymbolInfo F) → Option ExecError
  check_lot lot none = none
  check_lot lot (some info) =
      let step = or_nought info.volume_step in
      let units = div lot step in
      if lt lot info.volume_min
      then some lot_too_small
      else if gt lot info.volume_max
      then some lot_too_large
      else if gt step nought
      then check_steps units (floor (round 0 units))
      else none

  unfoldable pub validate_lot : Terminal F → Text → F → Option ExecError
  validate_lot terminal symbol lot = check_lot lot (terminal.broker.symbol_info symbol)

  abbrev pub check_funds : F → Option (AccountState F) → Option ExecError
  check_funds needed none = some margin_account
  check_funds needed (some account) =
      if lt account.margin_free needed then some margin_short else none

  abbrev pub check_margin : Terminal F → Option F → Option ExecError
  check_margin terminal none = some margin_unknown
  check_margin terminal (some needed) = check_funds needed terminal.account_info

  abbrev pub check_margin_at : Terminal F → Text → Side → F → Option (Tick F) → Option ExecError
  check_margin_at terminal symbol side lot none = some margin_quote
  check_margin_at terminal symbol side lot (some tick) =
      check_margin terminal (terminal.broker.order_calc_margin side symbol lot (entry_of side tick))

  unfoldable pub validate_margin : Terminal F → Text → Side → F → Option ExecError
  validate_margin terminal symbol side lot =
      check_margin_at terminal symbol side lot (terminal.broker.symbol_info_tick symbol)

  -- The levels lie on their sides of the price.
  abbrev pub check_sides : Side → F → F → F → Option ExecError
  check_sides buy price sl tp = if lt sl price && lt price tp then none else some buy_levels
  check_sides sell price sl tp = if lt tp price && lt price sl then none else some sell_levels

  abbrev pub check_distance : F → F → F → SymbolInfo F → Option ExecError
  check_distance price sl tp info =
      let minimum = mul (max info.trade_stops_level nought) info.point in
      if not (eq minimum nought)
        && (lt (abs (sub price sl)) minimum || lt (abs (sub tp price)) minimum)
      then some stop_distance
      else none

  abbrev pub check_stops : Side → F → F → F → Option (SymbolInfo F) → Option ExecError
  check_stops side price sl tp none = some constraints_unknown
  check_stops side price sl tp (some info) =
      check_sides side price sl tp orelse check_distance price sl tp info

  -- `_validate_stops`; a level that is zero is none.
  unfoldable pub validate_stops :
      Settings F → Terminal F → Text → Side → F → F → F → Option ExecError
  validate_stops config terminal symbol side price sl tp =
      if eq sl nought || eq tp nought
      then (if config.require_sl_tp then some levels_required else none)
      else check_stops side price sl tp (terminal.broker.symbol_info symbol)

  abbrev pub grid_units : Rounding → F → Option ℤ
  grid_units down units = floor (add units (dec 1 10))
  grid_units up units = ceil (sub units (dec 1 10))
  grid_units nearest_tick units = floor (round 0 units)

  abbrev pub on_grid : ℕ → F → Option ℤ → Option F
  on_grid digits tick_size none = none
  on_grid digits tick_size (some units) = some (round digits (mul (of_int units) tick_size))

  -- `_normalize_price`, and `none` for an exception of the rounding
  unfoldable pub normalize_price : SymbolInfo F → Rounding → F → Option F
  normalize_price info mode price =
      let digits = digits_or_five info.digits in
      let tick_size =
        if eq info.trade_tick_size nought then or_nought info.point else info.trade_tick_size in
      if gt tick_size nought && is_finite tick_size
      then on_grid digits tick_size (grid_units mode (div price tick_size))
      else some (round digits price)
