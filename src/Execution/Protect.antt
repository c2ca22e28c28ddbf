-- ===== src/Execution/Protect.antt =====
-- The stops that `move_to_breakeven`, `apply_trailing_stop` and `lock_minimum_net_profit` choose, which
-- they give to `modify_sl_tp` then.
pub mod Better
pub mod Lock
use llm_trade.Prelude.{
  ℕ, zero, suc, Bool, true, false, not, ◌&&◌, ◌||◌, Option, none, some, List, [], ◌∷◌, ◌⊎◌, inl,
  inr, if◌then◌else◌,
}
use llm_trade.Prelude.Int.{pos_part}
use llm_trade.Float.{Float, nought, gt, eq, max}
use llm_trade.Settings.{Settings}
use llm_trade.Risk.Trade.{Side, buy, sell}
use llm_trade.Instruments.{SymbolInfo, Tick}
use llm_trade.Instruments.Spread.{or_nought, pip_size}
use llm_trade.Broker.{Broker}
use llm_trade.Costs.{configured_execution_cost_usd}
use llm_trade.Execution.{
  ExecError, positions_unknown, ticket_missing, symbol_missing, quote_unavailable, uncaught,
  not_in_profit, would_worsen, floor_invalid, pip_invalid, cost_invalid, lock_unpriced,
  lock_unreached, too_close, ExecutionResult, OpenPosition, Terminal, failed, Submission,
}
use llm_trade.Execution.ModifyResult.{or_else_float}
use llm_trade.Execution.Retry.{with_retry}
use llm_trade.Execution.Gates.{ExpectedAccount, Rounding, down, up, entry_of, normalize_price}
use llm_trade.Execution.Close.{opposite}
use llm_trade.Execution.Modify.{ModifyMoments, submit_modify}

-- The moments at which the worker asks the terminal; `at_projection` counts down the tries left.
pub record ProtectMoments (F : Type 0) : Type 0 where
  pub at_position : Terminal F
  pub at_info : Terminal F
  pub at_tick : Terminal F
  pub at_probe : Terminal F
  pub at_projection : ℕ → Terminal F

-- The levels that are chosen for `modify_sl_tp`.
pub record Levels (F : Type 0) : Type 0 where
  pub sl_price : F
  pub tp_price : Option F

-- One look at a stop that might retain the profit.
pub data LockStep (F : Type 0) : Type 0 where
  step_failed : ExecError → LockStep F
  step_reached : LockStep F
  step_next : F → LockStep F

module _ {F : Type 0} ⦃fl : Float F⦄ where
  open fl use {dec, add, sub, mul, div, abs, lt, le, is_finite, round}

  -- Away from the entry in the direction of a profit.
  abbrev pub beyond : Side → F → F → F
  beyond buy price distance = add price distance
  beyond sell price distance = sub price distance

  -- The new stop would not be nearer to the price.
  abbrev pub worsens : Side → F → F → Bool
  worsens buy old new = le new old
  worsens sell old new = le old new

  abbrev pub has_worse : OpenPosition F → F → Bool
  has_worse p sl = gt p.sl nought && worsens p.side p.sl sl

  -- The price on the side of the exit has not come as far as the level.
  abbrev pub falls_short : Side → F → F → Bool
  falls_short buy current level = lt current level
  falls_short sell current level = gt current level

  abbrev pub on_digits : SymbolInfo F → F → F
  on_digits info x = round (pos_part info.digits) x

  abbrev pub breakeven_of : F → OpenPosition F → SymbolInfo F → Tick F → ExecError ⊎ Levels F
  breakeven_of buffer_pips p info tick =
      let sl = on_digits info (beyond p.side p.price_open (mul buffer_pips (pip_size info))) in
      if falls_short p.side (entry_of (opposite p.side) tick) sl
      then inl not_in_profit
      else if has_worse p sl
      then inl would_worsen
      else inr (record { sl_price = sl; tp_price = none })

  abbrev pub trailed : Side → F → F → F
  trailed buy price trail = sub price trail
  trailed sell price trail = add price trail

  -- `pos.tp or None`
  abbrev pub target_of : OpenPosition F → Option F
  target_of p = if eq p.tp nought then none else some p.tp

  -- A stop of zero below a buy is compared as a level.
  abbrev pub trails_back : Side → F → F → Bool
  trails_back buy old new = le new old
  trails_back sell old new = gt old nought && le old new

  abbrev pub trailing_of : F → OpenPosition F → SymbolInfo F → Tick F → ExecError ⊎ Levels F
  trailing_of trail_pips p info tick =
      let trail = mul trail_pips (pip_size info) in
      let sl = on_digits info (trailed p.side (entry_of (opposite p.side) tick) trail) in
      if trails_back p.side p.sl sl
      then inl would_worsen
      else inr (record { sl_price = sl; tp_price = target_of p })

module _ {F : Type 0} ⦃fl : Float F⦄ (m : ProtectMoments F) (ticket : ℕ) where
  abbrev pub with_tick : (Tick F → ExecError ⊎ Levels F) → Option (Tick F) → ExecError ⊎ Levels F
  with_tick choose none = inl quote_unavailable
  with_tick choose (some tick) = choose tick

  abbrev pub with_quote :
      (OpenPosition F → SymbolInfo F → Tick F → ExecError ⊎ Levels F)
      → OpenPosition F
      → Option (SymbolInfo F)
      → ExecError ⊎ Levels F
  with_quote choose p none = inl symbol_missing
  with_quote choose p (some info) =
      with_tick (choose p info) (m.at_tick.broker.symbol_info_tick p.symbol)

  -- A failed query reads like no position.
  abbrev pub with_position :
      (OpenPosition F → SymbolInfo F → Tick F → ExecError ⊎ Levels F)
      → Option (List (OpenPosition F))
      → ExecError ⊎ Levels F
  with_position choose (some (p ∷ ps)) = with_quote choose p (m.at_info.broker.symbol_info p.symbol)
  with_position choose _ = inl ticket_missing

  -- `_calc` of `move_to_breakeven` and of `apply_trailing_stop`
  unfoldable pub choose_breakeven : F → ExecError ⊎ Levels F
  choose_breakeven buffer_pips =
      with_position (breakeven_of buffer_pips) (m.at_position.positions_of_ticket ticket)

  unfoldable pub choose_trailing : F → ExecError ⊎ Levels F
  choose_trailing trail_pips =
      with_position (trailing_of trail_pips) (m.at_position.positions_of_ticket ticket)
