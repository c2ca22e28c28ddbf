-- ===== src/Execution/Protect/Lock.antt =====
-- `lock_minimum_net_profit`: the stop that the broker prices at the floor or above it.
pub mod Floor
use llm_trade.Prelude.{
  ℕ, zero, suc, Bool, true, false, not, ◌&&◌, ◌||◌, Option, none, some, List, [], ◌∷◌, ◌⊎◌, inl,
  inr, if◌then◌else◌,
}
use llm_trade.Float.{Float, nought, gt, eq, max}
use llm_trade.Settings.{Settings}
use llm_trade.Risk.Trade.{Side, buy, sell}
use llm_trade.Instruments.{SymbolInfo, Tick}
use llm_trade.Instruments.Spread.{or_nought, pip_size}
use llm_trade.Broker.{Broker}
use llm_trade.Costs.{configured_execution_cost_usd}
use llm_trade.Execution.{
  ExecError, positions_unknown, ticket_missing, quote_unavailable, uncaught, would_worsen,
  floor_invalid, pip_invalid, cost_invalid, lock_unpriced, lock_unreached, too_close, OpenPosition,
  Terminal,
}
use llm_trade.Execution.ModifyResult.{or_else_float}
use llm_trade.Execution.Gates.{Rounding, down, up, entry_of, normalize_price}
use llm_trade.Execution.Close.{opposite}
use llm_trade.Execution.Protect.{
  ProtectMoments, Levels, LockStep, step_failed, step_reached, step_next, beyond, has_worse,
}

-- towards greater protection
abbrev pub lock_rounding : Side → Rounding
lock_rounding buy = up
lock_rounding sell = down

module _ {F : Type 0} ⦃fl : Float F⦄ where
  open fl use {dec, add, sub, mul, div, abs, lt, le, is_finite}

  -- The price has not come as far as the stop, or just as far.
  abbrev pub is_unreached : Side → F → F → Bool
  is_unreached buy sl current = le current sl
  is_unreached sell sl current = le sl current

  abbrev pub least_distance : SymbolInfo F → F
  least_distance info =
      mul (max (or_nought info.trade_stops_level) (or_nought info.trade_freeze_level)) info.point

  abbrev pub is_too_close : SymbolInfo F → F → F → Bool
  is_too_close info current sl =
      gt (least_distance info) nought && lt (abs (sub current sl)) (least_distance info)

  -- The checks of a stop that the broker prices high enough.
  abbrev pub check_lock : OpenPosition F → SymbolInfo F → F → F → ExecError ⊎ Levels F
  check_lock p info current sl =
      if has_worse p sl
      then inl would_worsen
      else if is_unreached p.side sl current
      then inl lock_unreached
      else if is_too_close info current sl
      then inl too_close
      else inr (record { sl_price = sl; tp_price = none })

  abbrev pub follow : F → LockStep F → (F → ExecError ⊎ F) → ExecError ⊎ F
  follow sl (step_failed error) next = inl error
  follow sl step_reached next = inr sl
  follow sl (step_next x) next = next x

  -- The price is normalized for the next try.
  abbrev pub next_lock : Option F → LockStep F
  next_lock none = step_failed uncaught
  next_lock (some sl) = step_next sl

module _ {F : Type 0} ⦃fl : Float F⦄ (config : Settings F) (m : ProtectMoments F) (ticket : ℕ) where
  open fl use {dec, add, sub, mul, div, abs, lt, le, is_finite}

  module _ (p : OpenPosition F) (info : SymbolInfo F) (target per_pip step : F) where
    -- Of the profit that the broker projects at a stop.
    abbrev pub step_of : F → Option F → LockStep F
    step_of sl none = step_failed lock_unpriced
    step_of sl (some projected) =
        let deficit = sub target projected in
        let correction = max step (mul (div deficit per_pip) (pip_size info)) in
        if not (is_finite projected)
        then step_failed lock_unpriced
        else if le deficit (dec 1 8)
        then step_reached
        else next_lock (normalize_price info (lock_rounding p.side) (beyond p.side sl correction))

    abbrev pub projected_at : ℕ → F → Option F
    projected_at left sl =
        (m.at_projection left).broker.order_calc_profit p.side p.symbol p.volume p.price_open sl

    -- The loop, with the number of tries that are left; without one the floor is not reached.
    unfoldable pub search_lock : ℕ → F → ExecError ⊎ F
    search_lock zero sl = inl lock_unreached
    search_lock (suc left) sl =
        follow sl (step_of sl (projected_at left sl)) (λ next. search_lock left next)

    abbrev pub check_found : F → ExecError ⊎ F → ExecError ⊎ Levels F
    check_found current (inl error) = inl error
    check_found current (inr sl) = check_lock p info current sl

    abbrev pub search_from : F → Option F → ExecError ⊎ Levels F
    search_from current none = inl uncaught
    search_from current (some sl) = check_found current (search_lock 3 sl)

  -- What the position must earn before costs, and the first stop.
  abbrev pub lock_priced : F → OpenPosition F → SymbolInfo F → F → F → F → ExecError ⊎ Levels F
  lock_priced floor p info current cost per_pip =
      let swap = or_nought p.swap in
      let target = sub (add cost floor) swap in
      let distance = mul (div target per_pip) (pip_size info) in
      let step = or_else_float info.trade_tick_size info.point in
      if not (is_finite swap) || not (is_finite cost)
      then inl cost_invalid
      else if not (is_finite step) || le step nought
      then inl pip_invalid
      else search_from p info target per_pip step current
          (normalize_price info (lock_rounding p.side) (beyond p.side p.price_open distance))

  abbrev pub lock_with : F → OpenPosition F → SymbolInfo F → F → F → Option F → ExecError ⊎ Levels F
  lock_with floor p info current cost none = inl lock_unpriced
  lock_with floor p info current cost (some per_pip) =
      if not (is_finite per_pip)
      then inl lock_unpriced
      else if le per_pip nought
      then inl pip_invalid
      else lock_priced floor p info current cost per_pip

  abbrev pub lock_costed : F → OpenPosition F → SymbolInfo F → F → Option F → ExecError ⊎ Levels F
  lock_costed floor p info current none = inl cost_invalid
  lock_costed floor p info current (some cost) = lock_with floor p info current cost (
      m.at_probe.broker.order_calc_profit p.side p.symbol p.volume p.price_open
        (beyond p.side p.price_open (pip_size info)))

  abbrev pub lock_quoted :
      F → OpenPosition F → Option (SymbolInfo F) → Option (Tick F) → ExecError ⊎ Levels F
  lock_quoted floor p (some info) (some tick) =
      if le (pip_size info) nought
      then inl pip_invalid
      else lock_costed floor p info (entry_of (opposite p.side) tick)
          (configured_execution_cost_usd config p.symbol info p.volume)
  lock_quoted floor p _ _ = inl quote_unavailable

  abbrev pub lock_position : F → Option (List (OpenPosition F)) → ExecError ⊎ Levels F
  lock_position floor none = inl positions_unknown
  lock_position floor (some []) = inl ticket_missing
  lock_position floor (some (p ∷ ps)) =
      lock_quoted floor p (m.at_info.broker.symbol_info p.symbol)
        (m.at_tick.broker.symbol_info_tick p.symbol)

  -- The guard and `_calc`, where the floor is a number.
  unfoldable pub choose_lock : F → ExecError ⊎ Levels F
  choose_lock floor =
      if not (is_finite floor) || lt floor nought
      then inl floor_invalid
      else lock_position floor (m.at_position.positions_of_ticket ticket)
