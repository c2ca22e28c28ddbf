-- ===== src/Costs.antt =====
-- risk/execution_costs.py: the loss of an order at its stop, with the worst fill that its deviation
-- allows and the configured costs of both turns.
pub mod Bounds
use llm_trade.Prelude.{Bool, true, false, not, ◌&&◌, ◌||◌, Option, none, some, if◌then◌else◌}
use llm_trade.Prelude.Int.{ℤ, pos, pos_part}
use llm_trade.Float.{Float, nought, gt, max}
use llm_trade.Settings.{Settings}
use llm_trade.Text.{Text, codes, contains, lower}
use llm_trade.Risk.Trade.{Side, buy, sell}
use llm_trade.Instruments.{SymbolInfo, is_crypto_symbol}
use llm_trade.Instruments.Spread.{or_nought}
use llm_trade.Budget.{is_nonneg}
use llm_trade.Broker.{Broker}

pub record ExecutionRiskEstimate (F : Type 0) : Type 0 where
  pub stop_risk_usd : F
  pub slippage_reserve_usd : F
  pub configured_cost_usd : F
  pub total_risk_usd : F
  pub worst_entry : F
  pub deviation_points : ℤ

module _ {F : Type 0} ⦃fl : Float F⦄ where
  open fl use {add, sub, mul, neg, le, is_finite, of_int}

  -- The setting for the kind of market.
  abbrev pub per_lot_setting : Settings F → Text → SymbolInfo F → F
  per_lot_setting config symbol info =
      if is_crypto_symbol symbol (some info)
      then config.crypto_round_turn_cost_usd_per_lot
      else if contains (codes "forex") (lower info.path) || info.calc_mode_forex
      then config.fx_round_turn_cost_usd_per_lot
      else config.cfd_round_turn_cost_usd_per_lot

  -- `_configured_per_lot_cost`, and `none` for its ValueError
  unfoldable pub configured_per_lot_cost : Settings F → Text → SymbolInfo F → Option F
  configured_per_lot_cost config symbol info =
      let value = per_lot_setting config symbol info in if is_nonneg value then some value else none

  -- `none` is the ValueError
  abbrev pub checked_total : F → F → Option F → Option F
  checked_total fixed lot none = none
  checked_total fixed lot (some per_lot) =
      let total = add fixed (mul per_lot lot) in if is_finite total then some total else none

  unfoldable pub configured_execution_cost_usd : Settings F → Text → SymbolInfo F → F → Option F
  configured_execution_cost_usd config symbol info lot =
      let fixed = config.fixed_execution_cost_usd in
      if not (is_nonneg fixed) || not (is_nonneg lot)
      then none
      else checked_total fixed lot (configured_per_lot_cost config symbol info)

  -- The loss at the stop, if the broker knows it and there is one.
  abbrev pub stop_loss_of : Option F → Option F
  stop_loss_of none = none
  stop_loss_of (some profit) =
      if not (is_finite profit)
      then none
      else let risk = max nought (neg profit) in if le risk nought then none else some risk

  -- The price after an adverse fill.
  abbrev pub adverse_entry : Side → F → F → F
  adverse_entry buy entry move = add entry move
  adverse_entry sell entry move = sub entry move

  -- `max(0, ...)` of the deviation that is given or configured
  abbrev pub deviation_of : Settings F → Option ℤ → ℤ
  deviation_of config none = pos (pos_part config.max_order_deviation_points)
  deviation_of config (some points) = pos (pos_part points)

  abbrev pub estimate_total : F → F → F → ℤ → Option F → Option (ExecutionRiskEstimate F)
  estimate_total stop_risk worst_stop_risk worst_entry deviation none = none
  estimate_total stop_risk worst_stop_risk worst_entry deviation (some cost) =
      let total = add worst_stop_risk cost in
      if not (is_finite total)
      then none
      else some (record {
        stop_risk_usd = stop_risk;
        slippage_reserve_usd = max nought (sub worst_stop_risk stop_risk);
        configured_cost_usd = cost;
        total_risk_usd = total;
        worst_entry = worst_entry;
        deviation_points = deviation;
      })

  abbrev pub estimate_worst : F → F → ℤ → Option F → Option F → Option (ExecutionRiskEstimate F)
  estimate_worst stop_risk worst_entry deviation none cost = none
  estimate_worst stop_risk worst_entry deviation (some worst_stop_risk) cost =
      estimate_total stop_risk worst_stop_risk worst_entry deviation cost

  abbrev pub usable_price : F → Bool
  usable_price x = is_finite x && not (le x nought)

  module _ (config : Settings F) (broker : Broker F) (symbol : Text) (side : Side)
      (lot stop : F) where
    -- what follows the risk at the quoted entry
    abbrev pub estimate_slipped : F → SymbolInfo F → ℤ → Option F → Option (ExecutionRiskEstimate F)
    estimate_slipped entry info deviation none = none
    estimate_slipped entry info deviation (some stop_risk) =
        let point = or_nought info.point in
        let worst_entry = adverse_entry side entry (mul (of_int deviation) point) in
        if not (is_nonneg point)
        then none
        else if not (usable_price worst_entry)
        then none
        else estimate_worst stop_risk worst_entry deviation
            (stop_loss_of (broker.order_calc_profit side symbol lot worst_entry stop))
            (configured_execution_cost_usd config symbol info lot)

    abbrev pub estimate_side : F → SymbolInfo F → Option ℤ → Option (ExecutionRiskEstimate F)
    estimate_side entry info points =
        if not (usable_price lot && usable_price entry && usable_price stop)
        then none
        else estimate_slipped entry info (deviation_of config points)
            (stop_loss_of (broker.order_calc_profit side symbol lot entry stop))

  module _ (config : Settings F) (broker : Broker F) (symbol : Text) where
    unfoldable pub estimate_execution_risk :
        Option Side → F → F → F → SymbolInfo F → Option ℤ → Option (ExecutionRiskEstimate F)
    estimate_execution_risk none lot entry stop info points = none
    estimate_execution_risk (some side) lot entry stop info points =
        estimate_side config broker symbol side lot stop entry info points
