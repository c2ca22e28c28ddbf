-- ===== src/Risk/Sizing.antt =====
-- `_compute_lot_size`: the volume of an order within the budget, never rounded up.
pub mod Fits
pub mod Sized
use llm_trade.Prelude.{
  ℕ, zero, suc, ◌+◌, Bool, true, false, not, ◌&&◌, ◌||◌, Option, none, some, List, if◌then◌else◌,
  ltb,
}
use llm_trade.Prelude.Int.{ℤ, pos, negsuc, pos_part}
use llm_trade.Float.{Float, nought, eq, gt, min, max}
use llm_trade.Cell.{required}
use llm_trade.Settings.{Settings}
use llm_trade.Account.{Account}
use llm_trade.Text.{Text}
use llm_trade.Budget.{risk_capital, entry_risk_budget, is_positive, chosen_percent}
use llm_trade.Risk.Trade.{Trade, Side, buy, sell}
use llm_trade.Risk.Streak.{effective_losing_streak}
use llm_trade.Risk.State.{State}
use llm_trade.Instruments.{SymbolInfo, Tick}
use llm_trade.Instruments.Spread.{ratio_or_nought}
use llm_trade.Broker.{Broker}
use llm_trade.Costs.{ExecutionRiskEstimate, estimate_execution_risk}
use llm_trade.Risk.Reason.{
  Reason, lot_capital, lot_percent, lot_budget, lot_quote, lot_volume, lot_estimate, minimum_lot,
  lot_unverified, no_lot, lot_reward, profit_objective,
}
use llm_trade.Risk.Search.{Found, unfinished, unverified, settled, search}

-- The parts of a decision that the risk manager reads. The levels are numbers or None, and
-- `local_reversal` is the strategy mode LOCAL_REVERSAL.
pub record Decision (F : Type 0) : Type 0 where
  pub action : Option Side
  pub stop_loss : Option F
  pub take_profit : Option F
  pub local_reversal : Bool

-- The keyword arguments.
pub record SizingOptions (F : Type 0) : Type 0 where
  pub losing_streak : Option ℕ
  pub apply_streak_scaling : Bool
  pub risk_pct_override : Option F
  pub force_minimum_lot : Bool
  pub enforce_profit_objective : Bool

pub record Sizing (F : Type 0) : Type 0 where
  pub risk_usd : F
  pub stop_risk_usd : F
  pub slippage_reserve_usd : F
  pub execution_cost_usd : F
  pub reward_usd : F
  pub risk_pct : F
  pub rr : F
  pub risk_budget_usd : F

-- `crashed` is an exception of `math.ceil` or `math.floor`, which the method does not catch; `stuck`
-- would be a loop that does not end.
pub data SizingResult (F : Type 0) : Type 0 where
  sized : F → Sizing F → SizingResult F
  refused : Reason → SizingResult F
  crashed stuck : SizingResult F

-- A chosen volume with its estimate, before the reward is known.
pub data Chosen (F : Type 0) : Type 0 where
  chosen : F → ExecutionRiskEstimate F → Chosen F
  not_chosen : Reason → Chosen F
  failed looping : Chosen F

-- `max(1, int(...))`
abbrev pub at_least_one : ℤ → ℕ
at_least_one (pos (suc n)) = suc n
at_least_one _ = 1

module _ {F : Type 0} ⦃fl : Float F⦄ where
  open fl use {dec, add, sub, mul, div, le, lt, is_finite, floor, ceil, round, of_int}

  -- `live_reversal_risk_percent`
  unfoldable pub live_reversal_risk_percent : Settings F → F
  live_reversal_risk_percent config = min config.risk_percent (dec 2 0)

  -- The percentage before the losing streak is taken into account.
  abbrev pub base_percent : Settings F → Decision F → Option F → F
  base_percent config decision override =
      let percent = chosen_percent config override in
      if decision.local_reversal then min percent (live_reversal_risk_percent config) else percent

  -- The reduction after one loss and after more.
  abbrev pub after_losses : ℕ → F → F
  after_losses zero percent = percent
  after_losses (suc zero) percent = max (dec 1 1) (mul percent (dec 5 1))
  after_losses (suc (suc n)) percent = dec 1 1

  -- The percentage that is risked; a reduction never raises it.
  unfoldable pub scaled_percent : Settings F → Bool → ℕ → F → F
  scaled_percent config apply streak percent =
      if apply && ltb 0 (pos_part config.loss_streak_pause_hours)
      then min (after_losses streak percent) percent
      else min percent percent

  -- `estimate.total_risk_usd <= risk_budget + 1e-9`
  abbrev pub within_budget : F → ExecutionRiskEstimate F → Bool
  within_budget budget estimate = le estimate.total_risk_usd (add budget (dec 1 9))

  -- `round(units * step, 8)`
  abbrev pub lot_of_units : F → ℕ → F
  lot_of_units step units = round 8 (mul (of_int (pos units)) step)

  abbrev pub usable_volumes : F → F → F → Bool
  usable_volumes min_lot step max_lot =
      is_finite min_lot
      && is_finite step
      && is_finite max_lot
      && not (le min_lot nought)
      && not (le step nought)
      && not (lt max_lot min_lot)

  -- What follows the loop.
  abbrev pub settle : F → Found F (ExecutionRiskEstimate F) → Chosen F
  settle min_lot unfinished = looping
  settle min_lot unverified = not_chosen lot_unverified
  settle min_lot (settled none) = not_chosen no_lot
  settle min_lot (settled (some (lot, estimate))) =
      if lt lot min_lot then not_chosen no_lot else chosen lot estimate

  abbrev pub search_units :
      F → F → F → (F → Option (ExecutionRiskEstimate F)) → Option ℤ → Option ℤ → Chosen F
  search_units min_lot step budget estimate (some low) (some high) =
      let min_units = at_least_one low in
      let max_units = pos_part high in
      settle min_lot (
        search (lot_of_units step) estimate (within_budget budget) (max_units + 2) min_units
          max_units none)
  search_units min_lot step budget estimate _ _ = failed

  -- The minimum volume has to fit; without `force_minimum_lot` the largest that fits is taken.
  abbrev pub choose_from :
      F
      → F
      → F
      → F
      → Bool
      → (F → Option (ExecutionRiskEstimate F))
      → Option (ExecutionRiskEstimate F)
      → Chosen F
  choose_from min_lot step max_lot budget force estimate none = not_chosen lot_estimate
  choose_from min_lot step max_lot budget force estimate (some least) =
      if gt least.total_risk_usd (add budget (dec 1 9))
      then not_chosen minimum_lot
      else if force
      then chosen min_lot least
      else search_units min_lot step budget estimate (ceil (div (sub min_lot (dec 1 12)) step))
          (floor (div (add max_lot (dec 1 12)) step))

  unfoldable pub choose_lot :
      SymbolInfo F → F → Bool → (F → Option (ExecutionRiskEstimate F)) → Chosen F
  choose_lot info budget force estimate =
      let min_lot = info.volume_min in
      let step = if eq info.volume_step nought then min_lot else info.volume_step in
      let max_lot = info.volume_max in
      if usable_volumes min_lot step max_lot
      then choose_from min_lot step max_lot budget force estimate (estimate min_lot)
      else not_chosen lot_volume

  -- The reward at the target, and the record of the order.
  abbrev pub with_reward :
      Settings F → Bool → F → F → F → ExecutionRiskEstimate F → Option F → SizingResult F
  with_reward config enforce balance budget lot estimate none = refused lot_reward
  with_reward config enforce balance budget lot estimate (some result) =
      let risk = estimate.total_risk_usd in
      let reward = max nought (sub result estimate.configured_cost_usd) in
      if not (is_finite result)
      then refused lot_reward
      else if enforce
          && config.auto_close_profit_enabled
          && lt (add reward (dec 1 9)) config.auto_close_profit_usd
      then refused profit_objective
      else sized lot (record {
        risk_usd = round 4 risk;
        stop_risk_usd = round 4 estimate.stop_risk_usd;
        slippage_reserve_usd = round 4 estimate.slippage_reserve_usd;
        execution_cost_usd = round 4 estimate.configured_cost_usd;
        reward_usd = round 4 reward;
        risk_pct = round 4 (mul (div risk balance) (dec 100 0));
        rr = round 4 (ratio_or_nought reward risk);
        risk_budget_usd = round 4 budget;
      })

  module _ (config : Settings F) (broker : Broker F) (symbol : Text) where
    abbrev pub finish : SizingOptions F → F → F → Side → F → Chosen F → SizingResult F
    finish options balance budget side target (not_chosen reason) = refused reason
    finish options balance budget side target failed = crashed
    finish options balance budget side target looping = stuck
    finish options balance budget side target (chosen lot estimate) =
        with_reward config options.enforce_profit_objective balance budget lot estimate
          (broker.order_calc_profit side symbol lot estimate.worst_entry target)

    abbrev pub entry_price : Side → Tick F → F
    entry_price buy tick = tick.ask
    entry_price sell tick = tick.bid

    -- The estimate of a volume for this order.
    abbrev pub estimate_lot :
        Side → F → SymbolInfo F → Tick F → F → Option (ExecutionRiskEstimate F)
    estimate_lot side stop info tick lot =
        estimate_execution_risk config broker symbol (some side) lot (entry_price side tick) stop
          info none

    abbrev pub size_order :
        SizingOptions F
        → F
        → F
        → Option Side
        → Option F
        → Option F
        → Option (SymbolInfo F)
        → Option (Tick F)
        → SizingResult F
    size_order options balance budget (some side) (some stop) (some target) (some info)
          (some tick) =
        finish options balance budget side target
          (choose_lot info budget options.force_minimum_lot (estimate_lot side stop info tick))
    size_order options balance budget _ _ _ _ _ = refused lot_quote

    abbrev pub streak_of : ℕ → List (Trade F) → State F → Option ℕ → ℕ
    streak_of now history s none =
        effective_losing_streak config history now s.loss_streak_reset_after
    streak_of now history s (some streak) = streak

    -- After the capital is known to be positive.
    abbrev pub size_within :
        ℕ
        → State F
        → Account F
        → Decision F
        → List (Trade F)
        → SizingOptions F
        → Option F
        → SizingResult F
    size_within now s account decision history options none = refused lot_capital
    size_within now s account decision history options (some balance) =
        let percent = base_percent config decision options.risk_pct_override in
        let streak = streak_of now history s options.losing_streak in
        let scaled = scaled_percent config options.apply_streak_scaling streak percent in
        let budget = entry_risk_budget account config (some scaled) s.daily_loss_usd in
        if not (is_finite percent) || le percent nought
        then refused lot_percent
        else if not (is_finite budget) || le budget nought
        then refused lot_budget
        else size_order options balance budget decision.action decision.stop_loss
            decision.take_profit (broker.symbol_info symbol) (broker.symbol_info_tick symbol)

    unfoldable pub compute_lot_size :
        ℕ → State F → Account F → Decision F → List (Trade F) → SizingOptions F → SizingResult F
    compute_lot_size now s account decision history options =
        if le (risk_capital account) nought
        then refused lot_capital
        else size_within now s account decision history options (required account.balance)
