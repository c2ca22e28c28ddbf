-- ===== src/Risk/Override/Tests.antt =====
-- Runs of the sizing and of the gates, and the theorems about them on a sample terminal.
use mathlib.Core.Logic.{◌↔◌}
use llm_trade.Prelude.{ℕ, ◌*◌, ◌≡◌, refl, ◌≢◌, true, false, none, some, [], ◌∷◌}
use llm_trade.Prelude.Int.{pos, negsuc}
use llm_trade.Float.Fixed.{Fixed, num, fixed_float, Fixed-IsOrdered, Fixed-IsSigned}
use llm_trade.Cell.{number, absent}
use llm_trade.Text.{codes}
use llm_trade.Budget.{risk_capital, daily_loss_limit, entry_refused, entry_risk_budget}
use llm_trade.Settings.Sample.{usd, mills, sample_settings, sample_account}
use llm_trade.Broker.Sample.{yen_pair, sample_info, sample_tick, sample_broker}
use llm_trade.Instruments.{
  mode, is_crypto_symbol, is_crypto_pair, instrument_asset_class, validate_symbol_trade_mode,
}
use llm_trade.Instruments.Spread.{
  pip_size, spread_metrics, downside_risk_usd, check_quote, validate_spread,
}
use llm_trade.Instruments.Tradable.{
  Permits, IsTradable, validate_symbol_trade_mode_iff, validate_spread-IsTradable,
}
use llm_trade.Costs.{
  configured_per_lot_cost, configured_execution_cost_usd, estimate_execution_risk,
}
use llm_trade.Costs.Bounds.{IsCovered, estimate_execution_risk-IsCovered}
use llm_trade.Risk.Trade.{Side, buy, Trade, at, missing, microseconds_per_hour}
use llm_trade.Risk.State.{State}
use llm_trade.Risk.Search.{search}
use llm_trade.Risk.Sizing.{
  Decision, SizingOptions, Sizing, sized, stuck, scaled_percent, choose_lot, compute_lot_size,
}
use llm_trade.Risk.Sizing.Sized.{IsSized, compute_lot_size-IsSized, compute_lot_size_ends}
use llm_trade.Risk.Checks.{
  Position, check_spread, check_max_positions, check_duplicate, check_daily_loss, check_drawdown,
  latest_loss, check_loss_cooldown, check_free_margin, check_margin_level, check_margin_usage,
}
use llm_trade.Risk.Checks.Passed.{AreCooled, check_loss_cooldown-AreCooled}
use llm_trade.Risk.Exposure.{
  check_risk_reward, sum_stop_risks, check_portfolio_risk, check_margin_for_lot,
}
use llm_trade.Risk.Exposure.Bounded.{
  IsBounded, HasCover, IsRewarding, check_portfolio_risk-IsBounded, check_margin_for_lot-HasCover,
  check_risk_reward-IsRewarding,
}
use llm_trade.Risk.Override.{Moments, approved, validate_manual_override}
use llm_trade.Risk.Override.Approved.{IsApproved, validate_manual_override-IsApproved}

abbrev begun : State Fixed
begun = record {
  daily_loss_usd = usd 1;
  daily_reset_date = some 20_000;
  daily_loss_reset_after = none;
  loss_cooldown_reset_after = none;
  loss_streak_reset_after = none;
  peak_balance = usd 210;
  last_loss_time = none;
}

abbrev decision : Decision Fixed
decision = record {
  action = some buy;
  stop_loss = some (mills 149_010);
  take_profit = some (usd 153);
  local_reversal = false;
}

abbrev automatic : SizingOptions Fixed
automatic = record {
  losing_streak = some 0;
  apply_streak_scaling = true;
  risk_pct_override = none;
  force_minimum_lot = false;
  enforce_profit_objective = true;
}

abbrev moments : Moments Fixed
moments = record {
  at_spread = sample_broker;
  at_sizing = sample_broker;
  at_portfolio = sample_broker;
  at_margin = sample_broker;
}

abbrev sizing_of : ℕ → ℕ → ℕ → ℕ → ℕ → ℕ → Sizing Fixed
sizing_of risk stop slippage cost reward percent = record {
  risk_usd = mills risk;
  stop_risk_usd = mills stop;
  slippage_reserve_usd = mills slippage;
  execution_cost_usd = mills cost;
  reward_usd = mills reward;
  risk_pct = mills percent;
  rr = mills 2660;
  risk_budget_usd = usd 3;
}

abbrev two_steps : Sizing Fixed
two_steps = sizing_of 2180 2000 40 140 5800 1000

abbrev one_step : Sizing Fixed
one_step = sizing_of 1090 1000 20 70 2900 500

-- Three steps would risk more than the budget of three dollars.
sizes :
    compute_lot_size sample_settings sample_broker yen_pair 0 begun sample_account decision []
      automatic
    ≡ sized (mills 20) two_steps
unfolding compute_lot_size choose_lot scaled_percent entry_risk_budget estimate_execution_risk
    search risk_capital daily_loss_limit configured_execution_cost_usd configured_per_lot_cost
    entry_refused is_crypto_symbol is_crypto_pair
sizes = refl

compute_lot_size-IsSized_example :
    IsSized sample_settings sample_broker yen_pair begun sample_account decision automatic
      (mills 20)
      two_steps
compute_lot_size-IsSized_example =
    compute_lot_size-IsSized Fixed-IsOrdered sample_settings sample_broker yen_pair 0 begun
      sample_account decision [] automatic sizes

compute_lot_size_ends_example :
    compute_lot_size sample_settings sample_broker yen_pair 0 begun sample_account decision []
      automatic
    ≢ stuck
compute_lot_size_ends_example =
    compute_lot_size_ends Fixed-IsOrdered sample_settings sample_broker yen_pair 0 begun
      sample_account decision [] automatic

approves :
    validate_manual_override sample_settings moments yen_pair 0 begun sample_account true decision
      [] []
      (some buy)
    ≡ approved (mills 10) one_step
unfolding validate_manual_override compute_lot_size choose_lot scaled_percent entry_risk_budget
    estimate_execution_risk risk_capital daily_loss_limit configured_execution_cost_usd
    configured_per_lot_cost entry_refused is_crypto_symbol is_crypto_pair check_spread
    check_max_positions check_duplicate check_daily_loss check_drawdown check_free_margin
    check_margin_level check_margin_usage check_portfolio_risk check_margin_for_lot validate_spread
    check_quote spread_metrics pip_size instrument_asset_class sum_stop_risks
approves = refl

validate_manual_override-IsApproved_example :
    (side : Side) × (some buy ≡ some side)
    × IsApproved sample_settings moments yen_pair 0 begun sample_account true decision [] [] side
        (mills 10)
        one_step
validate_manual_override-IsApproved_example =
    validate_manual_override-IsApproved sample_settings moments yen_pair 0 begun sample_account true
      decision [] [] Fixed-IsOrdered Fixed-IsSigned (some buy) approves

abbrev held : Position Fixed
held = record {
  symbol = codes "EURJPY";
  type = pos 0;
  volume = mills 10;
  price_open = usd 160;
  sl = usd 159;
}

check_portfolio_risk-IsBounded_example :
    IsBounded sample_settings sample_broker begun sample_account (held ∷ []) (usd 1)
unfolding check_portfolio_risk sum_stop_risks risk_capital daily_loss_limit downside_risk_usd
check_portfolio_risk-IsBounded_example =
    check_portfolio_risk-IsBounded Fixed-IsOrdered Fixed-IsSigned sample_settings sample_broker
      begun sample_account (held ∷ []) (usd 1) refl

check_margin_for_lot-HasCover_example :
    HasCover sample_settings sample_broker sample_account (mills 10) yen_pair (some buy)
unfolding check_margin_for_lot
check_margin_for_lot-HasCover_example =
    check_margin_for_lot-HasCover sample_settings sample_broker sample_account (mills 10) yen_pair
      (some buy) refl

check_risk_reward-IsRewarding_example :
    IsRewarding sample_settings sample_broker yen_pair buy decision
unfolding check_risk_reward
check_risk_reward-IsRewarding_example =
    check_risk_reward-IsRewarding sample_settings sample_broker yen_pair buy decision refl refl

abbrev hour : ℕ → ℕ
hour n = n * microseconds_per_hour

abbrev lost : Trade Fixed
lost = record {
  close_time = at (hour 10);
  time = missing;
  net_profit = number (num (negsuc 999));
  profit = absent;
  status_closed = true;
  direction = some buy;
}

check_loss_cooldown-AreCooled_example : AreCooled none 60 (hour 12) (lost ∷ [])
unfolding check_loss_cooldown latest_loss
check_loss_cooldown-AreCooled_example =
    check_loss_cooldown-AreCooled sample_settings (hour 12) 59 begun (lost ∷ []) refl refl

-- The broker answers with a loss of a dollar for each yen, lot and hundred.
estimate_execution_risk-IsCovered_example :
    IsCovered sample_settings sample_broker yen_pair buy
      (mills 10)
      (mills 150_010)
      (mills 149_010)
      sample_info
      none
      (record {
        stop_risk_usd = usd 1;
        slippage_reserve_usd = mills 20;
        configured_cost_usd = mills 70;
        total_risk_usd = mills 1090;
        worst_entry = mills 150_030;
        deviation_points = pos 20;
      })
unfolding estimate_execution_risk configured_execution_cost_usd configured_per_lot_cost
    is_crypto_symbol is_crypto_pair
estimate_execution_risk-IsCovered_example =
    estimate_execution_risk-IsCovered Fixed-IsOrdered Fixed-IsSigned sample_settings sample_broker
      yen_pair buy (mills 10) (mills 150_010) (mills 149_010) sample_info none refl

validate_spread-IsTradable_example :
    IsTradable sample_settings yen_pair sample_info sample_tick
      (some (mills 150_010))
      (some (mills 149_010))
unfolding validate_spread check_quote spread_metrics pip_size instrument_asset_class
    is_crypto_symbol is_crypto_pair
validate_spread-IsTradable_example =
    validate_spread-IsTradable Fixed-IsOrdered sample_settings yen_pair sample_info sample_tick
      (some (mills 150_010)) (some (mills 149_010)) refl

validate_symbol_trade_mode_iff_example :
    ((validate_symbol_trade_mode sample_info (some buy) ≡ none) ↔ Permits (mode (pos 4)) buy)
    × ¬ (validate_symbol_trade_mode sample_info none ≡ none)
validate_symbol_trade_mode_iff_example = validate_symbol_trade_mode_iff sample_info buy
