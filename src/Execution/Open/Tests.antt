-- ===== src/Execution/Open/Tests.antt =====
-- Examples for the orders: one terminal with one symbol, before and after the order is filled.
use mathlib.Core.Logic.{◌↔◌}
use llm_trade.Prelude.{ℕ, zero, suc, ◌≡◌, ◌⊎◌, refl, true, false, none, some, List, [], ◌∷◌}
use llm_trade.Float.Fixed.{Fixed, fixed_float}
use llm_trade.Settings.Sample.{usd, mills, sample_settings}
use llm_trade.Text.{codes}
use llm_trade.Risk.Trade.{buy}
use llm_trade.Broker.Sample.{yen_pair, sample_broker}
use llm_trade.Execution.{
  ExecutionResult, OpenPosition, SendResult, AccountState, TerminalState, Terminal, failed,
  no_connection, retcode_done, retcode_requote,
}
use llm_trade.Timebase.{
  broker_tick_age_seconds, infer_positive_server_offset_seconds, remembered_server_offset_seconds,
  remember_server_offset_seconds,
}
use llm_trade.Universe.{market_name}
use llm_trade.Instruments.{
  validate_symbol_trade_mode, is_crypto_symbol, is_crypto_pair, instrument_asset_class,
}
use llm_trade.Instruments.Spread.{validate_spread, check_quote, spread_metrics, pip_size}
use llm_trade.Costs.{
  configured_execution_cost_usd, configured_per_lot_cost, estimate_execution_risk,
}
use llm_trade.Execution.Results.{completed_retcode, parse_result, volume_tolerance}
use llm_trade.Execution.OpenResult.{find_candidates, reconcile_open_result}
use llm_trade.Execution.Gates.{
  validate_account_identity, validate_symbol, validate_live_spread, validate_lot, validate_margin,
  normalize_price, validate_stops,
}
use llm_trade.Execution.Open.Ended.{IsUnsent, IsFilled, submit_open-IsFilled, submit_open-changed}
use llm_trade.Execution.Open.Single.{IsSingle, open_trade-IsSingle}
use llm_trade.Execution.Retry.{with_retry, attempt_from}
use llm_trade.Execution.Inflight.{
  Key, open_key, close_key, has, Executor, new_executor, enter, leave, enters, leaves, here, next,
}
use llm_trade.Execution.Inflight.Exclusive.{IsExclusive, running-IsExclusive}
use llm_trade.Execution.{Submission}
use llm_trade.Execution.Open.{
  OpenMoments, OpenOrder, submit_open, open_trade, open_attempt, offsets_after,
}

abbrev pub opened : OpenPosition Fixed
opened = record {
  ticket = 7;
  symbol = yen_pair;
  side = buy;
  magic = 202_600;
  volume = mills 10;
  price_open = mills 150_010;
  price_current = usd 150;
  sl = mills 149_500;
  tp = mills 151_500;
  swap = usd 0;
}

abbrev pub filled_answer : SendResult Fixed
filled_answer = record {
  retcode = retcode_done;
  order = 7;
  deal = 8;
  price = mills 150_010;
  volume = mills 10;
}

abbrev account_state : AccountState Fixed
account_state = record {
  login = 5;
  server = codes "Demo";
  company = codes "Broker";
  trade_mode = 0;
  trade_allowed = true;
  trade_expert = true;
  margin_free = usd 500;
}

abbrev terminal_state : TerminalState
terminal_state = record { connected = true; trade_allowed = true; tradeapi_disabled = false }

-- With these positions and this answer to every order.
abbrev pub terminal_with : List (OpenPosition Fixed) → SendResult Fixed → Terminal Fixed
terminal_with positions answer = record {
  broker = sample_broker;
  symbol_select = λ symbol. true;
  account_info = some account_state;
  terminal_info = some terminal_state;
  positions_of_symbol = λ symbol. some positions;
  positions_of_ticket = λ ticket. some positions;
  order_check = λ request. true;
  order_send = λ request. some answer;
}

abbrev moments_with : SendResult Fixed → OpenMoments Fixed
moments_with answer =
    let before = terminal_with [] answer in
    let after = terminal_with (opened ∷ []) answer in
    record {
      at_account = before;
      at_symbol = before;
      at_mode = before;
      at_spread = before;
      at_lot = before;
      at_margin = before;
      at_quote = before;
      at_stops = before;
      at_risk = before;
      at_reward = before;
      at_check = before;
      at_snapshot = before;
      at_identity = before;
      at_send = before;
      at_first = before;
      at_second = after;
      at_third = after;
      now = usd 1000;
    }

abbrev sample_order : OpenOrder Fixed
sample_order = record {
  symbol = yen_pair;
  side = buy;
  lot = mills 10;
  sl_price = some (mills 149_500);
  tp_price = some (mills 151_500);
  expected_account = none;
  max_risk_usd = some (usd 5);
}

abbrev filling : Submission Fixed
filling = (submit_open sample_settings (moments_with filled_answer) sample_order []).0

filled_success : (filling.result.success ≡ true) × (filling.result.ticket ≡ some 7)
unfolding submit_open validate_account_identity validate_symbol validate_symbol_trade_mode
    validate_live_spread broker_tick_age_seconds infer_positive_server_offset_seconds
    remembered_server_offset_seconds market_name validate_spread check_quote is_crypto_symbol
    spread_metrics pip_size validate_lot validate_margin normalize_price validate_stops
    configured_execution_cost_usd configured_per_lot_cost estimate_execution_risk find_candidates
    reconcile_open_result completed_retcode parse_result volume_tolerance instrument_asset_class
    is_crypto_pair remember_server_offset_seconds
filled_success = (refl, refl)

submit_open-IsFilled_example :
    ((false ≡ true) × IsUnsent sample_settings (moments_with filled_answer) sample_order filling)
    ⊎ IsFilled sample_settings (moments_with filled_answer) sample_order filling
submit_open-IsFilled_example =
    submit_open-IsFilled sample_settings (moments_with filled_answer) sample_order []
      filled_success.0

submit_open-changed_example : filling.result.state_changed ≡ completed_retcode filling.answer
submit_open-changed_example =
    submit_open-changed sample_settings (moments_with filled_answer) sample_order []

-- A new price is asked for once.
abbrev requoted : ℕ → OpenMoments Fixed
requoted zero = moments_with (record filled_answer { retcode = retcode_requote })
requoted (suc zero) = moments_with (record filled_answer { retcode = retcode_requote })
requoted (suc (suc n)) = moments_with filled_answer

abbrev trading : ExecutionResult Fixed × ℕ
trading = open_trade sample_settings true false requoted sample_order []

traded : (trading.1 ≡ 2) × (trading.0.success ≡ true)
unfolding submit_open validate_account_identity validate_symbol validate_symbol_trade_mode
    validate_live_spread broker_tick_age_seconds infer_positive_server_offset_seconds
    remembered_server_offset_seconds market_name validate_spread check_quote is_crypto_symbol
    spread_metrics pip_size validate_lot validate_margin normalize_price validate_stops
    configured_execution_cost_usd configured_per_lot_cost estimate_execution_risk find_candidates
    reconcile_open_result completed_retcode parse_result volume_tolerance instrument_asset_class
    is_crypto_pair remember_server_offset_seconds open_trade open_attempt offsets_after with_retry
    attempt_from
traded = (refl, refl)

open_trade-IsSingle_example :
    (trading ≡ (failed none no_connection, 0))
    ⊎ IsSingle sample_settings requoted sample_order [] trading
open_trade-IsSingle_example =
    open_trade-IsSingle sample_settings true false requoted sample_order []

-- An opening and a close run side by side; a second close of the ticket is refused; the first ends.
abbrev opening_key : Key
opening_key = open_key yen_pair buy

abbrev busy : Executor
busy = (enter (close_key 7) (enter (close_key 7) (enter opening_key new_executor).1).1).1

running-IsExclusive_example :
    IsExclusive (leave opening_key busy)
    × ((key : Key)
        → ((enter key (leave opening_key busy)).0 ≡ none) ↔ (
            ((leave opening_key busy).accepting_work ≡ true)
            × (has key (leave opening_key busy).running ≡ false)))
unfolding new_executor enter
running-IsExclusive_example = running-IsExclusive (
    next
      (next (next (next here (enters opening_key)) (enters (close_key 7))) (enters (close_key 7)))
      (leaves opening_key refl))
