-- ===== src/Execution/Tests.antt =====
-- Examples for closes, changes of levels and the stops that protect a profit.
use llm_trade.Prelude.{ℕ, ◌≡◌, inr, refl, true, none, some, [], ◌∷◌, false}
use llm_trade.Float.Fixed.{Fixed, fixed_float}
use llm_trade.Settings.Sample.{usd, mills, sample_settings}
use llm_trade.Instruments.Spread.{pip_size}
use llm_trade.Costs.{configured_execution_cost_usd, configured_per_lot_cost}
use llm_trade.Instruments.{is_crypto_symbol, is_crypto_pair}
use llm_trade.Execution.{Terminal}
use llm_trade.Execution.Results.{completed_retcode, parse_result, volume_tolerance}
use llm_trade.Execution.Gates.{validate_account_identity, validate_stops, normalize_price}
use llm_trade.Execution.CloseResult.{reconcile_close_result, find_remaining}
use llm_trade.Execution.ModifyResult.{reconcile_modify_result, verify_levels}
use llm_trade.Execution.Open.Tests.{opened, filled_answer, terminal_with}
use llm_trade.Execution.Close.{CloseMoments, submit_close, send_close_request}
use llm_trade.Execution.Modify.{ModifyMoments, submit_modify}
use llm_trade.Execution.Modify.Sent.{IsModifyEnded, submit_modify-IsModifyEnded}
use llm_trade.Execution.Protect.{ProtectMoments, Levels, choose_breakeven}
use llm_trade.Execution.Protect.Better.{IsChosen, IsEven, IsTrailing}
use llm_trade.Execution.Retry.{with_retry, attempt_from}
use llm_trade.Execution.Public.{
  move_to_breakeven, apply_trailing_stop, lock_minimum_net_profit, move_stop, modify_sl_tp,
}
use llm_trade.Execution.Public.Moved.{IsMoved, protections-AreMoved}
use llm_trade.Execution.Protect.Lock.{search_lock, choose_lock}
use llm_trade.Execution.Protect.Lock.Floor.{IsLocked, choose_lock-IsLocked}

abbrev holding : Terminal Fixed
holding = terminal_with (opened ∷ []) filled_answer

abbrev gone : Terminal Fixed
gone = terminal_with [] filled_answer

-- The position is still there at the first read after the order.
abbrev closing : CloseMoments Fixed
closing = record {
  at_position = holding;
  at_volume = holding;
  at_info = holding;
  at_tick = holding;
  at_check = holding;
  at_identity = holding;
  at_send = holding;
  at_first = holding;
  at_second = gone;
  at_third = gone;
}

closed_all : (submit_close sample_settings closing none 7).result.success ≡ true
unfolding submit_close send_close_request validate_account_identity reconcile_close_result
    find_remaining completed_retcode parse_result volume_tolerance
closed_all = refl

abbrev changed : Terminal Fixed
changed = terminal_with (record opened { sl = mills 149_600 } ∷ []) filled_answer

abbrev changing : ModifyMoments Fixed
changing = record {
  at_position = holding;
  at_info = holding;
  at_tick = holding;
  at_stops = holding;
  at_check = holding;
  at_identity = holding;
  at_send = holding;
  at_first = holding;
  at_second = changed;
  at_third = changed;
}

submit_modify-IsModifyEnded_example :
    IsModifyEnded sample_settings changing none 7
      (some (mills 149_600))
      none
      (submit_modify sample_settings changing none 7 (some (mills 149_600)) none)
submit_modify-IsModifyEnded_example =
    submit_modify-IsModifyEnded sample_settings changing none 7 (some (mills 149_600)) none

-- A position that is a yen in profit.
abbrev winning : Terminal Fixed
winning = terminal_with (record opened { price_open = usd 149; sl = usd 148 } ∷ []) filled_answer

abbrev protecting : ProtectMoments Fixed
protecting = record {
  at_position = winning;
  at_info = winning;
  at_tick = winning;
  at_probe = winning;
  at_projection = λ left. winning;
}

-- Ten cents and the costs of seven are seventeen sen from the entry.
choose_lock-IsLocked_example :
    IsLocked sample_settings protecting 7
      (mills 100)
      (record { sl_price = mills 149_170; tp_price = none })
unfolding choose_lock search_lock normalize_price configured_execution_cost_usd
    configured_per_lot_cost is_crypto_symbol is_crypto_pair pip_size
choose_lock-IsLocked_example = choose_lock-IsLocked sample_settings protecting 7 (mills 100) refl

abbrev even : Levels Fixed
even = record { sl_price = mills 149_010; tp_price = none }

even_chosen : choose_breakeven protecting 7 (usd 1) ≡ inr even
unfolding choose_breakeven pip_size
even_chosen = refl

changed_levels :
    (submit_modify sample_settings changing none 7 (some (mills 149_600)) none).result.success
    ≡ true
unfolding submit_modify validate_account_identity validate_stops normalize_price
    reconcile_modify_result completed_retcode parse_result verify_levels
changed_levels = refl

-- The broker shows the stop at break-even after the change.
abbrev moving : ℕ → ModifyMoments Fixed
moving n = record changing {
  at_position = winning;
  at_second =
      terminal_with (record opened { price_open = usd 149; sl = mills 149_010 } ∷ []) filled_answer;
}

moved_even :
    (move_to_breakeven sample_settings true false none 7 protecting moving (usd 1)).0.success ≡ true
unfolding submit_modify validate_account_identity validate_stops normalize_price
    reconcile_modify_result completed_retcode parse_result verify_levels move_to_breakeven
    choose_breakeven pip_size move_stop modify_sl_tp with_retry attempt_from
moved_even = refl

protections-AreMoved_example :
    ((move_to_breakeven sample_settings true false none 7 protecting moving (usd 1)).0.success
        ≡ true
      → IsMoved sample_settings true false none 7 moving
          (IsChosen protecting 7 (IsEven protecting 7)))
    × ((apply_trailing_stop sample_settings true false none 7 protecting moving (usd 1)).0.success
          ≡ true
        → IsMoved sample_settings true false none 7 moving
            (IsChosen protecting 7 (IsTrailing protecting 7)))
    × ((lock_minimum_net_profit sample_settings true false none 7 protecting moving
            (usd 1)).0.success
          ≡ true
        → IsMoved sample_settings true false none 7 moving
            (IsLocked sample_settings protecting 7 (usd 1)))
protections-AreMoved_example =
    protections-AreMoved sample_settings true false none 7 moving protecting (usd 1)
