-- ===== src/Execution/Public.antt =====
-- The public operations after their guards: the closes, `modify_sl_tp`, and the three that choose a stop
-- first. Each result comes with the number of attempts that were made.
pub mod Moved
use llm_trade.Prelude.{ℕ, Bool, Option, none, some, ◌⊎◌, inl, inr}
use llm_trade.Float.{Float}
use llm_trade.Settings.{Settings}
use llm_trade.Execution.{ExecError, ExecutionResult, failed, Submission}
use llm_trade.Execution.Retry.{with_retry}
use llm_trade.Execution.Gates.{ExpectedAccount}
use llm_trade.Execution.Close.{CloseMoments, submit_close, submit_partial_close}
use llm_trade.Execution.Modify.{ModifyMoments, submit_modify}
use llm_trade.Execution.Protect.{ProtectMoments, Levels, choose_breakeven, choose_trailing}
use llm_trade.Execution.Protect.Lock.{choose_lock}

module _ {F : Type 0} ⦃fl : Float F⦄ (config : Settings F) (is_connected initializes : Bool)
    (expected : Option ExpectedAccount) (ticket : ℕ) where
  unfoldable pub close_position : (ℕ → CloseMoments F) → ExecutionResult F × ℕ
  close_position moments =
      with_retry is_connected initializes
        (λ n. (submit_close config (moments n) expected ticket).result)

  unfoldable pub partial_close : (ℕ → CloseMoments F) → F → ExecutionResult F × ℕ
  partial_close moments volume =
      with_retry is_connected initializes
        (λ n. (submit_partial_close config (moments n) expected ticket volume).result)

  unfoldable pub modify_sl_tp : (ℕ → ModifyMoments F) → Option F → Option F → ExecutionResult F × ℕ
  modify_sl_tp moments sl_price tp_price =
      with_retry is_connected initializes
        (λ n. (submit_modify config (moments n) expected ticket sl_price tp_price).result)

  -- The stop that was chosen goes to `modify_sl_tp`, and a refusal is the result.
  unfoldable pub move_stop : (ℕ → ModifyMoments F) → ExecError ⊎ Levels F → ExecutionResult F × ℕ
  move_stop moments (inl error) = (failed (some ticket) error, 0)
  move_stop moments (inr levels) = modify_sl_tp moments (some levels.sl_price) levels.tp_price

  unfoldable pub move_to_breakeven :
      ProtectMoments F → (ℕ → ModifyMoments F) → F → ExecutionResult F × ℕ
  move_to_breakeven m moments buffer_pips =
      move_stop moments (choose_breakeven m ticket buffer_pips)

  unfoldable pub apply_trailing_stop :
      ProtectMoments F → (ℕ → ModifyMoments F) → F → ExecutionResult F × ℕ
  apply_trailing_stop m moments trail_pips = move_stop moments (choose_trailing m ticket trail_pips)

  unfoldable pub lock_minimum_net_profit :
      ProtectMoments F → (ℕ → ModifyMoments F) → F → ExecutionResult F × ℕ
  lock_minimum_net_profit m moments floor_usd =
      move_stop moments (choose_lock config m ticket floor_usd)
