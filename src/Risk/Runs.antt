-- ===== src/Risk/Runs.antt =====
-- Any sequence of the calls that change the counters of `RiskManager`.
pub mod Sound
use llm_trade.Prelude.{ℕ, Bool, Option, List, [], ◌∷◌, ◌≡◌}
use llm_trade.Float.{Float}
use llm_trade.Risk.Trade.{Trade, Stamp, day_of}
use llm_trade.Risk.State.{
  State, fresh_state, maybe_reset_daily, restore_daily_loss_reset, restore_loss_cooldown_reset,
  reset_loss_cooldown, restore_losing_streak_reset, reset_losing_streak, reset_daily_loss_for_today,
  record_trade_closed, update_peak_balance,
}
use llm_trade.Risk.Sync.{synchronize_closed_trades}

-- A call with what it is given; the first number is the clock.
pub data Call (F : Type 0) : Type 0 where
  look : ℕ → Call F
  restore_daily restore_cooldown restore_streak : ℕ → Stamp → Call F
  reset_daily reset_cooldown reset_streak : ℕ → Option ℕ → Call F
  trade_closed : ℕ → F → F → Bool → Call F
  synchronize : ℕ → List (Trade F) → F → Call F
  peak : F → Call F
  new_account : Call F

module _ {F : Type 0} ⦃fl : Float F⦄ where
  unfoldable pub step : Call F → State F → State F
  step (look now) s = maybe_reset_daily now s
  step (restore_daily now stamp) s = (restore_daily_loss_reset now stamp s).1
  step (restore_cooldown now stamp) s = (restore_loss_cooldown_reset now stamp s).1
  step (restore_streak now stamp) s = (restore_losing_streak_reset now stamp s).1
  step (reset_daily now stamp) s = (reset_daily_loss_for_today now stamp s).1
  step (reset_cooldown now stamp) s = (reset_loss_cooldown now stamp s).1
  step (reset_streak now stamp) s = (reset_losing_streak now stamp s).1
  step (trade_closed now profit balance owned) s = record_trade_closed now profit balance owned s
  step (synchronize now trades balance) s = synchronize_closed_trades now trades balance s
  step (peak balance) s = update_peak_balance balance s
  step new_account s = fresh_state

  unfoldable pub run : List (Call F) → State F → State F
  run [] s = s
  run (call ∷ calls) s = run calls (step call s)
