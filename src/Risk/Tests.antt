-- ===== src/Risk/Tests.antt =====
-- Runs of the risk counters, and the theorems about them at concrete histories.
use llm_trade.Prelude.{ℕ, ◌+◌, ◌-◌, ◌*◌, ◌≡◌, refl, true, none, some, List, [], ◌∷◌}
use llm_trade.Prelude.Int.{negsuc}
use llm_trade.Float.{nought}
use llm_trade.Float.Fixed.{Fixed, num, nan, fixed_float, Fixed-IsOrdered, Fixed-IsSigned}
use llm_trade.Cell.{number, absent}
use llm_trade.Settings.Sample.{usd, sample_settings}
use llm_trade.Risk.Trade.{Trade, missing, at, buy}
use llm_trade.Risk.Streak.{closed_trades, effective_losing_streak}
use llm_trade.Risk.Streak.Run.{IsStreak, effective_losing_streak-IsStreak}
use llm_trade.Risk.State.{State, maybe_reset_daily, reset_daily_loss_for_today, update_peak_balance}
use llm_trade.Risk.Sync.{
  synchronize_closed_trades, todays_rows, sum_losses, last_loss, apply_snapshot,
}
use llm_trade.Risk.Sync.Daily.{synchronize_closed_trades_twice}
use llm_trade.Risk.Sync.Forgiven.{reset_forgives}
use llm_trade.Risk.Runs.{Call, run, trade_closed, synchronize, peak, look}
use llm_trade.Risk.Runs.Sound.{IsSound, IsCounted, run-IsSound, run-IsCounted}

-- Minutes after the start of day 20,000.
abbrev minute : ℕ → ℕ
minute n = 20_000 * 86_400_000_000 + n * 60_000_000

abbrev minus : ℕ → Fixed
minus n = num (negsuc (n * 1000 - 1))

abbrev closed : ℕ → Fixed → Trade Fixed
closed n pnl = record {
  close_time = at (minute n);
  time = missing;
  net_profit = number pnl;
  profit = absent;
  status_closed = true;
  direction = some buy;
}

abbrev history : List (Trade Fixed)
history =
    closed 100 (usd 4) ∷ closed 300 (minus 2) ∷ closed 200 (minus 1) ∷ closed 50 (minus 3) ∷ []

streaks :
    (effective_losing_streak sample_settings history (minute 400) none ≡ 2)
    × (effective_losing_streak sample_settings history (minute 2000) none ≡ 0)
    × (effective_losing_streak sample_settings history (minute 400) (some (minute 250)) ≡ 1)
unfolding effective_losing_streak
streaks = (refl, refl, refl)

effective_losing_streak-IsStreak_example :
    IsStreak sample_settings (minute 400) (closed_trades none history) 2
unfolding effective_losing_streak
effective_losing_streak-IsStreak_example =
    effective_losing_streak-IsStreak sample_settings history (minute 400) none

abbrev begun : State Fixed
begun = record {
  daily_loss_usd = usd 3;
  daily_reset_date = some 20_000;
  daily_loss_reset_after = none;
  loss_cooldown_reset_after = none;
  loss_streak_reset_after = none;
  peak_balance = usd 210;
  last_loss_time = none;
}

snapshots :
    ((synchronize_closed_trades (minute 400) history (usd 200) begun).daily_loss_usd ≡ usd 6)
    × ((synchronize_closed_trades (minute 400) history (usd 200) begun).last_loss_time
        ≡ some (minute 300))
    × ((synchronize_closed_trades (minute 1500) history (usd 250) begun).daily_loss_usd ≡ nought)
    × ((synchronize_closed_trades (minute 1500) history (usd 250) begun).peak_balance ≡ usd 250)
unfolding synchronize_closed_trades maybe_reset_daily update_peak_balance todays_rows sum_losses
    last_loss apply_snapshot
snapshots = (refl, refl, refl, refl)

synchronize_closed_trades_twice_example :
    let once = synchronize_closed_trades (minute 400) history (usd 200) begun in
    synchronize_closed_trades (minute 400) history (usd 200) once ≡ once
synchronize_closed_trades_twice_example =
    synchronize_closed_trades_twice Fixed-IsOrdered (minute 400) history (usd 200) begun

reset_forgives_example :
    let t =
      synchronize_closed_trades
        (minute 400)
        history
        (usd 200)
        (reset_daily_loss_for_today (minute 350) (some (minute 350)) begun).1 in
    (t.daily_loss_usd ≡ nought) × (t.last_loss_time ≡ none)
reset_forgives_example =
    reset_forgives Fixed-IsOrdered (minute 350) (minute 350) (minute 400) history (usd 200) begun
      refl (refl, (refl, (refl, (refl, tt))))

abbrev calls : List (Call Fixed)
calls =
    trade_closed (minute 310) (minus 5) (usd 195) true
    ∷ synchronize (minute 400) history (usd 200)
    ∷ peak nan
    ∷ look (minute 500)
    ∷ []

run-IsSound_example : IsSound (run calls begun)
run-IsSound_example =
    run-IsSound Fixed-IsOrdered Fixed-IsSigned calls begun
      (record { loss = refl; peak_known = refl })

run-IsCounted_example : IsCounted 20_000 (usd 3) (run calls begun)
run-IsCounted_example =
    run-IsCounted Fixed-IsOrdered Fixed-IsSigned 20_000 calls begun
      (record { loss = refl; peak_known = refl }) refl (tt, (refl, (tt, (refl, tt))))
