-- ===== src/Risk/Runs/Sound.antt =====
-- No sequence of calls makes a counter negative, and the losses of a day only grow.
use llm_trade.Prelude.{ℕ, ◌≡◌, Bool, true, none, List, [], ◌∷◌, arith, All}
use llm_trade.Float.{Float, nought, ◌≼◌, IsOrdered, IsSigned, le_of_lt}
use llm_trade.Risk.Trade.{Trade, day_of}
use llm_trade.Risk.State.{
  State, is_day, or_now, fresh_state, maybe_reset_daily, restore_daily_loss_reset,
  restore_loss_cooldown_reset, reset_loss_cooldown, restore_losing_streak_reset,
  reset_losing_streak, reset_daily_loss_for_today, record_trade_closed, update_peak_balance,
}
use llm_trade.Risk.Sync.{synchronize_closed_trades, sum_losses, last_loss, todays_rows}
use llm_trade.Risk.Sync.Daily.{reset_same_day, snapshot-rises, synchronize_closed_trades-IsKept}
use llm_trade.Risk.Runs.{
  Call, look, restore_daily, restore_cooldown, restore_streak, reset_daily, reset_cooldown,
  reset_streak, trade_closed, synchronize, peak, new_account, step, run,
}

module _ {F : Type 0} ⦃fl : Float F⦄ where
  -- Neither the losses of the day nor the peak balance is negative or NaN.
  pub record IsSound (s : State F) : Type 0 where
    pub loss : nought ≼ s.daily_loss_usd
    pub peak_known : nought ≼ s.peak_balance

  -- A call on the given day that is no reset of the daily losses and no change of account.
  abbrev pub IsAccounting : ℕ → Call F → Type 0
  IsAccounting day (look now) = day_of now ≡ day
  IsAccounting day (restore_daily now stamp) = ⊥
  IsAccounting day (restore_cooldown now stamp) = day_of now ≡ day
  IsAccounting day (restore_streak now stamp) = Unit
  IsAccounting day (reset_daily now stamp) = ⊥
  IsAccounting day (reset_cooldown now stamp) = day_of (or_now stamp now) ≡ day
  IsAccounting day (reset_streak now stamp) = Unit
  IsAccounting day (trade_closed now profit balance owned) = Unit
  IsAccounting day (synchronize now trades balance) = day_of now ≡ day
  IsAccounting day (peak balance) = Unit
  IsAccounting day new_account = ⊥

  -- The state belongs to the day, and holds at least these losses.
  pub record IsCounted (day : ℕ) (least : F) (s : State F) : Type 0 where
    pub dated : is_day s.daily_reset_date day ≡ true
    pub kept : least ≼ s.daily_loss_usd

module _ {F : Type 0} ⦃fl : Float F⦄ (laws : IsOrdered F) (signs : IsSigned F) where
  open laws use {refl_of_le, le_trans, number_of_finite, nought_finite, number_of_lt}
  open signs use {abs_nonneg, add_grows}

  zero_number : ◌≼◌ {F = F} nought nought
  zero_number = number_of_finite nought nought_finite

  maybe_reset_daily-IsSound :
      (now : ℕ) (s : State F) → IsSound s → IsSound (maybe_reset_daily now s)
  unfolding maybe_reset_daily
  maybe_reset_daily-IsSound now s h = ground (arith, zero_number)

  update_peak_balance-IsSound :
      (balance : F) (s : State F) → IsSound s → IsSound (update_peak_balance balance s)
  unfolding update_peak_balance
  update_peak_balance-IsSound balance s h =
      ground (arith, le_of_lt laws s.peak_balance balance, le_trans nought s.peak_balance balance)

  loss_grows :
      (s : State F) (profit : F)
      → IsSound s
      → fl.lt profit nought ≡ true
      → s.daily_loss_usd ≼ fl.add s.daily_loss_usd (fl.abs profit)
  loss_grows s profit h lost =
      add_grows _ _ h.loss (abs_nonneg profit (number_of_lt profit nought lost).0)

  closed-IsSound :
      (now : ℕ) (profit balance : F) (owned : Bool) (s : State F)
      → IsSound s
      → IsSound (record_trade_closed now profit balance owned s)
        × (s.daily_loss_usd ≼ (record_trade_closed now profit balance owned s).daily_loss_usd)
        × ((record_trade_closed now profit balance owned s).daily_reset_date ≡ s.daily_reset_date)
  unfolding record_trade_closed
  closed-IsSound now profit balance owned s h = ground (
    arith,
    loss_grows s profit h,
    refl_of_le nought s.daily_loss_usd,
    le_trans nought s.daily_loss_usd (fl.add s.daily_loss_usd (fl.abs profit)),
    le_of_lt laws s.peak_balance balance,
    le_trans nought s.peak_balance balance,
  )

  sync-IsSound :
      (now : ℕ) (trades : List (Trade F)) (balance : F) (s : State F)
      → IsSound s
      → IsSound (synchronize_closed_trades now trades balance s)
  unfolding synchronize_closed_trades
  sync-IsSound now trades balance s h =
      let s' = maybe_reset_daily now s in
      let v = maybe_reset_daily-IsSound now s h in
      let lost = sum_losses s'.daily_loss_reset_after nought (todays_rows now trades) in
      let last = last_loss s'.loss_cooldown_reset_after none (todays_rows now trades) in
      let up = snapshot-rises laws lost last balance s' in
      record {
        loss = le_trans _ _ _ v.loss (up.0 (refl_of_le _ _ v.loss).1);
        peak_known = le_trans _ _ _ v.peak_known (up.1 (refl_of_le _ _ v.peak_known).1);
      }

  step-IsSound : (call : Call F) (s : State F) → IsSound s → IsSound (step call s)
  unfolding step restore_daily_loss_reset restore_loss_cooldown_reset restore_losing_streak_reset
      reset_daily_loss_for_today reset_loss_cooldown reset_losing_streak fresh_state
  step-IsSound (look now) s h = maybe_reset_daily-IsSound now s h
  step-IsSound (restore_daily now stamp) s h =
      ground (arith, zero_number, maybe_reset_daily-IsSound now s h)
  step-IsSound (restore_cooldown now stamp) s h = ground (arith, maybe_reset_daily-IsSound now s h)
  step-IsSound (restore_streak now stamp) s h = ground arith
  step-IsSound (reset_daily now stamp) s h =
      ground (arith, zero_number, maybe_reset_daily-IsSound (or_now stamp now) s h)
  step-IsSound (reset_cooldown now stamp) s h =
      ground (arith, maybe_reset_daily-IsSound (or_now stamp now) s h)
  step-IsSound (reset_streak now stamp) s h = ground arith
  step-IsSound (trade_closed now profit balance owned) s h =
      (closed-IsSound now profit balance owned s h).0
  step-IsSound (synchronize now trades balance) s h = sync-IsSound now trades balance s h
  step-IsSound (peak balance) s h = update_peak_balance-IsSound balance s h
  step-IsSound new_account s h = ground (arith, zero_number)

  -- However the calls follow one another, from a sound state neither the losses of the day nor the
  -- peak balance becomes negative or NaN, whatever profits, balances and times the calls are given.
  pub run-IsSound : (calls : List (Call F)) (s : State F) → IsSound s → IsSound (run calls s)
  unfolding run
  run-IsSound [] s h = h
  run-IsSound (call ∷ calls) s h = run-IsSound calls (step call s) (step-IsSound call s h)

  reset_none :
      (day now : ℕ) (s : State F)
      → is_day s.daily_reset_date day ≡ true
      → day_of now ≡ day
      → maybe_reset_daily now s ≡ s
  reset_none day now s dated same = reset_same_day now s (rw same dated)

  update_peak_balance-IsCounted :
      (day : ℕ) (balance : F) (s : State F)
      → is_day s.daily_reset_date day ≡ true
      → s.daily_loss_usd ≼ s.daily_loss_usd
      → IsCounted day s.daily_loss_usd (update_peak_balance balance s)
  unfolding update_peak_balance
  update_peak_balance-IsCounted day balance s d own = ground arith

  step-IsCounted :
      (day : ℕ) (call : Call F) (s : State F)
      → IsSound s
      → is_day s.daily_reset_date day ≡ true
      → IsAccounting day call
      → IsCounted day s.daily_loss_usd (step call s)
  unfolding step restore_loss_cooldown_reset restore_losing_streak_reset reset_loss_cooldown
      reset_losing_streak
  step-IsCounted day (look now) s h d a =
      let own = (refl_of_le _ _ h.loss).1 in ground (arith, reset_none day now s d a)
  step-IsCounted day (restore_cooldown now stamp) s h d a =
      let own = (refl_of_le _ _ h.loss).1 in ground (arith, reset_none day now s d a)
  step-IsCounted day (restore_streak now stamp) s h d a =
      let own = (refl_of_le _ _ h.loss).1 in ground (arith)
  step-IsCounted day (reset_cooldown now stamp) s h d a =
      let own = (refl_of_le _ _ h.loss).1 in ground (arith, reset_none day (or_now stamp now) s d a)
  step-IsCounted day (reset_streak now stamp) s h d a =
      let own = (refl_of_le _ _ h.loss).1 in ground (arith)
  step-IsCounted day (trade_closed now profit balance owned) s h d a =
      let r = closed-IsSound now profit balance owned s h in record { dated = rw r.2 d; kept = r.1 }
  step-IsCounted day (synchronize now trades balance) s h d a =
      let own = (refl_of_le _ _ h.loss).1 in
      let kept =
        synchronize_closed_trades-IsKept laws now trades balance s own
          (refl_of_le _ _ h.peak_known).1 in
      record { dated = ground (arith, kept.dated); kept = kept.loss_kept (rw a d) }
  step-IsCounted day (peak balance) s h d a =
      let own = (refl_of_le _ _ h.loss).1 in update_peak_balance-IsCounted day balance s d own
  step-IsCounted day (restore_daily now stamp) s h d a = absurd a
  step-IsCounted day (reset_daily now stamp) s h d a = absurd a
  step-IsCounted day new_account s h d a = absurd a

  run_from-IsCounted :
      (day : ℕ) (least : F) (calls : List (Call F)) (s : State F)
      → IsSound s
      → IsCounted day least s
      → All (IsAccounting day) calls
      → IsCounted day least (run calls s)
  unfolding run
  run_from-IsCounted day least [] s h c a = c
  run_from-IsCounted day least (call ∷ calls) s h c (a, as') =
      let c' = step-IsCounted day call s h c.dated a in
      run_from-IsCounted day least calls (step call s) (step-IsSound call s h)
        (record { dated = c'.dated; kept = le_trans _ _ _ c.kept c'.kept }) as'

  -- On one day, and with no operator's reset of the daily losses and no change of account, no
  -- sequence of calls loses any of the losses that a sound state has recorded for the day.
  pub run-IsCounted :
      (day : ℕ) (calls : List (Call F)) (s : State F)
      → IsSound s
      → is_day s.daily_reset_date day ≡ true
      → All (IsAccounting day) calls
      → IsCounted day s.daily_loss_usd (run calls s)
  run-IsCounted day calls s h d =
      run_from-IsCounted day s.daily_loss_usd calls s h
        (record { dated = d; kept = (refl_of_le _ _ h.loss).1 })
