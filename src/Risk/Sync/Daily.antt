-- ===== src/Risk/Sync/Daily.antt =====
-- A broker snapshot never takes back what is recorded, and to take it twice adds nothing.
use llm_trade.Prelude.{ℕ, ◌≡◌, ◌∙◌, true, false, Option, none, some, List, arith}
use llm_trade.Float.{Float, nought, ◌≼◌, max, IsOrdered, le-max-left, le_of_lt, le_of_not-lt}
use llm_trade.Risk.Trade.{Trade, day_of}
use llm_trade.Risk.State.{State, is_day, maybe_reset_daily, update_peak_balance}
use llm_trade.Risk.Sync.{
  merge_last_loss, apply_snapshot, synchronize_closed_trades, todays_rows, sum_losses, last_loss,
}

merge_twice :
    (last known : Option ℕ)
    → merge_last_loss last (merge_last_loss last known) ≡ merge_last_loss last known
merge_twice last known = ground arith

module _ {F : Type 0} ⦃fl : Float F⦄ where
  pub reset_same_day :
      (now : ℕ) (s : State F)
      → is_day s.daily_reset_date (day_of now) ≡ true
      → maybe_reset_daily now s ≡ s
  unfolding maybe_reset_daily
  reset_same_day now s h = rw h

  reset_dates :
      (now : ℕ) (s : State F)
      → is_day (maybe_reset_daily now s).daily_reset_date (day_of now) ≡ true
  unfolding maybe_reset_daily
  reset_dates now s = ground arith

  -- What a snapshot leaves alone.
  pub record IsSameDay (s t : State F) : Type 0 where
    pub date : t.daily_reset_date ≡ s.daily_reset_date
    pub daily_marker : t.daily_loss_reset_after ≡ s.daily_loss_reset_after
    pub cooldown_marker : t.loss_cooldown_reset_after ≡ s.loss_cooldown_reset_after
    pub streak_marker : t.loss_streak_reset_after ≡ s.loss_streak_reset_after

  snapshot-IsSameDay :
      (lost : F) (last : Option ℕ) (balance : F) (s : State F)
      → IsSameDay s (apply_snapshot lost last balance s)
  unfolding apply_snapshot update_peak_balance
  snapshot-IsSameDay lost last balance s = ground arith

  -- A snapshot on a day that has begun.
  pub sync_again :
      (now : ℕ) (trades : List (Trade F)) (balance : F) (t : State F) {daily cooldown : Option ℕ}
      → is_day t.daily_reset_date (day_of now) ≡ true
      → t.daily_loss_reset_after ≡ daily
      → t.loss_cooldown_reset_after ≡ cooldown
      → synchronize_closed_trades now trades balance t
        ≡ apply_snapshot
            (sum_losses daily nought (todays_rows now trades))
            (last_loss cooldown none (todays_rows now trades))
            balance
            t
  unfolding synchronize_closed_trades
  sync_again now trades balance t today d c = simp (reset_same_day now t today, d, c)

  -- What a broker snapshot may do to the counters.
  pub record IsKept (now : ℕ) (balance : F) (s t : State F) : Type 0 where
    pub loss_kept :
        is_day s.daily_reset_date (day_of now) ≡ true → s.daily_loss_usd ≼ t.daily_loss_usd
    pub peak_kept : s.peak_balance ≼ t.peak_balance
    pub peak_seen : balance ≼ balance → balance ≼ t.peak_balance
    pub dated : t.daily_reset_date ≡ some (day_of now)

module _ {F : Type 0} ⦃fl : Float F⦄ (laws : IsOrdered F) where
  open laws use {number_of_lt, lt-eq-not-le, le_total}

  lt_irrefl : (x y : F) → fl.lt x y ≡ true → fl.lt y y ≡ false
  lt_irrefl x y h = let n = (number_of_lt x y h).1 in ground (arith, lt-eq-not-le y y n n)

  max_twice : (x y : F) → max (max x y) y ≡ max x y
  max_twice x y = ground (arith, lt_irrefl x y)

  peak_twice :
      (balance : F) (s : State F)
      → update_peak_balance balance (update_peak_balance balance s) ≡ update_peak_balance balance s
  unfolding update_peak_balance
  peak_twice balance s = ground (arith, lt_irrefl s.peak_balance balance)

  snapshot_twice :
      (lost : F) (last : Option ℕ) (balance : F) (s : State F)
      → apply_snapshot lost last balance (apply_snapshot lost last balance s)
        ≡ apply_snapshot lost last balance s
  unfolding apply_snapshot update_peak_balance
  snapshot_twice lost last balance s = ground (
    arith,
    lt_irrefl s.peak_balance balance,
    max_twice s.daily_loss_usd lost,
    merge_twice last s.last_loss_time,
  )

  -- To take the same snapshot again, at the same time, changes nothing.
  pub synchronize_closed_trades_twice :
      (now : ℕ) (trades : List (Trade F)) (balance : F) (s : State F)
      → synchronize_closed_trades now trades balance
          (synchronize_closed_trades now trades balance s)
        ≡ synchronize_closed_trades now trades balance s
  unfolding synchronize_closed_trades
  synchronize_closed_trades_twice now trades balance s =
      let s' = maybe_reset_daily now s in
      let lost = sum_losses s'.daily_loss_reset_after nought (todays_rows now trades) in
      let last = last_loss s'.loss_cooldown_reset_after none (todays_rows now trades) in
      let same = snapshot-IsSameDay lost last balance s' in
      let today = rw (← same.date) at (reset_dates now s) in
      sync_again now trades balance (apply_snapshot lost last balance s') today same.daily_marker
        same.cooldown_marker
      ∙ snapshot_twice lost last balance s'

  pub snapshot-rises :
      (lost : F) (last : Option ℕ) (balance : F) (s : State F)
      → let t = apply_snapshot lost last balance s in
        (s.daily_loss_usd ≼ s.daily_loss_usd → s.daily_loss_usd ≼ t.daily_loss_usd)
        × (s.peak_balance ≼ s.peak_balance → s.peak_balance ≼ t.peak_balance)
        × (s.peak_balance ≼ s.peak_balance → balance ≼ balance → balance ≼ t.peak_balance)
  unfolding apply_snapshot update_peak_balance
  snapshot-rises lost last balance s = ground (
    arith,
    le-max-left laws s.daily_loss_usd lost,
    le_of_lt laws s.peak_balance balance,
    le_of_not-lt laws s.peak_balance balance,
  )

  pub day_begins :
      (now : ℕ) (s : State F)
      → let t = maybe_reset_daily now s in
        (is_day s.daily_reset_date (day_of now) ≡ true → t.daily_loss_usd ≡ s.daily_loss_usd)
        × (t.peak_balance ≡ s.peak_balance)
        × (t.daily_reset_date ≡ some (day_of now))
  unfolding maybe_reset_daily
  day_begins now s = ground arith

  -- A snapshot of any trades, complete or not, lowers neither the losses recorded on the same day
  -- nor the peak balance, and raises the peak to the balance at least, where the recorded numbers
  -- and, for the last claim, the balance are not NaN. It leaves the state dated by the day.
  pub synchronize_closed_trades-IsKept :
      (now : ℕ) (trades : List (Trade F)) (balance : F) (s : State F)
      → s.daily_loss_usd ≼ s.daily_loss_usd
      → s.peak_balance ≼ s.peak_balance
      → IsKept now balance s (synchronize_closed_trades now trades balance s)
  unfolding synchronize_closed_trades
  synchronize_closed_trades-IsKept now trades balance s nl np =
      let s' = maybe_reset_daily now s in
      let lost = sum_losses s'.daily_loss_reset_after nought (todays_rows now trades) in
      let last = last_loss s'.loss_cooldown_reset_after none (todays_rows now trades) in
      let up = snapshot-rises lost last balance s' in
      let begun = day_begins now s in
      record {
        loss_kept = λ today. ground arith;
        peak_kept = ground arith;
        peak_seen = λ nb. ground arith;
        dated = ground (arith, snapshot-IsSameDay lost last balance s');
      }
