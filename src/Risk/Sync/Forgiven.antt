-- ===== src/Risk/Sync/Forgiven.antt =====
-- What an operator's reset of the day forgives stays forgiven.
use llm_trade.Prelude.{
  ℕ, ◌≡◌, refl, true, false, Option, none, some, List, [], ◌∷◌, arith, All, leb,
}
use llm_trade.Float.{Float, nought, IsOrdered, nought_not_lt}
use llm_trade.Risk.Trade.{Trade, day_of, parse_utc_datetime, or_stamp, profit_of}
use llm_trade.Risk.State.{
  State, is_day, is_after, maybe_reset_daily, update_peak_balance, reset_daily_loss_for_today,
}
use llm_trade.Risk.Sync.{
  Row, apply_snapshot, synchronize_closed_trades, todays_rows, sum_losses, last_loss, keep_today,
}
use llm_trade.Risk.Sync.Daily.{sync_again}

-- The time does not parse, or it is not later than the marker.
abbrev pub IsBy : ℕ → Option ℕ → Type 0
IsBy marker none = Unit
IsBy marker (some t) = leb t marker ≡ true

module _ {F : Type 0} ⦃fl : Float F⦄ where
  abbrev pub closing_time : Trade F → Option ℕ
  closing_time trade = parse_utc_datetime (or_stamp trade.close_time trade.time)

  keep_by :
      (marker now : ℕ) (t : Option ℕ) (pnl : Option F) (rows : List (Row F))
      → IsBy marker t
      → All (λ (row : Row F). is_after (some marker) row.0 ≡ false) rows
      → All (λ (row : Row F). is_after (some marker) row.0 ≡ false) (keep_today now t pnl rows)
  keep_by marker now none pnl rows h a = a
  keep_by marker now (some t) none rows h a = a
  keep_by marker now (some t) (some pnl) rows h a = ground arith

  rows_by :
      (marker now : ℕ) (trades : List (Trade F))
      → All (λ trade. IsBy marker (closing_time trade)) trades
      → All (λ (row : Row F). is_after (some marker) row.0 ≡ false) (todays_rows now trades)
  unfolding todays_rows
  rows_by marker now [] a = tt
  rows_by marker now (trade ∷ trades) (h, a) =
      keep_by marker now (closing_time trade) (profit_of trade) (todays_rows now trades) h
        (rows_by marker now trades a)

  no_losses :
      (marker : ℕ) (acc : F) (best : Option ℕ) (rows : List (Row F))
      → All (λ (row : Row F). is_after (some marker) row.0 ≡ false) rows
      → (sum_losses (some marker) acc rows ≡ acc) × (last_loss (some marker) best rows ≡ best)
  unfolding sum_losses last_loss
  no_losses marker acc best [] a = (refl, refl)
  no_losses marker acc best (row ∷ rows) (h, a) = ground (arith, no_losses marker acc best rows a)

  reset_clears :
      (now marker : ℕ) (s : State F)
      → let t = (reset_daily_loss_for_today now (some marker) s).1 in
        (t.daily_loss_usd ≡ nought)
        × (t.last_loss_time ≡ none)
        × (t.daily_loss_reset_after ≡ some marker)
        × (t.loss_cooldown_reset_after ≡ some marker)
        × (is_day t.daily_reset_date (day_of marker) ≡ true)
  unfolding reset_daily_loss_for_today maybe_reset_daily
  reset_clears now marker s = ground arith

  snapshot_nothing :
      (laws : IsOrdered F) (balance : F) (s : State F)
      → s.daily_loss_usd ≡ nought
      → s.last_loss_time ≡ none
      → let t = apply_snapshot nought none balance s in
        (t.daily_loss_usd ≡ nought) × (t.last_loss_time ≡ none)
  unfolding apply_snapshot update_peak_balance
  snapshot_nothing laws balance s loss last = ground (arith, nought_not_lt laws)

  -- After an operator's reset at `marker` a snapshot on the same day, all of whose trades closed by
  -- then or have no readable time, counts no loss and starts no cooldown.
  pub reset_forgives :
      (laws : IsOrdered F) (now marker later : ℕ) (trades : List (Trade F)) (balance : F)
      (s : State F)
      → day_of later ≡ day_of marker
      → All (λ trade. IsBy marker (closing_time trade)) trades
      → let t =
          synchronize_closed_trades later trades balance
            (reset_daily_loss_for_today now (some marker) s).1 in
        (t.daily_loss_usd ≡ nought) × (t.last_loss_time ≡ none)
  reset_forgives laws now marker later trades balance s same a =
      let (loss, last, daily, cooldown, today) = reset_clears now marker s in
      let t = (reset_daily_loss_for_today now (some marker) s).1 in
      let counted = no_losses marker nought none _ (rows_by marker later trades a) in
      rw (sync_again later trades balance t (rw same today) daily cooldown, counted.0, counted.1)
        (snapshot_nothing laws balance t loss last)
