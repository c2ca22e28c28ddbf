-- ===== src/Risk/Sync.antt =====
-- `synchronize_closed_trades`: the counters rebuilt from the broker's closed positions.
pub mod Daily
pub mod Forgiven
use llm_trade.Prelude.{
  ℕ, Bool, not, ◌&&◌, Option, none, some, List, [], ◌∷◌, if◌then◌else◌, ◌==◌, ltb,
}
use llm_trade.Float.{Float, nought, max}
use llm_trade.Risk.Trade.{Trade, parse_utc_datetime, or_stamp, profit_of, is_loss, day_of}
use llm_trade.Risk.State.{State, is_after, maybe_reset_daily, update_peak_balance}

-- a row of `todays`: when it closed, and its profit or loss
abbrev pub Row : Type 0 → Type 0
Row F = ℕ × F

abbrev pub latest : Option ℕ → ℕ → Option ℕ
latest none t = some t
latest (some best) t = if ltb best t then some t else some best

abbrev pub merge_last_loss : Option ℕ → Option ℕ → Option ℕ
merge_last_loss none known = known
merge_last_loss (some t) known = latest known t

module _ {F : Type 0} ⦃fl : Float F⦄ where
  abbrev pub keep_today : ℕ → Option ℕ → Option F → List (Row F) → List (Row F)
  keep_today now none profit rest = rest
  keep_today now (some t) none rest = rest
  keep_today now (some t) (some pnl) rest =
      if not (fl.is_finite pnl)
      then rest
      else if day_of t == day_of now
      then (t, pnl) ∷ rest
      else rest

  unfoldable pub todays_rows : ℕ → List (Trade F) → List (Row F)
  todays_rows now [] = []
  todays_rows now (trade ∷ trades) =
      keep_today now (parse_utc_datetime (or_stamp trade.close_time trade.time)) (profit_of trade)
        (todays_rows now trades)

  -- A loss that the marker does not forgive.
  abbrev pub counts : Option ℕ → Row F → Bool
  counts marker (t, pnl) = is_loss pnl && is_after marker t

  -- `sum(abs(pnl) for ...)`, from the left
  unfoldable pub sum_losses : Option ℕ → F → List (Row F) → F
  sum_losses marker acc [] = acc
  sum_losses marker acc (row ∷ rows) =
      sum_losses marker (if counts marker row then fl.add acc (fl.abs row.1) else acc) rows

  -- `max(cooldown_losses) if cooldown_losses else None`
  unfoldable pub last_loss : Option ℕ → Option ℕ → List (Row F) → Option ℕ
  last_loss marker best [] = best
  last_loss marker best (row ∷ rows) =
      last_loss marker (if counts marker row then latest best row.0 else best) rows

  -- the counters after a snapshot with losses `lost`, the last of them at `last`
  unfoldable pub apply_snapshot : F → Option ℕ → F → State F → State F
  apply_snapshot lost last balance s = update_peak_balance balance (record s {
    daily_loss_usd = max s.daily_loss_usd lost;
    last_loss_time = merge_last_loss last s.last_loss_time;
  })

  unfoldable pub synchronize_closed_trades : ℕ → List (Trade F) → F → State F → State F
  synchronize_closed_trades now trades balance s =
      let s' = maybe_reset_daily now s in
      let rows = todays_rows now trades in
      apply_snapshot (sum_losses s'.daily_loss_reset_after nought rows)
        (last_loss s'.loss_cooldown_reset_after none rows) balance s'
