-- ===== src/Risk/Streak.antt =====
-- `_effective_losing_streak`: the run of losses that ends at the latest closed trade.
pub mod Order
pub mod Run
use llm_trade.Prelude.{
  ℕ, zero, suc, ◌+◌, ◌*◌, Bool, true, false, not, ◌&&◌, Option, none, some, List, [], ◌∷◌,
  if◌then◌else◌, leb, ltb,
}
use llm_trade.Prelude.Int.{ℤ, pos_part}
use llm_trade.Float.{Float}
use llm_trade.Cell.{Cell, absent}
use llm_trade.Settings.{Settings}
use llm_trade.Risk.Trade.{
  Trade, parse_utc_datetime, get_or_stamp, profit_of, is_loss, microseconds_per_hour,
}

-- An entry of `closed_trades`; the place in the history is the place in the list.
pub record Closed (F : Type 0) : Type 0 where
  pub closed_at : Option ℕ
  pub profit : F

module _ {F : Type 0} where
  -- `"net_profit" in trade`
  abbrev pub is_present : Cell F → Bool
  is_present absent = false
  is_present _ = true

-- `reset_after is not None and (closed_at is None or closed_at <= reset_after)`
abbrev pub before_reset : Option ℕ → Option ℕ → Bool
before_reset none closed_at = false
before_reset (some reset) none = true
before_reset (some reset) (some t) = leb t reset

-- The order of `sort_time`: an undated row counts as `datetime.min`.
abbrev pub is_newer : Option ℕ → Option ℕ → Bool
is_newer none b = false
is_newer (some a) none = true
is_newer (some a) (some b) = ltb b a

module _ {F : Type 0} ⦃fl : Float F⦄ where
  abbrev pub keep_finite : Option ℕ → Option F → Option ℕ → List (Closed F) → List (Closed F)
  keep_finite reset none closed_at rest = rest
  keep_finite reset (some profit) closed_at rest =
      if not (fl.is_finite profit)
      then rest
      else if before_reset reset closed_at
      then rest
      else record { closed_at = closed_at; profit = profit } ∷ rest

  -- the loop over the history
  unfoldable pub closed_trades : Option ℕ → List (Trade F) → List (Closed F)
  closed_trades reset [] = []
  closed_trades reset (trade ∷ history) =
      let rest = closed_trades reset history in
      if not trade.status_closed && not (is_present trade.net_profit)
      then rest
      else keep_finite reset (profit_of trade)
          (parse_utc_datetime (get_or_stamp trade.close_time trade.time)) rest

module _ {F : Type 0} where
  -- `closed_trades.sort(..., reverse=True)`: the newest first, and of one time the earlier row first
  unfoldable pub insert_newest : Closed F → List (Closed F) → List (Closed F)
  insert_newest x [] = x ∷ []
  insert_newest x (y ∷ ys) =
      if is_newer y.closed_at x.closed_at then y ∷ insert_newest x ys else x ∷ y ∷ ys

  unfoldable pub newest_first : List (Closed F) → List (Closed F)
  unfolding insert_newest
  newest_first [] = []
  newest_first (x ∷ xs) = insert_newest x (newest_first xs)

module _ {F : Type 0} ⦃fl : Float F⦄ where
  -- the loop that counts, with its `break`
  unfoldable pub count_losses : List (Closed F) → ℕ
  count_losses [] = 0
  count_losses (x ∷ xs) = if is_loss x.profit then suc (count_losses xs) else 0

  -- `age >= penalty_window`; an undated trade has no age
  abbrev pub window_passed : Settings F → ℕ → Option ℕ → Bool
  window_passed config now none = false
  window_passed config now (some t) =
      leb (t + pos_part config.loss_streak_pause_hours * microseconds_per_hour) now

  -- the test of the window, for the latest of the ordered trades
  abbrev pub is_expired : Settings F → ℕ → List (Closed F) → Bool
  is_expired config now [] = false
  is_expired config now (x ∷ xs) = window_passed config now x.closed_at

  unfoldable pub effective_losing_streak : Settings F → List (Trade F) → ℕ → Option ℕ → ℕ
  unfolding closed_trades newest_first count_losses
  effective_losing_streak config history now reset =
      let ordered = newest_first (closed_trades reset history) in
      let streak = count_losses ordered in
      if ltb 0 streak && is_expired config now ordered then 0 else streak
