-- ===== src/Structure.antt =====
-- market_structure/breakout.py, and the structure events and gaps of market_structure/smc.py. A data
-- frame is the list of its candles, the oldest first; the describing texts are left out.
pub mod Once
pub mod Gaps
mod Tests
use llm_trade.Prelude.{
  ℕ, zero, suc, ◌+◌, ◌-◌, Bool, true, false, not, ◌&&◌, ◌||◌, Option, none, some, List, [], ◌∷◌,
  ◌++◌, length, if◌then◌else◌, ltb,
}
use llm_trade.Float.{Float, nought, gt, ge, eq, max}
use llm_trade.Instruments.Spread.{or_nought}

pub data Direction : Type 0 where
  bullish bearish neutral : Direction

pub record Candle (F : Type 0) : Type 0 where
  pub time : ℕ
  pub open_price : F
  pub high : F
  pub low : F
  pub close : F
  pub atr_14 : F

pub data EventKind : Type 0 where
  bos choch : EventKind

pub record Event (F : Type 0) : Type 0 where
  pub kind : EventKind
  pub direction : Direction
  pub level : F
  pub time : ℕ

pub record Gap (F : Type 0) : Type 0 where
  pub direction : Direction
  pub top : F
  pub bottom : F
  pub gap_size : F
  pub time : ℕ

module _ {A : Type 0} where
  abbrev pub last : List A → Option A
  last [] = none
  last (x ∷ []) = some x
  last (x ∷ y ∷ ys) = last (y ∷ ys)

  -- `iloc[-2]` and `iloc[-1]`
  abbrev pub last_two : List A → Option (A × A)
  last_two [] = none
  last_two (x ∷ []) = none
  last_two (x ∷ y ∷ []) = some (x, y)
  last_two (x ∷ y ∷ z ∷ zs) = last_two (y ∷ z ∷ zs)

  abbrev pub drop_first : ℕ → List A → List A
  drop_first zero xs = xs
  drop_first (suc n) [] = []
  drop_first (suc n) (x ∷ xs) = drop_first n xs

module _ {F : Type 0} ⦃fl : Float F⦄ where
  open fl use {dec, add, sub, mul, lt, le}

  -- `max(0.0, float(atr or 0.0) * float(min_displacement_atr or 0.0))`
  abbrev pub displacement : F → F → F
  displacement atr minimum = max nought (mul (or_nought atr) (or_nought minimum))

  -- The close is on the far side of the level by the displacement.
  abbrev pub above_by : F → F → F → Bool
  above_by close level required = gt close level && ge (add (sub close level) (dec 1 12)) required

  abbrev pub below_by : F → F → F → Bool
  below_by close level required = lt close level && ge (add (sub level close) (dec 1 12)) required

  -- The close before was not beyond the level; without one the test passes.
  abbrev pub was_below : Option F → F → Bool
  was_below none level = true
  was_below (some previous) level = le previous level

  abbrev pub was_above : Option F → F → Bool
  was_above none level = true
  was_above (some previous) level = ge previous level

  -- `none` is the text "None".
  unfoldable pub detect_breakout : F → F → F → Option F → F → F → Option Direction
  detect_breakout close support resistance previous atr minimum =
      let required = displacement atr minimum in
      if eq resistance nought || eq support nought
      then none
      else if above_by close resistance required && was_below previous resistance
      then some bullish
      else if below_by close support required && was_above previous support
      then some bearish
      else none

  -- The event of a trend for the two crossings, if any.
  abbrev pub crossing_event : Direction → Bool → Bool → F → F → ℕ → List (Event F)
  crossing_event bullish above below high low time =
      if above
      then record { kind = bos; direction = bullish; level = high; time = time } ∷ []
      else if below
      then record { kind = choch; direction = bearish; level = low; time = time } ∷ []
      else []
  crossing_event bearish above below high low time =
      if below
      then record { kind = bos; direction = bearish; level = low; time = time } ∷ []
      else if above
      then record { kind = choch; direction = bullish; level = high; time = time } ∷ []
      else []
  crossing_event neutral above below high low time = []

  -- `previous_close <= level < latest_close`, by the displacement; and its mirror image
  abbrev pub crossed_above : F → F → F → F → Bool
  crossed_above previous close level required = le previous level && above_by close level required

  abbrev pub crossed_below : F → F → F → F → Bool
  crossed_below previous close level required = ge previous level && below_by close level required

  abbrev pub events_of :
      Option (Candle F × Candle F) → Option F → Option F → Direction → F → List (Event F)
  events_of (some (previous, latest)) (some high) (some low) trend minimum =
      let required = displacement latest.atr_14 minimum in
      crossing_event trend (crossed_above previous.close latest.close high required)
        (crossed_below previous.close latest.close low required) high low latest.time
  events_of _ _ _ trend minimum = []

  -- The swings are the prices of the detected highs and lows.
  unfoldable pub detect_bos_choch :
      List (Candle F) → List F → List F → Direction → F → List (Event F)
  detect_bos_choch candles swing_highs swing_lows trend minimum =
      events_of (last_two candles) (last swing_highs) (last swing_lows) trend minimum

  -- The gap over three candles in a row.
  abbrev pub gap_over : Candle F → Candle F → Candle F → List (Gap F)
  gap_over first middle third =
      if gt third.low first.high
      then (if gt middle.close middle.open_price
          then record {
            direction = bullish;
            top = third.low;
            bottom = first.high;
            gap_size = sub third.low first.high;
            time = middle.time;
          }
            ∷ []
          else [])
      else if lt third.high first.low
      then (if lt middle.close middle.open_price
          then record {
            direction = bearish;
            top = first.low;
            bottom = third.high;
            gap_size = sub first.low third.high;
            time = middle.time;
          }
            ∷ []
          else [])
      else []

  unfoldable pub gaps : List (Candle F) → List (Gap F)
  gaps [] = []
  gaps (a ∷ []) = []
  gaps (a ∷ b ∷ []) = []
  gaps (a ∷ b ∷ c ∷ cs) = gap_over a b c ++ gaps (b ∷ c ∷ cs)

  -- The last fifteen candles as third ones: the scan begins at index `max(2, len(df) - 15)`.
  unfoldable pub detect_fvgs : List (Candle F) → List (Gap F)
  detect_fvgs candles = gaps (drop_first (length candles - 17) candles)
