-- ===== src/Structure/Once.antt =====
-- A crossing is an event and not a state, and a gap is a real gap.
use llm_trade.Prelude.{
  ◌≡◌, refl, ◌≢◌, true, Option, none, some, List, [], ◌∷◌, arith, Bool-cases, inl, inr,
}
use llm_trade.Float.{Float, IsOrdered, not-le_of_lt}
use llm_trade.Structure.{
  Direction, bullish, bearish, neutral, Candle, bos, choch, Event, last, last_two, displacement,
  was_below, was_above, detect_breakout, crossing_event, crossed_above, crossed_below, events_of,
  detect_bos_choch,
}

module _ {F : Type 0} ⦃fl : Float F⦄ (laws : IsOrdered F) where
  open fl use {lt, le}

  breakout-beyond :
      (close support resistance atr minimum : F) (previous : Option F)
      → (detect_breakout close support resistance previous atr minimum ≡ some bullish
          → (lt resistance close ≡ true) × (was_below previous resistance ≡ true))
        × (detect_breakout close support resistance previous atr minimum ≡ some bearish
            → (lt close support ≡ true) × (was_above previous support ≡ true))
  unfolding detect_breakout
  breakout-beyond close support resistance atr minimum previous =
      ((λ h. ground arith), λ h. ground arith)

  -- A close that broke a level is not reported again: with it as the previous close and the same
  -- level, no close and no displacement is a breakout in the same direction.
  pub detect_breakout_once :
      (first second support resistance other atr atr' minimum minimum' : F) (previous : Option F)
      → (detect_breakout first support resistance previous atr minimum ≡ some bullish
          → detect_breakout second other resistance (some first) atr' minimum' ≢ some bullish)
        × (detect_breakout first support resistance previous atr minimum ≡ some bearish
            → detect_breakout second support other (some first) atr' minimum' ≢ some bearish)
  detect_breakout_once first second support resistance other atr atr' minimum minimum' previous = (
    λ h k.
        let (beyond, before) =
          (breakout-beyond first support resistance atr minimum previous).0 h in
        let (again, was) =
          (breakout-beyond second other resistance atr' minimum' (some first)).0 k in
        cc (not-le_of_lt laws resistance first beyond, was),
    λ h k.
        let (beyond, before) =
          (breakout-beyond first support resistance atr minimum previous).1 h in
        let (again, was) = (breakout-beyond second support other atr' minimum' (some first)).1 k in
        cc (not-le_of_lt laws first support beyond, was),
  )

module _ {F : Type 0} ⦃fl : Float F⦄ where
  open fl use {lt, le}

  -- An event of a trend, by the two candles that it compares.
  pub record IsEvent (trend : Direction) (previous latest : Candle F) (event : Event F)
      : Type 0 where
    pub follows : event.kind ≡ bos → event.direction ≡ trend
    pub opposes : event.kind ≡ choch → event.direction ≢ trend
    pub up :
        event.direction ≡ bullish
        → (le previous.close event.level ≡ true) × (lt event.level latest.close ≡ true)
    pub down :
        event.direction ≡ bearish
        → (le event.level previous.close ≡ true) × (lt latest.close event.level ≡ true)
    pub at_latest : event.time ≡ latest.time

  -- What `detect_bos_choch` returns: nothing, or one event of the last two candles.
  abbrev pub IsOneEvent : Option (Candle F × Candle F) → Direction → List (Event F) → Type 0
  IsOneEvent candles trend [] = Unit
  IsOneEvent none trend (event ∷ events) = ⊥
  IsOneEvent (some (previous, latest)) trend (event ∷ events) =
      IsEvent trend previous latest event × (events ≡ [])

  crossing_event-IsOneEvent :
      (trend : Direction) (previous latest : Candle F) (high low required : F)
      → IsOneEvent (some (previous, latest)) trend (
          crossing_event trend
            (crossed_above previous.close latest.close high required)
            (crossed_below previous.close latest.close low required)
            high
            low
            latest.time)
  crossing_event-IsOneEvent bullish previous latest high low required =
      elim (Bool-cases (crossed_above previous.close latest.close high required)) [
        | inl up ↦ rw up (
          record {
            follows = λ e. refl;
            opposes = λ e. cc;
            up = λ e. ground arith;
            down = λ e. cc;
            at_latest = refl;
          },
          refl,
        )
        | inr flat ↦ elim (Bool-cases (crossed_below previous.close latest.close low required)) [
          | inl fell ↦
              rw (flat, fell)
                (
                  record {
                    follows = λ e. cc;
                    opposes = λ e d. cc;
                    up = λ e. cc;
                    down = λ e. ground arith;
                    at_latest = refl;
                  },
                  refl,
                )
          | inr still ↦ rw (flat, still) tt
        ]
      ]
  crossing_event-IsOneEvent bearish previous latest high low required =
      elim (Bool-cases (crossed_below previous.close latest.close low required)) [
        | inl fell ↦ rw fell (
          record {
            follows = λ e. refl;
            opposes = λ e. cc;
            up = λ e. cc;
            down = λ e. ground arith;
            at_latest = refl;
          },
          refl,
        )
        | inr flat ↦ elim (Bool-cases (crossed_above previous.close latest.close high required)) [
          | inl up ↦
              rw (flat, up)
                (
                  record {
                    follows = λ e. cc;
                    opposes = λ e d. cc;
                    up = λ e. ground arith;
                    down = λ e. cc;
                    at_latest = refl;
                  },
                  refl,
                )
          | inr still ↦ rw (flat, still) tt
        ]
      ]
  crossing_event-IsOneEvent neutral previous latest high low required = tt

  events_of-IsOneEvent :
      (two : Option (Candle F × Candle F)) (high low : Option F) (trend : Direction) (minimum : F)
      → IsOneEvent two trend (events_of two high low trend minimum)
  events_of-IsOneEvent none high low trend minimum = tt
  events_of-IsOneEvent (some (p, l)) none low trend minimum = tt
  events_of-IsOneEvent (some (p, l)) (some high) none trend minimum = tt
  events_of-IsOneEvent (some (p, l)) (some high) (some low) trend minimum =
      crossing_event-IsOneEvent trend p l high low (displacement l.atr_14 minimum)

  -- There is at most one structure event, of the last two candles: a BOS follows the trend and a
  -- CHoCH does not; an event upwards has the previous close at or below its level and the latest
  -- above it, an event downwards the reverse; and it carries the time of the latest candle.
  pub detect_bos_choch-IsOneEvent :
      (candles : List (Candle F)) (swing_highs swing_lows : List F) (trend : Direction)
      (minimum : F)
      → IsOneEvent
          (last_two candles)
          trend
          (detect_bos_choch candles swing_highs swing_lows trend minimum)
  unfolding detect_bos_choch
  detect_bos_choch-IsOneEvent candles highs lows trend minimum =
      events_of-IsOneEvent (last_two candles) (last highs) (last lows) trend minimum
