-- ===== src/Trend/Regime.antt =====
-- When a market's direction leaves its regime.
use llm_trade.Prelude.{◌≡◌, ◌≢◌, Bool, true, Option, none, some, List, arith}
use llm_trade.Float.{Float, IsOrdered, not-le_of_lt}
use llm_trade.Text.{Text}
use llm_trade.Structure.{Direction, bullish, bearish, neutral, Event}
use llm_trade.Trend.{
  Indicators, TrendState, early_bullish_reversal, early_bearish_reversal, pullback_in_bullish_trend,
  pullback_in_bearish_trend, confirmed_bullish, confirmed_bearish, neutral_state, Evidence,
  TrendResult, state_of_regime, finite_cell, fast_up, fast_down, strong_adx, fast_direction_of,
  reversal, classify_trend_state,
}

-- The direction that a state names, and the regimes in which it can occur.
abbrev pub direction_of_state : TrendState → Direction
direction_of_state early_bullish_reversal = bullish
direction_of_state early_bearish_reversal = bearish
direction_of_state pullback_in_bullish_trend = bullish
direction_of_state pullback_in_bearish_trend = bearish
direction_of_state confirmed_bullish = bullish
direction_of_state confirmed_bearish = bearish
direction_of_state neutral_state = neutral

-- What a classification promises, for the evidence that speaks for a reversal each way.
pub record IsClassified (up down : Bool) (result : TrendResult) : Type 0 where
  pub named : result.direction ≡ direction_of_state result.state
  pub against_bear : result.regime ≡ bearish → result.direction ≢ bearish → up ≡ true
  pub against_bull : result.regime ≡ bullish → result.direction ≢ bullish → down ≡ true
  pub for_bear : result.regime ≡ bearish → up ≡ true → result.state ≡ early_bullish_reversal
  pub for_bull : result.regime ≡ bullish → down ≡ true → result.state ≡ early_bearish_reversal
  pub pulled_bull :
      result.state ≡ pullback_in_bullish_trend
      → (result.regime ≡ bullish) × (result.fast_direction ≡ bearish)
  pub pulled_bear :
      result.state ≡ pullback_in_bearish_trend
      → (result.regime ≡ bearish) × (result.fast_direction ≡ bullish)

-- The classification for given evidence.
abbrev result_of : Direction → Bool → Bool → Bool → Bool → Bool → List Evidence → TrendResult
result_of regime up down quick_up quick_down strong evidence =
    let result = state_of_regime regime up down quick_up quick_down strong in
    record {
      state = result.0;
      direction = result.1;
      regime = regime;
      fast_direction = fast_direction_of quick_up quick_down;
      evidence = evidence;
    }

result_of-IsClassified :
    (regime : Direction) (up down quick_up quick_down strong : Bool) (evidence : List Evidence)
    → (quick_up ≡ true → quick_down ≡ true → ⊥)
    → IsClassified up down (result_of regime up down quick_up quick_down strong evidence)
unfolding state_of_regime
result_of-IsClassified regime up down quick_up quick_down strong evidence apart = record {
  named = ground arith;
  against_bear = λ r d. ground arith;
  against_bull = λ r d. ground arith;
  for_bear = λ r u. ground arith;
  for_bull = λ r u. ground arith;
  pulled_bull = λ h. (ground arith, ground (arith, apart));
  pulled_bear = λ h. (ground arith, ground (arith, apart));
}

module _ {F : Type 0} ⦃fl : Float F⦄ (laws : IsOrdered F) where
  -- Fast momentum is not both up and down.
  fast_apart : (a b c d : Option F) → fast_up a b c d ≡ true → fast_down a b c d ≡ true → ⊥
  fast_apart (some a) (some b) (some c) (some d) up down =
      let first = not-le_of_lt laws b a (ground arith) in
      let second = not-le_of_lt laws a b (ground arith) in
      let l = laws.number_of_lt b a (ground arith) in ground (arith, laws.le_total a b l.1 l.0)
  fast_apart (some a) (some b) (some c) none up down = cc
  fast_apart (some a) (some b) none d up down = cc
  fast_apart (some a) none c d up down = cc
  fast_apart none b c d up down = cc

  -- A classification has the direction that its state names. It leaves a bearish regime only for a
  -- bullish CHoCH, or fast bullish momentum with a bullish breakout and a strong ADX, and then always
  -- as an early reversal; a bullish regime likewise. A pullback is in its own regime, with fast
  -- momentum against it.
  pub classify_trend_state-IsClassified :
      (slow_trend : Text) (i : Indicators F) (events : List (Event F)) (breakout : Option Direction)
      → let strong = strong_adx (finite_cell i.adx_14) in
        let up =
          fast_up
            (finite_cell i.ema_9)
            (finite_cell i.ema_21)
            (finite_cell i.rsi_14)
            (finite_cell i.macd_diff) in
        let down =
          fast_down
            (finite_cell i.ema_9)
            (finite_cell i.ema_21)
            (finite_cell i.rsi_14)
            (finite_cell i.macd_diff) in
        IsClassified
          (reversal bullish up events breakout strong)
          (reversal bearish down events breakout strong)
          (classify_trend_state slow_trend i events breakout)
  unfolding classify_trend_state
  classify_trend_state-IsClassified slow_trend i events breakout =
      result_of-IsClassified _ _ _ _ _ _ _ (
        fast_apart (finite_cell i.ema_9) (finite_cell i.ema_21) (finite_cell i.rsi_14)
          (finite_cell i.macd_diff))
