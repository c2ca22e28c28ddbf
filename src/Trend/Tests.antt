-- ===== src/Trend/Tests.antt =====
-- Runs of the trend classification.
use llm_trade.Prelude.{◌≡◌, refl, true, false, none, some, [], ◌∷◌}
use llm_trade.Float.Fixed.{Fixed, fixed_float, Fixed-IsOrdered}
use llm_trade.Cell.{number, absent}
use llm_trade.Text.{codes}
use llm_trade.Settings.Sample.{usd}
use llm_trade.Structure.{bullish, bearish, choch, Event}
use llm_trade.Trend.{
  Indicators, early_bullish_reversal, pullback_in_bearish_trend, confirmed_bearish, state_of_regime,
  reversal, classify_trend_state,
}
use llm_trade.Trend.Regime.{IsClassified, classify_trend_state-IsClassified}

abbrev rising : Indicators Fixed
rising = record {
  ema_9 = number (usd 11);
  ema_21 = number (usd 10);
  rsi_14 = number (usd 55);
  adx_14 = number (usd 25);
  macd_diff = number (usd 1);
}

abbrev turn : Event Fixed
turn = record { kind = choch; direction = bullish; level = usd 10; time = 5 }

states :
    ((classify_trend_state (codes "bearish") rising [] none).state ≡ pullback_in_bearish_trend)
    × ((classify_trend_state (codes "BEARISH") rising [] (some bullish)).state
        ≡ early_bullish_reversal)
    × ((classify_trend_state (codes "BEARISH") (record rising { ema_9 = absent }) [] none).state
        ≡ confirmed_bearish)
    × ((classify_trend_state (codes "") rising (turn ∷ []) none).direction ≡ bullish)
unfolding classify_trend_state state_of_regime
states = (refl, refl, refl, refl)

classify_trend_state-IsClassified_example :
    IsClassified
      (reversal bullish true (turn ∷ []) none true)
      (reversal bearish false (turn ∷ []) none true)
      (classify_trend_state (codes "BEARISH") rising (turn ∷ []) none)
classify_trend_state-IsClassified_example =
    classify_trend_state-IsClassified Fixed-IsOrdered (codes "BEARISH") rising (turn ∷ []) none
