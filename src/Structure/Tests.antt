-- ===== src/Structure/Tests.antt =====
-- Runs of the structure detectors.
use llm_trade.Prelude.{ℕ, All, length, ◌-◌, ◌≡◌, refl, none, some, List, [], ◌∷◌}
use llm_trade.Float.{nought}
use llm_trade.Float.Fixed.{Fixed, fixed_float}
use llm_trade.Settings.Sample.{usd}
use llm_trade.Structure.{
  bullish, bearish, Candle, drop_first, bos, choch, last_two, detect_breakout, detect_bos_choch,
  gaps, detect_fvgs,
}
use llm_trade.Structure.Gaps.{HasGap, detect_fvgs-HasGap}
use llm_trade.Structure.Once.{IsOneEvent, detect_bos_choch-IsOneEvent}

abbrev candle : ℕ → ℕ → Candle Fixed
candle time close = record {
  time = time;
  open_price = usd 9;
  high = usd 12;
  low = usd 8;
  close = usd close;
  atr_14 = usd 1;
}

abbrev rise : List (Candle Fixed)
rise = candle 1 10 ∷ candle 2 12 ∷ []

breaks :
    (detect_breakout (usd 12) (usd 5) (usd 11) (some (usd 10)) (usd 1) nought ≡ some bullish)
    × (detect_breakout (usd 13) (usd 5) (usd 11) (some (usd 12)) (usd 1) nought ≡ none)
    × (detect_bos_choch rise (usd 11 ∷ []) (usd 5 ∷ []) bullish nought
        ≡ record { kind = bos; direction = bullish; level = usd 11; time = 2 } ∷ [])
    × (detect_bos_choch rise (usd 11 ∷ []) (usd 5 ∷ []) bearish nought
        ≡ record { kind = choch; direction = bullish; level = usd 11; time = 2 } ∷ [])
    × (detect_fvgs rise ≡ [])
unfolding detect_breakout detect_bos_choch detect_fvgs gaps
breaks = (refl, refl, refl, refl, refl)

detect_bos_choch-IsOneEvent_example :
    IsOneEvent
      (last_two rise)
      bullish
      (detect_bos_choch rise (usd 11 ∷ []) (usd 5 ∷ []) bullish nought)
detect_bos_choch-IsOneEvent_example =
    detect_bos_choch-IsOneEvent rise (usd 11 ∷ []) (usd 5 ∷ []) bullish nought

abbrev jump : List (Candle Fixed)
jump = candle 1 10 ∷ candle 2 12 ∷ record (candle 3 15) { low = usd 13 } ∷ []

jumps :
    detect_fvgs jump
    ≡ record { direction = bullish; top = usd 13; bottom = usd 12; gap_size = usd 1; time = 2 } ∷ []
unfolding detect_fvgs gaps
jumps = refl

detect_fvgs-HasGap_example : All (HasGap (drop_first (length jump - 17) jump)) (detect_fvgs jump)
detect_fvgs-HasGap_example = detect_fvgs-HasGap jump
