-- ===== src/Trend.antt =====
-- core/trend_state.py: the trend of a market as a regime, a pullback in it or an early reversal.
-- `breakout` is what the breakout detector returned, and the events are those of the structure.
pub mod Regime
mod Tests
use llm_trade.Prelude.{
  Bool, true, false, not, ◌&&◌, ◌||◌, Option, none, some, List, [], ◌∷◌, ◌++◌, any, if◌then◌else◌,
}
use llm_trade.Float.{Float, nought, gt, ge, eq}
use llm_trade.Cell.{Cell, required}
use llm_trade.Text.{Text, codes, upper, same_text}
use llm_trade.Structure.{Direction, bullish, bearish, neutral, EventKind, bos, choch, Event}
use llm_trade.Instruments.Spread.{or_nought}

pub record Indicators (F : Type 0) : Type 0 where
  pub ema_9 : Cell F
  pub ema_21 : Cell F
  pub rsi_14 : Cell F
  pub adx_14 : Cell F
  -- `(indicators.get("macd") or {}).get("diff")`
  pub macd_diff : Cell F

pub data TrendState : Type 0 where
  early_bullish_reversal early_bearish_reversal : TrendState
  pullback_in_bullish_trend pullback_in_bearish_trend : TrendState
  confirmed_bullish confirmed_bearish neutral_state : TrendState

pub data Evidence : Type 0 where
  fast_evidence choch_evidence bos_evidence breakout_evidence : Direction → Evidence
  adx_confirmed : Evidence

pub record TrendResult : Type 0 where
  pub state : TrendState
  pub direction : Direction
  pub regime : Direction
  pub fast_direction : Direction
  pub evidence : List Evidence

-- `str(slow_trend or "NEUTRAL").upper()`, and NEUTRAL where it is no regime
abbrev pub regime_of : Text → Direction
regime_of text =
    if same_text (upper text) (codes "BULLISH")
    then bullish
    else if same_text (upper text) (codes "BEARISH")
    then bearish
    else neutral

abbrev pub same_direction : Direction → Direction → Bool
same_direction bullish bullish = true
same_direction bearish bearish = true
same_direction neutral neutral = true
same_direction _ _ = false

abbrev pub same_kind : EventKind → EventKind → Bool
same_kind bos bos = true
same_kind choch choch = true
same_kind _ _ = false

abbrev pub broke : Option Direction → Direction → Bool
broke none d = false
broke (some e) d = same_direction e d

abbrev pub evidence_if : Bool → Evidence → List Evidence
evidence_if true e = e ∷ []
evidence_if false e = []

abbrev pub fast_momentum : Direction → List Evidence
fast_momentum neutral = []
fast_momentum d = fast_evidence d ∷ []

-- The state and its direction, from the regime and what speaks for a reversal or a pullback. The
-- last two flags are those of fast momentum.
unfoldable pub state_of_regime :
    Direction → Bool → Bool → Bool → Bool → Bool → TrendState × Direction
state_of_regime bearish up down fast_up fast_down strong =
    if up
    then (early_bullish_reversal, bullish)
    else if fast_up
    then (pullback_in_bearish_trend, bearish)
    else (confirmed_bearish, bearish)
state_of_regime bullish up down fast_up fast_down strong =
    if down
    then (early_bearish_reversal, bearish)
    else if fast_down
    then (pullback_in_bullish_trend, bullish)
    else (confirmed_bullish, bullish)
state_of_regime neutral up down fast_up fast_down strong =
    if up || (fast_up && strong)
    then (early_bullish_reversal, bullish)
    else if down || (fast_down && strong)
    then (early_bearish_reversal, bearish)
    else (neutral_state, neutral)

abbrev pub fast_direction_of : Bool → Bool → Direction
fast_direction_of up down = if up then bullish else if down then bearish else neutral

module _ {F : Type 0} ⦃fl : Float F⦄ where
  open fl use {dec, lt, le, is_finite}

  abbrev pub finite_only : Option F → Option F
  finite_only none = none
  finite_only (some x) = if is_finite x then some x else none

  -- `_finite`
  abbrev pub finite_cell : Cell F → Option F
  finite_cell c = finite_only (required c)

  abbrev pub fast_up : Option F → Option F → Option F → Option F → Bool
  fast_up (some ema9) (some ema21) (some rsi) (some macd) =
      gt ema9 ema21 && ge rsi (dec 52 0) && ge macd nought
  fast_up _ _ _ _ = false

  abbrev pub fast_down : Option F → Option F → Option F → Option F → Bool
  fast_down (some ema9) (some ema21) (some rsi) (some macd) =
      lt ema9 ema21 && le rsi (dec 48 0) && le macd nought
  fast_down _ _ _ _ = false

  -- `(_finite(...) or 0.0) >= 20.0`
  abbrev pub strong_adx : Option F → Bool
  strong_adx none = ge nought (dec 20 0)
  strong_adx (some adx) = ge (or_nought adx) (dec 20 0)

  abbrev pub has_event : EventKind → Direction → List (Event F) → Bool
  has_event kind direction =
      any (λ event. same_kind event.kind kind && same_direction event.direction direction)

  -- a CHoCH, or fast momentum with a breakout and a strong trend
  abbrev pub reversal : Direction → Bool → List (Event F) → Option Direction → Bool → Bool
  reversal direction quick events breakout strong =
      has_event choch direction events || (quick && broke breakout direction && strong)

  unfoldable pub classify_trend_state :
      Text → Indicators F → List (Event F) → Option Direction → TrendResult
  classify_trend_state slow_trend indicators events breakout =
      let regime = regime_of slow_trend in
      let ema9 = finite_cell indicators.ema_9 in
      let ema21 = finite_cell indicators.ema_21 in
      let rsi = finite_cell indicators.rsi_14 in
      let macd = finite_cell indicators.macd_diff in
      let strong = strong_adx (finite_cell indicators.adx_14) in
      let up = fast_up ema9 ema21 rsi macd in
      let down = fast_down ema9 ema21 rsi macd in
      let result =
        state_of_regime regime (reversal bullish up events breakout strong)
          (reversal bearish down events breakout strong) up down strong in
      record {
        state = result.0;
        direction = result.1;
        regime = regime;
        fast_direction = fast_direction_of up down;
        evidence =
            fast_momentum (fast_direction_of up down)
            ++ evidence_if (has_event choch bullish events) (choch_evidence bullish)
            ++ evidence_if (has_event choch bearish events) (choch_evidence bearish)
            ++ evidence_if (has_event bos bullish events) (bos_evidence bullish)
            ++ evidence_if (has_event bos bearish events) (bos_evidence bearish)
            ++ evidence_if (broke breakout bullish) (breakout_evidence bullish)
            ++ evidence_if (broke breakout bearish) (breakout_evidence bearish)
            ++ evidence_if strong adx_confirmed;
      }
