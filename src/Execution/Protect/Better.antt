-- ===== src/Execution/Protect/Better.antt =====
-- What holds of a stop that break-even or the trailing stop chooses.
use llm_trade.Prelude.{
  ℕ, ◌≡◌, refl, true, false, Option, none, some, List, [], ◌∷◌, arith, ◌⊎◌, inr,
}
use llm_trade.Float.{Float, nought, gt}
use llm_trade.Risk.Trade.{Side, buy, sell}
use llm_trade.Instruments.{SymbolInfo, Tick}
use llm_trade.Execution.{ExecError, OpenPosition}
use llm_trade.Execution.Gates.{entry_of}
use llm_trade.Execution.Close.{opposite}
use llm_trade.Execution.Protect.{
  ProtectMoments, Levels, has_worse, worsens, trails_back, falls_short, breakeven_of, trailing_of,
  target_of, with_tick, with_quote, with_position, choose_breakeven, choose_trailing,
}

module _ {F : Type 0} ⦃fl : Float F⦄ where
  open fl use {lt, le}

  -- A stop of a buy is nearer to the price if it is higher, one of a sell if it is lower.
  abbrev pub IsNearer : Side → F → F → Type 0
  IsNearer buy old new = le new old ≡ false
  IsNearer sell old new = le old new ≡ false

  -- Where the position has a stop, the new one is nearer to the price.
  abbrev pub IsBetter : OpenPosition F → F → Type 0
  IsBetter p sl = gt p.sl nought ≡ true → IsNearer p.side p.sl sl

  -- The price has come at least to the level.
  abbrev pub HasCome : Side → F → F → Type 0
  HasCome buy current level = lt current level ≡ false
  HasCome sell current level = gt current level ≡ false

  worsens-IsNearer :
      (side : Side) (old new : F) → worsens side old new ≡ false → IsNearer side old new
  worsens-IsNearer buy old new h = h
  worsens-IsNearer sell old new h = h

  trails_back-IsNearer :
      (side : Side) (old new : F)
      → trails_back side old new ≡ false
      → gt old nought ≡ true
      → IsNearer side old new
  trails_back-IsNearer buy old new h g = h
  trails_back-IsNearer sell old new h g = ground (arith, h, g)

  pub has_worse-IsBetter : (p : OpenPosition F) (sl : F) → has_worse p sl ≡ false → IsBetter p sl
  has_worse-IsBetter p sl h g = worsens-IsNearer p.side p.sl sl (ground (arith, h, g))

  falls_short-HasCome :
      (side : Side) (current level : F)
      → falls_short side current level ≡ false
      → HasCome side current level
  falls_short-HasCome buy current level h = h
  falls_short-HasCome sell current level h = h

module _ {F : Type 0} ⦃fl : Float F⦄ (m : ProtectMoments F) (ticket : ℕ) where
  -- The levels are those of the first position of the ticket at the quote of the moment.
  pub record IsChosen (good : OpenPosition F → Tick F → Levels F → Type 0) (l : Levels F)
      : Type 0 where
    pub position : OpenPosition F
    pub others : List (OpenPosition F)
    pub position_is : m.at_position.positions_of_ticket ticket ≡ some (position ∷ others)
    pub info : SymbolInfo F
    pub info_is : m.at_info.broker.symbol_info position.symbol ≡ some info
    pub tick : Tick F
    pub tick_is : m.at_tick.broker.symbol_info_tick position.symbol ≡ some tick
    pub good_is : good position tick l

  module _ (good : OpenPosition F → Tick F → Levels F → Type 0)
      (choose : OpenPosition F → SymbolInfo F → Tick F → ExecError ⊎ Levels F)
      (chosen-good : (p : OpenPosition F) (info : SymbolInfo F) (tick : Tick F) (l : Levels F)
        → choose p info tick ≡ inr l
        → good p tick l) where
    with_tick-IsChosen :
        (p : OpenPosition F) (ps : List (OpenPosition F)) (info : SymbolInfo F)
        (tick : Option (Tick F)) {l : Levels F}
        → m.at_position.positions_of_ticket ticket ≡ some (p ∷ ps)
        → m.at_info.broker.symbol_info p.symbol ≡ some info
        → m.at_tick.broker.symbol_info_tick p.symbol ≡ tick
        → with_tick m ticket (choose p info) tick ≡ inr l
        → IsChosen good l
    with_tick-IsChosen p ps info none is i t h = cc
    with_tick-IsChosen p ps info (some tick) {l = l} is i t h = record {
      position = p;
      others = ps;
      position_is = is;
      info = info;
      info_is = i;
      tick = tick;
      tick_is = t;
      good_is = chosen-good p info tick l h;
    }

    with_quote-IsChosen :
        (p : OpenPosition F) (ps : List (OpenPosition F)) (info : Option (SymbolInfo F))
        {l : Levels F}
        → m.at_position.positions_of_ticket ticket ≡ some (p ∷ ps)
        → m.at_info.broker.symbol_info p.symbol ≡ info
        → with_quote m ticket choose p info ≡ inr l
        → IsChosen good l
    with_quote-IsChosen p ps none is i h = cc
    with_quote-IsChosen p ps (some info) is i h = with_tick-IsChosen p ps info _ is i refl h

    with_position-IsChosen :
        (positions : Option (List (OpenPosition F))) {l : Levels F}
        → m.at_position.positions_of_ticket ticket ≡ positions
        → with_position m ticket choose positions ≡ inr l
        → IsChosen good l
    with_position-IsChosen none is h = cc
    with_position-IsChosen (some []) is h = cc
    with_position-IsChosen (some (p ∷ ps)) is h = with_quote-IsChosen p ps _ is refl h

  -- The price has come as far as the stop, which is better than the one that there was.
  abbrev pub IsEven : OpenPosition F → Tick F → Levels F → Type 0
  IsEven p tick l =
      HasCome p.side (entry_of (opposite p.side) tick) l.sl_price
      × IsBetter p l.sl_price
      × (l.tp_price ≡ none)

  abbrev pub IsTrailing : OpenPosition F → Tick F → Levels F → Type 0
  IsTrailing p tick l = IsBetter p l.sl_price × (l.tp_price ≡ target_of p)

  breakeven_of-IsEven :
      (buffer_pips : F) (p : OpenPosition F) (info : SymbolInfo F) (tick : Tick F) (l : Levels F)
      → breakeven_of buffer_pips p info tick ≡ inr l
      → IsEven p tick l
  breakeven_of-IsEven buffer_pips p info tick l h =
      let current = entry_of (opposite p.side) tick in
      (
        falls_short-HasCome p.side current l.sl_price (ground arith),
        has_worse-IsBetter p l.sl_price (ground arith),
        ground arith,
      )

  trailing_of-IsTrailing :
      (trail_pips : F) (p : OpenPosition F) (info : SymbolInfo F) (tick : Tick F) (l : Levels F)
      → trailing_of trail_pips p info tick ≡ inr l
      → IsTrailing p tick l
  trailing_of-IsTrailing trail_pips p info tick l h =
      (trails_back-IsNearer p.side p.sl l.sl_price (ground arith), ground arith)

  -- Break-even chooses a stop only where the price has come as far; it and the trailing stop choose
  -- one only if it is nearer to the price than the one of the position, where that has one.
  -- Break-even leaves the target out, the trailing stop keeps it.
  pub stops-AreChosen :
      (pips : F) (l : Levels F)
      → (choose_breakeven m ticket pips ≡ inr l → IsChosen IsEven l)
        × (choose_trailing m ticket pips ≡ inr l → IsChosen IsTrailing l)
  unfolding choose_breakeven choose_trailing
  stops-AreChosen pips l = (
    with_position-IsChosen IsEven (breakeven_of pips) (breakeven_of-IsEven pips) _ refl,
    with_position-IsChosen IsTrailing (trailing_of pips) (trailing_of-IsTrailing pips) _ refl,
  )
