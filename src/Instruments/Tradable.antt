-- ===== src/Instruments/Tradable.antt =====
-- What a symbol and its quote satisfy once the checks have passed.
use mathlib.Core.Logic.{◌↔◌}
use llm_trade.Prelude.{
  zero, suc, ◌≡◌, refl, ◌⊎◌, inl, inr, Bool, true, false, Option, none, some, arith, Bool-cases,
}
use llm_trade.Prelude.Int.{pos, negsuc}
use llm_trade.Float.{Float, nought, gt, ◌≼◌, IsOrdered}
use llm_trade.Settings.{Settings}
use llm_trade.Text.{Text}
use llm_trade.Risk.Trade.{Side, buy, sell}
use llm_trade.Instruments.Defs.{
  SymbolInfo, Tick, TradeMode, unset, malformed, mode, crypto, is_crypto_symbol, class_of_path,
  path_of, instrument_asset_class, validate_symbol_trade_mode, check_raw_mode,
}
use llm_trade.Instruments.Spread.{
  or_nought, spread_metrics, SpreadMetrics, check_quote, validate_spread, check_stop, stop_ratio,
  ratio_tolerance,
}

-- The trade modes of the broker that take a new order of the side.
abbrev pub Permits : TradeMode → Side → Type 0
Permits m side =
    (m ≡ unset)
    ⊎ (m ≡ mode (pos 4))
    ⊎ ((m ≡ mode (pos 1)) × (side ≡ buy))
    ⊎ ((m ≡ mode (pos 2)) × (side ≡ sell))

check_raw_mode-Permits :
    (m : TradeMode) (side : Side) → check_raw_mode m side ≡ none → Permits m side
check_raw_mode-Permits unset side h = inl refl
check_raw_mode-Permits malformed side h = cc
check_raw_mode-Permits (mode (pos zero)) side h = cc
check_raw_mode-Permits (mode (pos (suc zero))) buy h = inr (inr (inl (refl, refl)))
check_raw_mode-Permits (mode (pos (suc zero))) sell h = cc
check_raw_mode-Permits (mode (pos (suc (suc zero)))) buy h = cc
check_raw_mode-Permits (mode (pos (suc (suc zero)))) sell h = inr (inr (inr (refl, refl)))
check_raw_mode-Permits (mode (pos (suc (suc (suc zero))))) side h = cc
check_raw_mode-Permits (mode (pos (suc (suc (suc (suc zero)))))) side h = inr (inl refl)
check_raw_mode-Permits (mode (pos (suc (suc (suc (suc (suc n))))))) side h = cc
check_raw_mode-Permits (mode (negsuc n)) side h = cc

Permits-check_raw_mode :
    (m : TradeMode) (side : Side) → Permits m side → check_raw_mode m side ≡ none
Permits-check_raw_mode m side (inl e) = rw e
Permits-check_raw_mode m side (inr (inl e)) = rw e
Permits-check_raw_mode m side (inr (inr (inl (e, s)))) = rw (e, s)
Permits-check_raw_mode m side (inr (inr (inr (e, s)))) = rw (e, s)

module _ {F : Type 0} where
  -- A BUY or SELL passes exactly where the descriptor has no trade mode or the full one, or the
  -- long-only mode and it is a BUY, or the short-only mode and it is a SELL. No other text passes.
  pub validate_symbol_trade_mode_iff :
      (info : SymbolInfo F) (side : Side)
      → ((validate_symbol_trade_mode info (some side) ≡ none) ↔ Permits info.trade_mode side)
        × ¬ (validate_symbol_trade_mode info none ≡ none)
  unfolding validate_symbol_trade_mode
  validate_symbol_trade_mode_iff info side = (
    (check_raw_mode-Permits info.trade_mode side, Permits-check_raw_mode info.trade_mode side),
    λ e. cc,
  )

class_of_path-ne-crypto : (path : Text) → ¬ (class_of_path path ≡ crypto)
class_of_path-ne-crypto path e = ground arith

module _ {F : Type 0} ⦃fl : Float F⦄ where
  -- The quote is usable, and its spread is within the limits.
  pub record IsWithin (config : Settings F) (is_crypto : Bool) (bid ask : F)
      (metrics : SpreadMetrics F) (entry stop : Option F) : Type 0 where
    pub finite_bid : fl.is_finite bid ≡ true
    pub finite_ask : fl.is_finite ask ≡ true
    pub positive : gt bid nought ≡ true
    pub ordered : bid ≼ ask
    pub crypto_limit : is_crypto ≡ true → gt metrics.bps config.max_crypto_spread_bps ≡ false
    pub pip_limit : is_crypto ≡ false → gt metrics.pips config.max_spread_pips ≡ false
    pub stop_limit :
        (e s : F)
        → entry ≡ some e
        → stop ≡ some s
        → (fl.le (fl.abs (fl.sub e s)) nought ≡ false)
          × (gt
                (stop_ratio metrics.absolute e s)
                (fl.add config.max_spread_to_stop_pct (ratio_tolerance config))
              ≡ false)

  abbrev pub IsTradable : Settings F → Text → SymbolInfo F → Tick F → Option F → Option F → Type 0
  IsTradable config symbol info tick =
      IsWithin config (is_crypto_symbol symbol (some info)) (or_nought tick.bid)
        (or_nought tick.ask) (spread_metrics symbol info tick)

module _ {F : Type 0} ⦃fl : Float F⦄ (laws : IsOrdered F) where
  open laws use {number_of_finite, nought_finite, lt-eq-not-le}

  check_stop_limit :
      (config : Settings F) (absolute : F) (entry stop : Option F)
      → check_stop config absolute entry stop ≡ none
      → (e s : F) → entry ≡ some e
      → stop ≡ some s
      → (fl.le (fl.abs (fl.sub e s)) nought ≡ false)
        × (gt
              (stop_ratio absolute e s)
              (fl.add config.max_spread_to_stop_pct (ratio_tolerance config))
            ≡ false)
  check_stop_limit config absolute entry stop h e s he hs = ground arith

  check_quote-IsWithin :
      (config : Settings F) (is_crypto : Bool) (bid ask : F) (metrics : SpreadMetrics F)
      (entry stop : Option F)
      → check_quote config is_crypto bid ask metrics entry stop ≡ none
      → IsWithin config is_crypto bid ask metrics entry stop
  unfolding check_quote
  check_quote-IsWithin config is_crypto bid ask metrics entry stop h = record {
    finite_bid = ground arith;
    finite_ask = ground arith;
    positive = ground (
      arith,
      number_of_finite bid,
      number_of_finite nought nought_finite,
      lt-eq-not-le nought bid,
    );
    ordered = ground (arith, number_of_finite bid, number_of_finite ask, lt-eq-not-le ask bid);
    crypto_limit = ground arith;
    pip_limit = ground arith;
    stop_limit = check_stop_limit config metrics.absolute entry stop (ground arith);
  }

  -- A quote that passes is finite, positive and not crossed; its spread is not above the limit for
  -- the symbol's kind; and if an entry and a stop are given, they differ and the spread takes no
  -- more of their distance than the limit and its tolerance.
  pub validate_spread-IsTradable :
      (config : Settings F) (symbol : Text) (info : SymbolInfo F) (tick : Tick F)
      (entry stop : Option F)
      → validate_spread config symbol info tick entry stop ≡ none
      → IsTradable config symbol info tick entry stop
  unfolding validate_spread
  validate_spread-IsTradable config symbol info tick entry stop h =
      check_quote-IsWithin config (is_crypto_symbol symbol (some info)) (or_nought tick.bid)
        (or_nought tick.ask) (spread_metrics symbol info tick) entry stop h

module _ {F : Type 0} where
  -- A market is classed as crypto exactly where the symbol is a crypto symbol.
  pub instrument_asset_class_iff :
      (symbol : Text) (info : Option (SymbolInfo F))
      → (instrument_asset_class symbol info ≡ crypto) ↔ (is_crypto_symbol symbol info ≡ true)
  unfolding instrument_asset_class
  instrument_asset_class_iff symbol info = elim (Bool-cases (is_crypto_symbol symbol info)) [
    | inl yes_crypto ↦ rw yes_crypto ((λ e. refl), λ e. refl)
    | inr other ↦ rw other ((λ e. absurd (class_of_path-ne-crypto (path_of info) e)), λ e. cc)
  ]
