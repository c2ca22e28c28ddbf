-- ===== src/Instruments/Spread.antt =====
-- The spread of a quote in the unit of its market, and the check of it against the limits.
use llm_trade.Prelude.{Bool, false, not, ◌&&◌, ◌||◌, Option, none, some, if◌then◌else◌, ◌==◌}
use llm_trade.Prelude.Int.{ℤ, pos, negsuc}
use llm_trade.Float.{Float, nought, gt, eq, max}
use llm_trade.Settings.{Settings}
use llm_trade.Text.{Text}
use llm_trade.Instruments.Defs.{
  SymbolInfo, Tick, AssetClass, is_crypto_symbol, instrument_asset_class,
}

pub data SpreadError : Type 0 where
  bad_quote crossed_quote crypto_spread pip_spread zero_stop stop_share : SpreadError

abbrev pub fractional_digits : ℤ → Bool
fractional_digits (pos n) = n == 3 || n == 5
fractional_digits (negsuc n) = false

pub record SpreadMetrics (F : Type 0) : Type 0 where
  pub absolute : F
  pub pips : F
  pub bps : F
  pub value : F
  pub asset_class : AssetClass

module _ {F : Type 0} ⦃fl : Float F⦄ where
  open fl use {dec, add, sub, mul, div, abs, is_finite, lt, le}

  -- `x or 0.0`
  abbrev pub or_nought : F → F
  or_nought x = if eq x nought then nought else x

  -- `x / y if y else 0.0`
  abbrev pub ratio_or_nought : F → F → F
  ratio_or_nought x y = if eq y nought then nought else div x y

  unfoldable pub pip_size : SymbolInfo F → F
  pip_size info =
      let point = or_nought info.point in
      if fractional_digits info.digits then mul point (dec 10 0) else point

  abbrev pub midpoint : F → F → F
  midpoint bid ask = if gt ask nought && gt bid nought then div (add ask bid) (dec 2 0) else nought

  -- `bps`, and the two others of its kind
  abbrev pub basis_points : F → F → F
  basis_points spread middle =
      if eq middle nought then nought else mul (div spread middle) (dec 10_000 0)

  unfoldable pub spread_metrics : Text → SymbolInfo F → Tick F → SpreadMetrics F
  spread_metrics symbol info tick =
      let bid = or_nought tick.bid in
      let ask = or_nought tick.ask in
      let spread = max nought (sub ask bid) in
      let pips = ratio_or_nought spread (pip_size info) in
      let bps = basis_points spread (midpoint bid ask) in
      record {
        absolute = spread;
        pips = pips;
        bps = bps;
        value = if is_crypto_symbol symbol (some info) then bps else pips;
        asset_class = instrument_asset_class symbol (some info);
      }

  -- A profit estimate of the broker, which may be missing, as the loss that is left. `none` is the
  -- ValueError.
  unfoldable pub downside_risk_usd : Option F → Option F
  downside_risk_usd none = none
  downside_risk_usd (some profit) =
      if is_finite profit then some (max nought (fl.neg profit)) else none

  -- The share of the stop distance that the spread takes, in percent.
  abbrev pub stop_ratio : F → F → F → F
  stop_ratio absolute entry stop = mul (div absolute (abs (sub entry stop))) (dec 100 0)

  abbrev pub ratio_tolerance : Settings F → F
  ratio_tolerance config = max (dec 1 9) (mul (abs config.max_spread_to_stop_pct) (dec 1 9))

  abbrev pub check_stop : Settings F → F → Option F → Option F → Option SpreadError
  check_stop config absolute (some entry) (some stop) =
      if le (abs (sub entry stop)) nought
      then some zero_stop
      else if gt (stop_ratio absolute entry stop)
          (add config.max_spread_to_stop_pct (ratio_tolerance config))
      then some stop_share
      else none
  check_stop config absolute _ _ = none

  -- `none` is `True, ""`, for a quote, its measures and the kind of its symbol.
  unfoldable pub check_quote :
      Settings F → Bool → F → F → SpreadMetrics F → Option F → Option F → Option SpreadError
  check_quote config crypto bid ask metrics entry stop =
      if not (is_finite bid) || not (is_finite ask) || le bid nought || le ask nought
      then some bad_quote
      else if lt ask bid
      then some crossed_quote
      else if crypto
      then (if gt metrics.bps config.max_crypto_spread_bps
          then some crypto_spread
          else check_stop config metrics.absolute entry stop)
      else if gt metrics.pips config.max_spread_pips
      then some pip_spread
      else check_stop config metrics.absolute entry stop

  -- The entry and the stop are given or None.
  unfoldable pub validate_spread :
      Settings F → Text → SymbolInfo F → Tick F → Option F → Option F → Option SpreadError
  validate_spread config symbol info tick =
      check_quote config (is_crypto_symbol symbol (some info)) (or_nought tick.bid)
        (or_nought tick.ask) (spread_metrics symbol info tick)
