-- ===== src/Execution/Modify/Rounded.antt =====
-- How the stop of a request is put on the grid of the broker.
use llm_trade.Prelude.{
  ◌≡◌, refl, true, false, Option, none, some, ◌⊎◌, inl, inr, arith, Bool-cases, ◌&&◌, if◌then◌else◌,
}
use llm_trade.Prelude.Int.{ℤ}
use llm_trade.Float.{Float, nought, gt, eq}
use llm_trade.Risk.Trade.{Side, buy, sell}
use llm_trade.Instruments.{SymbolInfo}
use llm_trade.Instruments.Spread.{or_nought}
use llm_trade.Execution.Gates.{
  Rounding, up, down, nearest_tick, digits_or_five, grid_units, on_grid, normalize_price,
}
use llm_trade.Execution.Modify.{stop_rounding}

module _ {F : Type 0} ⦃fl : Float F⦄ where
  open fl use {dec, add, sub, mul, div, lt, is_finite, round, floor, ceil, of_int}

  abbrev tick_size : SymbolInfo F → F
  tick_size info =
      if eq info.trade_tick_size nought then or_nought info.point else info.trade_tick_size

  -- A whole number of ticks at or below the price, at or above it, or next to it, up to a tolerance.
  abbrev IsWhole : Rounding → F → ℤ → Type 0
  IsWhole down units whole = floor (add units (dec 1 10)) ≡ some whole
  IsWhole up units whole = ceil (sub units (dec 1 10)) ≡ some whole
  IsWhole nearest_tick units whole = floor (round 0 units) ≡ some whole

  pub record IsOnGrid (info : SymbolInfo F) (mode : Rounding) (price level : F) : Type 0 where
    pub whole : ℤ
    pub whole_is : IsWhole mode (div price (tick_size info)) whole
    pub level_is : level ≡ round (digits_or_five info.digits) (mul (of_int whole) (tick_size info))

  -- On the grid of ticks where the symbol has one, else only rounded to its digits.
  abbrev IsRounded : SymbolInfo F → Rounding → F → F → Type 0
  IsRounded info mode price level =
      IsOnGrid info mode price level
      ⊎ ((gt (tick_size info) nought && is_finite (tick_size info) ≡ false)
          × (level ≡ round (digits_or_five info.digits) price))

  -- A stop of a buy is rounded up where it is above the entry, else down; one of a sell is rounded down
  -- where it is below the entry, else up.
  abbrev pub IsStopRounded : Side → SymbolInfo F → F → F → F → Type 0
  IsStopRounded buy info entry chosen level =
      (gt chosen entry ≡ true → IsRounded info up chosen level)
      × (gt chosen entry ≡ false → IsRounded info down chosen level)
  IsStopRounded sell info entry chosen level =
      (lt chosen entry ≡ true → IsRounded info down chosen level)
      × (lt chosen entry ≡ false → IsRounded info up chosen level)

  grid_units-IsWhole :
      (mode : Rounding) (units : F) (whole : ℤ)
      → grid_units mode units ≡ some whole
      → IsWhole mode units whole
  grid_units-IsWhole down units whole h = h
  grid_units-IsWhole up units whole h = h
  grid_units-IsWhole nearest_tick units whole h = h

  on_grid-IsOnGrid :
      (info : SymbolInfo F) (mode : Rounding) (price : F) (units : Option ℤ) {level : F}
      → grid_units mode (div price (tick_size info)) ≡ units
      → on_grid (digits_or_five info.digits) (tick_size info) units ≡ some level
      → IsOnGrid info mode price level
  on_grid-IsOnGrid info mode price none u h = cc
  on_grid-IsOnGrid info mode price (some whole) u h = record {
    whole = whole;
    whole_is = grid_units-IsWhole mode _ whole u;
    level_is = cc;
  }

  normalize_price-IsRounded :
      (info : SymbolInfo F) (mode : Rounding) (price : F) {level : F}
      → normalize_price info mode price ≡ some level
      → IsRounded info mode price level
  unfolding normalize_price
  normalize_price-IsRounded info mode price {level = level} h =
      elim (Bool-cases (gt (tick_size info) nought && is_finite (tick_size info))) [
        | inl gridded ↦
            inl (on_grid-IsOnGrid info mode price _ {level = level} refl (ground (arith, gridded)))
        | inr plain ↦ inr (plain, ground (arith, plain))
      ]

  pub new_stop-IsStopRounded :
      (side : Side) (info : SymbolInfo F) (entry chosen : F) {level : F}
      → normalize_price info (stop_rounding side chosen entry) chosen ≡ some level
      → IsStopRounded side info entry chosen level
  new_stop-IsStopRounded buy info entry chosen h = (
    λ above. normalize_price-IsRounded info up chosen (ground (arith, above)),
    λ below. normalize_price-IsRounded info down chosen (ground (arith, below)),
  )
  new_stop-IsStopRounded sell info entry chosen h = (
    λ below. normalize_price-IsRounded info down chosen (ground (arith, below)),
    λ above. normalize_price-IsRounded info up chosen (ground (arith, above)),
  )
