-- ===== src/Cell.antt =====
-- A value of a dictionary with string keys, as the code reads it through `float(...)`.
use llm_trade.Prelude.{Option, none, some, if◌then◌else◌}
use llm_trade.Float.{Float, nought, eq}

-- `empty` is None or an empty text; on `invalid` the call of `float` raises.
pub data Cell (F : Type 0) : Type 0 where
  absent empty invalid : Cell F
  number : F → Cell F

module _ {F : Type 0} where
  -- `float(d[k])`, with `none` for KeyError, TypeError, ValueError and OverflowError
  abbrev pub required : Cell F → Option F
  required (number x) = some x
  required _ = none

  -- `float(d.get(k, x))`
  abbrev pub or_default : F → Cell F → Option F
  or_default x absent = some x
  or_default x (number y) = some y
  or_default x _ = none

  -- `d.get(k, e)`, where `e` is a cell too
  abbrev pub or_else : Cell F → Cell F → Cell F
  or_else absent other = other
  or_else c other = c

module _ {F : Type 0} ⦃fl : Float F⦄ where
  -- `float(c or 0.0)`
  abbrev pub or_zero : Cell F → Option F
  or_zero absent = some nought
  or_zero empty = some nought
  or_zero invalid = none
  or_zero (number x) = some (if eq x nought then nought else x)
