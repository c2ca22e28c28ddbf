-- ===== src/Risk/Search.antt =====
-- The binary search of `_compute_lot_size` for the largest number of volume steps that fits the
-- budget, over any way to price a volume.
pub mod Largest
mod Tests
use llm_trade.Prelude.{ℕ, zero, suc, ◌+◌, ◌-◌, ◌/◌, Bool, true, false, Option, none, some, leb}

-- How the loop ended: `unverified` is the `break` after an estimate that failed, and `unfinished`
-- that the fuel ran out.
pub data Found (F E : Type 0) : Type 0 where
  unfinished unverified : Found F E
  settled : Option (F × E) → Found F E

module _ {F E : Type 0} (candidate : ℕ → F) (estimate : F → Option E) (fits : E → Bool) where
  -- `while low <= high`, with the best lot so far
  unfoldable pub search : ℕ → ℕ → ℕ → Option (F × E) → Found F E
  search zero low high best = unfinished
  search (suc fuel) low high best =
      let units = (low + high) / 2 in
      elim (leb low high) [
        | false ↦ settled best
        | true ↦ elim (estimate (candidate units)) [
          | none ↦ unverified
          | some e ↦ elim (fits e) [
            | true ↦ search fuel (units + 1) high (some (candidate units, e))
            | false ↦ search fuel low (units - 1) best
          ]
        ]
      ]
