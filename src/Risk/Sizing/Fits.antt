-- ===== src/Risk/Sizing/Fits.antt =====
-- A chosen volume was priced and stays within the budget, and the choice comes to an end.
use llm_trade.Prelude.{
  ℕ, suc, zero, ◌≤◌, ◌≡◌, refl, ◌⊎◌, inl, inr, Bool, true, false, Option, none, some, arith,
  Bool-cases,
}
use llm_trade.Prelude.Int.{ℤ, pos, negsuc, pos_part}
use llm_trade.Float.{Float, gt, IsOrdered}
use llm_trade.Instruments.{SymbolInfo}
use llm_trade.Costs.{ExecutionRiskEstimate}
use llm_trade.Risk.Search.{Found, unfinished, unverified, settled}
use llm_trade.Risk.Search.Largest.{IsEnded, search_ends}
use llm_trade.Risk.Sizing.{
  Chosen, chosen, looping, at_least_one, within_budget, lot_of_units, settle, search_units,
  choose_from, choose_lot,
}

at_least_one-positive : (z : ℤ) → 1 ≤ at_least_one z
at_least_one-positive (pos zero) = omega arith
at_least_one-positive (pos (suc n)) = omega arith
at_least_one-positive (negsuc n) = omega arith

module _ {F : Type 0} ⦃fl : Float F⦄ where
  open fl use {dec, add, le, lt}

  -- The budget with its tolerance is not exceeded.
  abbrev pub IsAffordable : F → ExecutionRiskEstimate F → Type 0
  IsAffordable budget estimate = gt estimate.total_risk_usd (add budget (dec 1 9)) ≡ false

  -- A chosen volume was priced, is affordable and not below the minimum; and the search has ended.
  abbrev pub IsFit : F → F → (F → Option (ExecutionRiskEstimate F)) → Chosen F → Type 0
  IsFit min_lot budget estimate (chosen lot e) =
      (estimate lot ≡ some e) × IsAffordable budget e × ((lot ≡ min_lot) ⊎ (lt lot min_lot ≡ false))
  IsFit min_lot budget estimate looping = ⊥
  IsFit min_lot budget estimate _ = Unit

module _ {F : Type 0} ⦃fl : Float F⦄ (laws : IsOrdered F) where
  open laws use {refl_of_le, lt-eq-not-le}
  open fl use {dec, add, le, lt}

  within-IsAffordable :
      (budget : F) (e : ExecutionRiskEstimate F)
      → within_budget budget e ≡ true
      → IsAffordable budget e
  within-IsAffordable budget e h =
      let (n, m) = refl_of_le _ _ h in ground (arith, lt-eq-not-le _ _ m n)

  settle-IsFit :
      (min_lot step budget : F) (estimate : F → Option (ExecutionRiskEstimate F)) (lo hi : ℕ)
      (found : Found F (ExecutionRiskEstimate F))
      → IsEnded (lot_of_units step) estimate (within_budget budget) lo hi found
      → IsFit min_lot budget estimate (settle min_lot found)
  settle-IsFit min_lot step budget estimate lo hi unfinished ended = elim ended [ ]
  settle-IsFit min_lot step budget estimate lo hi unverified ended = tt
  settle-IsFit min_lot step budget estimate lo hi (settled none) ended = tt
  settle-IsFit min_lot step budget estimate lo hi (settled (some (lot, e)))
        (b, l, h, is, priced, fits) =
      elim (Bool-cases (lt lot min_lot)) [
        | inl under ↦ rw under tt
        | inr large ↦ rw large (priced, within-IsAffordable budget e fits, inr large)
      ]

  search_units-IsFit :
      (min_lot step budget : F) (estimate : F → Option (ExecutionRiskEstimate F))
      (low high : Option ℤ)
      → IsFit min_lot budget estimate (search_units min_lot step budget estimate low high)
  search_units-IsFit min_lot step budget estimate (some low) (some high) =
      settle-IsFit min_lot step budget estimate _ _ _ (
        search_ends (lot_of_units step) estimate (within_budget budget) (at_least_one low)
          (pos_part high) (at_least_one-positive low))
  search_units-IsFit min_lot step budget estimate (some low) none = tt
  search_units-IsFit min_lot step budget estimate none high = tt

  choose_from-IsFit :
      (min_lot step max_lot budget : F) (force : Bool)
      (estimate : F → Option (ExecutionRiskEstimate F)) (least : Option (ExecutionRiskEstimate F))
      → estimate min_lot ≡ least
      → IsFit min_lot budget estimate (choose_from min_lot step max_lot budget force estimate least)
  choose_from-IsFit min_lot step max_lot budget force estimate none is = tt
  choose_from-IsFit min_lot step max_lot budget force estimate (some e) is =
      elim (Bool-cases (gt e.total_risk_usd (add budget (dec 1 9)))) [
        | inl dear ↦ rw dear tt
        | inr cheap ↦ elim (Bool-cases force) [
          | inl forced ↦ rw (cheap, forced) (is, cheap, inl refl)
          | inr free ↦ rw (cheap, free) (search_units-IsFit min_lot step budget estimate _ _)
        ]
      ]

  pub choose_lot-IsFit :
      (info : SymbolInfo F) (budget : F) (force : Bool)
      (estimate : F → Option (ExecutionRiskEstimate F))
      → IsFit info.volume_min budget estimate (choose_lot info budget force estimate)
  unfolding choose_lot
  choose_lot-IsFit info budget force estimate = ground (
    arith,
    choose_from-IsFit info.volume_min info.volume_min info.volume_max budget force estimate _ refl,
    choose_from-IsFit info.volume_min info.volume_step info.volume_max budget force estimate _ refl,
  )
