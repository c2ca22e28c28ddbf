-- ===== src/Risk/Search/Largest.antt =====
-- The search ends, what it finds fits, and it finds the largest number of steps that fits.
use llm_trade.Prelude.{
  ℕ, zero, suc, ◌+◌, ◌-◌, ◌/◌, ◌≤◌, ◌<◌, ◌≡◌, refl, inl, inr, Bool, true, false, Option, none, some,
  arith, leb, Bool-cases, Option-cases,
}
use llm_trade.Risk.Search.{Found, unfinished, unverified, settled, search}

module _ {F E : Type 0} (candidate : ℕ → F) (estimate : F → Option E) (fits : E → Bool) where
  -- A lot that was priced and fits, of a number of steps within the bounds.
  abbrev pub IsFitting : ℕ → ℕ → Option (F × E) → Type 0
  IsFitting lo hi none = Unit
  IsFitting lo hi (some (lot, e)) =
      (b : ℕ) × (lo ≤ b)
      × (b ≤ hi)
      × (lot ≡ candidate b)
      × (estimate lot ≡ some e)
      × (fits e ≡ true)

  -- The loop has an end, and its result is a fitting lot, if it has any.
  abbrev pub IsEnded : ℕ → ℕ → Found F E → Type 0
  IsEnded lo hi unfinished = ⊥
  IsEnded lo hi unverified = Unit
  IsEnded lo hi (settled best) = IsFitting lo hi best

  -- One round of the loop, in its four cases.
  module _ (fuel low high : ℕ) (best : Option (F × E)) where
    abbrev middle : ℕ
    middle = (low + high) / 2

    search_over :
        leb low high ≡ false
        → search candidate estimate fits (suc fuel) low high best ≡ settled best
    unfolding search
    search_over over = ground arith

    search_unpriced :
        leb low high ≡ true
        → estimate (candidate middle) ≡ none
        → search candidate estimate fits (suc fuel) low high best ≡ unverified
    unfolding search
    search_unpriced more unpriced = ground arith

    search_up :
        {e : E}
        → leb low high ≡ true
        → estimate (candidate middle) ≡ some e
        → fits e ≡ true
        → search candidate estimate fits (suc fuel) low high best
          ≡ search candidate estimate fits fuel (middle + 1) high (some (candidate middle, e))
    unfolding search
    search_up more priced good = ground arith

    search_down :
        {e : E}
        → leb low high ≡ true
        → estimate (candidate middle) ≡ some e
        → fits e ≡ false
        → search candidate estimate fits (suc fuel) low high best
          ≡ search candidate estimate fits fuel low (middle - 1) best
    unfolding search
    search_down more priced bad = ground arith

  search-IsEnded :
      (lo hi fuel low high : ℕ) (best : Option (F × E))
      → 1 ≤ lo
      → lo ≤ low
      → high ≤ hi
      → 0 < fuel
      → high + 1 < low + fuel
      → IsFitting lo hi best
      → IsEnded lo hi (search candidate estimate fits fuel low high best)
  search-IsEnded lo hi zero low high best pl bl bh some_fuel enough f = absurd (omega arith)
  search-IsEnded lo hi (suc fuel) low high best pl bl bh some_fuel enough f =
      let units = (low + high) / 2 in
      elim (Bool-cases (leb low high)) [
        | inr over ↦ rw (search_over fuel low high best over) f
        | inl more ↦ elim (Option-cases (estimate (candidate units))) [
          | inl unpriced ↦ rw (search_unpriced fuel low high best more unpriced) tt
          | inr (e, priced) ↦ elim (Bool-cases (fits e)) [
            | inl good ↦ rw (search_up fuel low high best more priced good) (
                search-IsEnded lo hi fuel (units + 1) high (some (candidate units, e)) pl
                  (ground arith) bh (ground arith) (ground arith)
                  (units, ground arith, ground arith, refl, priced, good))
            | inr bad ↦ rw (search_down fuel low high best more priced bad) (
                search-IsEnded lo hi fuel low (units - 1) best pl bl (ground arith) (ground arith)
                  (ground arith) f)
          ]
        ]
      ]

  -- Whether a number of steps is priced and fits.
  abbrev fitting : Option E → Bool
  fitting none = false
  fitting (some e) = fits e

  abbrev pub fits_at : ℕ → Bool
  fits_at u = fitting (estimate (candidate u))

  -- No more steps fit than the result has; without a result none fits.
  abbrev pub IsLargest : ℕ → ℕ → Option (F × E) → Type 0
  IsLargest lo hi none = (u : ℕ) → lo ≤ u → u ≤ hi → fits_at u ≡ false
  IsLargest lo hi (some (lot, e)) =
      (b : ℕ) × (lot ≡ candidate b)
      × (lo ≤ b)
      × (b ≤ hi)
      × (fits_at b ≡ true)
      × ((u : ℕ) → b < u → u ≤ hi → fits_at u ≡ false)

  -- The best so far, when the search has come to `low`.
  abbrev IsBestBelow : ℕ → ℕ → Option (F × E) → Type 0
  IsBestBelow lo low none = low ≡ lo
  IsBestBelow lo low (some (lot, e)) =
      (b : ℕ) × (lot ≡ candidate b) × (lo ≤ b) × (fits_at b ≡ true) × (low ≡ b + 1)

  best-IsLargest :
      (lo hi low high : ℕ) (best : Option (F × E))
      → IsBestBelow lo low best
      → low ≤ hi + 1
      → high < low
      → ((u : ℕ) → high < u → u ≤ hi → fits_at u ≡ false)
      → IsLargest lo hi best
  best-IsLargest lo hi low high none b lh over above = λ u l h. above u (omega arith) h
  best-IsLargest lo hi low high (some (lot, e)) (b, same, l, f, next) lh over above =
      (b, same, l, omega arith, f, λ u bu uh. above u (omega arith) uh)

  -- Within the bounds, fewer steps than what fits fit too.
  abbrev pub IsDownClosed : ℕ → ℕ → Type 0
  IsDownClosed lo hi = (u v : ℕ) → lo ≤ u → u ≤ v → v ≤ hi → fits_at v ≡ true → fits_at u ≡ true

  abbrev pub IsPriced : ℕ → ℕ → Type 0
  IsPriced lo hi = (u : ℕ) → lo ≤ u → u ≤ hi → (e : E) × (estimate (candidate u) ≡ some e)

  module _ (lo hi : ℕ) (positive : 1 ≤ lo) (priced_all : IsPriced lo hi)
      (down : IsDownClosed lo hi) where
    none_above : (v u : ℕ) → lo ≤ v → v ≤ u → u ≤ hi → fits_at v ≡ false → fits_at u ≡ false
    none_above v u lv vu uh bad = elim (Bool-cases (fits_at u)) [
      | inl good ↦ cc (down v u lv vu uh good)
      | inr other ↦ other
    ]

    search_from-IsLargest :
        (fuel low high : ℕ) (best : Option (F × E))
        → lo ≤ low
        → low ≤ hi + 1
        → high ≤ hi
        → 0 < fuel
        → high + 1 < low + fuel
        → IsBestBelow lo low best
        → ((u : ℕ) → high < u → u ≤ hi → fits_at u ≡ false)
        → (result : Option (F × E)) × (search candidate estimate fits fuel low high best
            ≡ settled result)
          × IsLargest lo hi result
    search_from-IsLargest zero low high best bl lh bh some_fuel enough b above =
        absurd (omega arith)
    search_from-IsLargest (suc fuel) low high best bl lh bh some_fuel enough b above =
        let units = (low + high) / 2 in
        elim (Bool-cases (leb low high)) [
          | inr over ↦ (
            best,
            search_over fuel low high best over,
            best-IsLargest lo hi low high best b lh (ground arith) above,
          )
          | inl more ↦
              let (e, priced) = priced_all units (ground arith) (ground arith) in
              elim (Bool-cases (fits e)) [
                | inl good ↦ rw (search_up fuel low high best more priced good) (
                    search_from-IsLargest fuel (units + 1) high (some (candidate units, e))
                      (ground arith) (ground arith) bh (ground arith) (ground arith)
                      (units, refl, ground arith, rw priced good, refl) above)
                | inr bad ↦ rw (search_down fuel low high best more priced bad) (
                    search_from-IsLargest fuel low (units - 1) best bl lh (ground arith)
                      (ground arith) (ground arith) b
                      (λ u below uh.
                        none_above units u (ground arith) (ground arith) uh (rw priced bad)))
              ]
        ]

  -- With at least one step as the lower bound and fuel above the upper bound the search never runs
  -- out of fuel, and a lot that it settles on was priced, fits, and is a number of steps within the
  -- bounds.
  pub search_ends :
      (lo hi : ℕ) → 1 ≤ lo → IsEnded lo hi (search candidate estimate fits (hi + 2) lo hi none)
  search_ends lo hi pl =
      search-IsEnded lo hi (hi + 2) lo hi none pl (omega arith) (omega arith) (omega arith)
        (omega arith) tt

  -- If every number of steps within the bounds can be priced, and within them what fits with more
  -- steps fits with fewer, the search settles on the largest number of steps that fits, or on none where none
  -- fits.
  pub search-IsLargest :
      (lo hi : ℕ)
      → 1 ≤ lo
      → lo ≤ hi + 1
      → IsPriced lo hi
      → IsDownClosed lo hi
      → (result : Option (F × E)) × (search candidate estimate fits (hi + 2) lo hi none
          ≡ settled result)
        × IsLargest lo hi result
  search-IsLargest lo hi pl bounds priced_all down =
      search_from-IsLargest lo hi pl priced_all down (hi + 2) lo hi none (omega arith) bounds
        (omega arith) (omega arith) (omega arith) refl (λ u above uh. absurd (omega arith))
