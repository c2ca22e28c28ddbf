-- ===== src/Retention/Ratchet.antt =====
-- The peak and the floor never fall while the size of a position stays.
use llm_trade.Prelude.{
  ◌≡◌, refl, sym, ◌∙◌, true, false, Option, none, some, arith, Bool-cases, subst, inl, inr,
}
use llm_trade.Float.{Float, nought, max, ◌≼◌, IsOrdered, le-max-left, le-max-right}
use llm_trade.Retention.{
  RetentionState, Policy, Base, retention_refused, reference_of, is_reduced, is_enlarged,
  base_of_position, observed, is_eligible, candidate_floor, down_to_cents, raise_floor, next_floor,
  retained, advance_from, advance_retention,
}

module _ {F : Type 0} ⦃fl : Float F⦄ where
  -- The state after a call, against what the call started from.
  pub record IsRaised (peak floor reference net size : F) (s : RetentionState F) : Type 0 where
    pub over_peak : peak ≼ s.peak_net_usd
    pub over_net : net ≼ s.peak_net_usd
    pub over_floor : floor ≼ s.floor_usd
    pub nonneg : (nought ≼ s.peak_net_usd) × (nought ≼ s.floor_usd)
    pub volume_is : s.volume ≡ size
    pub reference_is : s.reference_volume ≡ reference

module _ {F : Type 0} ⦃fl : Float F⦄ (laws : IsOrdered F) where
  open laws use {number_of_finite, nought_finite, le_trans, refl_of_le}

  observed-over :
      (peak net : F)
      → peak ≼ peak
      → net ≼ net
      → (peak ≼ observed peak net) × (net ≼ observed peak net) × (nought ≼ observed peak net)
  observed-over peak net p n =
      let z = number_of_finite nought nought_finite in
      let l = le-max-left laws peak net p in
      let r = le-max-right laws peak net p n in
      let o = le-max-left laws (max peak net) nought (refl_of_le _ _ l).1 in
      (
        le_trans _ _ _ l o,
        le_trans _ _ _ r o,
        le-max-right laws (max peak net) nought (refl_of_le _ _ l).1 z,
      )

  raise_floor-over :
      (floor : F) (requested : Option F) {raised : F}
      → floor ≼ floor
      → raise_floor floor requested ≡ some raised
      → floor ≼ raised
  raise_floor-over floor none n h = cc
  raise_floor-over floor (some r) n h = ground (arith, le-max-left laws floor r n)

  next_floor-over :
      (policy : Policy F) (size reference remaining floor peak : F) {raised : F}
      → floor ≼ floor
      → next_floor policy size reference remaining floor peak ≡ some raised
      → floor ≼ raised
  next_floor-over policy size reference remaining floor peak n h =
      elim (Bool-cases (is_eligible policy floor peak remaining)) [
        | inl armed ↦
            raise_floor-over floor
              (down_to_cents (candidate_floor policy size reference peak remaining)) n
              (ground arith)
        | inr idle ↦ ground arith
      ]

  retained-IsRaised :
      (before floor net size reference peak : F) (raised : Option F) {s : RetentionState F}
      → (before ≼ peak) × (net ≼ peak) × (nought ≼ peak)
      → ((r : F) → raised ≡ some r → floor ≼ r)
      → retained size reference peak raised ≡ some s
      → IsRaised before floor reference net size s
  retained-IsRaised before floor net size reference peak none o f h = cc
  retained-IsRaised before floor net size reference peak (some r) {s = s} (b, n, z) f h =
      let nz = number_of_finite nought nought_finite in
      let nr = (refl_of_le _ _ (f r refl)).1 in
      let up = le_trans _ _ _ (f r refl) (le-max-right laws nought r nz nr) in
      let over = le-max-left laws nought r nz in
      record {
        over_peak = ground arith;
        over_net = ground arith;
        over_floor = ground arith;
        nonneg = (ground arith, ground arith);
        volume_is = ground arith;
        reference_is = ground arith;
      }

  advance_from-IsRaised :
      (policy : Policy F) (net size risk : F) (base : Base F) {s : RetentionState F}
      → base.peak ≼ base.peak
      → base.floor ≼ base.floor
      → net ≼ net
      → advance_from policy net size risk base ≡ some s
      → IsRaised base.peak base.floor base.reference net size s
  advance_from-IsRaised policy net size risk base p f n h =
      retained-IsRaised base.peak base.floor net size base.reference _ _
        (observed-over base.peak net p n)
        (λ r. next_floor-over policy size base.reference _ base.floor _ f) h

  finite_net :
      (policy : Policy F) (net size risk : F)
      → retention_refused policy net size risk ≡ false
      → net ≼ net
  unfolding retention_refused
  finite_net policy net size risk h = number_of_finite net (ground arith)

  module _ (policy : Policy F) (previous : RetentionState F) (net size risk : F) where
    taken :
        retention_refused policy net size risk ≡ false
        → advance_retention policy previous net size risk
          ≡ advance_from policy net size risk (base_of_position previous size)
    unfolding advance_retention
    taken good = rw good refl

    steady_base :
        is_reduced previous size ≡ false
        → is_enlarged previous size ≡ false
        → base_of_position previous size ≡ record {
          peak = previous.peak_net_usd;
          floor = previous.floor_usd;
          reference = reference_of previous size;
        }
    unfolding base_of_position
    steady_base reduced enlarged = rw (reduced, enlarged) refl

    enlarged_base :
        is_reduced previous size ≡ false
        → is_enlarged previous size ≡ true
        → base_of_position previous size
          ≡ record { peak = nought; floor = nought; reference = size }
    unfolding base_of_position
    enlarged_base reduced enlarged = rw (reduced, enlarged) refl

    base-IsRaised :
        {s : RetentionState F} (base : Base F)
        → retention_refused policy net size risk ≡ false
        → base_of_position previous size ≡ base
        → base.peak ≼ base.peak
        → base.floor ≼ base.floor
        → advance_retention policy previous net size risk ≡ some s
        → IsRaised base.peak base.floor base.reference net size s
    base-IsRaised {s = s} base good is p f h =
        advance_from-IsRaised policy net size risk base p f (finite_net policy net size risk good)
          (subst (λ b. advance_from policy net size risk b ≡ some s) is (sym (taken good) ∙ h))

    -- If the numbers are usable, the size is neither reduced nor enlarged, and the old peak and floor
    -- are numbers, then the new peak is not below the old one, the observed profit or zero, and the
    -- new floor is not below the old one or zero; the size is recorded, with the old reference.
    pub advance_retention-IsRaised :
        {s : RetentionState F}
        → retention_refused policy net size risk ≡ false
        → is_reduced previous size ≡ false
        → is_enlarged previous size ≡ false
        → previous.peak_net_usd ≼ previous.peak_net_usd
        → previous.floor_usd ≼ previous.floor_usd
        → advance_retention policy previous net size risk ≡ some s
        → IsRaised previous.peak_net_usd previous.floor_usd (reference_of previous size) net size s
    advance_retention-IsRaised good reduced enlarged p f =
        base-IsRaised _ good (steady_base reduced enlarged) p f
