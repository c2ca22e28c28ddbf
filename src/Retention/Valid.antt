-- ===== src/Retention/Valid.antt =====
-- What is read back is sound, and a sound state is read back as it was stored.
use llm_trade.Prelude.{◌≡◌, refl, true, false, Option, none, some, arith, Bool-cases, ◌⊎◌, inl, inr}
use llm_trade.Float.{Float, nought, ◌≼◌, IsOrdered, le_of_not-lt, le_of_lt, not-le_of_lt}
use llm_trade.Retention.{
  RetentionState, Stored, no_state, to_dict, is_broken, checked_state, state_of, from_dict,
}

module _ {F : Type 0} ⦃fl : Float F⦄ where
  -- A state that a position can have: finite amounts, a floor that its peak reached, and a size not
  -- above the reference.
  pub record IsValid (s : RetentionState F) : Type 0 where
    pub finite_peak : fl.is_finite s.peak_net_usd ≡ true
    pub finite_floor : fl.is_finite s.floor_usd ≡ true
    pub nonneg_floor : nought ≼ s.floor_usd
    pub reached : s.floor_usd ≼ s.peak_net_usd
    pub sized : fl.le s.volume nought ≡ false
    pub within_reference : s.volume ≼ s.reference_volume

  -- A sound state: finite amounts, a floor between zero and the peak, and a positive size not above
  -- the reference.
  pub record IsSound (s : RetentionState F) : Type 0 where
    pub finite_peak : fl.is_finite s.peak_net_usd ≡ true
    pub finite_floor : fl.is_finite s.floor_usd ≡ true
    pub finite_volume : fl.is_finite s.volume ≡ true
    pub finite_reference : fl.is_finite s.reference_volume ≡ true
    pub nonneg_floor : nought ≼ s.floor_usd
    pub reached : s.floor_usd ≼ s.peak_net_usd
    pub positive : fl.lt nought s.volume ≡ true
    pub within_reference : s.volume ≼ s.reference_volume

module _ {F : Type 0} ⦃fl : Float F⦄ (laws : IsOrdered F) where
  open laws use {number_of_finite, nought_finite}

  checked-IsValid : (s : RetentionState F) → is_broken s ≡ false → IsValid s
  checked-IsValid s h =
      let nz = number_of_finite nought nought_finite in
      let np = number_of_finite s.peak_net_usd (ground arith) in
      let nf = number_of_finite s.floor_usd (ground arith) in
      let nv = number_of_finite s.volume (ground arith) in
      let nr = number_of_finite s.reference_volume (ground arith) in
      record {
        finite_peak = ground arith;
        finite_floor = ground arith;
        nonneg_floor = le_of_not-lt laws s.floor_usd nought nf nz (ground arith);
        reached = le_of_not-lt laws s.peak_net_usd s.floor_usd np nf (ground arith);
        sized = ground arith;
        within_reference = le_of_not-lt laws s.reference_volume s.volume nr nv (ground arith);
      }

  checked_state-IsValid :
      (s : RetentionState F) → (checked_state s ≡ no_state) ⊎ IsValid (checked_state s)
  checked_state-IsValid s = elim (Bool-cases (is_broken s)) [
    | inl broken ↦ inl (rw broken refl)
    | inr sound ↦ inr (rw sound (checked-IsValid s sound))
  ]

  state_of-IsValid :
      (a b c d : Option F) → (state_of a b c d ≡ no_state) ⊎ IsValid (state_of a b c d)
  state_of-IsValid (some a) (some b) (some c) (some d) = checked_state-IsValid _
  state_of-IsValid (some a) (some b) (some c) none = inl refl
  state_of-IsValid (some a) (some b) none d = inl refl
  state_of-IsValid (some a) none c d = inl refl
  state_of-IsValid none b c d = inl refl

  -- Whatever is stored, what is read back is the empty state or a sound one: its amounts are finite,
  -- its floor lies between zero and its peak, and its positive size is not above its reference.
  pub from_dict-IsValid :
      (stored : Option (Stored F)) → (from_dict stored ≡ no_state) ⊎ IsValid (from_dict stored)
  unfolding from_dict
  from_dict-IsValid none = inl refl
  from_dict-IsValid (some d) = state_of-IsValid _ _ _ _

  not-lt_of_le : (x y : F) → x ≼ y → fl.lt y x ≡ false
  not-lt_of_le x y h =
      let (nx, ny) = laws.refl_of_le x y h in ground (arith, laws.lt-eq-not-le y x ny nx)

  sound-unbroken : (s : RetentionState F) → IsSound s → is_broken s ≡ false
  sound-unbroken s v =
      let positive = le_of_lt laws nought s.volume v.positive in
      ground (
        arith,
        v.finite_peak,
        v.finite_floor,
        v.finite_volume,
        v.finite_reference,
        not-lt_of_le nought s.floor_usd v.nonneg_floor,
        not-lt_of_le nought s.peak_net_usd
            (laws.le_trans nought s.floor_usd s.peak_net_usd v.nonneg_floor v.reached),
        not-lt_of_le s.floor_usd s.peak_net_usd v.reached,
        not-lt_of_le nought s.volume positive,
        not-lt_of_le nought s.reference_volume
            (laws.le_trans nought s.volume s.reference_volume positive v.within_reference),
        not-lt_of_le s.volume s.reference_volume v.within_reference,
        not-le_of_lt laws nought s.volume v.positive,
      )

  -- Either the check passed, or the empty state was read.
  abbrev IsChecked : RetentionState F → Type 0
  IsChecked s = (s ≡ no_state) ⊎ (is_broken s ≡ false)

  checked_state-IsChecked : (s : RetentionState F) → IsChecked (checked_state s)
  checked_state-IsChecked s = elim (Bool-cases (is_broken s)) [
    | inl broken ↦ inl (rw broken refl)
    | inr sound ↦ inr (rw sound sound)
  ]

  state_of-IsChecked : (a b c d : Option F) → IsChecked (state_of a b c d)
  state_of-IsChecked (some a) (some b) (some c) (some d) = checked_state-IsChecked _
  state_of-IsChecked (some a) (some b) (some c) none = inl refl
  state_of-IsChecked (some a) (some b) none d = inl refl
  state_of-IsChecked (some a) none c d = inl refl
  state_of-IsChecked none b c d = inl refl

  from_dict-IsChecked : (stored : Option (Stored F)) → IsChecked (from_dict stored)
  unfolding from_dict
  from_dict-IsChecked none = inl refl
  from_dict-IsChecked (some d) = state_of-IsChecked _ _ _ _

  empty_broken : is_broken (no_state {F = F}) ≡ true
  unfolding no_state
  empty_broken = ground (arith, number_of_finite nought nought_finite)

  stored_again : (s : RetentionState F) → IsChecked s → from_dict (some (to_dict s)) ≡ s
  unfolding from_dict to_dict
  stored_again s (inl empty) = rw empty (rw empty_broken refl)
  stored_again s (inr sound) = rw sound refl

  -- A sound state is read back as it was stored: one whose amounts are finite, with a floor between
  -- zero and the peak and a positive size not above the reference. And whatever is stored, what is
  -- read from it is stored and read again unchanged.
  pub from_dict-to_dict :
      (s : RetentionState F) (stored : Option (Stored F))
      → IsSound s
      → (from_dict (some (to_dict s)) ≡ s)
        × (from_dict (some (to_dict (from_dict stored))) ≡ from_dict stored)
  from_dict-to_dict s stored sound =
      (stored_again s (inr (sound-unbroken s sound)), stored_again _ (from_dict-IsChecked stored))
