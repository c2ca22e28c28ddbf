-- ===== src/Retention.antt =====
-- core/profit_retention.py: the floor under an open profit, which follows the observed net peaks.
pub mod Valid
pub mod Ratchet
mod Tests
use llm_trade.Prelude.{Bool, true, false, not, ◌&&◌, ◌||◌, Option, none, some, if◌then◌else◌}
use llm_trade.Prelude.Int.{ℤ}
use llm_trade.Float.{Float, nought, gt, ge, eq, min, max}
use llm_trade.Cell.{Cell, number, or_default}

pub record RetentionState (F : Type 0) : Type 0 where
  pub peak_net_usd : F
  pub floor_usd : F
  pub volume : F
  pub reference_volume : F

-- The dictionary that `to_dict` makes and that `from_dict` reads.
pub record Stored (F : Type 0) : Type 0 where
  pub peak_net_usd : Cell F
  pub floor_usd : Cell F
  pub volume : Cell F
  pub reference_volume : Cell F

-- The settings that `policy` carries.
pub record Policy (F : Type 0) : Type 0 where
  pub profit_retention_trigger_usd : F
  pub profit_retention_trigger_r : F
  pub profit_retention_mature_trigger_r : F
  pub profit_retention_keep_fraction : F
  pub profit_retention_mature_keep_fraction : F
  pub profit_lock_final_floor_usd : F
  pub profit_retention_min_headroom_usd : F

-- The peak, the floor and the reference size that a call starts from.
pub record Base (F : Type 0) : Type 0 where
  pub peak : F
  pub floor : F
  pub reference : F

module _ {F : Type 0} ⦃fl : Float F⦄ where
  open fl use {dec, add, sub, mul, div, lt, le, is_finite, of_int}

  unfoldable pub no_state : RetentionState F
  no_state = record {
    peak_net_usd = nought;
    floor_usd = nought;
    volume = nought;
    reference_volume = nought;
  }

  unfoldable pub to_dict : RetentionState F → Stored F
  to_dict s = record {
    peak_net_usd = number s.peak_net_usd;
    floor_usd = number s.floor_usd;
    volume = number s.volume;
    reference_volume = number s.reference_volume;
  }

  -- a value that the check of `from_dict` refuses
  abbrev pub unusable : F → Bool
  unusable v = not (is_finite v) || lt v nought

  abbrev pub is_broken : RetentionState F → Bool
  is_broken s =
      unusable s.peak_net_usd
      || unusable s.floor_usd
      || unusable s.volume
      || unusable s.reference_volume
      || gt s.floor_usd s.peak_net_usd
      || le s.volume nought
      || lt s.reference_volume s.volume

  abbrev pub checked_state : RetentionState F → RetentionState F
  checked_state s = if is_broken s then no_state else s

  abbrev pub state_of : Option F → Option F → Option F → Option F → RetentionState F
  state_of (some peak) (some floor) (some volume) (some reference) = checked_state (record {
    peak_net_usd = peak;
    floor_usd = floor;
    volume = volume;
    reference_volume = reference;
  })
  state_of _ _ _ _ = no_state

  -- `none` is a value that is no mapping.
  unfoldable pub from_dict : Option (Stored F) → RetentionState F
  from_dict none = no_state
  from_dict (some d) =
      state_of (or_default nought d.peak_net_usd) (or_default nought d.floor_usd)
        (or_default nought d.volume) (or_default nought d.reference_volume)

  abbrev pub usable_numbers : Policy F → F → F → F → Bool
  usable_numbers policy net size risk =
      is_finite net
      && is_finite size
      && is_finite risk
      && is_finite policy.profit_retention_trigger_usd
      && is_finite policy.profit_retention_trigger_r
      && is_finite policy.profit_retention_mature_trigger_r
      && is_finite policy.profit_retention_keep_fraction
      && is_finite policy.profit_retention_mature_keep_fraction
      && is_finite policy.profit_lock_final_floor_usd
      && is_finite policy.profit_retention_min_headroom_usd

  -- The condition of the early return.
  unfoldable pub retention_refused : Policy F → F → F → F → Bool
  retention_refused policy net size risk =
      let keep = policy.profit_retention_keep_fraction in
      let mature_keep = policy.profit_retention_mature_keep_fraction in
      not (usable_numbers policy net size risk)
      || le size nought
      || lt risk nought
      || le policy.profit_retention_trigger_usd nought
      || le policy.profit_retention_trigger_r nought
      || lt policy.profit_retention_mature_trigger_r policy.profit_retention_trigger_r
      || not (lt nought keep && le keep mature_keep && lt mature_keep (dec 1 0))
      || lt policy.profit_lock_final_floor_usd nought
      || le policy.profit_retention_min_headroom_usd nought
      || lt policy.profit_retention_trigger_usd
          (add policy.profit_lock_final_floor_usd policy.profit_retention_min_headroom_usd)

  -- `previous.reference_volume or size`
  abbrev pub reference_of : RetentionState F → F → F
  reference_of previous size =
      if eq previous.reference_volume nought then size else previous.reference_volume

  abbrev pub is_reduced : RetentionState F → F → Bool
  is_reduced previous size = gt previous.volume nought && lt size (sub previous.volume (dec 1 9))

  abbrev pub is_enlarged : RetentionState F → F → Bool
  is_enlarged previous size = gt size (add previous.volume (dec 1 9))

  -- A partial close scales the peak and the floor, and an addition starts again.
  unfoldable pub base_of_position : RetentionState F → F → Base F
  base_of_position previous size =
      if is_reduced previous size
      then (let ratio = div size previous.volume in
          record {
            peak = mul previous.peak_net_usd ratio;
            floor = mul previous.floor_usd ratio;
            reference = reference_of previous size;
          })
      else if is_enlarged previous size
      then record { peak = nought; floor = nought; reference = size }
      else record {
        peak = previous.peak_net_usd;
        floor = previous.floor_usd;
        reference = reference_of previous size;
      }

  -- The observed peak: `max(peak, net, 0.0)`
  abbrev pub observed : F → F → F
  observed peak net = max (max peak net) nought

  abbrev pub peak_ratio : F → F → F
  peak_ratio peak remaining = if gt remaining nought then div peak remaining else nought

  abbrev pub is_eligible : Policy F → F → F → F → Bool
  is_eligible policy floor peak remaining =
      gt floor nought
      || (ge (add peak (dec 1 9)) policy.profit_retention_trigger_usd
          && (le remaining nought
              || ge (add (peak_ratio peak remaining) (dec 1 9)) policy.profit_retention_trigger_r))

  abbrev pub keep_fraction : Policy F → F → F → F
  keep_fraction policy peak remaining =
      if gt remaining nought
        && ge (peak_ratio peak remaining) policy.profit_retention_mature_trigger_r
      then policy.profit_retention_mature_keep_fraction
      else policy.profit_retention_keep_fraction

  -- The requested floor, before it is rounded down to cents.
  unfoldable pub candidate_floor : Policy F → F → F → F → F → F
  candidate_floor policy size reference peak remaining =
      let milestone = div (mul policy.profit_lock_final_floor_usd size) reference in
      min (max milestone (mul peak (keep_fraction policy peak remaining)))
        (sub peak (div (mul policy.profit_retention_min_headroom_usd size) reference))

  -- `math.floor((candidate + 1e-9) * 100) / 100`, and `none` if `math.floor` raises
  abbrev pub cents : Option ℤ → Option F
  cents none = none
  cents (some n) = some (div (of_int n) (dec 100 0))

  abbrev pub down_to_cents : F → Option F
  down_to_cents candidate = cents (fl.floor (mul (add candidate (dec 1 9)) (dec 100 0)))

  abbrev pub raise_floor : F → Option F → Option F
  raise_floor floor none = none
  raise_floor floor (some requested) = some (max floor requested)

  -- the floor for a peak
  abbrev pub next_floor : Policy F → F → F → F → F → F → Option F
  next_floor policy size reference remaining floor peak =
      if is_eligible policy floor peak remaining
      then raise_floor floor (down_to_cents (candidate_floor policy size reference peak remaining))
      else some floor

  abbrev pub retained : F → F → F → Option F → Option (RetentionState F)
  retained size reference peak none = none
  retained size reference peak (some floor) = some (record {
    peak_net_usd = peak;
    floor_usd = max nought floor;
    volume = size;
    reference_volume = reference;
  })

  -- From what the call starts with; `none` is an exception of `math.floor`.
  abbrev pub advance_from : Policy F → F → F → F → Base F → Option (RetentionState F)
  advance_from policy net size risk base =
      let peak = observed base.peak net in
      let remaining = div (mul risk size) base.reference in
      retained size base.reference peak
        (next_floor policy size base.reference remaining base.floor peak)

  unfoldable pub advance_retention :
      Policy F → RetentionState F → F → F → F → Option (RetentionState F)
  advance_retention policy previous net size risk =
      if retention_refused policy net size risk
      then some previous
      else advance_from policy net size risk (base_of_position previous size)
