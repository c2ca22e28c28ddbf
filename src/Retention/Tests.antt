-- ===== src/Retention/Tests.antt =====
-- Runs of the retention of a position of a tenth of a lot, and its theorems on them.
use llm_trade.Prelude.{ℕ, ◌≡◌, refl, some, ◌⊎◌}
use llm_trade.Float.{nought}
use llm_trade.Float.Fixed.{Fixed, nan, fixed_float, Fixed-IsOrdered}
use llm_trade.Settings.Sample.{usd, mills}
use llm_trade.Cell.{absent}
use llm_trade.Retention.{
  RetentionState, Stored, Policy, no_state, to_dict, from_dict, retention_refused, base_of_position,
  candidate_floor, advance_retention,
}
use llm_trade.Retention.Valid.{IsValid, IsSound, from_dict-IsValid, from_dict-to_dict}
use llm_trade.Retention.Ratchet.{IsRaised, advance_retention-IsRaised}

abbrev policy : Policy Fixed
policy = record {
  profit_retention_trigger_usd = usd 1;
  profit_retention_trigger_r = mills 500;
  profit_retention_mature_trigger_r = usd 1;
  profit_retention_keep_fraction = mills 500;
  profit_retention_mature_keep_fraction = mills 700;
  profit_lock_final_floor_usd = mills 300;
  profit_retention_min_headroom_usd = mills 200;
}

abbrev state : ℕ → ℕ → RetentionState Fixed
state peak floor = record {
  peak_net_usd = mills peak;
  floor_usd = mills floor;
  volume = mills 100;
  reference_volume = mills 100;
}

-- A profit of two dollars at a risk of two, and then a fall to one.
rises :
    (advance_retention policy (state 500 0) (usd 2) (mills 100) (usd 2) ≡ some (state 2000 1400))
    × (advance_retention policy (state 2000 1400) (usd 1) (mills 100) (usd 2)
        ≡ some (state 2000 1400))
    × (advance_retention policy (state 500 0) nan (mills 100) (usd 2) ≡ some (state 500 0))
unfolding advance_retention retention_refused base_of_position candidate_floor
rises = (refl, refl, refl)

advance_retention-IsRaised_example :
    IsRaised (mills 500) nought (mills 100) (usd 2) (mills 100) (state 2000 1400)
unfolding retention_refused
advance_retention-IsRaised_example =
    advance_retention-IsRaised Fixed-IsOrdered policy (state 500 0) (usd 2) (mills 100) (usd 2) refl
      refl refl refl refl rises.0

from_dict-IsValid_example :
    let read = from_dict (some (to_dict (state 2000 1400))) in (read ≡ no_state) ⊎ IsValid read
from_dict-IsValid_example = from_dict-IsValid Fixed-IsOrdered (some (to_dict (state 2000 1400)))

state-IsSound : IsSound (state 2000 1400)
state-IsSound = record {
  finite_peak = refl;
  finite_floor = refl;
  finite_volume = refl;
  finite_reference = refl;
  nonneg_floor = refl;
  reached = refl;
  positive = refl;
  within_reference = refl;
}

-- Of what is stored the peak is missing, which reads as zero, below the floor.
abbrev unsound : Stored Fixed
unsound = record (to_dict (state 2000 1400)) { peak_net_usd = absent }

from_dict-to_dict_example :
    (from_dict (some (to_dict (state 2000 1400))) ≡ state 2000 1400)
    × (from_dict (some (to_dict (from_dict (some unsound)))) ≡ from_dict (some unsound))
from_dict-to_dict_example =
    from_dict-to_dict Fixed-IsOrdered (state 2000 1400) (some unsound) state-IsSound
