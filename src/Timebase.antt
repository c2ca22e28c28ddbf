-- ===== src/Timebase.antt =====
-- mt5/timebase.py: the age of a quote, whatever whole hour the broker's clock is ahead. The offsets
-- that the module remembers are passed as an association list, the latest entry first.
pub mod Age
mod Tests
use llm_trade.Prelude.{
  ℕ, zero, suc, ◌*◌, Bool, true, false, not, ◌&&◌, ◌||◌, Option, none, some, List, [], ◌∷◌,
  if◌then◌else◌, leb, ◌==◌,
}
use llm_trade.Prelude.Int.{ℤ, pos, negsuc}
use llm_trade.Float.{Float, nought, gt, max}
use llm_trade.Text.{Text, same_text}
use llm_trade.Universe.{market_name, is_empty}

abbrev pub Offsets : Type 0
Offsets = List (Text × ℕ)

-- `MAX_SERVER_OFFSET_HOURS`
abbrev pub max_server_offset_hours : ℕ
max_server_offset_hours = 14

unfoldable pub remember_server_offset_seconds : Text → ℕ → Offsets → Offsets
remember_server_offset_seconds symbol offset offsets =
    let key = market_name symbol in if is_empty key then offsets else (key, offset) ∷ offsets

abbrev pub find : Text → Offsets → Option ℕ
find key [] = none
find key ((k, offset) ∷ offsets) = if same_text key k then some offset else find key offsets

unfoldable pub remembered_server_offset_seconds : Text → Offsets → Option ℕ
remembered_server_offset_seconds symbol offsets =
    let key = market_name symbol in if is_empty key then none else find key offsets

abbrev pub offset_or_nought : Option ℕ → ℕ
offset_or_nought none = 0
offset_or_nought (some offset) = offset

module _ {F : Type 0} ⦃fl : Float F⦄ where
  open fl use {dec, sub, div, abs, lt, le, is_finite, floor, round, of_int, infinity}

  -- `OFFSET_MATCH_TOLERANCE_SECONDS` and `MIN_OFFSET_DETECTION_SECONDS`
  abbrev pub tolerance_seconds : F
  tolerance_seconds = dec 300 0

  abbrev pub detection_seconds : F
  detection_seconds = dec 1800 0

  -- `int(round(x))`
  abbrev pub nearest : F → Option ℤ
  nearest x = floor (round 0 x)

  -- the offset of a whole number of hours that matches the difference
  abbrev pub matching_offset : F → Option ℤ → ℕ
  matching_offset delta (some (pos hours)) =
      if not (leb 1 hours && leb hours max_server_offset_hours)
      then 0
      else if gt (abs (sub delta (of_int (pos (hours * 3600))))) tolerance_seconds
      then 0
      else hours * 3600
  matching_offset delta _ = 0

  unfoldable pub infer_positive_server_offset_seconds : F → F → ℕ
  infer_positive_server_offset_seconds broker now =
      let delta = sub broker now in
      if not (is_finite broker) || le broker nought
      then 0
      else if not (is_finite now) || le now nought
      then 0
      else if lt delta detection_seconds
      then 0
      else matching_offset delta (nearest (div delta (dec 3600 0)))

  -- `float(broker_epoch) - max(0, int(offset_seconds))`
  abbrev pub normalized_broker_epoch : F → ℕ → F
  normalized_broker_epoch broker offset = sub broker (of_int (pos offset))

  -- The age for an offset: a time in the future beyond the tolerance is infinitely old.
  abbrev pub age_at : F → F → ℕ → F
  age_at broker now offset =
      let normalized = normalized_broker_epoch broker offset in
      if gt normalized (fl.add now tolerance_seconds)
      then infinity
      else max nought (sub now normalized)

  abbrev pub age_for : Text → F → F → Offsets → ℕ → F × Offsets
  age_for symbol broker now offsets zero = (
    age_at broker now (offset_or_nought (remembered_server_offset_seconds symbol offsets)),
    offsets,
  )
  age_for symbol broker now offsets (suc n) =
      (age_at broker now (suc n), remember_server_offset_seconds symbol (suc n) offsets)

  -- Without a given offset, as the executor calls it; `now` is `time.time()`.
  unfoldable pub broker_tick_age_seconds : Text → F → F → Offsets → F × Offsets
  broker_tick_age_seconds symbol broker now offsets =
      age_for symbol broker now offsets (infer_positive_server_offset_seconds broker now)
