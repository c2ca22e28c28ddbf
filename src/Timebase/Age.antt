-- ===== src/Timebase/Age.antt =====
-- Which offsets are found, and what age a quote can have.
use llm_trade.Prelude.{
  ℕ, zero, suc, ◌*◌, ◌≤◌, ◌≡◌, refl, ap, true, false, ◌&&◌, Option, none, some, arith, ◌⊎◌, inl,
  inr, Bool-cases, leb,
}
use llm_trade.Prelude.Int.{ℤ, pos, negsuc}
use llm_trade.Float.{Float, nought, gt, max}
use llm_trade.Text.{Text}
use llm_trade.Universe.{market_name, is_empty}
use llm_trade.Universe.Rotation.{same_text_refl}
use llm_trade.Timebase.{
  Offsets, remember_server_offset_seconds, remembered_server_offset_seconds, offset_or_nought,
  tolerance_seconds, nearest, matching_offset, infer_positive_server_offset_seconds,
  normalized_broker_epoch, age_at, age_for, broker_tick_age_seconds,
}

remembered-remember :
    (symbol : Text) (offset : ℕ) (offsets : Offsets)
    → is_empty (market_name symbol) ≡ false
    → remembered_server_offset_seconds symbol (remember_server_offset_seconds symbol offset offsets)
      ≡ some offset
unfolding remembered_server_offset_seconds remember_server_offset_seconds
remembered-remember symbol offset offsets named =
    rw (named, same_text_refl (market_name symbol)) refl

module _ {F : Type 0} ⦃fl : Float F⦄ where
  open fl use {dec, add, sub, div, abs, lt, le, is_finite, floor, round, of_int, infinity}

  -- The broker's clock is this many whole hours ahead, within the tolerance.
  pub record IsAhead (broker now : F) (offset : ℕ) : Type 0 where
    pub hours : ℕ
    pub hours_are : (1 ≤ hours) × (hours ≤ 14)
    pub offset_is : offset ≡ hours * 3600
    pub close :
        gt (abs (sub (sub broker now) (of_int (pos (hours * 3600))))) tolerance_seconds ≡ false

  matching_offset-IsAhead :
      (broker now : F) (hours : Option ℤ)
      → let offset = matching_offset (sub broker now) hours in
        (offset ≡ 0) ⊎ IsAhead broker now offset
  matching_offset-IsAhead broker now none = inl refl
  matching_offset-IsAhead broker now (some (negsuc n)) = inl refl
  matching_offset-IsAhead broker now (some (pos hours)) =
      elim (Bool-cases (leb 1 hours && leb hours 14)) [
        | inr beyond ↦ inl (rw beyond refl)
        | inl within ↦
            elim (Bool-cases
              (gt (abs (sub (sub broker now) (of_int (pos (hours * 3600))))) tolerance_seconds)) [
                | inl far ↦ inl (rw (within, far) refl)
                | inr close ↦ inr (
                    rw (within, close)
                      record {
                        hours = hours;
                        hours_are = (ground arith, ground arith);
                        offset_is = refl;
                        close = close;
                      })
              ]
      ]

  infer-IsAhead :
      (broker now : F)
      → let offset = infer_positive_server_offset_seconds broker now in
        (offset ≡ 0) ⊎ IsAhead broker now offset
  unfolding infer_positive_server_offset_seconds
  infer-IsAhead broker now =
      ground
        (arith, matching_offset-IsAhead broker now (nearest (div (sub broker now) (dec 3600 0))))

  -- What a finite age says: the offset that was taken is one that matches the clocks or the one that
  -- was remembered, and with it the quote is not from the future.
  pub record IsDated (symbol : Text) (broker now : F) (offsets : Offsets) (aged : F × Offsets)
      : Type 0 where
    pub offset : ℕ
    pub origin :
        IsAhead broker now offset
        ⊎ (offset ≡ offset_or_nought (remembered_server_offset_seconds symbol offsets))
    pub not_future : gt (normalized_broker_epoch broker offset) (add now tolerance_seconds) ≡ false
    pub age_is : aged.0 ≡ max nought (sub now (normalized_broker_epoch broker offset))
    pub kept :
        is_empty (market_name symbol) ≡ false
        → offset_or_nought (remembered_server_offset_seconds symbol aged.1) ≡ offset

  age_at_lem :
      (broker now : F) (offset : ℕ)
      → is_finite infinity ≡ false
      → is_finite (age_at broker now offset) ≡ true
      → (gt (normalized_broker_epoch broker offset) (add now tolerance_seconds) ≡ false)
        × (age_at broker now offset ≡ max nought (sub now (normalized_broker_epoch broker offset)))
  age_at_lem broker now offset endless h =
      elim (Bool-cases (gt (normalized_broker_epoch broker offset) (add now tolerance_seconds))) [
        | inl future ↦ absurd (ground (arith, endless))
        | inr past ↦ (past, rw past refl)
      ]

  age_for-IsDated :
      (symbol : Text) (broker now : F) (offsets : Offsets) (offset : ℕ)
      → is_finite infinity ≡ false
      → (offset ≡ 0) ⊎ IsAhead broker now offset
      → is_finite (age_for symbol broker now offsets offset).0 ≡ true
      → IsDated symbol broker now offsets (age_for symbol broker now offsets offset)
  age_for-IsDated symbol broker now offsets zero endless ahead h =
      let offset = offset_or_nought (remembered_server_offset_seconds symbol offsets) in
      let (not_future, age_is) = age_at_lem broker now offset endless h in
      record {
        offset = offset;
        origin = inr refl;
        not_future = not_future;
        age_is = age_is;
        kept = λ named. refl;
      }
  age_for-IsDated symbol broker now offsets (suc n) endless (inl none_found) h =
      absurd (omega arith)
  age_for-IsDated symbol broker now offsets (suc n) endless (inr ahead) h =
      let (not_future, age_is) = age_at_lem broker now (suc n) endless h in
      record {
        offset = suc n;
        origin = inl ahead;
        not_future = not_future;
        age_is = age_is;
        kept = λ named. ap offset_or_nought (remembered-remember symbol (suc n) offsets named);
      }

  -- If the age of a quote is finite, it is its distance from now after an offset of the broker's clock
  -- is taken off, which leaves the quote at most the tolerance in the future. The offset is one to
  -- fourteen whole hours that match the difference of the clocks within the tolerance, or what was
  -- remembered for the symbol; and the next call for the symbol remembers it.
  pub broker_tick_age_seconds-IsDated :
      is_finite infinity ≡ false
      → (symbol : Text) (broker now : F) (offsets : Offsets)
      → is_finite (broker_tick_age_seconds symbol broker now offsets).0 ≡ true
      → IsDated symbol broker now offsets (broker_tick_age_seconds symbol broker now offsets)
  unfolding broker_tick_age_seconds
  broker_tick_age_seconds-IsDated endless symbol broker now offsets h =
      age_for-IsDated symbol broker now offsets _ endless (infer-IsAhead broker now) h
