-- ===== src/Execution/Close/Sent.antt =====
-- When a close reaches the broker, and what its success says.
use llm_trade.Prelude.{ℕ, ◌≡◌, true, false, Option, none, some, List, ◌∷◌, ◌⊎◌}
use llm_trade.Prelude.Int.{ℤ}
use llm_trade.Float.{Float, nought, eq, gt, min}
use llm_trade.Settings.{Settings}
use llm_trade.Instruments.{SymbolInfo, Tick}
use llm_trade.Execution.{OpenPosition, Submission}
use llm_trade.Execution.Results.{completed_retcode}
use llm_trade.Execution.CloseResult.Closed.{IsClosed}
use llm_trade.Execution.Gates.{ExpectedAccount, validate_account_identity, entry_of}
use llm_trade.Execution.Close.{CloseMoments, opposite, close_request, reads}

module _ {F : Type 0} ⦃fl : Float F⦄ (config : Settings F) (m : CloseMoments F)
    (expected : Option ExpectedAccount) (ticket : ℕ) where
  open fl use {dec, add, sub, mul, div, lt, floor, round, of_int}

  -- A refusal before the order.
  pub record IsIdle (s : Submission F) : Type 0 where
    pub sent_none : s.sent ≡ none
    pub answer_none : s.answer ≡ none
    pub failed_is : s.result.success ≡ false
    pub unchanged : s.result.state_changed ≡ false

  -- The order that closes a volume of a position, and what its success says.
  pub record IsClosing (p : OpenPosition F) (volume : F) (s : Submission F) : Type 0 where
    pub info : SymbolInfo F
    pub info_is : m.at_info.broker.symbol_info p.symbol ≡ some info
    pub tick : Tick F
    pub tick_is : m.at_tick.broker.symbol_info_tick p.symbol ≡ some tick
    pub live : config.dry_run ≡ false
    pub sent_is :
        s.sent
        ≡ some
            (close_request config m expected ticket p volume (entry_of (opposite p.side) tick) info)
    pub checked :
        m.at_check.order_check
          (close_request config m expected ticket p volume (entry_of (opposite p.side) tick) info)
        ≡ true
    pub identified : validate_account_identity config m.at_identity expected ≡ none
    pub closed :
        s.result.success ≡ true
        → (completed_retcode s.answer ≡ true)
          × IsClosed p volume info (reads config m expected ticket p) s.result

  abbrev pub IsSent : OpenPosition F → F → Submission F → Type 0
  IsSent p volume s = IsIdle s ⊎ IsClosing p volume s

  -- The volume of a partial close with metadata: as many whole steps as go into what was asked, limited
  -- to the position. That is not below the smallest volume before the steps are taken, and what stays is
  -- nothing or not below it. A step that is not given is the smallest volume.
  pub record IsStepped (p : OpenPosition F) (info : SymbolInfo F) (asked volume : F) : Type 0 where
    pub step : F
    pub step_is :
        ((eq info.volume_step nought ≡ false) × (step ≡ info.volume_step))
        ⊎ ((eq info.volume_step nought ≡ true) × (step ≡ info.volume_min))
    pub units : ℤ
    pub units_are : floor (div (add (min asked p.volume) (dec 1 12)) step) ≡ some units
    pub volume_is : volume ≡ round 8 (mul (of_int units) step)
    pub enough : lt (min asked p.volume) info.volume_min ≡ false
    pub leaves :
        gt (round 8 (sub p.volume volume)) nought ≡ true
        → lt (round 8 (sub p.volume volume)) info.volume_min ≡ false

  -- Without metadata the volume stays as it was asked for.
  abbrev pub IsPart : OpenPosition F → F → F → Type 0
  IsPart p asked volume =
      ((m.at_volume.broker.symbol_info p.symbol ≡ none) × (volume ≡ asked))
      ⊎ (info : SymbolInfo F) × (m.at_volume.broker.symbol_info p.symbol ≡ some info)
        × IsStepped p info asked volume

  -- The order closes the first position that the ticket names, of a volume that may be one of `part`.
  pub record IsOrdered (part : OpenPosition F → F → Type 0) (s : Submission F) : Type 0 where
    pub position : OpenPosition F
    pub others : List (OpenPosition F)
    pub position_is : m.at_position.positions_of_ticket ticket ≡ some (position ∷ others)
    pub volume : F
    pub part_is : part position volume
    pub closing : IsClosing position volume s

  abbrev pub IsCloseEnded : (OpenPosition F → F → Type 0) → Submission F → Type 0
  IsCloseEnded part s = IsIdle s ⊎ IsOrdered part s
