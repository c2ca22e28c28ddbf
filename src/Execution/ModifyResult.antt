-- ===== src/Execution/ModifyResult.antt =====
-- `_reconcile_modify_result`: whether the broker kept the levels, in at most three reads of the
-- position.
pub mod Kept
use llm_trade.Prelude.{
  ℕ, zero, suc, Bool, true, false, not, ◌&&◌, ◌||◌, Option, none, some, List, [], ◌∷◌, any, filter,
  if◌then◌else◌, ◌==◌, ltb,
}
use llm_trade.Float.{Float, nought, gt, eq, max}
use llm_trade.Text.{Text}
use llm_trade.Risk.Trade.{Side, buy, sell}
use llm_trade.Instruments.{SymbolInfo}
use llm_trade.Instruments.Spread.{or_nought}
use llm_trade.Execution.{
  Retcode, retcode_done, retcode_done_partial, ExecError, returned_none, partial_fill,
  broker_refused, modify_closed, modify_unread, modify_lost, open_unread, open_unmatched,
  open_ambiguous, open_empty, open_excess, close_unread, close_incomplete, ExecutionResult,
  OpenPosition, SendResult, failed,
}
use llm_trade.Execution.Results.{
  is_completed_code, completed_retcode, accepted_but, volume_tolerance,
}

module _ {F : Type 0} ⦃fl : Float F⦄ where
  open fl use {dec, add, sub, mul, abs, lt, le}

  -- `x or y or z`, for numbers
  abbrev pub or_else_float : F → F → F
  or_else_float x y = if eq x nought then y else x

  abbrev pub level_tolerance : SymbolInfo F → F
  level_tolerance info =
      let tick_size = or_else_float info.trade_tick_size (or_else_float info.point (dec 1 8)) in
      max (dec 1 8) (mul tick_size (dec 51 2))

  -- The position has both levels.
  abbrev pub has_levels : F → F → F → OpenPosition F → Bool
  has_levels tolerance sl tp p =
      le (abs (sub (or_nought p.sl) sl)) tolerance && le (abs (sub (or_nought p.tp) tp)) tolerance

  abbrev pub modified : ExecutionResult F → ℕ → OpenPosition F → ExecutionResult F
  modified parsed ticket p = record {
    success = true;
    ticket = some ticket;
    price = some (or_nought p.price_current);
    volume = some (or_nought p.volume);
    error = none;
    retcode = parsed.retcode;
    partial = false;
    verified = true;
    state_changed = true;
    requested_volume = none;
    remaining_volume = none;
  }

  abbrev pub unmodified : ExecutionResult F → ℕ → Bool → ExecError → ExecutionResult F
  unmodified parsed ticket verified error = record (accepted_but parsed verified error) {
    ticket = some ticket;
    partial = false;
    requested_volume = none;
    remaining_volume = none;
  }

  -- The reads of the position, from whether the last one failed.
  unfoldable pub verify_levels :
      ExecutionResult F
      → ℕ
      → (OpenPosition F → Bool)
      → Bool
      → List (Option (List (OpenPosition F)))
      → ExecutionResult F
  verify_levels parsed ticket kept query_failed [] =
      unmodified parsed ticket false (if query_failed then modify_unread else modify_lost)
  verify_levels parsed ticket kept query_failed (none ∷ reads) =
      verify_levels parsed ticket kept true reads
  verify_levels parsed ticket kept query_failed (some [] ∷ reads) =
      unmodified parsed ticket true modify_closed
  verify_levels parsed ticket kept query_failed (some (p ∷ ps) ∷ reads) = elim (kept p) [
    | true ↦ modified parsed ticket p
    | false ↦ verify_levels parsed ticket kept false reads
  ]

  unfoldable pub reconcile_modify_result :
      Option (SendResult F)
      → ExecutionResult F
      → ℕ
      → F
      → F
      → SymbolInfo F
      → List (Option (List (OpenPosition F)))
      → ExecutionResult F
  reconcile_modify_result answer parsed ticket sl tp info reads =
      if not (completed_retcode answer)
      then parsed
      else verify_levels parsed ticket (has_levels (level_tolerance info) sl tp) false reads
