-- ===== src/Execution/CloseResult.antt =====
-- `_reconcile_close_result`: the volume that is left of a position, in at most three reads of it.
pub mod Closed
use llm_trade.Prelude.{
  ℕ, zero, suc, Bool, true, false, not, ◌&&◌, ◌||◌, Option, none, some, List, [], ◌∷◌, any, filter,
  if◌then◌else◌, ◌==◌, ltb,
}
use llm_trade.Float.{Float, nought, gt, eq, max}
use llm_trade.Text.{Text}
use llm_trade.Risk.Trade.{Side, buy, sell}
use llm_trade.Instruments.{SymbolInfo}
use llm_trade.Instruments.Spread.{or_nought}
use llm_trade.Execution.{
  Retcode, retcode_done, retcode_done_partial, ExecError, returned_none, partial_fill,
  broker_refused, modify_closed, modify_unread, modify_lost, open_unread, open_unmatched,
  open_ambiguous, open_empty, open_excess, close_unread, close_incomplete, ExecutionResult,
  OpenPosition, SendResult, failed,
}
use llm_trade.Execution.Results.{
  is_completed_code, completed_retcode, accepted_but, volume_tolerance,
}

abbrev pub is_partial_code : Retcode → Bool
is_partial_code retcode_done_partial = true
is_partial_code _ = false

-- The reads of the remaining volume: whether the last read failed, the last volume, and whether it
-- is the expected one.
pub record Remaining (F : Type 0) : Type 0 where
  pub query_failed : Bool
  pub remaining : Option F
  pub complete : Bool

module _ {F : Type 0} where
  -- before the first read
  abbrev pub unread : Remaining F
  unread = record { query_failed = false; remaining = none; complete = false }

module _ {F : Type 0} ⦃fl : Float F⦄ where
  open fl use {dec, add, sub, mul, abs, lt, le}

  abbrev pub volume_left : List (OpenPosition F) → F
  volume_left [] = nought
  volume_left (p ∷ ps) = p.volume

  abbrev pub is_complete : F → F → F → Bool
  is_complete expected tolerance remaining = le (abs (sub remaining expected)) tolerance

  unfoldable pub find_remaining :
      F → F → Remaining F → List (Option (List (OpenPosition F))) → Remaining F
  find_remaining expected tolerance r [] = r
  find_remaining expected tolerance r (none ∷ reads) =
      find_remaining expected tolerance (record r { query_failed = true }) reads
  find_remaining expected tolerance r (some positions ∷ reads) =
      let left = volume_left positions in
      elim (is_complete expected tolerance left) [
        | true ↦ record { query_failed = false; remaining = some left; complete = true }
        | false ↦
            find_remaining expected tolerance
              (record { query_failed = false; remaining = some left; complete = false }) reads
      ]

  abbrev pub closed_volume :
      Retcode → ExecutionResult F → OpenPosition F → F → F → F → Bool → ExecutionResult F
  closed_volume code parsed p requested tolerance left complete =
      let actual = max nought (sub p.volume left) in
      let base = record parsed {
        ticket = some p.ticket;
        volume = some actual;
        verified = true;
        state_changed = gt actual tolerance;
        requested_volume = some requested;
        remaining_volume = some left;
      } in
      if complete
      then record base { success = true; error = none; partial = false }
      else record base {
        success = false;
        error = some close_incomplete;
        partial = gt actual tolerance || is_partial_code code;
      }

  abbrev pub close_unknown : ExecutionResult F → OpenPosition F → F → ExecutionResult F
  close_unknown parsed p requested = record (accepted_but parsed false close_unread) {
    ticket = some p.ticket;
    requested_volume = some requested;
  }

  abbrev pub close_remaining :
      Retcode
      → ExecutionResult F
      → OpenPosition F
      → F
      → F
      → Bool
      → Option F
      → Bool
      → ExecutionResult F
  close_remaining code parsed p requested tolerance false (some left) complete =
      closed_volume code parsed p requested tolerance left complete
  close_remaining code parsed p requested tolerance _ _ complete = close_unknown parsed p requested

  unfoldable pub reconcile_close_result :
      Option (SendResult F)
      → ExecutionResult F
      → OpenPosition F
      → F
      → SymbolInfo F
      → List (Option (List (OpenPosition F)))
      → ExecutionResult F
  reconcile_close_result none parsed p requested info reads = parsed
  reconcile_close_result (some answer) parsed p requested info reads =
      let expected = max nought (sub p.volume requested) in
      let tolerance = volume_tolerance info in
      let r = find_remaining expected tolerance unread reads in
      if not (completed_retcode (some answer))
      then parsed
      else close_remaining answer.retcode parsed p requested tolerance r.query_failed r.remaining
          r.complete
