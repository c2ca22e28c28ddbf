-- ===== src/Execution/OpenResult.antt =====
-- `_reconcile_open_result`: the position that an accepted order opened, in at most three reads of the
-- symbol's positions.
pub mod Changed
pub mod Bound
use llm_trade.Prelude.{
  ℕ, zero, suc, Bool, true, false, not, ◌&&◌, ◌||◌, Option, none, some, List, [], ◌∷◌, any, filter,
  if◌then◌else◌, ◌==◌, ltb,
}
use llm_trade.Float.{Float, nought, gt, eq, max}
use llm_trade.Text.{Text}
use llm_trade.Risk.Trade.{Side, buy, sell}
use llm_trade.Instruments.{SymbolInfo}
use llm_trade.Instruments.Spread.{or_nought}
use llm_trade.Execution.{
  Retcode, retcode_done, retcode_done_partial, ExecError, returned_none, partial_fill,
  broker_refused, modify_closed, modify_unread, modify_lost, open_unread, open_unmatched,
  open_ambiguous, open_empty, open_excess, close_unread, close_incomplete, ExecutionResult,
  OpenPosition, SendResult, failed,
}
use llm_trade.Execution.Results.{
  is_completed_code, completed_retcode, accepted_but, volume_tolerance,
}

abbrev pub same_side : Side → Side → Bool
same_side buy buy = true
same_side sell sell = true
same_side _ _ = false

module _ {F : Type 0} ⦃fl : Float F⦄ where
  open fl use {dec, add, sub, mul, abs, lt, le}

  -- `{ticket: volume}.get(ticket, 0.0)`: a later position of the same ticket counts
  abbrev pub volume_before : F → List (OpenPosition F) → ℕ → F
  volume_before acc [] ticket = acc
  volume_before acc (p ∷ ps) ticket =
      volume_before (if p.ticket == ticket then p.volume else acc) ps ticket

  -- A strategy position of the side that has grown.
  abbrev pub is_candidate : ℕ → Side → List (OpenPosition F) → OpenPosition F → Bool
  is_candidate magic side before p =
      same_side p.side side
      && p.magic == magic
      && gt (or_nought p.volume) (add (volume_before nought before p.ticket) (dec 1 9))

  -- Candidates end the reads.
  abbrev pub or_rest :
      List (OpenPosition F) → Bool × List (OpenPosition F) → Bool × List (OpenPosition F)
  or_rest [] rest = rest
  or_rest (p ∷ ps) rest = (false, p ∷ ps)

  -- The reads of the positions, until one has candidates: whether the last read failed, and them.
  unfoldable pub find_candidates :
      (OpenPosition F → Bool)
      → Bool
      → List (OpenPosition F)
      → List (Option (List (OpenPosition F)))
      → Bool × List (OpenPosition F)
  find_candidates wanted query_failed candidates [] = (query_failed, candidates)
  find_candidates wanted query_failed candidates (none ∷ reads) =
      find_candidates wanted true candidates reads
  find_candidates wanted query_failed candidates (some positions ∷ reads) =
      or_rest (filter wanted positions) (find_candidates wanted false [] reads)

  -- The ticket is the order or the deal of the answer.
  abbrev pub is_named : SendResult F → OpenPosition F → Bool
  is_named answer p =
      (ltb 0 answer.order && p.ticket == answer.order)
      || (ltb 0 answer.deal && p.ticket == answer.deal)

  abbrev pub only : List (OpenPosition F) → Option (OpenPosition F)
  only (p ∷ []) = some p
  only _ = none

  -- One preferred candidate, or the only candidate.
  abbrev pub or_only : Option (OpenPosition F) → List (OpenPosition F) → Option (OpenPosition F)
  or_only (some p) candidates = some p
  or_only none candidates = only candidates

  abbrev pub bind_volume : ExecutionResult F → F → F → OpenPosition F → F → ExecutionResult F
  bind_volume parsed requested tolerance p actual =
      let bound = record parsed {
        ticket = some p.ticket;
        price = some p.price_open;
        volume = some actual;
        partial = false;
        verified = true;
        state_changed = true;
        requested_volume = some requested;
        remaining_volume = some p.volume;
      } in
      if le actual tolerance
      then record bound { success = false; error = some open_empty }
      else if gt actual (add requested tolerance)
      then record bound { success = false; error = some open_excess }
      else record bound {
        success = true;
        error = none;
        partial = lt (add actual tolerance) requested;
      }

  abbrev pub bind_position :
      ExecutionResult F
      → F
      → List (OpenPosition F)
      → SymbolInfo F
      → Option (OpenPosition F)
      → ExecutionResult F
  bind_position parsed requested before info none =
      record (accepted_but parsed true open_ambiguous) { requested_volume = some requested }
  bind_position parsed requested before info (some p) =
      bind_volume parsed requested (volume_tolerance info) p
        (max nought (sub p.volume (volume_before nought before p.ticket)))

  abbrev pub bind_candidates :
      SendResult F
      → ExecutionResult F
      → F
      → List (OpenPosition F)
      → SymbolInfo F
      → Bool × List (OpenPosition F)
      → ExecutionResult F
  bind_candidates answer parsed requested before info (true, candidates) =
      record (accepted_but parsed false open_unread) { requested_volume = some requested }
  bind_candidates answer parsed requested before info (false, []) =
      record (accepted_but parsed true open_unmatched) { requested_volume = some requested }
  bind_candidates answer parsed requested before info (false, c ∷ cs) =
      bind_position parsed requested before info
        (or_only (only (filter (is_named answer) (c ∷ cs))) (c ∷ cs))

  -- `_reconcile_open_result`, with the three reads of the symbol's positions.
  unfoldable pub reconcile_open_result :
      ℕ
      → Option (SendResult F)
      → ExecutionResult F
      → Side
      → F
      → List (OpenPosition F)
      → SymbolInfo F
      → List (Option (List (OpenPosition F)))
      → ExecutionResult F
  reconcile_open_result magic none parsed side requested before info reads = parsed
  reconcile_open_result magic (some answer) parsed side requested before info reads =
      if not (completed_retcode (some answer))
      then parsed
      else bind_candidates answer parsed requested before info
          (find_candidates (is_candidate magic side before) false [] reads)
