-- ===== src/Execution/Modify.antt =====
-- `_submit_modify`, as the terminal answers at its different moments.
pub mod Rounded
pub mod Sent
use llm_trade.Prelude.{
  ℕ, Bool, true, false, not, ◌&&◌, ◌||◌, Option, none, some, List, [], ◌∷◌, if◌then◌else◌,
}
use llm_trade.Prelude.Int.{pos_part}
use llm_trade.Float.{Float, nought, gt, eq}
use llm_trade.Settings.{Settings}
use llm_trade.Risk.Trade.{Side, buy, sell}
use llm_trade.Instruments.{SymbolInfo, Tick}
use llm_trade.Instruments.Spread.{or_nought}
use llm_trade.Broker.{Broker}
use llm_trade.Execution.{
  ExecError, positions_unknown, ticket_missing, symbol_missing, quote_unavailable, dry_run_modify,
  check_failed, uncaught, ExecutionResult, OpenPosition, Request, change_levels, Terminal, failed,
  Submission, unsent,
}
use llm_trade.Execution.Results.{parse_result}
use llm_trade.Execution.ModifyResult.{reconcile_modify_result}
use llm_trade.Execution.Gates.{
  ExpectedAccount, Rounding, down, up, nearest_tick, validate_account_identity, entry_of,
  validate_stops, normalize_price,
}
use llm_trade.Execution.Close.{opposite}

-- The moments at which the worker asks the terminal, and the reads after the order.
pub record ModifyMoments (F : Type 0) : Type 0 where
  pub at_position : Terminal F
  pub at_info : Terminal F
  pub at_tick : Terminal F
  pub at_stops : Terminal F
  pub at_check : Terminal F
  pub at_identity : Terminal F
  pub at_send : Terminal F
  pub at_first : Terminal F
  pub at_second : Terminal F
  pub at_third : Terminal F

module _ {F : Type 0} ⦃fl : Float F⦄ where
  open fl use {lt, round}

  -- A stop beyond the entry is rounded towards the price, any other away from it.
  abbrev pub stop_rounding : Side → F → F → Rounding
  stop_rounding buy sl entry = if gt sl entry then up else down
  stop_rounding sell sl entry = if lt sl entry then down else up

  -- The stop of the request; `none` for an exception of the rounding.
  abbrev pub new_stop : OpenPosition F → SymbolInfo F → Option F → Option F
  new_stop p info none = some p.sl
  new_stop p info (some sl) = normalize_price info (stop_rounding p.side sl p.price_open) sl

  abbrev pub new_target : OpenPosition F → SymbolInfo F → Option F → Option F
  new_target p info none = some p.tp
  new_target p info (some tp) = normalize_price info nearest_tick tp

  -- `round(float(x or 0.0), digits)`
  abbrev pub level_on : SymbolInfo F → F → F
  level_on info x = round (pos_part info.digits) (or_nought x)

  abbrev pub are_kept : OpenPosition F → SymbolInfo F → F → F → Bool
  are_kept p info sl tp = eq sl (level_on info p.sl) && eq tp (level_on info p.tp)

module _ {F : Type 0} ⦃fl : Float F⦄ (config : Settings F) (m : ModifyMoments F)
    (expected : Option ExpectedAccount) (ticket : ℕ) where
  abbrev pub refused_modify : ExecError → Submission F
  refused_modify error = unsent (failed (some ticket) error)

  abbrev pub reads : List (Option (List (OpenPosition F)))
  reads =
      m.at_first.positions_of_ticket ticket
      ∷ m.at_second.positions_of_ticket ticket
      ∷ m.at_third.positions_of_ticket ticket
      ∷ []

  abbrev pub modify_request : OpenPosition F → F → F → Request F
  modify_request p sl tp = record {
    kind = change_levels;
    symbol = p.symbol;
    position = some ticket;
    volume = nought;
    price = nought;
    sl = sl;
    tp = tp;
    magic = config.strategy_magic;
    deviation = none;
    filling = none;
  }

  abbrev pub send_modify : Request F → SymbolInfo F → Submission F
  send_modify request info =
      let answer = m.at_send.order_send request in
      record {
        result =
            reconcile_modify_result answer (parse_result answer) ticket request.sl request.tp info
              reads;
        sent = some request;
        answer = answer;
      }

  abbrev pub verify_modify :
      OpenPosition F → Request F → SymbolInfo F → Option ExecError → Submission F
  verify_modify p request info (some error) = unsent (failed (some p.ticket) error)
  verify_modify p request info none = send_modify request info

  abbrev pub check_modify :
      OpenPosition F → Request F → SymbolInfo F → Option ExecError → Submission F
  check_modify p request info (some error) = refused_modify error
  check_modify p request info none =
      if m.at_check.order_check request
      then verify_modify p request info (validate_account_identity config m.at_identity expected)
      else unsent (failed (some p.ticket) check_failed)

  abbrev pub with_price : OpenPosition F → Request F → SymbolInfo F → Option (Tick F) → Submission F
  with_price p request info none = refused_modify quote_unavailable
  with_price p request info (some tick) = check_modify p request info (
      validate_stops config m.at_stops p.symbol p.side (entry_of (opposite p.side) tick) request.sl
        request.tp)

  -- The position has the levels already.
  abbrev pub kept_levels : OpenPosition F → Option ExecError → Submission F
  kept_levels p (some error) = unsent (failed (some p.ticket) error)
  kept_levels p none = unsent (record {
    success = true;
    ticket = some p.ticket;
    price = some (or_nought p.price_current);
    volume = some (or_nought p.volume);
    error = none;
    retcode = none;
    partial = false;
    verified = true;
    state_changed = false;
    requested_volume = none;
    remaining_volume = none;
  })

  abbrev pub change_to : OpenPosition F → SymbolInfo F → F → F → Submission F
  change_to p info sl tp =
      if are_kept p info sl tp
      then kept_levels p (validate_account_identity config m.at_identity expected)
      else with_price p (modify_request p sl tp) info (m.at_tick.broker.symbol_info_tick p.symbol)

  abbrev pub modify_levels : OpenPosition F → SymbolInfo F → Option F → Option F → Submission F
  modify_levels p info (some sl) (some tp) = change_to p info (level_on info sl) (level_on info tp)
  modify_levels p info _ _ = refused_modify uncaught

  abbrev pub modify_known :
      Option F → Option F → OpenPosition F → Option (SymbolInfo F) → Submission F
  modify_known sl_price tp_price p none = refused_modify symbol_missing
  modify_known sl_price tp_price p (some info) =
      modify_levels p info (new_stop p info sl_price) (new_target p info tp_price)

  abbrev pub modify_position : Option F → Option F → Option (List (OpenPosition F)) → Submission F
  modify_position sl_price tp_price none = refused_modify positions_unknown
  modify_position sl_price tp_price (some []) = refused_modify ticket_missing
  modify_position sl_price tp_price (some (p ∷ ps)) =
      if config.dry_run
      then refused_modify dry_run_modify
      else modify_known sl_price tp_price p (m.at_info.broker.symbol_info p.symbol)

  unfoldable pub submit_modify : Option F → Option F → Submission F
  submit_modify sl_price tp_price =
      modify_position sl_price tp_price (m.at_position.positions_of_ticket ticket)
