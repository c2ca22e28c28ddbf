-- ===== src/Execution/Close.antt =====
-- `_submit_close`, `_submit_partial_close` and `_send_close_request`, as the terminal answers at their
-- different moments.
pub mod Sent
use llm_trade.Prelude.{
  ℕ, Bool, true, false, not, ◌&&◌, ◌||◌, Option, none, some, List, [], ◌∷◌, if◌then◌else◌,
}
use llm_trade.Prelude.Int.{ℤ, pos_part}
use llm_trade.Float.{Float, nought, gt, eq, min}
use llm_trade.Settings.{Settings}
use llm_trade.Risk.Trade.{Side, buy, sell}
use llm_trade.Instruments.{SymbolInfo, Tick}
use llm_trade.Broker.{Broker}
use llm_trade.Execution.{
  ExecError, positions_unknown, ticket_missing, partial_too_small, remainder_too_small,
  symbol_missing, quote_unavailable, dry_run_close, check_failed, uncaught, OpenPosition, Request,
  deal, Terminal, failed, failed_at, Submission, unsent,
}
use llm_trade.Execution.Results.{parse_result}
use llm_trade.Execution.ModifyResult.{or_else_float}
use llm_trade.Execution.CloseResult.{reconcile_close_result}
use llm_trade.Execution.Gates.{
  ExpectedAccount, validate_account_identity, entry_of, get_filling_mode,
}

-- The moments at which the worker asks the terminal, and the reads after the order.
pub record CloseMoments (F : Type 0) : Type 0 where
  pub at_position : Terminal F
  pub at_volume : Terminal F
  pub at_info : Terminal F
  pub at_tick : Terminal F
  pub at_check : Terminal F
  pub at_identity : Terminal F
  pub at_send : Terminal F
  pub at_first : Terminal F
  pub at_second : Terminal F
  pub at_third : Terminal F

abbrev pub opposite : Side → Side
opposite buy = sell
opposite sell = buy

module _ {F : Type 0} ⦃fl : Float F⦄ where
  open fl use {dec, add, sub, mul, div, lt, floor, round, of_int}

  -- The volume in whole steps, and `none` for an exception of the division or the rounding.
  abbrev pub stepped : F → Option ℤ → Option F
  stepped step none = none
  stepped step (some units) = some (round 8 (mul (of_int units) step))

  abbrev pub volume_in_steps : SymbolInfo F → F → Option F
  volume_in_steps info volume =
      let step = or_else_float info.volume_step info.volume_min in
      if eq step nought then none else stepped step (floor (div (add volume (dec 1 12)) step))

module _ {F : Type 0} ⦃fl : Float F⦄ (config : Settings F) (m : CloseMoments F)
    (expected : Option ExpectedAccount) (ticket : ℕ) where
  open fl use {sub, lt, round}

  abbrev pub refused_close : ExecError → Submission F
  refused_close error = unsent (failed (some ticket) error)

  module _ (p : OpenPosition F) where
    abbrev pub close_request : F → F → SymbolInfo F → Request F
    close_request volume price info = record {
      kind = deal (opposite p.side);
      symbol = p.symbol;
      position = some p.ticket;
      volume = volume;
      price = price;
      sl = nought;
      tp = nought;
      magic = config.strategy_magic;
      deviation = some (pos_part config.max_order_deviation_points);
      filling = some (get_filling_mode info.filling_mode);
    }

    abbrev pub reads : List (Option (List (OpenPosition F)))
    reads =
        m.at_first.positions_of_ticket p.ticket
        ∷ m.at_second.positions_of_ticket p.ticket
        ∷ m.at_third.positions_of_ticket p.ticket
        ∷ []

    abbrev pub send_close : F → Request F → SymbolInfo F → Submission F
    send_close volume request info =
        let answer = m.at_send.order_send request in
        record {
          result = reconcile_close_result answer (parse_result answer) p volume info reads;
          sent = some request;
          answer = answer;
        }

    abbrev pub verify_close : F → Request F → SymbolInfo F → Option ExecError → Submission F
    verify_close volume request info (some error) =
        unsent (failed_at (some p.ticket) none (some volume) error)
    verify_close volume request info none = send_close volume request info

    -- With a quote: the dry run, or the check, the account and the order.
    abbrev pub close_at : F → SymbolInfo F → F → Submission F
    close_at volume info price =
        let request = close_request volume price info in
        if config.dry_run
        then unsent (failed_at (some p.ticket) (some price) (some volume) dry_run_close)
        else if m.at_check.order_check request
        then verify_close volume request info
            (validate_account_identity config m.at_identity expected)
        else unsent (failed_at (some p.ticket) none (some volume) check_failed)

    abbrev pub close_quoted : F → SymbolInfo F → Option (Tick F) → Submission F
    close_quoted volume info none = unsent (failed (some p.ticket) quote_unavailable)
    close_quoted volume info (some tick) = close_at volume info (entry_of (opposite p.side) tick)

    abbrev pub close_known : F → Option (SymbolInfo F) → Submission F
    close_known volume none = unsent (failed (some p.ticket) symbol_missing)
    close_known volume (some info) =
        close_quoted volume info (m.at_tick.broker.symbol_info_tick p.symbol)

    -- `_send_close_request`
    unfoldable pub send_close_request : F → Submission F
    send_close_request volume = close_known volume (m.at_info.broker.symbol_info p.symbol)

    abbrev pub leaves_too_little : SymbolInfo F → F → Bool
    leaves_too_little info volume =
        let remaining = round 8 (sub p.volume volume) in
        gt remaining nought && lt remaining info.volume_min

    abbrev pub close_steps : SymbolInfo F → Option F → Submission F
    close_steps info none = refused_close uncaught
    close_steps info (some volume) =
        if leaves_too_little info volume
        then refused_close remainder_too_small
        else send_close_request volume

    -- Without metadata the volume stays as it was asked for.
    abbrev pub close_part : F → Option (SymbolInfo F) → Submission F
    close_part volume none = send_close_request volume
    close_part volume (some info) =
        let least = min volume p.volume in
        if lt least info.volume_min
        then refused_close partial_too_small
        else close_steps info (volume_in_steps info least)

  abbrev pub with_position :
      (OpenPosition F → Submission F) → Option (List (OpenPosition F)) → Submission F
  with_position next none = refused_close positions_unknown
  with_position next (some []) = refused_close ticket_missing
  with_position next (some (p ∷ ps)) = next p

  unfoldable pub submit_close : Submission F
  submit_close =
      with_position (λ p. send_close_request p p.volume) (m.at_position.positions_of_ticket ticket)

  unfoldable pub submit_partial_close : F → Submission F
  submit_partial_close volume =
      with_position (λ p. close_part p volume (m.at_volume.broker.symbol_info p.symbol))
        (m.at_position.positions_of_ticket ticket)
