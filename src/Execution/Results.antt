-- ===== src/Execution/Results.antt =====
-- `_parse_result`: what is made of the broker's answer to an order.
use llm_trade.Prelude.{ℕ, zero, suc, Bool, true, false, Option, none, some}
use llm_trade.Float.{Float, nought, max}
use llm_trade.Instruments.{SymbolInfo}
use llm_trade.Instruments.Spread.{or_nought}
use llm_trade.Execution.{
  Retcode, retcode_done, retcode_done_partial, ExecError, returned_none, partial_fill,
  broker_refused, ExecutionResult, SendResult, failed,
}

-- `_completed_retcode`, of a code
abbrev pub is_completed_code : Retcode → Bool
is_completed_code retcode_done = true
is_completed_code retcode_done_partial = true
is_completed_code _ = false

-- `order or deal or None`
abbrev pub ticket_of : ℕ → ℕ → Option ℕ
ticket_of zero zero = none
ticket_of zero (suc d) = some (suc d)
ticket_of (suc o) d = some (suc o)

module _ {F : Type 0} where
  unfoldable pub completed_retcode : Option (SendResult F) → Bool
  completed_retcode none = false
  completed_retcode (some answer) = is_completed_code answer.retcode

  abbrev pub parse_code : Retcode → SendResult F → ExecutionResult F
  parse_code retcode_done answer = record {
    success = true;
    ticket = ticket_of answer.order answer.deal;
    price = some answer.price;
    volume = some answer.volume;
    error = none;
    retcode = some retcode_done;
    partial = false;
    verified = false;
    state_changed = true;
    requested_volume = some answer.volume;
    remaining_volume = none;
  }
  parse_code retcode_done_partial answer = record {
    success = false;
    ticket = ticket_of answer.order answer.deal;
    price = some answer.price;
    volume = some answer.volume;
    error = some partial_fill;
    retcode = some retcode_done_partial;
    partial = true;
    verified = false;
    state_changed = true;
    requested_volume = some answer.volume;
    remaining_volume = none;
  }
  parse_code code answer = record (failed (ticket_of answer.order 0) (broker_refused code)) {
    retcode = some code;
  }

  unfoldable pub parse_result : Option (SendResult F) → ExecutionResult F
  parse_result none = failed none returned_none
  parse_result (some answer) = parse_code answer.retcode answer

  -- An accepted order whose outcome is a failure: the answer's price, volume and code stay.
  abbrev pub accepted_but : ExecutionResult F → Bool → ExecError → ExecutionResult F
  accepted_but parsed verified error = record parsed {
    success = false;
    error = some error;
    verified = verified;
    state_changed = true;
  }

module _ {F : Type 0} ⦃fl : Float F⦄ where
  open fl use {dec, add, sub, mul, abs, lt, le}

  unfoldable pub volume_tolerance : SymbolInfo F → F
  volume_tolerance info = max (dec 1 8) (mul (max nought (or_nought info.volume_step)) (dec 25 2))
