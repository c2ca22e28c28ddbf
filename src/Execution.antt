-- ===== src/Execution.antt =====
-- execution/executor.py: the orders that go to the broker and what is made of its answers.
-- `uncaught` stands for an exception that leaves the call; the figures in error texts and the log
-- lines are left out.
pub mod Results
pub mod OpenResult
pub mod ModifyResult
pub mod CloseResult
pub mod Inflight
pub mod Retry
pub mod Gates
pub mod Open
pub mod Close
pub mod Modify
pub mod Protect
pub mod Public
mod Tests
use llm_trade.Prelude.{ℕ, zero, suc, Bool, true, false, Option, none, some, List, if◌then◌else◌}
use llm_trade.Float.{Float}
use llm_trade.Text.{Text}
use llm_trade.Risk.Trade.{Side}
use llm_trade.Instruments.{ModeError}
use llm_trade.Instruments.Spread.{SpreadError}
use llm_trade.Broker.{Broker}

-- The return codes of `order_send` that the code names, which are different numbers, and the others.
pub data Retcode : Type 0 where
  retcode_done retcode_done_partial retcode_requote retcode_price_changed retcode_price_off :
      Retcode
  retcode_other : ℕ → Retcode

pub data ExecError : Type 0 where
  returned_none partial_fill dry_run_open dry_run_modify dry_run_close uncaught : ExecError
  broker_refused : Retcode → ExecError
  no_connection no_attempts shutting_down duplicate_request : ExecError
  account_unverified terminal_disconnected trading_disabled account_changed : ExecError
  symbol_unselected symbol_missing symbol_hidden spread_unavailable quote_stale : ExecError
  bad_mode : ModeError → ExecError
  bad_spread : SpreadError → ExecError
  lot_too_small lot_too_large lot_off_step : ExecError
  margin_quote margin_unknown margin_account margin_short quote_unavailable : ExecError
  levels_required constraints_unknown buy_levels sell_levels stop_distance : ExecError
  budget_invalid risk_unknown risk_above_budget reward_unknown reward_too_small : ExecError
  check_failed positions_unknown ticket_missing partial_too_small remainder_too_small : ExecError
  modify_closed modify_unread modify_lost : ExecError
  open_unread open_unmatched open_ambiguous open_empty open_excess : ExecError
  close_unread close_incomplete : ExecError
  not_in_profit would_worsen floor_invalid pip_invalid cost_invalid lock_unpriced lock_unreached :
      ExecError
  too_close : ExecError

pub record ExecutionResult (F : Type 0) : Type 0 where
  pub success : Bool
  pub ticket : Option ℕ
  pub price : Option F
  pub volume : Option F
  pub error : Option ExecError
  pub retcode : Option Retcode
  pub partial : Bool
  pub verified : Bool
  pub state_changed : Bool
  pub requested_volume : Option F
  pub remaining_volume : Option F

-- A position of `mt5.positions_get`; its type is BUY or SELL.
pub record OpenPosition (F : Type 0) : Type 0 where
  pub ticket : ℕ
  pub symbol : Text
  pub side : Side
  pub magic : ℕ
  pub volume : F
  pub price_open : F
  pub price_current : F
  pub sl : F
  pub tp : F
  pub swap : F

-- The answer of `mt5.order_send`.
pub record SendResult (F : Type 0) : Type 0 where
  pub retcode : Retcode
  pub order : ℕ
  pub deal : ℕ
  pub price : F
  pub volume : F

-- What `order_send` is given; `position` is the ticket that a request is about.
pub data RequestKind : Type 0 where
  deal : Side → RequestKind
  change_levels : RequestKind

pub data Filling : Type 0 where
  fill_or_kill immediate_or_cancel return_rest : Filling

-- The deviation and the filling are those of a deal.
pub record Request (F : Type 0) : Type 0 where
  pub kind : RequestKind
  pub symbol : Text
  pub position : Option ℕ
  pub volume : F
  pub price : F
  pub sl : F
  pub tp : F
  pub magic : ℕ
  pub deviation : Option ℕ
  pub filling : Option Filling

pub record AccountState (F : Type 0) : Type 0 where
  pub login : ℕ
  pub server : Text
  pub company : Text
  pub trade_mode : ℕ
  pub trade_allowed : Bool
  pub trade_expert : Bool
  pub margin_free : F

pub record TerminalState : Type 0 where
  pub connected : Bool
  pub trade_allowed : Bool
  pub tradeapi_disabled : Bool

-- The terminal at one moment; `order_check` is whether the check returned 0.
pub record Terminal (F : Type 0) : Type 0 where
  pub broker : Broker F
  pub symbol_select : Text → Bool
  pub account_info : Option (AccountState F)
  pub terminal_info : Option TerminalState
  pub positions_of_symbol : Text → Option (List (OpenPosition F))
  pub positions_of_ticket : ℕ → Option (List (OpenPosition F))
  pub order_check : Request F → Bool
  pub order_send : Request F → Option (SendResult F)

module _ {F : Type 0} where
  -- `ExecutionResult(False, ticket, price, volume, error)`
  abbrev pub failed_at : Option ℕ → Option F → Option F → ExecError → ExecutionResult F
  failed_at ticket price volume error = record {
    success = false;
    ticket = ticket;
    price = price;
    volume = volume;
    error = some error;
    retcode = none;
    partial = false;
    verified = false;
    state_changed = false;
    requested_volume = none;
    remaining_volume = none;
  }

  abbrev pub failed : Option ℕ → ExecError → ExecutionResult F
  failed ticket error = failed_at ticket none none error

-- The result of a worker, what it gave to `order_send`, and the broker's answer.
pub record Submission (F : Type 0) : Type 0 where
  pub result : ExecutionResult F
  pub sent : Option (Request F)
  pub answer : Option (SendResult F)

module _ {F : Type 0} where
  -- An end before `order_send`.
  abbrev pub unsent : ExecutionResult F → Submission F
  unsent result = record { result = result; sent = none; answer = none }
