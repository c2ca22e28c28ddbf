-- ===== src/Execution/Open.antt =====
-- `_submit_open`, as the terminal answers at its different moments, and `open_trade` around it.
pub mod Affordable
pub mod Sent
pub mod Ended
pub mod Single
pub mod Tests
use llm_trade.Prelude.{
  ℕ, zero, suc, Bool, true, false, not, ◌&&◌, ◌||◌, Option, none, some, List, [], ◌∷◌,
  if◌then◌else◌,
}
use llm_trade.Prelude.Int.{pos_part}
use llm_trade.Float.{Float, nought, gt, eq, max}
use llm_trade.Text.{Text}
use llm_trade.Settings.{Settings}
use llm_trade.Timebase.{Offsets}
use llm_trade.Risk.Trade.{Side, buy, sell}
use llm_trade.Instruments.{SymbolInfo, Tick}
use llm_trade.Broker.{Broker}
use llm_trade.Costs.{ExecutionRiskEstimate, estimate_execution_risk}
use llm_trade.Execution.{
  ExecError, quote_unavailable, uncaught, budget_invalid, risk_unknown, risk_above_budget,
  reward_unknown, reward_too_small, dry_run_open, check_failed, no_attempts, positions_unknown,
  ExecutionResult, OpenPosition, Request, deal, Terminal, failed, SendResult, Submission, unsent,
}
use llm_trade.Execution.Results.{parse_result}
use llm_trade.Execution.OpenResult.{reconcile_open_result}
use llm_trade.Execution.Retry.{with_retry}
use llm_trade.Execution.Gates.{
  ExpectedAccount, ◌orelse◌, Rounding, down, up, validate_account_identity, validate_symbol,
  check_mode_of, validate_live_spread, validate_lot, validate_margin, entry_of, validate_stops,
  get_filling_mode, normalize_price,
}

-- The moments at which the worker asks the terminal, and the reads after the order.
pub record OpenMoments (F : Type 0) : Type 0 where
  pub at_account : Terminal F
  pub at_symbol : Terminal F
  pub at_mode : Terminal F
  pub at_spread : Terminal F
  pub at_lot : Terminal F
  pub at_margin : Terminal F
  pub at_quote : Terminal F
  pub at_stops : Terminal F
  pub at_risk : Terminal F
  pub at_reward : Terminal F
  pub at_check : Terminal F
  pub at_snapshot : Terminal F
  pub at_identity : Terminal F
  pub at_send : Terminal F
  pub at_first : Terminal F
  pub at_second : Terminal F
  pub at_third : Terminal F
  pub now : F

-- The arguments of `open_trade`, for a BUY or SELL.
pub record OpenOrder (F : Type 0) : Type 0 where
  pub symbol : Text
  pub side : Side
  pub lot : F
  pub sl_price : Option F
  pub tp_price : Option F
  pub expected_account : Option ExpectedAccount
  pub max_risk_usd : Option F

abbrev pub rounding_of : Side → Rounding
rounding_of buy = down
rounding_of sell = up

module _ {F : Type 0} where
  abbrev pub refused_open : ExecError → Submission F
  refused_open error = unsent (failed none error)

module _ {F : Type 0} ⦃fl : Float F⦄ (config : Settings F) (m : OpenMoments F)
    (o : OpenOrder F) where
  open fl use {dec, add, sub, mul, div, abs, lt, le, is_finite}

  -- What the order would earn against what it would risk.
  abbrev pub check_reward : ExecutionRiskEstimate F → Option F → Option ExecError
  check_reward estimate none = some reward_unknown
  check_reward estimate (some reward) =
      let net = max nought (sub reward estimate.configured_cost_usd) in
      if not (is_finite reward)
      then some reward_unknown
      else if lt (add (div net estimate.total_risk_usd) (dec 1 9)) config.min_risk_reward_ratio
      then some reward_too_small
      else none

  abbrev pub check_estimate : F → F → Option (ExecutionRiskEstimate F) → Option ExecError
  check_estimate budget tp none = some risk_unknown
  check_estimate budget tp (some estimate) =
      if gt estimate.total_risk_usd (add budget (dec 1 9))
      then some risk_above_budget
      else if eq tp nought
      then none
      else check_reward estimate
          (m.at_reward.broker.order_calc_profit o.side o.symbol o.lot estimate.worst_entry tp)

  -- The risk at the levels that will be sent, if there are a budget and a stop.
  abbrev pub check_final_risk : F → F → F → SymbolInfo F → Option F → Option ExecError
  check_final_risk price sl tp info none = none
  check_final_risk price sl tp info (some budget) =
      if eq sl nought
      then none
      else if not (is_finite budget) || le budget nought
      then some budget_invalid
      else check_estimate budget tp (
          estimate_execution_risk config m.at_risk.broker o.symbol (some o.side) o.lot price sl info
            none)

  abbrev pub request_of : F → F → F → SymbolInfo F → Request F
  request_of price sl tp info = record {
    kind = deal o.side;
    symbol = o.symbol;
    position = none;
    volume = o.lot;
    price = price;
    sl = sl;
    tp = tp;
    magic = config.strategy_magic;
    deviation = some (pos_part config.max_order_deviation_points);
    filling = some (get_filling_mode info.filling_mode);
  }

  abbrev pub simulated : F → ExecutionResult F
  simulated price = record {
    success = true;
    ticket = some 999_999;
    price = some price;
    volume = some o.lot;
    error = some dry_run_open;
    retcode = none;
    partial = false;
    verified = true;
    state_changed = false;
    requested_volume = some o.lot;
    remaining_volume = some o.lot;
  }

  abbrev pub reads : List (Option (List (OpenPosition F)))
  reads =
      m.at_first.positions_of_symbol o.symbol
      ∷ m.at_second.positions_of_symbol o.symbol
      ∷ m.at_third.positions_of_symbol o.symbol
      ∷ []

  abbrev pub send_open : Request F → List (OpenPosition F) → SymbolInfo F → Submission F
  send_open request before info =
      let answer = m.at_send.order_send request in
      record {
        result =
            reconcile_open_result config.strategy_magic answer (parse_result answer) o.side o.lot
              before info reads;
        sent = some request;
        answer = answer;
      }

  abbrev pub check_again :
      Request F → SymbolInfo F → List (OpenPosition F) → Option ExecError → Submission F
  check_again request info before (some error) = refused_open error
  check_again request info before none = send_open request before info

  abbrev pub with_snapshot :
      Request F → SymbolInfo F → Option (List (OpenPosition F)) → Submission F
  with_snapshot request info none = refused_open positions_unknown
  with_snapshot request info (some before) =
      check_again request info before
        (validate_account_identity config m.at_identity o.expected_account)

  -- After the levels and the risk: the dry run, or the check and the order.
  abbrev pub place : F → F → F → SymbolInfo F → Submission F
  place price sl tp info =
      let request = request_of price sl tp info in
      if config.dry_run
      then unsent (simulated price)
      else if m.at_check.order_check request
      then with_snapshot request info (m.at_snapshot.positions_of_symbol o.symbol)
      else refused_open check_failed

  abbrev pub place_unless : F → F → F → SymbolInfo F → Option ExecError → Submission F
  place_unless price sl tp info (some error) = refused_open error
  place_unless price sl tp info none = place price sl tp info

  -- `_normalize_price(float(x), ...) if x else 0.0`
  abbrev pub level_of : SymbolInfo F → Option F → Option F
  level_of info none = some nought
  level_of info (some x) =
      if eq x nought then some nought else normalize_price info (rounding_of o.side) x

  abbrev pub with_levels : F → SymbolInfo F → Option F → Option F → Submission F
  with_levels price info (some sl) (some tp) = place_unless price sl tp info (
      validate_stops config m.at_stops o.symbol o.side price sl tp
      orelse check_final_risk price sl tp info o.max_risk_usd)
  with_levels price info _ _ = refused_open uncaught

  abbrev pub with_quote : Option (SymbolInfo F) → Option (Tick F) → Submission F
  with_quote (some info) (some tick) =
      with_levels (entry_of o.side tick) info (level_of info o.sl_price) (level_of info o.tp_price)
  with_quote _ _ = refused_open quote_unavailable

  abbrev pub after_checks : Option ExecError → Submission F
  after_checks (some error) = refused_open error
  after_checks none =
      with_quote (m.at_quote.broker.symbol_info o.symbol)
        (m.at_quote.broker.symbol_info_tick o.symbol)

  -- The checks before the quote.
  abbrev pub before_spread : Option ExecError
  before_spread =
      validate_account_identity config m.at_account o.expected_account
      orelse validate_symbol m.at_symbol o.symbol
      orelse check_mode_of (m.at_mode.broker.symbol_info o.symbol) o.side

  abbrev pub after_spread : Option ExecError × Offsets → Submission F × Offsets
  after_spread (spread, offsets) = (
    after_checks (
        spread
        orelse validate_lot m.at_lot o.symbol o.lot
        orelse validate_margin m.at_margin o.symbol o.side o.lot),
    offsets,
  )

  abbrev pub unless_refused : Offsets → Option ExecError → Submission F × Offsets
  unless_refused offsets (some error) = (refused_open error, offsets)
  unless_refused offsets none =
      after_spread
        (validate_live_spread config m.at_spread m.now offsets o.symbol o.side o.sl_price)

  unfoldable pub submit_open : Offsets → Submission F × Offsets
  submit_open offsets = unless_refused offsets before_spread

module _ {F : Type 0} ⦃fl : Float F⦄ where
  -- What the time base remembers after the first attempts; they are counted from one.
  unfoldable pub offsets_after :
      Settings F → (ℕ → OpenMoments F) → OpenOrder F → Offsets → ℕ → Offsets
  offsets_after config moments o offsets zero = offsets
  offsets_after config moments o offsets (suc n) =
      (submit_open config (moments (suc n)) o (offsets_after config moments o offsets n)).1

  -- The submission of an attempt; there is none before the first.
  unfoldable pub open_attempt :
      Settings F → (ℕ → OpenMoments F) → OpenOrder F → Offsets → ℕ → Submission F
  open_attempt config moments o offsets zero = unsent (failed none no_attempts)
  open_attempt config moments o offsets (suc n) =
      (submit_open config (moments (suc n)) o (offsets_after config moments o offsets n)).0

  -- `open_trade` after its guards: the result, and the number of attempts.
  unfoldable pub open_trade :
      Settings F → Bool → Bool → (ℕ → OpenMoments F) → OpenOrder F → Offsets → ExecutionResult F × ℕ
  open_trade config is_connected initializes moments o offsets =
      with_retry is_connected initializes (λ n. (open_attempt config moments o offsets n).result)
