-- ===== src/Lib.antt =====
-- A model of the deterministic core of the LLM trading terminal: the gates and counters between
-- a proposed trade and the broker. The language model proposes a direction; the code modelled
-- here decides whether money is put at risk, and how much.
--
-- Files, and the code that each models (paths from the repository's root):
--   Float, Float/Order, Float/Fixed: Python's float as an interface with the order laws of IEEE
--     comparisons, and a fixed-point value of it on which the examples run.
--   Cell: float(...) of dictionary values; Settings: app_config/settings.py; Account: account_info.
--   Budget (Bounds, Daily): risk/budget.py, the capital at risk, the daily limit, an entry's budget.
--   Risk/Trade, Risk/Streak, Risk/State, Risk/Sync, Risk/Runs: the history, the losing streak and
--     the counters of RiskManager in risk/manager.py, and any sequence of its calls.
--   Text, Instruments (Defs, Spread, Tradable): risk/instruments.py, the asset class of a symbol, the
--     orders that it takes, and its spread. Letters are ASCII.
--   Broker: the MetaTrader terminal, a package outside the repository, as a record of its answers.
--   Costs (Bounds): risk/execution_costs.py, the loss of an order with slippage and costs.
--   Risk/Search, Risk/Sizing (Fits, Sized): _compute_lot_size of risk/manager.py. The fuel of the
--     binary search is two more than its upper bound, more than its interval can shrink.
--   Risk/Calendar (Lockout): the weekend and news gates of RiskManager.
--   Risk/Checks (Passed), Risk/Exposure (Margin, Stops, Bounded): the other gates; Risk/Override (Approved): validate_manual_override.
--     A record of four terminals stands for the terminal at the four moments at which it is asked.
--   Retention (Valid, Ratchet): core/profit_retention.py, the floor under an open profit.
--   Universe (Rotation): discovery_batch of core/market_universe.py. The loop recurs on the number of
--     markets that it has not visited.
--   Structure (Once, Gaps): market_structure/breakout.py, and the structure events and fair value
--     gaps of market_structure/smc.py.
--   Timebase (Age): mt5/timebase.py, the age of a quote; the remembered offsets are an association list.
--   Execution: execution/executor.py, with the terminal as a record of its answers at one moment.
--     Results, OpenResult (Changed, Bound), ModifyResult (Kept), CloseResult (Closed): what is made of the
--     broker's answers, from the three reads of the positions; Inflight (Exclusive): the guard of the
--     public operations, which interleave as steps of a relation; Retry (Once): _with_retry, whose
--     fuel is the three attempts of MAX_RETRIES; Gates: the checks before an order; Open (Affordable,
--     Sent, Ended, Single): _submit_open and open_trade, with a terminal for each moment at which
--     the worker asks and `uncaught` for an exception; Close (Sent), Modify (Rounded, Sent): _submit_close,
--     _submit_partial_close and _submit_modify; Protect (Better), Protect/Lock (Floor): the stops of
--     move_to_breakeven, apply_trailing_stop and lock_minimum_net_profit, whose loop of three tries
--     is the fuel of its search; Public (Moved): the operations around them, after the guards. Errors
--     with like texts share a constructor. Comments and the order lifetime of a request are left out.
--   Shadow (Defs, Bars, Touch, Resolved): core/shadow_outcomes.py, what a rejected entry or an early exit
--     would have come to.
--   Trend (Regime): core/trend_state.py.
-- Not modelled: log lines and the figures in rejection texts; rounding of floats, of which only
-- named laws are used; and the parts that are input and output (MetaTrader, the language model, the
-- database, the dashboard).
pub mod Prelude
pub mod Float
pub mod Cell
pub mod Settings
pub mod Account
pub mod Budget
pub mod Risk
pub mod Text
pub mod Instruments
pub mod Broker
pub mod Costs
pub mod Retention
pub mod Universe
pub mod Structure
pub mod Trend
pub mod Timebase
pub mod Execution
pub mod Shadow
