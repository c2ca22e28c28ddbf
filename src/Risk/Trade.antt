-- ===== src/Risk/Trade.antt =====
-- The rows of the trade history, and UTC time in whole microseconds since 1970, which is the
-- resolution of Python's `datetime`.
use llm_trade.Prelude.{ℕ, ◌/◌, Bool, Option, none, some}
use llm_trade.Float.{Float}
use llm_trade.Cell.{Cell, or_else, or_zero}

-- A time in a dictionary: `empty` is None or an empty text, `invalid` does not parse.
pub data Stamp : Type 0 where
  missing blank unreadable : Stamp
  at : ℕ → Stamp

pub data Side : Type 0 where
  buy sell : Side

pub record Trade (F : Type 0) : Type 0 where
  pub close_time : Stamp
  pub time : Stamp
  pub net_profit : Cell F
  pub profit : Cell F
  -- `str(trade.get("status", "")).upper() == "CLOSED"`
  pub status_closed : Bool
  -- the direction, if it reads BUY or SELL
  pub direction : Option Side

-- `_parse_utc_datetime`
abbrev pub parse_utc_datetime : Stamp → Option ℕ
parse_utc_datetime (at t) = some t
parse_utc_datetime _ = none

-- `d.get("close_time", d.get("time"))`
abbrev pub get_or_stamp : Stamp → Stamp → Stamp
get_or_stamp missing time = time
get_or_stamp stamp time = stamp

-- `d.get("close_time") or d.get("time")`
abbrev pub or_stamp : Stamp → Stamp → Stamp
or_stamp missing time = time
or_stamp blank time = time
or_stamp stamp time = stamp

abbrev pub microseconds_per_minute : ℕ
microseconds_per_minute = 60_000_000

abbrev pub microseconds_per_hour : ℕ
microseconds_per_hour = 3_600_000_000

-- `t.date()`, as a count of days
abbrev pub day_of : ℕ → ℕ
day_of t = t / 86_400_000_000

module _ {F : Type 0} ⦃fl : Float F⦄ where
  -- `float(trade.get("net_profit", trade.get("profit", 0.0)) or 0.0)`
  abbrev pub profit_of : Trade F → Option F
  profit_of trade = or_zero (or_else trade.net_profit trade.profit)

  abbrev pub is_loss : F → Bool
  is_loss pnl = fl.lt pnl (fl.dec 0 0)
