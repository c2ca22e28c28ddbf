-- ===== src/Risk/Calendar.antt =====
-- The gates of `RiskManager` that depend on the time: the weekend and the news lockout.
pub mod Lockout
mod Tests
use llm_trade.Prelude.{
  ℕ, zero, suc, ◌+◌, ◌-◌, ◌*◌, ◌/◌, ◌%◌, Bool, true, false, not, ◌&&◌, ◌||◌, Option, none, some,
  List, [], ◌∷◌, map, any, if◌then◌else◌, ltb, leb, ◌==◌,
}
use llm_trade.Prelude.Int.{ℤ, pos, pos_part, leb_ℤ}
use llm_trade.Settings.{Settings}
use llm_trade.Text.{Text, upper, member, same_text}
use llm_trade.Instruments.{is_crypto_symbol}
use llm_trade.Risk.Trade.{day_of, microseconds_per_hour, microseconds_per_minute}
use llm_trade.Risk.Reason.{Reason, weekend_closed, news_unavailable, news_lockout}

-- `weekday()`, where Monday is 0: the first day of 1970 was a Thursday
abbrev pub weekday : ℕ → ℕ
weekday t = (day_of t + 3) % 7

abbrev pub hour_of : ℕ → ℕ
hour_of t = t / microseconds_per_hour % 24

unfoldable pub forex_closed : ℕ → Bool
forex_closed now =
    let day = weekday now in
    (day == 4 && leb 22 (hour_of now)) || day == 5 || (day == 6 && ltb (hour_of now) 22)

abbrev pub take_text : ℕ → Text → Text
take_text zero text = []
take_text (suc n) [] = []
take_text (suc n) (c ∷ cs) = c ∷ take_text n cs

abbrev pub drop_text : ℕ → Text → Text
drop_text zero text = text
drop_text (suc n) [] = []
drop_text (suc n) (c ∷ cs) = drop_text n cs

-- An event of the calendar: `time` is none where the text does not parse, and `high` that its impact
-- reads HIGH.
pub record CalendarEvent : Type 0 where
  pub high : Bool
  pub currency : Text
  pub time : Option ℕ

-- `abs((event_time - now).total_seconds()) / 60 <= lockout_minutes`, compared exactly
abbrev pub within_minutes : ℕ → ℕ → ℕ → Bool
within_minutes minutes now t =
    let limit = minutes * microseconds_per_minute in leb now (t + limit) && leb t (now + limit)

abbrev pub is_near : ℕ → ℕ → Option ℕ → Bool
is_near minutes now none = false
is_near minutes now (some t) = within_minutes minutes now t

-- The event's currency is one of the two of the symbol.
abbrev pub concerns : Text → CalendarEvent → Bool
concerns symbol event =
    same_text (upper event.currency) (upper (take_text 3 symbol))
    || same_text (upper event.currency) (upper (drop_text 3 symbol))

abbrev pub locks : Text → ℕ → ℕ → CalendarEvent → Bool
locks symbol minutes now event =
    event.high && concerns symbol event && is_near minutes now event.time

module _ {F : Type 0} where
  unfoldable pub check_weekend : Settings F → Text → ℕ → Option Reason
  check_weekend config symbol now =
      if not (forex_closed now)
      then none
      else if config.weekend_trading_enabled
          && member (upper symbol) (map upper config.weekend_symbols)
      then none
      else some weekend_closed

  unfoldable pub check_news : Settings F → Text → Option (List CalendarEvent) → ℕ → Option Reason
  check_news config symbol none now =
      if config.require_news_calendar && not (is_crypto_symbol {F = F} symbol none)
      then some news_unavailable
      else none
  check_news config symbol (some events) now =
      if leb_ℤ config.news_lockout_minutes (pos 0)
      then none
      else if any (locks symbol (pos_part config.news_lockout_minutes) now) events
      then some news_lockout
      else none
