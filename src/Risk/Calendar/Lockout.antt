-- ===== src/Risk/Calendar/Lockout.antt =====
-- The weekend is one interval of the week, and the lockout keeps away from every event.
use mathlib.Core.Logic.{◌↔◌}
use llm_trade.Prelude.{
  ℕ, suc, ◌+◌, ◌*◌, ◌/◌, ◌%◌, ◌≤◌, ◌<◌, ◌≡◌, refl, subst, true, false, ◌&&◌, ◌||◌, none, some, List,
  [], ◌∷◌, any, All, map, arith, ◌⊎◌, leb, ltb, ◌==◌,
}
use llm_trade.Prelude.Int.{pos}
use llm_trade.Settings.{Settings}
use llm_trade.Text.{Text, upper, member}
use llm_trade.Risk.Reason.{weekend_closed}
use llm_trade.Risk.Trade.{day_of, microseconds_per_hour, microseconds_per_minute}
use llm_trade.Risk.Calendar.{
  forex_closed, CalendarEvent, concerns, within_minutes, is_near, locks, check_weekend, check_news,
}

-- Hours since the last Monday, 00:00 UTC.
abbrev pub hour_of_week : ℕ → ℕ
hour_of_week now = (now / microseconds_per_hour + 72) % 168

day_of_hours : (now : ℕ) → day_of now ≡ now / microseconds_per_hour / 24
day_of_hours now = omega arith

closed_hours :
    (h : ℕ)
    → let day = (h / 24 + 3) % 7 in
      let hour = h % 24 in
      (((day == 4 && leb 22 hour) || day == 5 || (day == 6 && ltb hour 22)) ≡ true)
      ↔ ((118 ≤ (h + 72) % 168) × ((h + 72) % 168 < 166))
closed_hours h = ((λ c. ground arith), λ c. ground arith)

forex_closed_hours :
    (now : ℕ) → (forex_closed now ≡ true) ↔ ((118 ≤ hour_of_week now) × (hour_of_week now < 166))
unfolding forex_closed
forex_closed_hours now = rw (day_of_hours now) (closed_hours (now / microseconds_per_hour))

-- No high-impact event of the symbol's currencies is within the minutes.
abbrev pub AreClear : Text → ℕ → ℕ → List CalendarEvent → Type 0
AreClear symbol minutes now = All (λ event.
    (t : ℕ)
    → event.high ≡ true
    → concerns symbol event ≡ true
    → event.time ≡ some t
    → (t + minutes * microseconds_per_minute < now) ⊎ (now + minutes * microseconds_per_minute < t))

event-clear :
    (symbol : Text) (minutes now t : ℕ) (event : CalendarEvent)
    → locks symbol minutes now event ≡ false
    → event.high ≡ true
    → concerns symbol event ≡ true
    → event.time ≡ some t
    → (t + minutes * microseconds_per_minute < now) ⊎ (now + minutes * microseconds_per_minute < t)
event-clear symbol minutes now t event free high concerned at =
    let near : is_near minutes now event.time ≡ false = ground arith in
    let out : within_minutes minutes now t ≡ false =
      subst (λ o. is_near minutes now o ≡ false) at near in
    ground arith

any-AreClear :
    (symbol : Text) (minutes now : ℕ) (events : List CalendarEvent)
    → any (locks symbol minutes now) events ≡ false
    → AreClear symbol minutes now events
any-AreClear symbol minutes now [] h = tt
any-AreClear symbol minutes now (event ∷ events) h = (
  λ t high concerned at. event-clear symbol minutes now t event (ground arith) high concerned at,
  any-AreClear symbol minutes now events (ground arith),
)

module _ {F : Type 0} where
  -- With the weekend switched off for the symbol, the weekend gate passes exactly outside the 48 hours
  -- from Friday, 22:00 UTC; for a configured weekend symbol it always passes.
  pub check_weekend_iff :
      (config : Settings F) (symbol : Text) (now : ℕ)
      → let allowed =
          config.weekend_trading_enabled
          && member (upper symbol) (map upper config.weekend_symbols) in
        (allowed ≡ false
          → (check_weekend config symbol now ≡ some weekend_closed)
            ↔ ((118 ≤ hour_of_week now) × (hour_of_week now < 166)))
        × (allowed ≡ true → check_weekend config symbol now ≡ none)
  unfolding check_weekend
  check_weekend_iff config symbol now =
      let (open_way, close_way) = forex_closed_hours now in
      (
        λ a. ((λ h. open_way (ground arith)), λ h. let closed = close_way h in rw (closed, a) refl),
        λ a. ground arith,
      )

  -- With a calendar and a positive lockout the news gate passes only if every high-impact event of
  -- one of the symbol's two currencies is further from now than the lockout, before and after.
  pub check_news-AreClear :
      (config : Settings F) (symbol : Text) (events : List CalendarEvent) (minutes now : ℕ)
      → config.news_lockout_minutes ≡ pos (suc minutes)
      → check_news config symbol (some events) now ≡ none
      → AreClear symbol (suc minutes) now events
  unfolding check_news
  check_news-AreClear config symbol events minutes now positive h =
      any-AreClear symbol (suc minutes) now events (ground arith)
