-- ===== src/Risk/Calendar/Tests.antt =====
-- Runs of the calendar gates.
use mathlib.Core.Logic.{◌↔◌}
use llm_trade.Prelude.{
  ℕ, ◌+◌, ◌*◌, ◌≤◌, ◌<◌, ◌≡◌, refl, true, false, ◌&&◌, none, some, [], ◌∷◌, map,
}
use llm_trade.Settings.Sample.{sample_settings}
use llm_trade.Text.{codes, upper, member}
use llm_trade.Risk.Trade.{microseconds_per_hour, microseconds_per_minute}
use llm_trade.Risk.Reason.{weekend_closed, news_lockout}
use llm_trade.Risk.Calendar.{CalendarEvent, forex_closed, check_weekend, check_news}
use llm_trade.Risk.Calendar.Lockout.{AreClear, hour_of_week, check_weekend_iff, check_news-AreClear}

-- Hours after the start of 5 January 1970, a Monday.
abbrev monday : ℕ → ℕ
monday hours = (96 + hours) * microseconds_per_hour

weekends :
    (check_weekend sample_settings (codes "EURUSD") (monday 117) ≡ none)
    × (check_weekend sample_settings (codes "EURUSD") (monday 118) ≡ some weekend_closed)
    × (check_weekend sample_settings (codes "BTCUSD") (monday 118) ≡ none)
    × (check_weekend sample_settings (codes "EURUSD") (monday 166) ≡ none)
unfolding check_weekend forex_closed
weekends = (refl, refl, refl, refl)

check_weekend_iff_example :
    let symbol = codes "EURUSD" in
    let allowed = true && member (upper symbol) (map upper (codes "btcusd" ∷ [])) in
    (allowed ≡ false
      → (check_weekend sample_settings symbol (monday 130) ≡ some weekend_closed)
        ↔ ((118 ≤ hour_of_week (monday 130)) × (hour_of_week (monday 130) < 166)))
    × (allowed ≡ true → check_weekend sample_settings symbol (monday 130) ≡ none)
check_weekend_iff_example = check_weekend_iff sample_settings (codes "EURUSD") (monday 130)

abbrev event : ℕ → CalendarEvent
event minutes = record {
  high = true;
  currency = codes "USD";
  time = some (monday 10 + minutes * microseconds_per_minute);
}

news :
    (check_news sample_settings (codes "EURUSD") (some (event 30 ∷ [])) (monday 10)
      ≡ some news_lockout)
    × (check_news sample_settings (codes "EURUSD") (some (event 31 ∷ [])) (monday 10) ≡ none)
    × (check_news sample_settings (codes "EURGBP") (some (event 0 ∷ [])) (monday 10) ≡ none)
unfolding check_news
news = (refl, refl, refl)

check_news-AreClear_example : AreClear (codes "EURUSD") 30 (monday 10) (event 31 ∷ [])
check_news-AreClear_example =
    check_news-AreClear sample_settings (codes "EURUSD") (event 31 ∷ []) 29 (monday 10) refl news.1
