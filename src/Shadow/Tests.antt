-- ===== src/Shadow/Tests.antt =====
-- Runs of the evaluations, on bars that are out of order.
use llm_trade.Prelude.{ℕ, ◌≡◌, ◌*◌, refl, Option, none, some, List, [], ◌∷◌}
use llm_trade.Float.Fixed.{Fixed, fixed_float}
use llm_trade.Settings.Sample.{usd, mills}
use llm_trade.Prelude.Int.{negsuc}
use llm_trade.Float.Fixed.{num}
use llm_trade.Risk.Trade.{buy, microseconds_per_minute}
use llm_trade.Shadow.{
  Bar, Candidate, Resolution, resolved, stop_loss_first, evaluate_shadow_candidate,
  evaluate_exit_counterfactual, sort_bars,
}
use llm_trade.Shadow.Resolved.{IsShadow, IsExit, evaluations-AreResolved}

abbrev bar_at : ℕ → ℕ → ℕ → Bar Fixed
bar_at minute high low = record {
  time = some (minute * microseconds_per_minute);
  high = some (usd high);
  low = some (usd low);
  close = some (usd low);
}

abbrev rejected_buy : Candidate Fixed
rejected_buy = record {
  action = some buy;
  entry = some (usd 100);
  stop_loss = some (usd 98);
  take_profit = some (usd 106);
  horizon_minutes = some (usd 60);
  start = some (10 * microseconds_per_minute);
  actual_exit_price = some (usd 101);
  realized_r = some (mills 500);
}

-- The stop is touched before the target, and a bar before the creation does not count.
abbrev bars : List (Bar Fixed)
bars = bar_at 13 107 101 ∷ bar_at 11 101 99 ∷ bar_at 9 107 97 ∷ bar_at 12 100 98 ∷ []

-- Sixty minutes for any horizon.
abbrev an_hour : Fixed → Option ℕ
an_hour minutes = some (60 * microseconds_per_minute)

abbrev stopped : Resolution Fixed
stopped = record {
  status = stop_loss_first;
  resolved_at = 12 * microseconds_per_minute;
  exit_price = usd 98;
  outcome_r = some (num (negsuc 999));
  delta_r = none;
  mfe_r = mills 500;
  mae_r = usd 1;
}

is_stopped :
    evaluate_shadow_candidate an_hour rejected_buy bars (20 * microseconds_per_minute)
    ≡ resolved stopped
unfolding evaluate_shadow_candidate sort_bars
is_stopped = refl

evaluations-AreResolved_example :
    (evaluate_shadow_candidate an_hour rejected_buy bars (20 * microseconds_per_minute)
        ≡ resolved stopped
      → IsShadow an_hour rejected_buy bars (20 * microseconds_per_minute) stopped)
    × (evaluate_exit_counterfactual an_hour rejected_buy bars (20 * microseconds_per_minute)
          ≡ resolved stopped
        → IsExit an_hour rejected_buy bars (20 * microseconds_per_minute) stopped)
evaluations-AreResolved_example =
    evaluations-AreResolved an_hour rejected_buy bars (20 * microseconds_per_minute)
