-- ===== src/Shadow.antt =====
-- core/shadow_outcomes.py: what a rejected entry, or a position that was closed early, would have come
-- to. A value that does not convert to a float, or a time that does not parse, is `none`;
-- `timedelta` gives the microseconds of a number of minutes, and `none` where it raises.
mod Defs
pub mod Bars
pub mod Touch
pub mod Resolved
mod Tests
unfoldable pub use Defs.*
use llm_trade.Prelude.{
  ℕ, Bool, true, false, not, ◌&&◌, ◌||◌, Option, none, some, List, [], ◌∷◌, if◌then◌else◌, ltb, leb,
  ◌+◌,
}
use llm_trade.Float.{Float, nought, gt, max, min}
use llm_trade.Risk.Trade.{Side, buy, sell}

module _ {F : Type 0} ⦃fl : Float F⦄ where
  open fl use {dec, sub, div, neg, abs, lt, le, is_finite}

  -- A touch ends the loop.
  abbrev pub stop_or : UsableBar F → Touched → F → F → Scan F → Scan F
  stop_or b neither mfe mae rest = rest
  stop_or b touched mfe mae rest = record { mfe = mfe; mae = mae; hit = some (b, touched) }

  abbrev pub signed : Side → F → F → F
  signed buy entry price = sub price entry
  signed sell entry price = sub entry price

  -- The best and the worst price of a bar.
  abbrev pub best : Side → UsableBar F → F
  best buy b = b.high
  best sell b = b.low

  abbrev pub worst : Side → UsableBar F → F
  worst buy b = b.low
  worst sell b = b.high

  abbrev pub target_hit : Side → F → UsableBar F → Bool
  target_hit buy target b = le target b.high
  target_hit sell target b = le b.low target

  abbrev pub stop_hit : Side → F → UsableBar F → Bool
  stop_hit buy stop b = le b.low stop
  stop_hit sell stop b = le stop b.high

  abbrev pub touch : Plan F → UsableBar F → Touched
  touch p b = touched_by (target_hit p.side p.target b) (stop_hit p.side p.stop b)

  -- The move of the price in the direction of the plan, in units of its risk.
  abbrev pub gain : Plan F → F → F
  gain p price = div (signed p.side p.entry price) p.risk

  abbrev pub favorable : Plan F → UsableBar F → F
  favorable p b = gain p (best p.side b)

  abbrev pub scan_from : Plan F → (F → UsableBar F → F) → F → F → List (UsableBar F) → Scan F
  scan_from p next_mae mfe mae [] = record { mfe = mfe; mae = mae; hit = none }
  scan_from p next_mae mfe mae (b ∷ bs) =
      stop_or b (touch p b) (max mfe (favorable p b)) (next_mae mae b)
        (scan_from p next_mae (max mfe (favorable p b)) (next_mae mae b) bs)

  -- `risk` and the checks of the prices.
  abbrev pub plan_of : Side → F → F → F → Option (Plan F)
  plan_of side entry stop target =
      let risk = abs (sub entry stop) in
      if not (is_finite entry && is_finite stop && is_finite target && is_finite risk)
        || le risk nought
      then none
      else some (record { side = side; entry = entry; stop = stop; target = target; risk = risk })

  abbrev pub plan_for : Option Side → Option F → Option F → Option F → Option (Plan F)
  plan_for (some side) (some entry) (some stop) (some target) = plan_of side entry stop target
  plan_for _ _ _ _ = none

  abbrev pub timeout_status : F → Status
  timeout_status outcome =
      if gt outcome (dec 2 2)
      then timeout_win
      else if lt outcome (neg (dec 2 2))
      then timeout_loss
      else timeout_flat

  abbrev pub resolution : Scan F → Status → ℕ → F → Option F → Option F → Evaluation F
  resolution s status stamp price outcome delta = resolved (record {
    status = status;
    resolved_at = stamp;
    exit_price = price;
    outcome_r = outcome;
    delta_r = delta;
    mfe_r = s.mfe;
    mae_r = s.mae;
  })

  -- The loop ended at a bar: `delta` is what an outcome is compared with.
  abbrev pub resolve_touch : Plan F → Scan F → (F → Option F) → UsableBar F → Touched → Evaluation F
  resolve_touch p s delta b neither = pending
  resolve_touch p s delta b both = resolution s ambiguous b.stamp b.close none none
  resolve_touch p s delta b target_only =
      let reward = div (abs (sub p.target p.entry)) p.risk in
      resolution s take_profit_first b.stamp p.target (some reward) (delta reward)
  resolve_touch p s delta b stop_only =
      resolution s stop_loss_first b.stamp p.stop (some (neg (dec 1 0))) (delta (neg (dec 1 0)))

  -- No bar ended it: after the deadline the last close counts.
  abbrev pub resolve_timeout :
      Plan F → Scan F → (F → Status) → (F → Option F) → Bool → List (UsableBar F) → Evaluation F
  resolve_timeout p s status delta late [] = pending
  resolve_timeout p s status delta late (b ∷ bs) =
      let final = last_bar b bs in
      let outcome = gain p final.close in
      if not late
      then pending
      else resolution s (status outcome) final.stamp final.close (some outcome) (delta outcome)

  abbrev pub resolve :
      Plan F
      → (F → Status)
      → (F → Option F)
      → Bool
      → List (UsableBar F)
      → Scan F
      → Option (UsableBar F × Touched)
      → Evaluation F
  resolve p status delta late bars s none = resolve_timeout p s status delta late bars
  resolve p status delta late bars s (some (b, touched)) = resolve_touch p s delta b touched

  abbrev pub evaluate :
      Plan F
      → F
      → (F → UsableBar F → F)
      → (F → Status)
      → (F → Option F)
      → Bool
      → List (UsableBar F)
      → Evaluation F
  evaluate p begin next_mae status delta late bars =
      let s = scan_from p next_mae begin begin bars in resolve p status delta late bars s s.hit

  -- The largest move against the plan, and the smallest gain.
  abbrev pub adverse_max : Plan F → F → UsableBar F → F
  adverse_max p mae b = max mae (div (signed p.side (worst p.side b) p.entry) p.risk)

  abbrev pub adverse_min : Plan F → F → UsableBar F → F
  adverse_min p mae b = min mae (gain p (worst p.side b))

module _ {F : Type 0} ⦃fl : Float F⦄ (timedelta : F → Option ℕ) where
  open fl use {dec, sub, is_finite}

  abbrev pub shadow_until : Plan F → ℕ → List (Bar F) → ℕ → Option ℕ → Evaluation F
  shadow_until p created bars now none = raised
  shadow_until p created bars now (some minutes) =
      let deadline = created + minutes in
      evaluate p nought (adverse_max p) timeout_status (λ outcome. none) (leb deadline now)
        (sort_bars (usable_bars (λ t. leb created t && leb t deadline) bars))

  abbrev pub shadow_of : Option (Plan F) → Option F → Option ℕ → List (Bar F) → ℕ → Evaluation F
  shadow_of (some p) (some minutes) (some created) bars now =
      shadow_until p created bars now (timedelta (max (dec 1 0) minutes))
  shadow_of _ _ _ bars now = pending

  unfoldable pub evaluate_shadow_candidate : Candidate F → List (Bar F) → ℕ → Evaluation F
  evaluate_shadow_candidate c bars now =
      shadow_of (plan_for c.action c.entry c.stop_loss c.take_profit) c.horizon_minutes c.start bars
        now

  abbrev pub exit_until : Plan F → F → F → ℕ → List (Bar F) → ℕ → Option ℕ → Evaluation F
  exit_until p actual realized exited bars now none = raised
  exit_until p actual realized exited bars now (some minutes) =
      let deadline = exited + minutes in
      evaluate p (gain p actual) (adverse_min p) (λ outcome. horizon)
        (λ outcome. some (sub outcome realized)) (leb deadline now)
        (sort_bars (usable_bars (λ t. ltb exited t && leb t deadline) bars))

  abbrev pub exit_of :
      Option (Plan F) → Option F → Option F → Option F → Option ℕ → List (Bar F) → ℕ → Evaluation F
  exit_of (some p) (some actual) (some realized) (some minutes) (some exited) bars now =
      if is_finite actual && is_finite realized && is_finite minutes
      then exit_until p actual realized exited bars now (timedelta (max (dec 1 0) minutes))
      else pending
  exit_of _ _ _ _ _ bars now = pending

  unfoldable pub evaluate_exit_counterfactual : Candidate F → List (Bar F) → ℕ → Evaluation F
  evaluate_exit_counterfactual c bars now =
      exit_of (plan_for c.action c.entry c.stop_loss c.take_profit) c.actual_exit_price c.realized_r
        c.horizon_minutes c.start bars now
