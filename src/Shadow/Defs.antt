-- ===== src/Shadow/Defs.antt =====
-- The data of core/shadow_outcomes.py, and the bars that are used.
use llm_trade.Prelude.{
  ℕ, Bool, true, false, ◌&&◌, Option, none, some, List, [], ◌∷◌, if◌then◌else◌, leb,
}
use llm_trade.Float.{Float}
use llm_trade.Risk.Trade.{Side}

pub record Bar (F : Type 0) : Type 0 where
  pub time : Option ℕ
  pub high : Option F
  pub low : Option F
  pub close : Option F

-- A bar that is used: its time and its finite prices.
pub record UsableBar (F : Type 0) : Type 0 where
  pub stamp : ℕ
  pub high : F
  pub low : F
  pub close : F

-- `horizon_minutes` is after its default; `start` is `created_at_utc` or `exit_time_utc`.
pub record Candidate (F : Type 0) : Type 0 where
  pub action : Option Side
  pub entry : Option F
  pub stop_loss : Option F
  pub take_profit : Option F
  pub horizon_minutes : Option F
  pub start : Option ℕ
  pub actual_exit_price : Option F
  pub realized_r : Option F

-- The plan that is evaluated, with a positive risk.
pub record Plan (F : Type 0) : Type 0 where
  pub side : Side
  pub entry : F
  pub stop : F
  pub target : F
  pub risk : F

-- The statuses of a touch after an exit are those of a touch; `horizon` is the timeout after an exit.
pub data Status : Type 0 where
  ambiguous take_profit_first stop_loss_first timeout_win timeout_loss timeout_flat horizon : Status

pub record Resolution (F : Type 0) : Type 0 where
  pub status : Status
  pub resolved_at : ℕ
  pub exit_price : F
  pub outcome_r : Option F
  pub delta_r : Option F
  pub mfe_r : F
  pub mae_r : F

-- No result is `pending`, and an exception is `raised`.
pub data Evaluation (F : Type 0) : Type 0 where
  raised pending : Evaluation F
  resolved : Resolution F → Evaluation F

-- What a bar touches.
pub data Touched : Type 0 where
  neither both target_only stop_only : Touched

-- The loop over the bars: the excursions, and the bar that ended it with what it touches.
pub record Scan (F : Type 0) : Type 0 where
  pub mfe : F
  pub mae : F
  pub hit : Option (UsableBar F × Touched)

abbrev pub touched_by : Bool → Bool → Touched
touched_by true true = both
touched_by true false = target_only
touched_by false true = stop_only
touched_by false false = neither

module _ {F : Type 0} where
  -- `list.sort` by the time, which is stable.
  abbrev pub insert_bar : UsableBar F → List (UsableBar F) → List (UsableBar F)
  insert_bar b [] = b ∷ []
  insert_bar b (x ∷ xs) = if leb b.stamp x.stamp then b ∷ x ∷ xs else x ∷ insert_bar b xs

  unfoldable pub sort_bars : List (UsableBar F) → List (UsableBar F)
  sort_bars [] = []
  sort_bars (b ∷ bs) = insert_bar b (sort_bars bs)

  abbrev pub last_bar : UsableBar F → List (UsableBar F) → UsableBar F
  last_bar b [] = b
  last_bar b (x ∷ xs) = last_bar x xs

  abbrev pub maybe_bar : Option (UsableBar F) → List (UsableBar F) → List (UsableBar F)
  maybe_bar none bars = bars
  maybe_bar (some b) bars = b ∷ bars

module _ {F : Type 0} ⦃fl : Float F⦄ where
  open fl use {dec, sub, div, neg, abs, lt, le, is_finite}

  abbrev pub finite_bar : ℕ → Option F → Option F → Option F → Option (UsableBar F)
  finite_bar stamp (some high) (some low) (some close) =
      if is_finite high && is_finite low && is_finite close
      then some (record { stamp = stamp; high = high; low = low; close = close })
      else none
  finite_bar stamp _ _ _ = none

  -- A bar of the window with finite prices.
  abbrev pub usable_at : (ℕ → Bool) → Option ℕ → Bar F → Option (UsableBar F)
  usable_at within none bar = none
  usable_at within (some stamp) bar =
      if within stamp then finite_bar stamp bar.high bar.low bar.close else none

  abbrev pub usable_bars : (ℕ → Bool) → List (Bar F) → List (UsableBar F)
  usable_bars within [] = []
  usable_bars within (bar ∷ bars) =
      maybe_bar (usable_at within bar.time bar) (usable_bars within bars)
