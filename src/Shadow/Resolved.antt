-- ===== src/Shadow/Resolved.antt =====
-- What the two evaluations resolve to.
use mathlib.Core.List.{Perm}
use llm_trade.Prelude.{
  ℕ, ◌+◌, ◌≡◌, refl, Bool, false, ◌&&◌, Option, none, some, List, arith, ◌⊎◌, inl, inr, Bool-cases,
  leb, ltb,
}
use llm_trade.Float.{Float, nought, max}
use llm_trade.Risk.Trade.{Side}
use llm_trade.Shadow.{
  Bar, UsableBar, Candidate, Plan, Status, horizon, Resolution, resolved, sort_bars, usable_bars,
  gain, plan_for, timeout_status, evaluate, adverse_max, adverse_min, shadow_until, shadow_of,
  evaluate_shadow_candidate, exit_until, exit_of, evaluate_exit_counterfactual,
}
use llm_trade.Shadow.Bars.{
  AreUsed, IsChronological, sort_bars-IsChronological, sort_bars-perm, usable_bars-AreUsed,
}
use llm_trade.Shadow.Touch.{IsTouched, IsTimeout, evaluate-IsEnd}

module _ {F : Type 0} ⦃fl : Float F⦄ where
  open fl use {dec, abs, sub, le, is_finite}

  -- The plan of a candidate has a positive risk; its bars are all of the input that are in the window
  -- and can be used, in an order of time, and the result is of the first that touches a level, or a
  -- timeout of them.
  pub record IsResolved (c : Candidate F) (status : F → Status) (within : ℕ → Bool) (late : Bool)
      (bars : List (Bar F)) (r : Resolution F) : Type 0 where
    pub plan : Plan F
    pub plan_is : plan_for c.action c.entry c.stop_loss c.take_profit ≡ some plan
    pub risk_some : le plan.risk nought ≡ false
    pub kept : List (UsableBar F)
    pub kept_are : AreUsed within bars kept
    pub used : List (UsableBar F)
    pub sorted : Perm used kept
    pub chronological : IsChronological used
    pub ended : IsTouched plan used r ⊎ IsTimeout plan status late used r

  plan_for-risk :
      (action : Option Side) (entry stop target : Option F) {p : Plan F}
      → plan_for action entry stop target ≡ some p
      → le p.risk nought ≡ false
  plan_for-risk none entry stop target h = cc
  plan_for-risk (some a) none stop target h = cc
  plan_for-risk (some a) (some e) none target h = cc
  plan_for-risk (some a) (some e) (some s) none h = cc
  plan_for-risk (some a) (some e) (some s) (some t) h = ground arith

  evaluate-IsResolved :
      (c : Candidate F) (p : Plan F) (begin : F) (next_mae : F → UsableBar F → F)
      (status : F → Status) (delta : F → Option F) (within : ℕ → Bool) (late : Bool)
      (bars : List (Bar F)) {r : Resolution F}
      → plan_for c.action c.entry c.stop_loss c.take_profit ≡ some p
      → evaluate p begin next_mae status delta late (sort_bars (usable_bars within bars))
        ≡ resolved r
      → IsResolved c status within late bars r
  evaluate-IsResolved c p begin next_mae status delta within late bars is h = record {
    plan = p;
    plan_is = is;
    risk_some = plan_for-risk c.action c.entry c.stop_loss c.take_profit is;
    kept = usable_bars within bars;
    kept_are = usable_bars-AreUsed within bars;
    used = sort_bars (usable_bars within bars);
    sorted = sort_bars-perm (usable_bars within bars);
    chronological = sort_bars-IsChronological (usable_bars within bars);
    ended = evaluate-IsEnd p begin next_mae status delta late _ h;
  }

  module _ (timedelta : F → Option ℕ) where
    -- From the creation to the deadline, the bounds included.
    pub record IsShadow (c : Candidate F) (bars : List (Bar F)) (now : ℕ) (r : Resolution F)
        : Type 0 where
      pub created : ℕ
      pub created_is : c.start ≡ some created
      pub minutes : F
      pub minutes_is : c.horizon_minutes ≡ some minutes
      pub length : ℕ
      pub length_is : timedelta (max (dec 1 0) minutes) ≡ some length
      pub resolved_as :
          IsResolved c timeout_status
            (λ t. leb created t && leb t (created + length))
            (leb (created + length) now)
            bars
            r

    -- After the exit, to the deadline.
    pub record IsExit (c : Candidate F) (bars : List (Bar F)) (now : ℕ) (r : Resolution F)
        : Type 0 where
      pub exited : ℕ
      pub exited_is : c.start ≡ some exited
      pub minutes : F
      pub minutes_is : c.horizon_minutes ≡ some minutes
      pub length : ℕ
      pub length_is : timedelta (max (dec 1 0) minutes) ≡ some length
      pub resolved_as :
          IsResolved c
            (λ outcome. horizon)
            (λ t. ltb exited t && leb t (exited + length))
            (leb (exited + length) now)
            bars
            r

    module _ (c : Candidate F) (bars : List (Bar F)) (now : ℕ) {r : Resolution F} where
      shadow_until-IsShadow :
          (p : Plan F) (minutes : F) (created : ℕ) (length : Option ℕ)
          → plan_for c.action c.entry c.stop_loss c.take_profit ≡ some p
          → c.horizon_minutes ≡ some minutes
          → c.start ≡ some created
          → timedelta (max (dec 1 0) minutes) ≡ length
          → shadow_until timedelta p created bars now length ≡ resolved r
          → IsShadow c bars now r
      shadow_until-IsShadow p minutes created none pi mi ci li h = cc
      shadow_until-IsShadow p minutes created (some length) pi mi ci li h = record {
        created = created;
        created_is = ci;
        minutes = minutes;
        minutes_is = mi;
        length = length;
        length_is = li;
        resolved_as =
            evaluate-IsResolved c p nought (adverse_max p) timeout_status (λ outcome. none) _ _ bars
              pi h;
      }

      shadow_of-IsShadow :
          (p : Option (Plan F)) (minutes : Option F) (created : Option ℕ)
          → plan_for c.action c.entry c.stop_loss c.take_profit ≡ p
          → c.horizon_minutes ≡ minutes
          → c.start ≡ created
          → shadow_of timedelta p minutes created bars now ≡ resolved r
          → IsShadow c bars now r
      shadow_of-IsShadow none minutes created pi mi ci h = cc
      shadow_of-IsShadow (some p) none created pi mi ci h = cc
      shadow_of-IsShadow (some p) (some minutes) none pi mi ci h = cc
      shadow_of-IsShadow (some p) (some minutes) (some created) pi mi ci h =
          shadow_until-IsShadow p minutes created _ pi mi ci refl h

      exit_until-IsExit :
          (p : Plan F) (actual realized minutes : F) (exited : ℕ) (length : Option ℕ)
          → plan_for c.action c.entry c.stop_loss c.take_profit ≡ some p
          → c.horizon_minutes ≡ some minutes
          → c.start ≡ some exited
          → timedelta (max (dec 1 0) minutes) ≡ length
          → exit_until timedelta p actual realized exited bars now length ≡ resolved r
          → IsExit c bars now r
      exit_until-IsExit p actual realized minutes exited none pi mi ei li h = cc
      exit_until-IsExit p actual realized minutes exited (some length) pi mi ei li h = record {
        exited = exited;
        exited_is = ei;
        minutes = minutes;
        minutes_is = mi;
        length = length;
        length_is = li;
        resolved_as =
            evaluate-IsResolved c p (gain p actual) (adverse_min p) (λ outcome. horizon)
              (λ outcome. some (sub outcome realized)) _ _ bars pi h;
      }

      exit_of-IsExit :
          (p : Option (Plan F)) (actual realized minutes : Option F) (exited : Option ℕ)
          → plan_for c.action c.entry c.stop_loss c.take_profit ≡ p
          → c.horizon_minutes ≡ minutes
          → c.start ≡ exited
          → exit_of timedelta p actual realized minutes exited bars now ≡ resolved r
          → IsExit c bars now r
      exit_of-IsExit none actual realized minutes exited pi mi ei h = cc
      exit_of-IsExit (some p) none realized minutes exited pi mi ei h = cc
      exit_of-IsExit (some p) (some a) none minutes exited pi mi ei h = cc
      exit_of-IsExit (some p) (some a) (some z) none exited pi mi ei h = cc
      exit_of-IsExit (some p) (some a) (some z) (some minutes) none pi mi ei h = cc
      exit_of-IsExit (some p) (some a) (some z) (some minutes) (some exited) pi mi ei h =
          elim (Bool-cases (is_finite a && is_finite z && is_finite minutes)) [
            | inr broken ↦ ground (arith, broken)
            | inl finite ↦
                exit_until-IsExit p a z minutes exited _ pi mi ei refl (ground (arith, finite))
          ]

      -- Both evaluations resolve a candidate of positive risk by exactly the bars of the input that have
      -- a time in its window and finite prices, none left out, in an order of time. The first of them
      -- that touches the stop or the target decides (a buy is at its target where the high reaches it
      -- and at its stop where the low falls to it, a sell the other way round): at both it is
      -- ambiguous and has no outcome, at the target it earns the reward in units of the risk, at the
      -- stop it loses one. A timeout is only of bars of which none touches a level, after the
      -- deadline, and its outcome is that of the last close. The window of a rejected entry begins at
      -- its creation, that of an exit after the exit.
      pub evaluations-AreResolved :
          (evaluate_shadow_candidate timedelta c bars now ≡ resolved r → IsShadow c bars now r)
          × (evaluate_exit_counterfactual timedelta c bars now ≡ resolved r → IsExit c bars now r)
      unfolding evaluate_shadow_candidate evaluate_exit_counterfactual
      evaluations-AreResolved =
          (shadow_of-IsShadow _ _ _ refl refl refl, exit_of-IsExit _ _ _ _ _ refl refl refl)
