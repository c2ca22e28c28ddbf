-- ===== src/Execution/Public/Moved.antt =====
-- What the success of an operation that protects a profit says.
use llm_trade.Prelude.{
  ℕ, ◌≡◌, ◌≤◌, refl, sym, ap, ◌∙◌, Bool, true, Option, some, ◌⊎◌, inl, inr, arith,
}
use llm_trade.Float.{Float}
use llm_trade.Settings.{Settings}
use llm_trade.Execution.{ExecError, ExecutionResult}
use llm_trade.Execution.Retry.Once.{IsTried, with_retry-IsTried}
use llm_trade.Execution.Gates.{ExpectedAccount}
use llm_trade.Execution.Modify.{ModifyMoments, submit_modify}
use llm_trade.Execution.Modify.Sent.{IsModified, IsModifyEnded, submit_modify-IsModifyEnded}
use llm_trade.Execution.Modify.Rounded.{IsStopRounded, new_stop-IsStopRounded}
use llm_trade.Execution.Protect.{ProtectMoments, Levels}
use llm_trade.Execution.Protect.Better.{IsChosen, IsEven, IsTrailing, stops-AreChosen}
use llm_trade.Execution.Protect.Lock.Floor.{IsLocked, choose_lock-IsLocked}
use llm_trade.Execution.Public.{
  modify_sl_tp, move_stop, move_to_breakeven, apply_trailing_stop, lock_minimum_net_profit,
}

module _ {F : Type 0} ⦃fl : Float F⦄ (config : Settings F) (is_connected initializes : Bool)
    (expected : Option ExpectedAccount) (ticket : ℕ) (moments : ℕ → ModifyMoments F) where
  -- One of at most three attempts had the levels applied, or found them applied.
  pub record IsApplied (sl_price tp_price : Option F) : Type 0 where
    pub attempt : ℕ
    pub in_three : (1 ≤ attempt) × (attempt ≤ 3)
    pub applied :
        IsModified config
          (moments attempt)
          expected
          ticket
          sl_price
          tp_price
          (submit_modify config (moments attempt) expected ticket sl_price tp_price)
    pub successful :
        (submit_modify config (moments attempt) expected ticket sl_price tp_price).result.success
        ≡ true

  ended-IsModified :
      (sl_price tp_price : Option F) (n : ℕ)
      → IsModifyEnded config
          (moments n)
          expected
          ticket
          sl_price
          tp_price
          (submit_modify config (moments n) expected ticket sl_price tp_price)
      → (submit_modify config (moments n) expected ticket sl_price tp_price).result.success ≡ true
      → IsModified config
          (moments n)
          expected
          ticket
          sl_price
          tp_price
          (submit_modify config (moments n) expected ticket sl_price tp_price)
  ended-IsModified sl_price tp_price n (inl r) h = absurd (cc (r.failed_is, h))
  ended-IsModified sl_price tp_price n (inr i) h = i

  tried-IsApplied :
      (sl_price tp_price : Option F) (made : ExecutionResult F × ℕ)
      → IsTried
          (λ n. (submit_modify config (moments n) expected ticket sl_price tp_price).result)
          1
          4
          made
      → made.0.success ≡ true
      → IsApplied sl_price tp_price
  tried-IsApplied sl_price tp_price made t h =
      let s = sym (ap (λ r. r.success) t.result_is) ∙ h in
      record {
        attempt = made.1;
        in_three = (t.bounds.0, omega (arith, t.bounds.1));
        applied =
            ended-IsModified sl_price tp_price made.1
              (submit_modify-IsModifyEnded config (moments made.1) expected ticket sl_price
                tp_price)
              s;
        successful = s;
      }

  modify_sl_tp-IsApplied :
      (sl_price tp_price : Option F)
      → (modify_sl_tp config is_connected initializes expected ticket moments sl_price
          tp_price).0.success
        ≡ true
      → IsApplied sl_price tp_price
  unfolding modify_sl_tp
  modify_sl_tp-IsApplied sl_price tp_price h =
      elim (with_retry-IsTried is_connected initializes
        (λ n. (submit_modify config (moments n) expected ticket sl_price tp_price).result)) [
          | inl offline ↦ absurd (cc (ap (λ r. r.0.success) offline, h))
          | inr t ↦ tried-IsApplied sl_price tp_price _ t h
        ]

  -- The levels were chosen and are good; they were applied, the stop as it is rounded to the grid.
  pub record IsMoved (good : Levels F → Type 0) : Type 0 where
    pub levels : Levels F
    pub good_is : good levels
    pub applied : IsApplied (some levels.sl_price) levels.tp_price
    pub rounded :
        IsStopRounded applied.applied.position.side applied.applied.info
          applied.applied.position.price_open levels.sl_price applied.applied.sl

  move_stop-IsMoved :
      (good : Levels F → Type 0) (chosen : ExecError ⊎ Levels F)
      → ((l : Levels F) → chosen ≡ inr l → good l)
      → (move_stop config is_connected initializes expected ticket moments chosen).0.success ≡ true
      → IsMoved good
  unfolding move_stop
  move_stop-IsMoved good (inl error) f h = cc
  move_stop-IsMoved good (inr l) f h =
      let a = modify_sl_tp-IsApplied (some l.sl_price) l.tp_price h in
      record {
        levels = l;
        good_is = f l refl;
        applied = a;
        rounded =
            new_stop-IsStopRounded a.applied.position.side a.applied.info
              a.applied.position.price_open l.sl_price a.applied.sl_is;
      }

  -- Break-even, the trailing stop and the profit lock are successful only if they chose a stop that is
  -- higher for a buy and lower for a sell than the one of the position, where that has one, and one of
  -- at most three attempts had it applied, or found it applied, together with the target. For
  -- break-even the price has come as far as the chosen stop; for the profit lock the broker itself
  -- projects the floor at it. What is applied is the chosen stop as the attempt rounds it to the grid:
  -- one of a buy up where it is above the entry, else down, one of a sell down where it is below the
  -- entry, else up. So a stop that is short of the entry can come out a tick worse than the chosen one.
  pub protections-AreMoved :
      (m : ProtectMoments F) (amount : F)
      → ((move_to_breakeven config is_connected initializes expected ticket m moments
              amount).0.success
            ≡ true
          → IsMoved (IsChosen m ticket (IsEven m ticket)))
        × ((apply_trailing_stop config is_connected initializes expected ticket m moments
                amount).0.success
              ≡ true
            → IsMoved (IsChosen m ticket (IsTrailing m ticket)))
        × ((lock_minimum_net_profit config is_connected initializes expected ticket m moments
                amount).0.success
              ≡ true
            → IsMoved (IsLocked config m ticket amount))
  unfolding move_to_breakeven apply_trailing_stop lock_minimum_net_profit
  protections-AreMoved m amount = (
    move_stop-IsMoved _ _ (λ l. (stops-AreChosen m ticket amount l).0),
    move_stop-IsMoved _ _ (λ l. (stops-AreChosen m ticket amount l).1),
    move_stop-IsMoved _ _ (λ l. choose_lock-IsLocked config m ticket amount {l = l}),
  )
