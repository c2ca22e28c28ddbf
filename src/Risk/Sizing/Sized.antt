-- ===== src/Risk/Sizing/Sized.antt =====
-- A sized order was priced by the broker and stays within the budget of the entry.
use llm_trade.Prelude.{
  ℕ, ◌≡◌, refl, ap, subst, ◌≢◌, ◌⊎◌, inl, inr, Bool, true, false, not, ◌||◌, Option, none, some,
  List, arith, Bool-cases,
}
use llm_trade.Float.{Float, nought, IsOrdered}
use llm_trade.Settings.{Settings}
use llm_trade.Account.{Account}
use llm_trade.Text.{Text}
use llm_trade.Budget.{entry_risk_budget, risk_capital}
use llm_trade.Risk.Trade.{Trade, Side}
use llm_trade.Risk.State.{State}
use llm_trade.Cell.{required}
use llm_trade.Risk.Reason.{Reason, lot_capital, lot_percent, lot_budget}
use llm_trade.Instruments.{SymbolInfo, Tick}
use llm_trade.Broker.{Broker}
use llm_trade.Costs.{ExecutionRiskEstimate}
use llm_trade.Risk.Sizing.{
  Decision, SizingOptions, Sizing, SizingResult, sized, refused, stuck, Chosen, chosen, not_chosen,
  failed, looping, base_percent, scaled_percent, with_reward, finish, estimate_lot, size_order,
  streak_of, size_within, compute_lot_size,
}
use llm_trade.Risk.Sizing.Fits.{IsAffordable, IsFit, choose_lot-IsFit}

module _ {F : Type 0} ⦃fl : Float F⦄ where
  open fl use {le, lt}

  -- What a sized order promises.
  pub record IsSized (config : Settings F) (broker : Broker F) (symbol : Text) (s : State F)
      (account : Account F) (decision : Decision F) (options : SizingOptions F) (lot : F)
      (sizing : Sizing F) : Type 0 where
    pub side : Side
    pub stop : F
    pub target : F
    pub info : SymbolInfo F
    pub tick : Tick F
    pub estimate : ExecutionRiskEstimate F
    pub percent : F
    pub action_is : decision.action ≡ some side
    pub stop_is : decision.stop_loss ≡ some stop
    pub target_is : decision.take_profit ≡ some target
    pub info_is : broker.symbol_info symbol ≡ some info
    pub tick_is : broker.symbol_info_tick symbol ≡ some tick
    pub priced : estimate_lot config broker symbol side stop info tick lot ≡ some estimate
    pub affordable :
        IsAffordable (entry_risk_budget account config (some percent) s.daily_loss_usd) estimate
    pub at_minimum : (lot ≡ info.volume_min) ⊎ (lt lot info.volume_min ≡ false)
    pub reported : sizing.risk_usd ≡ fl.round 4 estimate.total_risk_usd
    pub budgeted :
        le (entry_risk_budget account config (some percent) s.daily_loss_usd) nought ≡ false
    pub unraised : lt (base_percent config decision options.risk_pct_override) percent ≡ false

module _ {F : Type 0} ⦃fl : Float F⦄ (laws : IsOrdered F) where
  open fl use {le, lt}

  -- The recorded risk is that of the estimate.
  with_reward-sized :
      (config : Settings F) (enforce : Bool) (balance budget lot : F) (e : ExecutionRiskEstimate F)
      (answer : Option F) {l : F} {sizing : Sizing F}
      → with_reward config enforce balance budget lot e answer ≡ sized l sizing
      → (lot ≡ l) × (sizing.risk_usd ≡ fl.round 4 e.total_risk_usd)
  with_reward-sized config enforce balance budget lot e none h = cc
  with_reward-sized config enforce balance budget lot e (some result) h = ground arith

  with_reward-ne-stuck :
      (config : Settings F) (enforce : Bool) (balance budget lot : F) (e : ExecutionRiskEstimate F)
      (answer : Option F)
      → with_reward config enforce balance budget lot e answer ≢ stuck
  with_reward-ne-stuck config enforce balance budget lot e none h = cc
  with_reward-ne-stuck config enforce balance budget lot e (some result) h = ground arith

  module _ (config : Settings F) (broker : Broker F) (symbol : Text) (options : SizingOptions F)
      (balance budget : F) where
    finish-sized :
        (side : Side) (target : F) (c : Chosen F) {lot : F} {sizing : Sizing F}
        → finish config broker symbol options balance budget side target c ≡ sized lot sizing
        → (e : ExecutionRiskEstimate F) × (c ≡ chosen lot e)
          × (sizing.risk_usd ≡ fl.round 4 e.total_risk_usd)
    finish-sized side target (not_chosen reason) h = cc
    finish-sized side target failed h = cc
    finish-sized side target looping h = cc
    finish-sized side target (chosen lot e) h =
        let (same, risk) =
          with_reward-sized config options.enforce_profit_objective balance budget lot e _ h in
        (e, ap (λ x. chosen x e) same, risk)

    finish-ne-stuck :
        (side : Side) (target least : F) (estimate : F → Option (ExecutionRiskEstimate F))
        (c : Chosen F)
        → IsFit least budget estimate c
        → finish config broker symbol options balance budget side target c ≢ stuck
    finish-ne-stuck side target least estimate (not_chosen reason) f h = cc
    finish-ne-stuck side target least estimate failed f h = cc
    finish-ne-stuck side target least estimate looping f h = elim f [ ]
    finish-ne-stuck side target least estimate (chosen lot e) f h =
        with_reward-ne-stuck config options.enforce_profit_objective balance budget lot e _ h

    -- The parts of an order that was sized for an action, levels and a quote.
    record IsOrder (action : Option Side) (stop_loss take_profit : Option F)
        (info_of : Option (SymbolInfo F)) (tick_of : Option (Tick F)) (lot : F) (sizing : Sizing F)
        : Type 0 where
      side : Side
      stop : F
      target : F
      info : SymbolInfo F
      tick : Tick F
      estimate : ExecutionRiskEstimate F
      action_is : action ≡ some side
      stop_is : stop_loss ≡ some stop
      target_is : take_profit ≡ some target
      info_is : info_of ≡ some info
      tick_is : tick_of ≡ some tick
      fit :
          IsFit info.volume_min budget
            (estimate_lot config broker symbol side stop info tick)
            (chosen lot estimate)
      reported : sizing.risk_usd ≡ fl.round 4 estimate.total_risk_usd

    size_order-IsOrder :
        (action : Option Side) (stop_loss take_profit : Option F) (info_of : Option (SymbolInfo F))
        (tick_of : Option (Tick F)) {lot : F} {sizing : Sizing F}
        → size_order config broker symbol options balance budget action stop_loss take_profit
            info_of tick_of
          ≡ sized lot sizing
        → IsOrder action stop_loss take_profit info_of tick_of lot sizing
    size_order-IsOrder (some side) (some stop) (some target) (some info) (some tick) h =
        let (e, is, risk) = finish-sized side target _ h in
        record {
          side = side;
          stop = stop;
          target = target;
          info = info;
          tick = tick;
          estimate = e;
          action_is = refl;
          stop_is = refl;
          target_is = refl;
          info_is = refl;
          tick_is = refl;
          fit =
              subst
                (IsFit info.volume_min budget
                  (estimate_lot config broker symbol side stop info tick))
                is
                (choose_lot-IsFit laws info budget options.force_minimum_lot
                  (estimate_lot config broker symbol side stop info tick));
          reported = risk;
        }
    size_order-IsOrder (some side) (some stop) (some target) (some info) none h = cc
    size_order-IsOrder (some side) (some stop) (some target) none tick h = cc
    size_order-IsOrder (some side) (some stop) none info tick h = cc
    size_order-IsOrder (some side) none target info tick h = cc
    size_order-IsOrder none stop target info tick h = cc

    size_order-ne-stuck :
        (action : Option Side) (stop_loss take_profit : Option F) (info_of : Option (SymbolInfo F))
        (tick_of : Option (Tick F))
        → size_order config broker symbol options balance budget action stop_loss take_profit
            info_of tick_of
          ≢ stuck
    size_order-ne-stuck (some side) (some stop) (some target) (some info) (some tick) h =
        finish-ne-stuck side target info.volume_min _ _
          (choose_lot-IsFit laws info budget options.force_minimum_lot
            (estimate_lot config broker symbol side stop info tick))
          h
    size_order-ne-stuck (some side) (some stop) (some target) (some info) none h = cc
    size_order-ne-stuck (some side) (some stop) (some target) none tick h = cc
    size_order-ne-stuck (some side) (some stop) none info tick h = cc
    size_order-ne-stuck (some side) none target info tick h = cc
    size_order-ne-stuck none stop target info tick h = cc

  module _ (config : Settings F) (broker : Broker F) (symbol : Text) (now : ℕ) (s : State F)
      (account : Account F) (decision : Decision F) (history : List (Trade F))
      (options : SizingOptions F) where
    abbrev scaled_of : F
    scaled_of =
        scaled_percent config options.apply_streak_scaling
          (streak_of config broker symbol now history s options.losing_streak)
          (base_percent config decision options.risk_pct_override)

    abbrev budget_of : F
    budget_of = entry_risk_budget account config (some scaled_of) s.daily_loss_usd

    -- The result of sizing is a refusal or that for a positive budget.
    size_within-cases :
        (balance : Option F) (result : SizingResult F)
        → size_within config broker symbol now s account decision history options balance ≡ result
        → ((reason : Reason) × (refused reason ≡ result))
          ⊎ ((b : F) × (fl.is_finite (base_percent config decision options.risk_pct_override)
                ≡ true)
              × (le budget_of nought ≡ false)
              × (size_order config broker symbol options b budget_of decision.action
                    decision.stop_loss decision.take_profit
                    (broker.symbol_info symbol)
                    (broker.symbol_info_tick symbol)
                  ≡ result))
    size_within-cases none result h = inl (_, h)
    size_within-cases (some b) result h =
        let percent = base_percent config decision options.risk_pct_override in
        elim (Bool-cases (not (fl.is_finite percent) || le percent nought)) [
          | inl bad ↦ inl (lot_percent, ground arith)
          | inr good ↦ elim (Bool-cases (not (fl.is_finite budget_of) || le budget_of nought)) [
            | inl spent ↦ inl (lot_budget, ground arith)
            | inr left ↦ inr (b, ground arith, ground arith, ground arith)
          ]
        ]

    compute_lot_size-cases :
        (result : SizingResult F)
        → compute_lot_size config broker symbol now s account decision history options ≡ result
        → ((reason : Reason) × (refused reason ≡ result))
          ⊎ ((b : F) × (fl.is_finite (base_percent config decision options.risk_pct_override)
                ≡ true)
              × (le budget_of nought ≡ false)
              × (size_order config broker symbol options b budget_of decision.action
                    decision.stop_loss decision.take_profit
                    (broker.symbol_info symbol)
                    (broker.symbol_info_tick symbol)
                  ≡ result))
    unfolding compute_lot_size
    compute_lot_size-cases result h = elim (Bool-cases (le (risk_capital account) nought)) [
      | inl poor ↦ inl (lot_capital, ground arith)
      | inr funded ↦ size_within-cases (required account.balance) result (ground arith)
    ]

    scaled_percent-unraised :
        (apply : Bool) (streak : ℕ) (percent : F)
        → fl.is_finite percent ≡ true
        → lt percent (scaled_percent config apply streak percent) ≡ false
    unfolding scaled_percent
    scaled_percent-unraised apply streak percent f =
        let n = laws.number_of_finite percent f in
        ground (arith, laws.lt-eq-not-le percent percent n n)

    -- Whatever the broker answers, sizing comes to an end: the search for the largest volume does not
    -- run for ever.
    pub compute_lot_size_ends :
        compute_lot_size config broker symbol now s account decision history options ≢ stuck
    compute_lot_size_ends h = elim (compute_lot_size-cases stuck h) [
      | inl (reason, e) ↦ cc
      | inr (b, f, positive, e) ↦
          size_order-ne-stuck config broker symbol options b budget_of _ _ _ _ _ e
    ]

    -- An order that is sized has a side, a stop, a target and a quote; the broker priced its volume
    -- at the stop, and that estimate does not exceed the entry's budget by more than 1e-9; the budget
    -- is positive, for a percentage that a losing streak has not raised; the volume is the broker's
    -- minimum or not below it; and the recorded risk is the estimate's, rounded.
    pub compute_lot_size-IsSized :
        {lot : F} {sizing : Sizing F}
        → compute_lot_size config broker symbol now s account decision history options
          ≡ sized lot sizing
        → IsSized config broker symbol s account decision options lot sizing
    compute_lot_size-IsSized {lot = lot} {sizing = sizing} h =
        elim (compute_lot_size-cases (sized lot sizing) h) [
          | inl (reason, e) ↦ cc
          | inr (b, f, positive, e) ↦
              let order = size_order-IsOrder config broker symbol options b budget_of _ _ _ _ _ e in
              record {
                side = order.side;
                stop = order.stop;
                target = order.target;
                info = order.info;
                tick = order.tick;
                estimate = order.estimate;
                percent = scaled_of;
                action_is = order.action_is;
                stop_is = order.stop_is;
                target_is = order.target_is;
                info_is = order.info_is;
                tick_is = order.tick_is;
                priced = order.fit.0;
                affordable = order.fit.1;
                at_minimum = order.fit.2;
                reported = order.reported;
                budgeted = positive;
                unraised = scaled_percent-unraised _ _ _ f;
              }
        ]
