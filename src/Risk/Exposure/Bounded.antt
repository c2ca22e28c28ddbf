-- ===== src/Risk/Exposure/Bounded.antt =====
-- What the exposure gates guarantee when they pass.
use llm_trade.Prelude.{
  ◌≡◌, refl, true, false, Option, none, some, List, arith, Option-cases, ◌⊎◌, inl, inr,
}
use llm_trade.Float.{Float, nought, gt, ◌≼◌, IsOrdered, IsSigned, le_of_not-lt}
use llm_trade.Cell.{required, or_default}
use llm_trade.Settings.{Settings}
use llm_trade.Account.{Account}
use llm_trade.Text.{Text}
use llm_trade.Budget.{risk_capital, is_positive}
use llm_trade.Risk.Trade.{Side, buy, sell}
use llm_trade.Risk.State.{State}
use llm_trade.Risk.Reason.{Reason}
use llm_trade.Instruments.{Tick}
use llm_trade.Broker.{Broker}
use llm_trade.Risk.Sizing.{Decision}
use llm_trade.Risk.Checks.{Position, usage_pct}
use llm_trade.Risk.Exposure.Stops.{ArePricedStops, sum_from, sum_stop_risks-grows}
use llm_trade.Risk.Exposure.Margin.{IsMargin, margin_needed-IsMargin}
use llm_trade.Risk.Exposure.{
  live_price, misplaced, check_ratio, check_levels, check_risk_reward, sum_stop_risks, daily_left,
  check_total, check_portfolio_risk, check_needed, margin_side, margin_needed, named_info,
  check_margin_of, check_margin_for_lot,
}

module _ {F : Type 0} ⦃fl : Float F⦄ where
  open fl use {dec, add, sub, mul, div, neg, abs, lt, le, is_finite}

  -- What the portfolio gate promises of the stops together with the proposed risk.
  pub record IsBounded (config : Settings F) (broker : Broker F) (s : State F) (account : Account F)
      (positions : List (Position F)) (proposed : F) : Type 0 where
    pub total : F
    pub risks : List F
    pub risks_are : ArePricedStops broker positions risks
    pub total_is : total ≡ sum_from proposed risks
    pub covers : proposed ≼ total
    pub funded : le (risk_capital account) nought ≡ false
    pub under_share :
        gt (usage_pct total (risk_capital account)) (add config.max_portfolio_risk_pct (dec 1 9))
        ≡ false
    pub under_daily : gt total (add (daily_left config s account) (dec 1 9)) ≡ false

  -- The stop and the target lie strictly on their sides of the price.
  abbrev pub IsAround : Side → F → F → F → Type 0
  IsAround buy stop price target = (lt stop price ≡ true) × (lt price target ≡ true)
  IsAround sell stop price target = (lt target price ≡ true) × (lt price stop ≡ true)

  misplaced-IsAround :
      (side : Side) (stop price target : F)
      → misplaced (some side) stop price target ≡ none
      → IsAround side stop price target
  misplaced-IsAround buy stop price target h = (ground arith, ground arith)
  misplaced-IsAround sell stop price target h = (ground arith, ground arith)

  -- The levels surround the live price, and their ratio is not below the minimum.
  pub record IsRewarding (config : Settings F) (broker : Broker F) (symbol : Text) (side : Side)
      (decision : Decision F) : Type 0 where
    pub stop : F
    pub target : F
    pub tick : Tick F
    pub stop_is : decision.stop_loss ≡ some stop
    pub target_is : decision.take_profit ≡ some target
    pub tick_is : broker.symbol_info_tick symbol ≡ some tick
    pub around : IsAround side stop (live_price (some side) tick) target
    pub ratio :
        lt
          (add
            (div
              (abs (sub target (live_price (some side) tick)))
              (abs (sub (live_price (some side) tick) stop)))
            (dec 1 9))
          config.min_risk_reward_ratio
        ≡ false

  -- The margin of a volume is covered, with its buffer, and leaves the usage within its limit.
  pub record HasCover (config : Settings F) (broker : Broker F) (account : Account F) (lot : F)
      (symbol : Text) (action : Option Side) : Type 0 where
    pub free : F
    pub equity : F
    pub current : F
    pub needed : F
    pub free_is : required account.margin_free ≡ some free
    pub equity_is : required account.equity ≡ some equity
    pub current_is : or_default nought account.margin ≡ some current
    pub asked :
        margin_needed broker symbol (margin_side action) lot (named_info broker symbol)
        ≡ some needed
    pub margin : IsMargin broker symbol (margin_side action) lot needed
    pub real : is_positive needed ≡ true
    pub lot_real : is_positive lot ≡ true
    pub buffered : lt free (mul needed (dec 105 2)) ≡ false
    pub usage : gt (usage_pct (add current needed) equity) config.max_margin_usage_pct ≡ false

  check_needed-none :
      (config : Settings F) (free equity current : F) (o : Option F)
      → check_needed config free equity current o ≡ none
      → (needed : F) × (o ≡ some needed)
        × (is_positive needed ≡ true)
        × (lt free (mul needed (dec 105 2)) ≡ false)
        × (gt (usage_pct (add current needed) equity) config.max_margin_usage_pct ≡ false)
  check_needed-none config free equity current none h = cc
  check_needed-none config free equity current (some n) h =
      (n, refl, ground arith, ground arith, ground arith)

  check_margin_of-none :
      (config : Settings F) (broker : Broker F) (lot : F) (symbol : Text) (action : Option Side)
      (x y z : Option F)
      → check_margin_of config broker lot symbol action x y z ≡ none
      → (free equity current : F) × (x ≡ some free)
        × (y ≡ some equity)
        × (z ≡ some current)
        × (is_positive lot ≡ true)
        × (check_needed config free equity current
              (margin_needed broker symbol (margin_side action) lot (named_info broker symbol))
            ≡ none)
  check_margin_of-none config broker lot symbol action (some f) (some e) (some c) h =
      (f, e, c, refl, refl, refl, ground arith, ground arith)
  check_margin_of-none config broker lot symbol action (some f) (some e) none h = cc
  check_margin_of-none config broker lot symbol action (some f) none z h = cc
  check_margin_of-none config broker lot symbol action none y z h = cc

  -- A volume passes the margin gate only if the broker named a positive margin for it that the free
  -- margin covers with a buffer of five percent, and with which the projected usage is not above
  -- its limit.
  pub check_margin_for_lot-HasCover :
      (config : Settings F) (broker : Broker F) (account : Account F) (lot : F) (symbol : Text)
      (action : Option Side)
      → check_margin_for_lot config broker account lot symbol action ≡ none
      → HasCover config broker account lot symbol action
  unfolding check_margin_for_lot
  check_margin_for_lot-HasCover config broker account lot symbol action h =
      let (f, e, c, fi, ei, ci, real, rest) =
        check_margin_of-none config broker lot symbol action _ _ _ h in
      let (n, asked, positive, buffered, usage) = check_needed-none config f e c _ rest in
      record {
        free = f;
        equity = e;
        current = c;
        needed = n;
        free_is = fi;
        equity_is = ei;
        current_is = ci;
        asked = asked;
        margin = margin_needed-IsMargin broker symbol (margin_side action) lot _ refl asked;
        real = positive;
        lot_real = real;
        buffered = buffered;
        usage = usage;
      }

  check_levels-none :
      (config : Settings F) (side : Side) (x y : Option F) (o : Option (Tick F))
      → check_levels config (some side) x y o ≡ none
      → (stop target : F) × (tick : Tick F) × (x ≡ some stop)
        × (y ≡ some target)
        × (o ≡ some tick)
        × (misplaced (some side) stop (live_price (some side) tick) target ≡ none)
        × (check_ratio config
              (abs (sub (live_price (some side) tick) stop))
              (abs (sub target (live_price (some side) tick)))
            ≡ none)
  check_levels-none config side (some x) (some y) (some t) h =
      elim (Option-cases (misplaced (some side) x (live_price (some side) t) y)) [
        | inl placed ↦ (x, y, t, refl, refl, refl, placed, ground arith)
        | inr (reason, bad) ↦ ground arith
      ]
  check_levels-none config side (some x) (some y) none h = cc
  check_levels-none config side (some x) none o h = cc
  check_levels-none config side none y o h = cc

  -- For a BUY or SELL the raw gate passes only if there are levels and a quote, the levels lie on
  -- their sides of the live price, and reward over risk plus 1e-9 is not below the minimum.
  pub check_risk_reward-IsRewarding :
      (config : Settings F) (broker : Broker F) (symbol : Text) (side : Side)
      (decision : Decision F)
      → decision.action ≡ some side
      → check_risk_reward config broker symbol decision ≡ none
      → IsRewarding config broker symbol side decision
  unfolding check_risk_reward
  check_risk_reward-IsRewarding config broker symbol side decision acts h =
      let (x, y, t, xi, yi, ti, placed, ratio) =
        check_levels-none config side _ _ _ (ground arith) in
      record {
        stop = x;
        target = y;
        tick = t;
        stop_is = xi;
        target_is = yi;
        tick_is = ti;
        around = misplaced-IsAround side x (live_price (some side) t) y placed;
        ratio = ground arith;
      }

module _ {F : Type 0} ⦃fl : Float F⦄ (laws : IsOrdered F) (signs : IsSigned F) where
  open laws use {number_of_finite, nought_finite}
  open fl use {add, le, lt}

  check_total-none :
      (config : Settings F) (s : State F) (account : Account F) (r : Reason ⊎ F)
      → check_total config s account r ≡ none
      → (total : F) × (r ≡ inr total)
        × (gt
              (usage_pct total (risk_capital account))
              (add config.max_portfolio_risk_pct (fl.dec 1 9))
            ≡ false)
        × (gt total (add (daily_left config s account) (fl.dec 1 9)) ≡ false)
  check_total-none config s account (inl reason) h = cc
  check_total-none config s account (inr total) h = (total, refl, ground arith, ground arith)

  -- The portfolio gate passes only if every open position has a stop that the broker could price,
  -- and the proposed risk with the sum of the losses that it projects at all their stops, a total
  -- not below the proposed risk, exceeds neither the share of the capital nor what is left of the
  -- daily limit by more than 1e-9.
  pub check_portfolio_risk-IsBounded :
      (config : Settings F) (broker : Broker F) (s : State F) (account : Account F)
      (positions : List (Position F)) (proposed : F)
      → check_portfolio_risk config broker s account positions proposed ≡ none
      → IsBounded config broker s account positions proposed
  unfolding check_portfolio_risk
  check_portfolio_risk-IsBounded config broker s account positions proposed h =
      let (total, summed, share, daily) =
        check_total-none config s account (sum_stop_risks broker positions proposed)
          (ground arith) in
      let n =
        le_of_not-lt laws proposed nought (number_of_finite proposed (ground arith))
          (number_of_finite nought nought_finite) (ground arith) in
      let (grows, risks, risks_are, total_is) =
        sum_stop_risks-grows laws signs broker positions proposed n summed in
      record {
        total = total;
        risks = risks;
        risks_are = risks_are;
        total_is = total_is;
        covers = grows;
        funded = ground arith;
        under_share = share;
        under_daily = daily;
      }
