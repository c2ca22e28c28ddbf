-- ===== src/Risk/Exposure/Stops.antt =====
-- The sum of the risks of the open stops.
use llm_trade.Prelude.{
  ◌≡◌, refl, true, false, Option, none, some, List, [], ◌∷◌, arith, Bool-cases, Option-cases, inl,
  inr,
}
use llm_trade.Float.{Float, nought, max, ◌≼◌, IsOrdered, IsSigned, le-max-left}
use llm_trade.Instruments.Spread.{or_nought, downside_risk_usd}
use llm_trade.Broker.{Broker}
use llm_trade.Risk.Checks.{Position}
use llm_trade.Risk.Exposure.{side_of_type, stop_risk, sum_stop_risks}

module _ {F : Type 0} ⦃fl : Float F⦄ where
  open fl use {add, neg, le, is_finite}

  -- The position has a stop, and the risk is the loss that the broker projects at it, if it is one.
  pub record IsPricedStop (broker : Broker F) (p : Position F) (risk : F) : Type 0 where
    pub stopped : le (or_nought p.sl) nought ≡ false
    pub profit : F
    pub priced :
        broker.order_calc_profit
          (side_of_type p.type)
          p.symbol
          p.volume
          p.price_open
          (or_nought p.sl)
        ≡ some profit
    pub finite : is_finite profit ≡ true
    pub risk_is : risk ≡ max nought (neg profit)

  -- The risks are those of the positions, one for each.
  abbrev pub ArePricedStops : Broker F → List (Position F) → List F → Type 0
  ArePricedStops broker [] [] = Unit
  ArePricedStops broker (p ∷ ps) (risk ∷ risks) =
      IsPricedStop broker p risk × ArePricedStops broker ps risks
  ArePricedStops broker _ _ = ⊥

  -- The sum, from an amount on.
  abbrev pub sum_from : F → List F → F
  sum_from start [] = start
  sum_from start (x ∷ xs) = sum_from (add start x) xs

module _ {F : Type 0} ⦃fl : Float F⦄ (laws : IsOrdered F) (signs : IsSigned F) where
  open laws use {number_of_finite, nought_finite, le_trans, refl_of_le}
  open fl use {add, le, lt}

  downside-nonneg : (o : Option F) {risk : F} → downside_risk_usd o ≡ some risk → nought ≼ risk
  unfolding downside_risk_usd
  downside-nonneg none h = cc
  downside-nonneg (some profit) h =
      ground
        (arith, le-max-left laws nought (fl.neg profit) (number_of_finite nought nought_finite))

  stop_risk-IsPricedStop :
      (broker : Broker F) (p : Position F) (answer : Option F) {risk : F}
      → le (or_nought p.sl) nought ≡ false
      → broker.order_calc_profit
          (side_of_type p.type)
          p.symbol
          p.volume
          p.price_open
          (or_nought p.sl)
        ≡ answer
      → downside_risk_usd answer ≡ some risk
      → IsPricedStop broker p risk
  unfolding downside_risk_usd
  stop_risk-IsPricedStop broker p none stopped is h = cc
  stop_risk-IsPricedStop broker p (some profit) stopped is h = record {
    stopped = stopped;
    profit = profit;
    priced = is;
    finite = ground arith;
    risk_is = ground arith;
  }

  -- The total covers what it starts from, and it is the sum of the risks of the stops.
  pub sum_stop_risks-grows :
      (broker : Broker F) (positions : List (Position F)) (start : F) {total : F}
      → nought ≼ start
      → sum_stop_risks broker positions start ≡ inr total
      → (start ≼ total)
        × (risks : List F) × ArePricedStops broker positions risks
        × (total ≡ sum_from start risks)
  unfolding sum_stop_risks
  sum_stop_risks-grows broker [] start n h =
      (ground (arith, refl_of_le nought start), [], tt, ground arith)
  sum_stop_risks-grows broker (p ∷ ps) start n h = elim (Bool-cases (le (or_nought p.sl) nought)) [
    | inl bare ↦ ground arith
    | inr stopped ↦ elim (Option-cases (stop_risk broker p)) [
      | inl unpriced ↦ ground arith
      | inr (risk, priced) ↦
          let step = signs.add_grows start risk n (downside-nonneg _ priced) in
          let (grows, risks, rest, total_is) =
            sum_stop_risks-grows broker ps (add start risk) (le_trans _ _ _ n step)
              (ground arith) in
          (
            le_trans _ _ _ step grows,
            risk ∷ risks,
            (stop_risk-IsPricedStop broker p _ stopped refl priced, rest),
            total_is,
          )
    ]
  ]
