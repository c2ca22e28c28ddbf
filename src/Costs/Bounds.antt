-- ===== src/Costs/Bounds.antt =====
-- An estimate covers the loss at the stop after the worst fill, and all its parts are losses.
use llm_trade.Prelude.{ℕ, ◌≡◌, refl, true, false, Option, none, some, arith}
use llm_trade.Prelude.Int.{ℤ, pos, pos_part}
use llm_trade.Float.{Float, nought, ◌≼◌, max, IsOrdered, IsSigned, le-max-left}
use llm_trade.Settings.{Settings}
use llm_trade.Text.{Text}
use llm_trade.Risk.Trade.{Side, buy, sell}
use llm_trade.Instruments.{SymbolInfo}
use llm_trade.Instruments.Spread.{or_nought}
use llm_trade.Budget.{is_nonneg}
use llm_trade.Broker.{Broker}
use llm_trade.Costs.{
  ExecutionRiskEstimate, configured_per_lot_cost, configured_execution_cost_usd, adverse_entry,
  deviation_of, estimate_execution_risk, per_lot_setting, stop_loss_of, estimate_total,
  estimate_worst, estimate_slipped, estimate_side, usable_price,
}

-- The second price is not better for the side than the first.
abbrev pub IsWorse : {F : Type 0} ⦃fl : Float F⦄ → Side → F → F → Type 0
IsWorse buy entry worst = entry ≼ worst
IsWorse sell entry worst = worst ≼ entry

-- The second price is the first after a move against the side.
abbrev pub IsMoved : {F : Type 0} ⦃fl : Float F⦄ → Side → F → F → F → Type 0
IsMoved ⦃fl = fl⦄ buy entry move worst = worst ≡ fl.add entry move
IsMoved ⦃fl = fl⦄ sell entry move worst = worst ≡ fl.sub entry move

-- The points of a deviation that is given, and else of the configured one; none below zero.
abbrev pub points_of : {F : Type 0} → Settings F → Option ℤ → ℕ
points_of config none = pos_part config.max_order_deviation_points
points_of config (some points) = pos_part points

module _ {F : Type 0} ⦃fl : Float F⦄ where
  -- What an estimate for a side, a volume, an entry and a stop promises.
  pub record IsCovered (config : Settings F) (broker : Broker F) (symbol : Text) (side : Side)
      (lot entry stop : F) (info : SymbolInfo F) (points : Option ℤ)
      (estimate : ExecutionRiskEstimate F) : Type 0 where
    pub profit : F
    pub at_worst : broker.order_calc_profit side symbol lot estimate.worst_entry stop ≡ some profit
    pub covers : max nought (fl.neg profit) ≼ estimate.total_risk_usd
    pub loses : fl.le (max nought (fl.neg profit)) nought ≡ false
    pub finite : fl.is_finite estimate.total_risk_usd ≡ true
    pub moved :
        IsMoved side entry
          (fl.mul (fl.of_int (pos (points_of config points))) (or_nought info.point))
          estimate.worst_entry
    pub worse : IsWorse side entry estimate.worst_entry
    pub cost_is :
        configured_execution_cost_usd config symbol info lot ≡ some estimate.configured_cost_usd
    pub total_is :
        estimate.total_risk_usd ≡ fl.add (max nought (fl.neg profit)) estimate.configured_cost_usd
    pub slippage : nought ≼ estimate.slippage_reserve_usd
    pub cost : nought ≼ estimate.configured_cost_usd

module _ {F : Type 0} ⦃fl : Float F⦄ (laws : IsOrdered F) (signs : IsSigned F) where
  open laws use {number_of_finite, nought_finite, le_trans, refl_of_le, number_of_lt}
  open signs use {
    add_grows, sub_shrinks, mul_nonneg, mul_nonneg_finite, add_finite, sub_finite, of_int_nonneg,
  }

  -- A cost that the settings give is not negative.
  pub configured_cost_nonneg :
      (config : Settings F) (symbol : Text) (info : SymbolInfo F) (lot : F) {cost : F}
      → configured_execution_cost_usd config symbol info lot ≡ some cost
      → nought ≼ cost
  unfolding configured_execution_cost_usd configured_per_lot_cost
  configured_cost_nonneg config symbol info lot h =
      let fixed = config.fixed_execution_cost_usd in
      let value = per_lot_setting config symbol info in
      ground (
        arith,
        mul_nonneg value lot,
        add_grows fixed (fl.mul value lot),
        le_trans nought fixed (fl.add fixed (fl.mul value lot)),
      )

  adverse-IsWorse :
      (side : Side) (entry move : F)
      → nought ≼ entry
      → nought ≼ move
      → fl.is_finite (adverse_entry side entry move) ≡ true
      → IsWorse side entry (adverse_entry side entry move)
  adverse-IsWorse buy entry move e m f = add_grows entry move e m
  adverse-IsWorse sell entry move e m f = sub_shrinks entry move f m

  estimate_total-parts :
      (stop_risk worst worst_entry : F) (deviation : ℤ) (cost : Option F)
      {estimate : ExecutionRiskEstimate F}
      → nought ≼ worst
      → ((c : F) → cost ≡ some c → nought ≼ c)
      → estimate_total stop_risk worst worst_entry deviation cost ≡ some estimate
      → (worst ≼ estimate.total_risk_usd)
        × (fl.is_finite estimate.total_risk_usd ≡ true)
        × (nought ≼ estimate.slippage_reserve_usd)
        × (nought ≼ estimate.configured_cost_usd)
        × (estimate.worst_entry ≡ worst_entry)
        × (cost ≡ some estimate.configured_cost_usd)
        × (estimate.total_risk_usd ≡ fl.add worst estimate.configured_cost_usd)
  estimate_total-parts stop_risk worst worst_entry deviation none nw nc h = cc
  estimate_total-parts stop_risk worst worst_entry deviation (some cost) nw nc h = ground (
    arith,
    nc cost refl,
    add_grows worst cost nw (nc cost refl),
    le-max-left laws nought (fl.sub worst stop_risk) (number_of_finite nought nought_finite),
  )

  -- The risk at a stop is a positive loss of a known profit estimate.
  stop_loss_of-some :
      (answer : Option F) {risk : F}
      → stop_loss_of answer ≡ some risk
      → (profit : F) × (answer ≡ some profit)
        × (risk ≡ max nought (fl.neg profit))
        × (fl.le risk nought ≡ false)
        × (nought ≼ risk)
  stop_loss_of-some none h = cc
  stop_loss_of-some (some profit) h = (
    profit,
    refl,
    ground arith,
    ground arith,
    ground (arith, le-max-left laws nought (fl.neg profit) (number_of_finite nought nought_finite)),
  )

  move_finite :
      (side : Side) (entry move : F)
      → fl.is_finite (adverse_entry side entry move) ≡ true
      → fl.is_finite move ≡ true
  move_finite buy entry move h = add_finite entry move h
  move_finite sell entry move h = sub_finite entry move h

  deviation_nonneg :
      (config : Settings F) (points : Option ℤ) → nought ≼ fl.of_int (deviation_of config points)
  deviation_nonneg config none = of_int_nonneg (pos_part config.max_order_deviation_points)
  deviation_nonneg config (some points) = of_int_nonneg (pos_part points)

  adverse-IsMoved :
      (config : Settings F) (side : Side) (entry point : F) (points : Option ℤ)
      → IsMoved side entry
          (fl.mul (fl.of_int (pos (points_of config points))) point)
          (adverse_entry side entry (fl.mul (fl.of_int (deviation_of config points)) point))
  adverse-IsMoved config buy entry point none = refl
  adverse-IsMoved config buy entry point (some points) = refl
  adverse-IsMoved config sell entry point none = refl
  adverse-IsMoved config sell entry point (some points) = refl

  nought-le_of_usable : (x : F) → usable_price x ≡ true → nought ≼ x
  nought-le_of_usable x h =
      ground
        (arith, number_of_finite x, number_of_finite nought nought_finite, laws.le_total nought x)

  estimate_worst-some :
      (stop_risk worst_entry : F) (deviation : ℤ) (second cost : Option F)
      {estimate : ExecutionRiskEstimate F}
      → estimate_worst stop_risk worst_entry deviation second cost ≡ some estimate
      → (worst : F) × (second ≡ some worst)
        × (estimate_total stop_risk worst worst_entry deviation cost ≡ some estimate)
  estimate_worst-some stop_risk worst_entry deviation none cost h = cc
  estimate_worst-some stop_risk worst_entry deviation (some worst) cost h = (worst, refl, h)

  module _ (config : Settings F) (broker : Broker F) (symbol : Text) (side : Side)
      (lot stop entry : F) (info : SymbolInfo F) (deviation : ℤ) where
    abbrev worst_of : F
    worst_of = adverse_entry side entry (fl.mul (fl.of_int deviation) (or_nought info.point))

    estimate_side-some :
        (points : Option ℤ) {estimate : ExecutionRiskEstimate F}
        → estimate_side config broker symbol side lot stop entry info points ≡ some estimate
        → (usable_price entry ≡ true)
          × (estimate_slipped config broker symbol side lot stop entry info
                (deviation_of config points)
                (stop_loss_of (broker.order_calc_profit side symbol lot entry stop))
              ≡ some estimate)
    estimate_side-some points h = (ground arith, ground arith)

    estimate_slipped-some :
        (first : Option F) {estimate : ExecutionRiskEstimate F}
        → estimate_slipped config broker symbol side lot stop entry info deviation first
          ≡ some estimate
        → (risk : F) × (is_nonneg (or_nought info.point) ≡ true)
          × (usable_price worst_of ≡ true)
          × (estimate_worst risk worst_of deviation
                (stop_loss_of (broker.order_calc_profit side symbol lot worst_of stop))
                (configured_execution_cost_usd config symbol info lot)
              ≡ some estimate)
    estimate_slipped-some none h = cc
    estimate_slipped-some (some risk) h = (risk, ground arith, ground arith, ground arith)

  -- Whatever the broker answers, the worst fill of an estimate is the quoted entry moved against the
  -- side by the deviation's points, and no better than it. The total is the loss that the broker
  -- projects from there to the stop with the configured costs; it is finite and covers that loss, which
  -- is positive, and the reserves for slippage and for costs are not negative.
  pub estimate_execution_risk-IsCovered :
      (config : Settings F) (broker : Broker F) (symbol : Text) (side : Side) (lot entry stop : F)
      (info : SymbolInfo F) (points : Option ℤ) {estimate : ExecutionRiskEstimate F}
      → estimate_execution_risk config broker symbol (some side) lot entry stop info points
        ≡ some estimate
      → IsCovered config broker symbol side lot entry stop info points estimate
  unfolding estimate_execution_risk
  estimate_execution_risk-IsCovered config broker symbol side lot entry stop info points h =
      let deviation = deviation_of config points in
      let move = fl.mul (fl.of_int deviation) (or_nought info.point) in
      let (usable, slipped) =
        estimate_side-some config broker symbol side lot stop entry info deviation points h in
      let (risk, point, price, rest) =
        estimate_slipped-some config broker symbol side lot stop entry info deviation _ slipped in
      let (worst, answered, total) = estimate_worst-some _ _ _ _ _ rest in
      let (profit, known, loss, positive, number) = stop_loss_of-some _ answered in
      let parts =
        estimate_total-parts _ worst _ _ _ number
          (λ c e. configured_cost_nonneg config symbol info lot e) total in
      record {
        profit = profit;
        at_worst = rw parts.4 known;
        covers = rw (← loss) parts.0;
        loses = rw (← loss) positive;
        finite = parts.1;
        worse = rw parts.4 (
            adverse-IsWorse side entry move (nought-le_of_usable entry usable)
              (mul_nonneg_finite (fl.of_int deviation) (or_nought info.point)
                (deviation_nonneg config points) (ground arith)
                (move_finite side entry move (ground arith)))
              (ground arith));
        moved = rw parts.4 (adverse-IsMoved config side entry (or_nought info.point) points);
        cost_is = parts.5;
        total_is = rw (← loss) parts.6;
        slippage = parts.2;
        cost = parts.3;
      }
