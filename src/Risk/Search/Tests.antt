-- ===== src/Risk/Search/Tests.antt =====
-- The search over the prices of an order on the sample terminal, with a stop a yen below.
use llm_trade.Prelude.{ℕ, zero, suc, ◌≡◌, refl, true, false, Option, none, arith}
use llm_trade.Float.Fixed.{Fixed, fixed_float}
use llm_trade.Settings.Sample.{mills, sample_settings}
use llm_trade.Broker.Sample.{yen_pair, sample_info, sample_tick, sample_broker}
use llm_trade.Instruments.{is_crypto_symbol, is_crypto_pair}
use llm_trade.Costs.{
  ExecutionRiskEstimate, configured_per_lot_cost, configured_execution_cost_usd,
  estimate_execution_risk,
}
use llm_trade.Risk.Trade.{buy}
use llm_trade.Risk.Sizing.{lot_of_units, within_budget, estimate_lot}
use llm_trade.Risk.Search.{search, settled}
use llm_trade.Risk.Search.Largest.{IsLargest, IsPriced, IsDownClosed, fits_at, search-IsLargest}

-- The price of a volume, as the sizing asks for it.
abbrev price : Fixed → Option (ExecutionRiskEstimate Fixed)
price =
    estimate_lot sample_settings sample_broker yen_pair buy (mills 149_010) sample_info sample_tick

-- Whole steps of a hundredth of a lot.
abbrev volume : ℕ → Fixed
volume = lot_of_units (mills 10)

-- The volumes with a price within two dollars and a half.
fit_or_not :
    (fits_at volume price (within_budget (mills 2500)) 1 ≡ true)
    × (fits_at volume price (within_budget (mills 2500)) 2 ≡ true)
    × (fits_at volume price (within_budget (mills 2500)) 3 ≡ false)
unfolding estimate_execution_risk configured_execution_cost_usd configured_per_lot_cost
    is_crypto_symbol is_crypto_pair
fit_or_not = (refl, refl, refl)

volume-IsPriced : IsPriced volume price (within_budget (mills 2500)) 1 3
unfolding estimate_execution_risk configured_execution_cost_usd configured_per_lot_cost
    is_crypto_symbol is_crypto_pair
volume-IsPriced zero l h = absurd (omega arith)
volume-IsPriced (suc zero) l h = (_, refl)
volume-IsPriced (suc (suc zero)) l h = (_, refl)
volume-IsPriced (suc (suc (suc zero))) l h = (_, refl)
volume-IsPriced (suc (suc (suc (suc n)))) l h = absurd (omega arith)

fewer_fit : IsDownClosed volume price (within_budget (mills 2500)) 1 3
fewer_fit zero v l uv h f = absurd (omega arith)
fewer_fit (suc zero) v l uv h f = fit_or_not.0
fewer_fit (suc (suc zero)) v l uv h f = fit_or_not.1
fewer_fit (suc (suc (suc zero))) (suc (suc (suc zero))) l uv h f = f
fewer_fit (suc (suc (suc zero))) zero l uv h f = absurd (omega arith)
fewer_fit (suc (suc (suc zero))) (suc zero) l uv h f = absurd (omega arith)
fewer_fit (suc (suc (suc zero))) (suc (suc zero)) l uv h f = absurd (omega arith)
fewer_fit (suc (suc (suc zero))) (suc (suc (suc (suc n)))) l uv h f = absurd (omega arith)
fewer_fit (suc (suc (suc (suc n)))) v l uv h f = absurd (omega arith)

search-IsLargest_example :
    (result : Option (Fixed × ExecutionRiskEstimate Fixed)) × (search volume price
        (within_budget (mills 2500))
        5
        1
        3
        none
      ≡ settled result)
    × IsLargest volume price (within_budget (mills 2500)) 1 3 result
search-IsLargest_example =
    search-IsLargest volume price (within_budget (mills 2500)) 1 3 (omega arith) (omega arith)
      volume-IsPriced fewer_fit
