-- ===== src/Universe/Tests.antt =====
-- Runs of the rotation over a small catalog.
use llm_trade.Prelude.{◌≡◌, refl, List, [], ◌∷◌, map}
use llm_trade.Text.{Text, codes}
use llm_trade.Universe.{market_name, new_names, gather, discovery_batch}
use llm_trade.Universe.Rotation.{IsBatch, discovery_batch-IsBatch}

abbrev catalog : List Text
catalog = map codes ("EURUSD" ∷ " gbpusd" ∷ "" ∷ "USDJPY" ∷ [])

abbrev configured : List Text
configured = map codes ("usdjpy " ∷ "USDJPY" ∷ [])

batches :
    (discovery_batch configured [] catalog 0 2
      ≡ (map codes ("USDJPY" ∷ "EURUSD" ∷ "GBPUSD" ∷ []), 2))
    × (discovery_batch configured [] catalog 2 2
        ≡ (map codes ("USDJPY" ∷ "EURUSD" ∷ "GBPUSD" ∷ []), 2))
    × (discovery_batch configured [] catalog 1 1 ≡ (map codes ("USDJPY" ∷ "GBPUSD" ∷ []), 2))
unfolding discovery_batch new_names gather market_name
batches = (refl, refl, refl)

discovery_batch-IsBatch_example :
    IsBatch (new_names [] configured) catalog 1 1 (discovery_batch configured [] catalog 1 1)
discovery_batch-IsBatch_example =
    discovery_batch-IsBatch configured [] (codes "EURUSD")
      (map codes (" gbpusd" ∷ "" ∷ "USDJPY" ∷ [])) 1 1
