-- ===== src/Risk/Exposure/Margin.antt =====
-- The margin that the broker asks for.
use llm_trade.Prelude.{◌≡◌, refl, Option, none, some, [], ◌∷◌}
use llm_trade.Float.{Float}
use llm_trade.Text.{Text}
use llm_trade.Risk.Trade.{Side, buy, sell}
use llm_trade.Instruments.{SymbolInfo}
use llm_trade.Broker.{Broker}
use llm_trade.Risk.Exposure.{margin_needed, margin_price, named_info}

module _ {F : Type 0} ⦃fl : Float F⦄ where
  -- A buy is entered at the ask, a sell at the bid.
  abbrev pub IsEntryPrice : Side → SymbolInfo F → F → Type 0
  IsEntryPrice buy info price = price ≡ info.ask
  IsEntryPrice sell info price = price ≡ info.bid

  -- The broker itself asks for the margin, for the volume at the entry price of the symbol.
  pub record IsMargin (broker : Broker F) (symbol : Text) (side : Side) (lot needed : F)
      : Type 0 where
    pub info : SymbolInfo F
    pub info_is : broker.symbol_info symbol ≡ some info
    pub price : F
    pub price_is : IsEntryPrice side info price
    pub margin_is : broker.order_calc_margin side symbol lot price ≡ some needed

  margin_price-IsEntryPrice :
      (side : Side) (info : SymbolInfo F) → IsEntryPrice side info (margin_price side info)
  margin_price-IsEntryPrice buy info = refl
  margin_price-IsEntryPrice sell info = refl

  named_info-some :
      (broker : Broker F) (symbol : Text) {info : SymbolInfo F}
      → named_info broker symbol ≡ some info
      → broker.symbol_info symbol ≡ some info
  named_info-some broker [] h = cc
  named_info-some broker (c ∷ cs) h = h

  pub margin_needed-IsMargin :
      (broker : Broker F) (symbol : Text) (side : Side) (lot : F) (found : Option (SymbolInfo F))
      {needed : F}
      → named_info broker symbol ≡ found
      → margin_needed broker symbol side lot found ≡ some needed
      → IsMargin broker symbol side lot needed
  margin_needed-IsMargin broker symbol side lot none is h = cc
  margin_needed-IsMargin broker symbol side lot (some info) is h = record {
    info = info;
    info_is = named_info-some broker symbol is;
    price = margin_price side info;
    price_is = margin_price-IsEntryPrice side info;
    margin_is = h;
  }
