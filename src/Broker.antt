-- ===== src/Broker.antt =====
-- What the code asks of the MetaTrader terminal (`mt5`, a package outside the repository). Every
-- call may fail, which is `none`. One value is the terminal at one moment; a function that makes
-- its calls at different moments takes several.
pub mod Sample
use llm_trade.Prelude.{Option}
use llm_trade.Risk.Trade.{Side}
use llm_trade.Text.{Text}
use llm_trade.Instruments.{SymbolInfo, Tick}

pub record Broker (F : Type 0) : Type 0 where
  pub symbol_info : Text → Option (SymbolInfo F)
  pub symbol_info_tick : Text → Option (Tick F)
  -- side, symbol, volume, price of opening, price of closing
  pub order_calc_profit : Side → Text → F → F → F → Option F
  -- side, symbol, volume, price
  pub order_calc_margin : Side → Text → F → F → Option F
