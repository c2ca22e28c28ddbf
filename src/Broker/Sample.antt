-- ===== src/Broker/Sample.antt =====
-- A terminal with one foreign exchange symbol, for the examples.
use llm_trade.Prelude.{some, Option, true}
use llm_trade.Prelude.Int.{pos}
use llm_trade.Float.Fixed.{Fixed, fixed_float}
use llm_trade.Settings.Sample.{usd, mills}
use llm_trade.Text.{Text, codes}
use llm_trade.Risk.Trade.{Side, buy, sell}
use llm_trade.Instruments.{SymbolInfo, Tick, mode}
use llm_trade.Broker.{Broker}

abbrev pub yen_pair : Text
yen_pair = codes "USDJPY"

abbrev pub sample_info : SymbolInfo Fixed
sample_info = record {
  path = codes "Forex/Majors";
  currency_base = codes "USD";
  calc_mode_forex = true;
  trade_mode = mode (pos 4);
  point = mills 1;
  digits = pos 3;
  volume_min = mills 10;
  volume_step = mills 10;
  volume_max = usd 1;
  trade_tick_size = mills 1;
  trade_stops_level = usd 0;
  trade_freeze_level = usd 0;
  filling_mode = 1;
  visible = true;
  bid = usd 150;
  ask = mills 150_010;
}

abbrev pub sample_tick : Tick Fixed
sample_tick = record { time = usd 1000; bid = usd 150; ask = mills 150_010 }

-- A hundred dollars for each yen and lot.
abbrev pub moved : Fixed → Fixed → Fixed → Fixed
moved lot from to = fixed_float.mul (fixed_float.mul (fixed_float.sub to from) (usd 100)) lot

abbrev pub sample_profit : Side → Text → Fixed → Fixed → Fixed → Option Fixed
sample_profit buy symbol lot from to = some (moved lot from to)
sample_profit sell symbol lot from to = some (moved lot to from)

abbrev pub sample_broker : Broker Fixed
sample_broker = record {
  symbol_info = λ symbol. some sample_info;
  symbol_info_tick = λ symbol. some sample_tick;
  order_calc_profit = sample_profit;
  order_calc_margin = λ side symbol lot price. some (usd 5);
}
