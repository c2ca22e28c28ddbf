-- ===== src/Execution/Open/Sent.antt =====
-- What holds when an opening reaches the broker.
use llm_trade.Prelude.{◌≡◌, true, false, none, some, List}
use llm_trade.Float.{Float, nought, eq}
use llm_trade.Settings.{Settings}
use llm_trade.Timebase.{Offsets}
use llm_trade.Instruments.{SymbolInfo, Tick}
use llm_trade.Instruments.Tradable.{Permits}
use llm_trade.Execution.{OpenPosition, Request}
use llm_trade.Execution.Gates.{
  validate_account_identity, validate_symbol, check_mode_of, validate_live_spread, validate_lot,
  validate_margin, entry_of, validate_stops,
}
use llm_trade.Execution.{Submission}
use llm_trade.Execution.Open.{OpenMoments, OpenOrder, request_of, send_open, level_of}
use llm_trade.Execution.Open.Affordable.{IsAffordable}

module _ {F : Type 0} ⦃fl : Float F⦄ (config : Settings F) (m : OpenMoments F)
    (o : OpenOrder F) where
  open fl use {dec, add, sub, mul, div, lt, le, is_finite}

  -- The checks that an order passed before it was sent, and the broker's answer.
  pub record IsPlaced (price sl tp : F) (info : SymbolInfo F) (s : Submission F)
      (request : Request F) : Type 0 where
    pub live : config.dry_run ≡ false
    pub request_is : request ≡ request_of config m o price sl tp info
    pub checked : m.at_check.order_check request ≡ true
    pub before : List (OpenPosition F)
    pub before_is : m.at_snapshot.positions_of_symbol o.symbol ≡ some before
    pub identified : validate_account_identity config m.at_identity o.expected_account ≡ none
    pub submission_is : s ≡ send_open config m o request before info

  pub record IsLevelled (price sl tp : F) (info : SymbolInfo F) : Type 0 where
    pub stops : validate_stops config m.at_stops o.symbol o.side price sl tp ≡ none
    pub affordable :
        (budget : F)
        → o.max_risk_usd ≡ some budget
        → eq sl nought ≡ false
        → IsAffordable config m o budget price sl tp info

  pub record IsCleared (s : Submission F) (request : Request F) : Type 0 where
    pub info : SymbolInfo F
    pub info_is : m.at_quote.broker.symbol_info o.symbol ≡ some info
    pub tick : Tick F
    pub tick_is : m.at_quote.broker.symbol_info_tick o.symbol ≡ some tick
    pub sl : F
    pub sl_is : level_of config m o info o.sl_price ≡ some sl
    pub tp : F
    pub tp_is : level_of config m o info o.tp_price ≡ some tp
    pub placed : IsPlaced (entry_of o.side tick) sl tp info s request
    pub levelled : IsLevelled (entry_of o.side tick) sl tp info

  pub record IsGated (offsets : Offsets) : Type 0 where
    pub account : validate_account_identity config m.at_account o.expected_account ≡ none
    pub symbol : validate_symbol m.at_symbol o.symbol ≡ none
    pub mode : check_mode_of (m.at_mode.broker.symbol_info o.symbol) o.side ≡ none
    pub permitted :
        (info : SymbolInfo F)
        → m.at_mode.broker.symbol_info o.symbol ≡ some info
        → Permits info.trade_mode o.side
    pub spread :
        (validate_live_spread config m.at_spread m.now offsets o.symbol o.side o.sl_price).0 ≡ none
    pub lot : validate_lot m.at_lot o.symbol o.lot ≡ none
    pub margin : validate_margin m.at_margin o.symbol o.side o.lot ≡ none
