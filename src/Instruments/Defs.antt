-- ===== src/Instruments/Defs.antt =====
-- The symbol descriptor of MetaTrader, its asset class and its trade mode.
use llm_trade.Prelude.{
  ℕ, zero, suc, Bool, true, false, not, ◌&&◌, ◌||◌, Option, none, some, List, [], ◌∷◌, any, map,
  if◌then◌else◌,
}
use llm_trade.Prelude.Int.{ℤ, pos}
use llm_trade.Risk.Trade.{Side, buy, sell}
use llm_trade.Text.{
  Text, codes, upper, lower, contains, member, drop_prefix, is_upper_letter, is_digit,
}

-- `trade_mode` of a descriptor: missing or None, no integer, or an integer.
pub data TradeMode : Type 0 where
  unset malformed : TradeMode
  mode : ℤ → TradeMode

-- `mt5.symbol_info(symbol)`
pub record SymbolInfo (F : Type 0) : Type 0 where
  pub path : Text
  pub currency_base : Text
  -- `trade_calc_mode` is one of the two foreign exchange modes
  pub calc_mode_forex : Bool
  pub trade_mode : TradeMode
  pub point : F
  pub digits : ℤ
  pub volume_min : F
  pub volume_step : F
  pub volume_max : F
  pub trade_tick_size : F
  pub trade_stops_level : F
  pub trade_freeze_level : F
  pub filling_mode : ℕ
  pub visible : Bool
  pub bid : F
  pub ask : F

-- `mt5.symbol_info_tick(symbol)`
pub record Tick (F : Type 0) : Type 0 where
  pub time : F
  pub bid : F
  pub ask : F

abbrev pub crypto_codes : List Text
crypto_codes = map codes (
    "ADA" ∷ "AVAX" ∷ "BCH" ∷ "BNB" ∷ "BTC" ∷ "DOGE" ∷ "DOT" ∷ "EOS" ∷ "ETH" ∷ "LINK" ∷ "LTC"
    ∷ "MATIC" ∷ "NEAR" ∷ "SOL" ∷ "TRX" ∷ "UNI" ∷ "XLM" ∷ "XRP" ∷ [])

abbrev pub quote_codes : List Text
quote_codes =
    map codes ("USDT" ∷ "USDC" ∷ "USD" ∷ "EUR" ∷ "GBP" ∷ "JPY" ∷ "AUD" ∷ "CAD" ∷ "CHF" ∷ "NZD" ∷ [])

-- `[^A-Z0-9]`
abbrev pub is_boundary : ℕ → Bool
is_boundary c = not (is_upper_letter c || is_digit c)

-- `[A-Z]{0,n}(?:$|[^A-Z0-9])`
unfoldable pub ends_within : ℕ → Text → Bool
ends_within n [] = true
ends_within zero (c ∷ cs) = is_boundary c
ends_within (suc n) (c ∷ cs) = is_boundary c || (is_upper_letter c && ends_within n cs)

abbrev pub after : (Text → Bool) → Option Text → Bool
after test none = false
after test (some rest) = test rest

-- one of the words, then what `test` takes
abbrev pub one_of : List Text → (Text → Bool) → Text → Bool
one_of words test text = any (λ word. after test (drop_prefix word text)) words

-- the pattern behind its left boundary
unfoldable pub pair_at : Text → Bool
unfolding ends_within
pair_at = one_of crypto_codes (one_of quote_codes (ends_within 2))

-- the pattern behind a boundary character of the text
unfoldable pub pair_inside : Text → Bool
unfolding pair_at
pair_inside [] = false
pair_inside (c ∷ cs) = (is_boundary c && pair_at cs) || pair_inside cs

-- `_CRYPTO_PAIR_PATTERN.search(text)`
unfoldable pub is_crypto_pair : Text → Bool
unfolding pair_inside
is_crypto_pair text = pair_at text || pair_inside text

abbrev pub other_categories : List Text
other_categories =
    map codes
      ("stock" ∷ "share" ∷ "equit" ∷ "forex" ∷ "indice" ∷ "index" ∷ "commodit" ∷ "metal" ∷ [])

abbrev pub has_word : Text → List Text → Bool
has_word path words = any (λ word. contains word path) words

module _ {F : Type 0} where
  abbrev pub path_of : Option (SymbolInfo F) → Text
  path_of none = []
  path_of (some info) = lower info.path

  abbrev pub base_of : Option (SymbolInfo F) → Text
  base_of none = []
  base_of (some info) = upper info.currency_base

  unfoldable pub is_crypto_symbol : Text → Option (SymbolInfo F) → Bool
  unfolding is_crypto_pair
  is_crypto_symbol symbol info =
      if contains (codes "crypto") (path_of info)
      then true
      else if has_word (path_of info) other_categories
      then false
      else if member (base_of info) crypto_codes
      then true
      else is_crypto_pair (upper symbol)

pub data AssetClass : Type 0 where
  crypto etf stock index metal commodity forex : AssetClass

-- The loop over the labelled categories.
abbrev pub class_of_path : Text → AssetClass
class_of_path path =
    if has_word path (codes "etf" ∷ [])
    then etf
    else if has_word path (codes "stock" ∷ codes "share" ∷ codes "equit" ∷ [])
    then stock
    else if has_word path (codes "indice" ∷ codes "index" ∷ [])
    then index
    else if has_word path (codes "metal" ∷ [])
    then metal
    else if has_word path (codes "commodit" ∷ codes "energ" ∷ [])
    then commodity
    else forex

pub data ModeError : Type 0 where
  no_side invalid_mode disabled close_only buy_only sell_only unsupported : ModeError

-- `none` is `True, ""`
abbrev pub check_mode : ℤ → Side → Option ModeError
check_mode (pos zero) side = some disabled
check_mode (pos (suc zero)) buy = none
check_mode (pos (suc zero)) sell = some buy_only
check_mode (pos (suc (suc zero))) buy = some sell_only
check_mode (pos (suc (suc zero))) sell = none
check_mode (pos (suc (suc (suc zero)))) side = some close_only
check_mode (pos (suc (suc (suc (suc zero))))) side = none
check_mode _ side = some unsupported

abbrev pub check_raw_mode : TradeMode → Side → Option ModeError
check_raw_mode unset side = check_mode (pos 4) side
check_raw_mode malformed side = some invalid_mode
check_raw_mode (mode m) side = check_mode m side

module _ {F : Type 0} where
  unfoldable pub instrument_asset_class : Text → Option (SymbolInfo F) → AssetClass
  unfolding is_crypto_symbol
  instrument_asset_class symbol info =
      if is_crypto_symbol symbol info then crypto else class_of_path (path_of info)

  unfoldable pub validate_symbol_trade_mode : SymbolInfo F → Option Side → Option ModeError
  validate_symbol_trade_mode info none = some no_side
  validate_symbol_trade_mode info (some side) = check_raw_mode info.trade_mode side
