-- ===== src/Domain/Validation.antt =====
-- The `validate` functions of src/domain/validation.cpp, in which `require` throws
-- `std::invalid_argument`. Character classes are those of the "C" locale.
pub mod Schema
use Prim.Native.String.{String}
use fin_core_streaming_syste.Prelude.{
  ℕ, ◌-◌, Bool, true, false, not, ◌&&◌, ◌||◌, Option, none, some, [], ◌∷◌, ltb, leb, ◌==◌, length,
  all_of, Text, codes, Result, ok, err, Exception, invalid_argument, lit, ◌>>◌, guard,
}
use fin_core_streaming_syste.Prelude.Int.{ℤ, pos, negsuc, ltb_ℤ, leb_ℤ}
use fin_core_streaming_syste.Domain.Decimal.{scale}
use fin_core_streaming_syste.Domain.MarketData.{
  Instrument, DataSource, Quote, Tick, OrderBookSnapshot, TechnicalIndicator,
}

-- `string_view::find(ch) != npos`.
abbrev pub holds : Text → ℕ → Bool
holds [] ch = false
holds (c ∷ s) ch = c == ch || holds s ch

abbrev pub is_upper : ℕ → Bool
is_upper ch = leb b'A' ch && leb ch b'Z'

abbrev pub is_digit : ℕ → Bool
is_digit ch = leb b'0' ch && leb ch b'9'

abbrev pub is_empty : Text → Bool
is_empty [] = true
is_empty (c ∷ s) = false

unfoldable pub is_upper_identifier : Text → Text → Bool
is_upper_identifier value extra =
    not (is_empty value) && all_of (λ ch. is_upper ch || is_digit ch || holds extra ch) value

abbrev pub require : Bool → String → Result (Unit {0})
require condition message = guard condition (invalid_argument (lit message))

abbrev pub symbol_extra : Text
symbol_extra = codes "._:/-"

abbrev pub source_extra : Text
source_extra = codes "_-"

unfoldable pub is_symbol : Text → Bool
is_symbol symbol = leb (length symbol) 16 && is_upper_identifier symbol symbol_extra

unfoldable pub is_source : Text → Bool
is_source source = leb (length source) 20 && is_upper_identifier source source_extra

unfoldable pub validate_symbol_and_source : Text → Text → Result (Unit {0})
validate_symbol_and_source symbol source = do
  require (is_symbol symbol) "symbol must be an uppercase identifier of at most 16 characters"
  require (is_source source) "source must be an uppercase identifier of at most 20 characters"

-- `!text.empty() && text.size() <= max`.
abbrev pub has_length : Text → ℕ → Bool
has_length text max = not (is_empty text) && leb (length text) max

unfoldable pub validate_instrument : Instrument → Result (Unit {0})
validate_instrument value = do
  require (is_symbol value.symbol)
      "instrument symbol must be an uppercase identifier of at most 16 characters"
  require (has_length value.name 100) "instrument name must contain 1-100 characters"
  require (has_length value.exchange 32) "exchange must contain 1-32 characters"
  require (leb_ℤ (pos 0) value.tick_size_decimals && leb_ℤ value.tick_size_decimals (pos 8))
      "tick_size_decimals must be between 0 and 8"

unfoldable pub validate_data_source : DataSource → Result (Unit {0})
validate_data_source value = do
  require (is_source value.code)
      "source code must be an uppercase identifier of at most 20 characters"
  require (has_length value.display_name 60) "source display name must contain 1-60 characters"

unfoldable pub validate_quote : Quote → Result (Unit {0})
validate_quote value = do
  validate_symbol_and_source value.symbol value.source
  require
      (leb_ℤ (pos 0) value.price
        && leb_ℤ (pos 0) value.opening
        && leb_ℤ (pos 0) value.high
        && leb_ℤ (pos 0) value.low)
      "quote prices cannot be negative"
  require (leb_ℤ value.low value.high) "quote high cannot be below quote low"
  require (leb_ℤ (pos 0) value.volume) "quote volume cannot be negative"

abbrev pub trade_id_fits : Option Text → Bool
trade_id_fits none = true
trade_id_fits (some trade_id) = has_length trade_id 64

unfoldable pub validate_tick : Tick → Result (Unit {0})
validate_tick value = do
  validate_symbol_and_source value.symbol value.source
  require (ltb_ℤ (pos 0) value.price) "tick price must be positive"
  require (ltb_ℤ (pos 0) value.size) "tick size must be positive"
  require (trade_id_fits value.trade_id) "trade_id must contain 1-64 characters when present"

unfoldable pub validate_snapshot : OrderBookSnapshot → Result (Unit {0})
validate_snapshot value = do
  validate_symbol_and_source value.symbol value.source
  require (ltb_ℤ (pos 0) value.best_bid && ltb_ℤ (pos 0) value.best_ask)
      "best bid and ask must be positive"
  require (leb_ℤ value.best_bid value.best_ask) "best ask cannot be below best bid"
  require (leb_ℤ (negsuc (scale - 1)) value.imbalance && leb_ℤ value.imbalance (pos scale))
      "imbalance must be between -1 and 1"
  require (leb_ℤ (pos 0) value.total_bid_volume && leb_ℤ (pos 0) value.total_ask_volume)
      "order-book volumes cannot be negative"

unfoldable pub validate_indicator : TechnicalIndicator → Result (Unit {0})
validate_indicator value = do
  validate_symbol_and_source value.symbol value.source
  require
      (leb (length value.indicator_name) 32 && is_upper_identifier value.indicator_name (codes "_"))
      "indicator name must be an uppercase identifier of at most 32 characters"
  require (not (is_empty value.parameters_json)) "indicator parameters JSON cannot be empty"
