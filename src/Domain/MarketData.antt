-- ===== src/Domain/MarketData.antt =====
-- The records of include/domain/market_data.hpp, and the names of their enumerations in
-- src/domain/validation.cpp. A `Timestamp` is a count of nanoseconds since the epoch.
use fin_core_streaming_syste.Prelude.{ℕ, Bool, Option, Text, codes}
use fin_core_streaming_syste.Prelude.Int.{ℤ}
use fin_core_streaming_syste.Domain.Decimal.{Decimal}

abbrev pub Timestamp : Type 0
Timestamp = ℤ

pub data AssetClass : Type 0 where
  equity forex crypto futures etf : AssetClass

pub data TradeSide : Type 0 where
  bid ask unknown : TradeSide

pub record Instrument : Type 0 where
  pub symbol : Text
  pub name : Text
  pub asset_class : AssetClass
  pub exchange : Text
  pub tick_size_decimals : ℤ
  pub is_active : Bool

pub record DataSource : Type 0 where
  pub code : Text
  pub display_name : Text
  pub base_url : Option Text
  pub is_active : Bool

pub record Quote : Type 0 where
  pub symbol : Text
  pub source : Text
  pub timestamp : Timestamp
  pub price : Decimal
  pub opening : Decimal
  pub high : Decimal
  pub low : Decimal
  pub volume : Decimal
  pub change_pct : Option Decimal

pub record Tick : Type 0 where
  pub symbol : Text
  pub source : Text
  pub timestamp : Timestamp
  pub trade_id : Option Text
  pub price : Decimal
  pub size : Decimal
  pub side : TradeSide

pub record OrderBookSnapshot : Type 0 where
  pub symbol : Text
  pub source : Text
  pub snapshot_time : Timestamp
  pub best_bid : Decimal
  pub best_ask : Decimal
  pub imbalance : Decimal
  pub total_bid_volume : Decimal
  pub total_ask_volume : Decimal

pub record TechnicalIndicator : Type 0 where
  pub symbol : Text
  pub source : Text
  pub indicator_name : Text
  pub timestamp : Timestamp
  pub value : Decimal
  pub parameters_json : Text

-- `to_string(AssetClass)`.
unfoldable pub asset_class_name : AssetClass → Text
asset_class_name AssetClass.equity = codes "EQUITY"
asset_class_name AssetClass.forex = codes "FOREX"
asset_class_name AssetClass.crypto = codes "CRYPTO"
asset_class_name AssetClass.futures = codes "FUTURES"
asset_class_name AssetClass.etf = codes "ETF"

-- `to_char(TradeSide)`.
unfoldable pub to_char : TradeSide → ℕ
to_char TradeSide.bid = b'B'
to_char TradeSide.ask = b'A'
to_char TradeSide.unknown = b'U'
