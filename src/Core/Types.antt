-- ===== src/Core/Types.antt =====
-- include/core/types.hpp. A `TimePoint` is a count of microseconds since the epoch.
use fin_core_streaming_syste.Prelude.{
  ℕ, ◌+◌, ◌%◌, ◌^◌, Bool, true, false, not, ◌&&◌, ◌||◌, [], ◌∷◌, ltb, ◌==◌, if◌then◌else◌, Text,
  codes, text_eq,
}
use fin_core_streaming_syste.Prelude.Int.{ℤ, leb_ℤ}
use fin_core_streaming_syste.Core.Double.{Double}

abbrev pub TimePoint : Type 0
TimePoint = ℤ

abbrev pub time_eq : TimePoint → TimePoint → Bool
time_eq a b = leb_ℤ a b && leb_ℤ b a

pub data Side : Type 0 where
  bid ask unknown : Side

unfoldable pub side_to_char : Side → ℕ
side_to_char Side.bid = b'B'
side_to_char Side.ask = b'A'
side_to_char Side.unknown = b'U'

unfoldable pub side_from : ℕ → Side
side_from c = if c == b'B' then Side.bid else if c == b'A' then Side.ask else Side.unknown

unfoldable pub side_name : Side → Text
side_name Side.bid = codes "BID"
side_name Side.ask = codes "ASK"
side_name Side.unknown = codes "UNKNOWN"

pub data AssetClass : Type 0 where
  equity forex crypto futures etf : AssetClass

unfoldable pub asset_class_name : AssetClass → Text
asset_class_name AssetClass.equity = codes "EQUITY"
asset_class_name AssetClass.forex = codes "FOREX"
asset_class_name AssetClass.crypto = codes "CRYPTO"
asset_class_name AssetClass.futures = codes "FUTURES"
asset_class_name AssetClass.etf = codes "ETF"

unfoldable pub asset_class_from : Text → AssetClass
asset_class_from s =
    if text_eq s (codes "FOREX")
    then AssetClass.forex
    else if text_eq s (codes "CRYPTO")
    then AssetClass.crypto
    else if text_eq s (codes "FUTURES")
    then AssetClass.futures
    else if text_eq s (codes "ETF")
    then AssetClass.etf
    else AssetClass.equity

pub data DataSource : Type 0 where
  alpha_vantage stream manual : DataSource

unfoldable pub data_source_name : DataSource → Text
data_source_name DataSource.alpha_vantage = codes "ALPHA_VANTAGE"
data_source_name DataSource.stream = codes "STREAM"
data_source_name DataSource.manual = codes "MANUAL"

abbrev pub is_empty_text : Text → Bool
is_empty_text [] = true
is_empty_text (c ∷ s) = false

module _ (D : Double) where
  pub record Quote : Type 0 where
    pub symbol : Text
    pub price : D.Num
    pub opening : D.Num
    pub high : D.Num
    pub low : D.Num
    pub volume : ℕ
    pub change_pct : D.Num
    pub source : Text
    pub timestamp : TimePoint

  pub record Tick : Type 0 where
    pub symbol : Text
    pub price : D.Num
    pub size : ℕ
    pub side : Side
    pub source : Text
    pub timestamp : TimePoint

  pub record OrderBookSnapshot : Type 0 where
    pub symbol : Text
    pub best_bid : D.Num
    pub best_ask : D.Num
    pub mid_price : D.Num
    pub spread : D.Num
    pub imbalance : D.Num
    pub total_bid_vol : ℕ
    pub total_ask_vol : ℕ
    pub snapshot_time : TimePoint

module _ {D : Double} where
  -- `Quote::is_valid`.
  unfoldable pub quote_is_valid : Quote D → Bool
  quote_is_valid q =
      not (is_empty_text q.symbol)
      && D.lt D.nought q.price
      && (D.eq q.high D.nought || D.le q.low q.high)
      && (D.eq q.opening D.nought || D.lt D.nought q.opening)

  -- `Tick::is_valid`.
  unfoldable pub tick_is_valid : Tick D → Bool
  tick_is_valid t = not (is_empty_text t.symbol) && D.lt D.nought t.price && ltb 0 t.size

  -- `OrderBookSnapshot::is_valid`.
  unfoldable pub snapshot_is_valid : OrderBookSnapshot D → Bool
  snapshot_is_valid s =
      not (is_empty_text s.symbol)
      && D.lt D.nought s.best_bid
      && D.lt D.nought s.best_ask
      && D.le s.best_bid s.best_ask
      && D.le (D.neg D.one) s.imbalance
      && D.le s.imbalance D.one

  unfoldable pub computed_mid : OrderBookSnapshot D → D.Num
  computed_mid s = D.mul (D.add s.best_bid s.best_ask) D.half

  unfoldable pub computed_spread : OrderBookSnapshot D → D.Num
  computed_spread s = D.sub s.best_ask s.best_bid

  -- The sum of the volumes is computed in `uint64_t`, before it is converted.
  unfoldable pub computed_imbalance : OrderBookSnapshot D → D.Num
  computed_imbalance s =
      let total = D.of_u64 ((s.total_bid_vol + s.total_ask_vol) % 2 ^ 64) in
      if D.eq total D.nought
      then D.nought
      else D.div (D.sub (D.of_u64 s.total_bid_vol) (D.of_u64 s.total_ask_vol)) total

  -- The notional value of a trade.
  unfoldable pub notional : Tick D → D.Num
  notional t = D.mul t.price (D.of_u64 t.size)

  -- `operator<=` and `operator==` of `Quote` and of `Tick`.
  unfoldable pub quote_le : Quote D → Quote D → Bool
  quote_le q o = leb_ℤ q.timestamp o.timestamp

  unfoldable pub quote_eq : Quote D → Quote D → Bool
  quote_eq q o = time_eq q.timestamp o.timestamp && text_eq q.symbol o.symbol

  unfoldable pub tick_le : Tick D → Tick D → Bool
  tick_le t o = leb_ℤ t.timestamp o.timestamp

  unfoldable pub tick_eq : Tick D → Tick D → Bool
  tick_eq t o = time_eq t.timestamp o.timestamp && text_eq t.symbol o.symbol && D.eq t.price o.price

-- A `TimePoint` is its count of microseconds.
unfoldable pub to_unix_us : TimePoint → ℤ
to_unix_us tp = tp
