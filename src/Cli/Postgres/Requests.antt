-- ===== src/Cli/Postgres/Requests.antt =====
-- The arguments of the commands of src/cli/postgres_cli.cpp, as the code reads them.
use fin_core_streaming_syste.Prelude.{
  ℕ, zero, suc, ◌+◌, ◌-◌, ◌^◌, Bool, true, false, not, ◌||◌, Option, none, some, List, [], ◌∷◌,
  if◌then◌else◌, Text, codes, text_eq, length, ltb, ◌==◌, Result, ok, err, guard, ◌>>=◌, ◌>>◌,
  invalid_argument, out_of_range, lit, about,
}
use fin_core_streaming_syste.Prelude.Int.{ℤ, pos, negate, ltb_ℤ}
use fin_core_streaming_syste.Cli.Parse.{is_space, read_digits}
use fin_core_streaming_syste.Cli.Postgres.Times.{upper, parse_timestamp}
use fin_core_streaming_syste.Domain.Decimal.{Decimal, from_string}
use fin_core_streaming_syste.Domain.MarketData.{
  Instrument, DataSource, Quote, Tick, OrderBookSnapshot, TechnicalIndicator, Timestamp, AssetClass,
  TradeSide,
}

unfoldable pub parse_bool : Text → Result Bool
parse_bool text =
    let value = upper text in
    if text_eq value (codes "TRUE") || text_eq value (codes "1") || text_eq value (codes "YES")
    then ok true
    else if text_eq value (codes "FALSE") || text_eq value (codes "0") || text_eq value (codes "NO")
    then ok false
    else err (invalid_argument (lit "boolean must be true or false"))

-- A value beyond `long` is `out_of_range`.
abbrev pub convert : Bool → ℕ → ℕ × ℕ → Result (ℤ × ℕ)
convert negative before (value, digits) =
    if digits == 0
    then err (invalid_argument (lit "stol"))
    else if ltb (if negative then 2 ^ 63 else 2 ^ 63 - 1) value
    then err (out_of_range (lit "stol"))
    else ok (if negative then negate (pos value) else pos value, before + digits)

abbrev pub behind_sign : ℕ → Text → Result (ℤ × ℕ)
behind_sign spaces [] = err (invalid_argument (lit "stol"))
behind_sign spaces (c ∷ s) =
    if c == b'-'
    then convert true (spaces + 1) (read_digits s 0 0)
    else if c == b'+'
    then convert false (spaces + 1) (read_digits s 0 0)
    else convert false spaces (read_digits (c ∷ s) 0 0)

-- `std::stol(text, &consumed)`.
unfoldable pub stol : ℕ → Text → Result (ℤ × ℕ)
stol spaces [] = err (invalid_argument (lit "stol"))
stol spaces (c ∷ s) = elim (is_space c) [
  | true ↦ stol (spaces + 1) s
  | false ↦ behind_sign spaces (c ∷ s)
]

unfoldable pub parse_tick_decimals : Text → Result ℤ
parse_tick_decimals value = stol 0 value >>= (λ r.
    if not (r.1 == length value) || ltb_ℤ r.0 (pos 0) || ltb_ℤ (pos 8) r.0
    then err (invalid_argument (lit "TICK_DECIMALS must be an integer from 0 to 8"))
    else ok r.0)

unfoldable pub parse_asset_class : Text → Result AssetClass
parse_asset_class text =
    let value = upper text in
    if text_eq value (codes "EQUITY")
    then ok AssetClass.equity
    else if text_eq value (codes "FOREX")
    then ok AssetClass.forex
    else if text_eq value (codes "CRYPTO")
    then ok AssetClass.crypto
    else if text_eq value (codes "FUTURES")
    then ok AssetClass.futures
    else if text_eq value (codes "ETF")
    then ok AssetClass.etf
    else err (invalid_argument (lit "asset class must be EQUITY, FOREX, CRYPTO, FUTURES, or ETF"))

unfoldable pub parse_side : Text → Result TradeSide
parse_side text =
    let value = upper text in
    if text_eq value (codes "B")
    then ok TradeSide.bid
    else if text_eq value (codes "A")
    then ok TradeSide.ask
    else if text_eq value (codes "U")
    then ok TradeSide.unknown
    else err (invalid_argument (lit "side must be B, A, or U"))

unfoldable pub require_count : List Text → ℕ → Text → Result (Unit {0})
require_count args count usage =
    guard (length args == count) (invalid_argument (about "usage: " usage))

-- `args[i]`, below the size.
unfoldable pub arg : List Text → ℕ → Text
arg [] i = []
arg (a ∷ args) zero = a
arg (a ∷ args) (suc i) = arg args i

-- The text, or nothing for `-`.
abbrev pub unless_dash : Text → Option Text
unless_dash text = if text_eq text (codes "-") then none else some text

abbrev pub change_of : Text → Result (Option Decimal)
change_of text =
    if text_eq text (codes "-") then ok none else (from_string text >>= (λ d. ok (some d)))

-- What the commands pass to the repository. `now` is the time of the system's clock.
unfoldable pub instrument_of : List Text → Result Instrument
instrument_of args = do
  require_count args 7 (codes "instrument SYMBOL NAME ASSET_CLASS EXCHANGE TICK_DECIMALS ACTIVE")
  asset_class ← parse_asset_class (arg args 3)
  decimals ← parse_tick_decimals (arg args 5)
  active ← parse_bool (arg args 6)
  ok (record {
    symbol = upper (arg args 1);
    name = arg args 2;
    asset_class = asset_class;
    exchange = arg args 4;
    tick_size_decimals = decimals;
    is_active = active;
  })

unfoldable pub source_of : List Text → Result DataSource
source_of args = do
  require_count args 5 (codes "source CODE DISPLAY_NAME BASE_URL|- ACTIVE")
  active ← parse_bool (arg args 4)
  ok (record {
    code = upper (arg args 1);
    display_name = arg args 2;
    base_url = unless_dash (arg args 3);
    is_active = active;
  })

unfoldable pub quote_of : Timestamp → List Text → Result Quote
quote_of now args = do
  require_count args 10
      (codes "quote SYMBOL SOURCE TIMESTAMP PRICE OPEN HIGH LOW VOLUME CHANGE_PCT|-")
  timestamp ← parse_timestamp now (arg args 3)
  price ← from_string (arg args 4)
  opening ← from_string (arg args 5)
  high ← from_string (arg args 6)
  low ← from_string (arg args 7)
  volume ← from_string (arg args 8)
  change_pct ← change_of (arg args 9)
  ok (record {
    symbol = upper (arg args 1);
    source = upper (arg args 2);
    timestamp = timestamp;
    price = price;
    opening = opening;
    high = high;
    low = low;
    volume = volume;
    change_pct = change_pct;
  })

unfoldable pub tick_of : Timestamp → List Text → Result Tick
tick_of now args = do
  require_count args 8 (codes "tick SYMBOL SOURCE TIMESTAMP TRADE_ID|- PRICE SIZE SIDE")
  timestamp ← parse_timestamp now (arg args 3)
  price ← from_string (arg args 5)
  size ← from_string (arg args 6)
  side ← parse_side (arg args 7)
  ok (record {
    symbol = upper (arg args 1);
    source = upper (arg args 2);
    timestamp = timestamp;
    trade_id = unless_dash (arg args 4);
    price = price;
    size = size;
    side = side;
  })

unfoldable pub snapshot_of : Timestamp → List Text → Result OrderBookSnapshot
snapshot_of now args = do
  require_count args 9
      (codes "snapshot SYMBOL SOURCE TIMESTAMP BEST_BID BEST_ASK IMBALANCE BID_VOLUME ASK_VOLUME")
  timestamp ← parse_timestamp now (arg args 3)
  best_bid ← from_string (arg args 4)
  best_ask ← from_string (arg args 5)
  imbalance ← from_string (arg args 6)
  total_bid_volume ← from_string (arg args 7)
  total_ask_volume ← from_string (arg args 8)
  ok (record {
    symbol = upper (arg args 1);
    source = upper (arg args 2);
    snapshot_time = timestamp;
    best_bid = best_bid;
    best_ask = best_ask;
    imbalance = imbalance;
    total_bid_volume = total_bid_volume;
    total_ask_volume = total_ask_volume;
  })

unfoldable pub indicator_of : Timestamp → List Text → Result TechnicalIndicator
indicator_of now args = do
  require_count args 7 (codes "indicator SYMBOL SOURCE NAME TIMESTAMP VALUE PARAMETERS_JSON")
  timestamp ← parse_timestamp now (arg args 4)
  value ← from_string (arg args 5)
  ok (record {
    symbol = upper (arg args 1);
    source = upper (arg args 2);
    indicator_name = upper (arg args 3);
    timestamp = timestamp;
    value = value;
    parameters_json = arg args 6;
  })
