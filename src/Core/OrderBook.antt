-- ===== src/Core/OrderBook.antt =====
-- `class OrderBook` of include/core/order_book.hpp and src/core/order_book.cpp. A method that may
-- throw returns its result and the book as it is left.
pub mod Invariant
pub mod Contents
pub mod Replace
use fin_core_streaming_syste.Prelude.{
  ℕ, ◌+◌, ◌%◌, ◌^◌, ◌≡◌, refl, Bool, true, false, ◌&&◌, Option, none, some, List, [], ◌∷◌, length,
  ◌==◌, if◌then◌else◌, Text, Result, ok, err, Exception, invalid_argument, lit,
}
use fin_core_streaming_syste.Prelude.Int.{ℤ, pos}
use fin_core_streaming_syste.Core.Double.{Double}
use fin_core_streaming_syste.Core.Levels.{Levels, assign, erase}
use fin_core_streaming_syste.Core.Types.{OrderBookSnapshot, TimePoint, is_empty_text}

module _ (D : Double) where
  pub record OrderBook : Type 0 where
    pub symbol : Text
    pub bids : Levels D.Num
    pub asks : Levels D.Num

-- `remove_zero_levels`, which no method calls.
unfoldable pub remove_zero_levels : {K : Type 0} → Levels K → Levels K
remove_zero_levels [] = []
remove_zero_levels ((k, v) ∷ m) =
    let rest = remove_zero_levels m in if v == 0 then rest else (k, v) ∷ rest

module _ {K : Type 0} where
  -- `begin()->first`.
  abbrev pub first_key : Levels K → Option K
  first_key [] = none
  first_key ((k, v) ∷ m) = some k

  abbrev pub both : (K → K → K) → Option K → Option K → Option K
  both f (some bid) (some ask) = some (f bid ask)
  both f (some bid) none = none
  both f none ask = none

  -- `total += vol` in `uint64_t`.
  unfoldable pub total_from : ℕ → Levels K → ℕ
  total_from total [] = total
  total_from total ((k, vol) ∷ m) = total_from ((total + vol) % 2 ^ 64) m

  abbrev pub value_or : Option K → K → K
  value_or none d = d
  value_or (some x) d = x

abbrev pub is_epoch : TimePoint → Bool
is_epoch (pos n) = n == 0
is_epoch (ℤ.negsuc n) = false

abbrev pub bad_bid : Exception
bad_bid = invalid_argument (lit "OrderBook::set_bid: price must be > 0")

abbrev pub bad_ask : Exception
bad_ask = invalid_argument (lit "OrderBook::set_ask: price must be > 0")

module _ (D : Double) where
  abbrev pub Outcome : Type 0
  Outcome = Result (Unit {0}) × OrderBook D

  -- An exception leaves the caller too.
  abbrev pub and_then : Outcome → (OrderBook D → Outcome) → Outcome
  and_then (ok _, b) next = next b
  and_then (err e, b) next = (err e, b)

  -- `std::greater<Price>` and `std::less<Price>`.
  abbrev pub greater : D.Num → D.Num → Bool
  greater a b = D.lt b a

  -- The constructor.
  unfoldable pub create : Text → Result (OrderBook D)
  create [] = err (invalid_argument (lit "OrderBook: symbol must not be empty!!"))
  create (c ∷ s) = ok (record { symbol = c ∷ s; bids = []; asks = [] })

  unfoldable pub bid_depth : OrderBook D → ℕ
  bid_depth b = length b.bids

  unfoldable pub ask_depth : OrderBook D → ℕ
  ask_depth b = length b.asks

  unfoldable pub empty : OrderBook D → Bool
  empty b = bid_depth b == 0 && ask_depth b == 0

  unfoldable pub set_bid : D.Num → ℕ → OrderBook D → Outcome
  set_bid price volume b =
      if D.le price D.nought
      then (err bad_bid, b)
      else if volume == 0
      then (ok tt, record b { bids = erase greater price b.bids })
      else (ok tt, record b { bids = assign greater price volume b.bids })

  unfoldable pub set_ask : D.Num → ℕ → OrderBook D → Outcome
  set_ask price volume b =
      if D.le price D.nought
      then (err bad_ask, b)
      else if volume == 0
      then (ok tt, record b { asks = erase D.lt price b.asks })
      else (ok tt, record b { asks = assign D.lt price volume b.asks })

  -- `for (const auto& [price, vol] : levels) set(price, vol);`, left by the first exception.
  unfoldable pub set_all :
      (D.Num → ℕ → OrderBook D → Outcome) → Levels D.Num → OrderBook D → Outcome
  set_all set [] b = (ok tt, b)
  set_all set ((price, vol) ∷ levels) b = and_then (set price vol b) (set_all set levels)

  unfoldable pub replace_bids : Levels D.Num → OrderBook D → Outcome
  replace_bids levels b = set_all set_bid levels (record b { bids = [] })

  unfoldable pub replace_asks : Levels D.Num → OrderBook D → Outcome
  replace_asks levels b = set_all set_ask levels (record b { asks = [] })

  unfoldable pub clear : OrderBook D → OrderBook D
  clear b = record b { bids = []; asks = [] }

  unfoldable pub best_bid : OrderBook D → Option D.Num
  best_bid b = first_key b.bids

  unfoldable pub best_ask : OrderBook D → Option D.Num
  best_ask b = first_key b.asks

  unfoldable pub mid_price : OrderBook D → Option D.Num
  mid_price b = both (λ bid ask. D.mul (D.add bid ask) D.half) (best_bid b) (best_ask b)

  unfoldable pub spread : OrderBook D → Option D.Num
  spread b = both (λ bid ask. D.sub ask bid) (best_bid b) (best_ask b)

  unfoldable pub total_bid_volume : OrderBook D → ℕ
  total_bid_volume b = total_from 0 b.bids

  unfoldable pub total_ask_volume : OrderBook D → ℕ
  total_ask_volume b = total_from 0 b.asks

  unfoldable pub imbalance : OrderBook D → D.Num
  imbalance b =
      let bid_v = D.of_u64 (total_bid_volume b) in
      let ask_v = D.of_u64 (total_ask_volume b) in
      let total = D.add bid_v ask_v in
      if D.eq total D.nought then D.nought else D.div (D.sub bid_v ask_v) total

  -- `now` is the clock's time, which stands in for a missing `at`.
  unfoldable pub snapshot : TimePoint → TimePoint → OrderBook D → OrderBookSnapshot D
  snapshot now at b = record {
    symbol = b.symbol;
    best_bid = value_or (best_bid b) D.nought;
    best_ask = value_or (best_ask b) D.nought;
    mid_price = value_or (mid_price b) D.nought;
    spread = value_or (spread b) D.nought;
    imbalance = imbalance b;
    total_bid_vol = total_bid_volume b;
    total_ask_vol = total_ask_volume b;
    snapshot_time = if is_epoch at then now else at;
  }
