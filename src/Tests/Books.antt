-- ===== src/Tests/Books.antt =====
-- Examples of src/core/order_book.cpp, at the numbers of Tests/Doubles.
use mathlib.Core.List.{cons-ne-nil}
use fin_core_streaming_syste.Prelude.{
  ℕ, ◌*◌, ◌≡◌, ◌≢◌, refl, sym, none, some, List, [], ◌∷◌, ◌++◌, arith, if◌then◌else◌, codes, ok,
  err, none≢some,
}
use fin_core_streaming_syste.Prelude.Int.{pos}
use fin_core_streaming_syste.Core.Levels.{find, same, Levels}
use fin_core_streaming_syste.Core.OrderBook.{
  OrderBook, create, set_bid, replace_bids, best_bid, greater, bad_bid,
}
use fin_core_streaming_syste.Core.OrderBook.Invariant.{
  Op, bid, ask, all_bids, IsValid, run, run-IsValid, set_bid_nan,
}
use fin_core_streaming_syste.Core.OrderBook.Contents.{bid_at, level, set_bid_lem}
use fin_core_streaming_syste.Core.OrderBook.Replace.{override, replace_bids_lem, replace_bids_fails}
use fin_core_streaming_syste.Tests.Doubles.{cents, cents-IsIeee}

abbrev pub dollars : ℕ → cents.Num
dollars n = some (pos (n * 100))

abbrev pub sample : OrderBook cents
sample = record {
  symbol = codes "AAPL";
  bids = (dollars 189, 20) ∷ (dollars 188, 5) ∷ [];
  asks = (dollars 190, 7) ∷ [];
}

sample-IsValid : IsValid cents sample
sample-IsValid = record { named = cons-ne-nil _ _; bids = ground arith; asks = ground arith }

made : create cents (codes "AAPL") ≡ ok (record { symbol = codes "AAPL"; bids = []; asks = [] })
unfolding create
made = refl

abbrev calls : List (Op cents)
calls =
    bid (dollars 189) 20
    ∷ bid (dollars 0) 3
    ∷ ask (dollars 190) 7
    ∷ all_bids ((dollars 187, 4) ∷ (dollars 188, 0) ∷ [])
    ∷ ask (dollars 190) 0
    ∷ []

run-IsValid_example :
    IsValid cents (run cents calls (record { symbol = codes "AAPL"; bids = []; asks = [] }))
run-IsValid_example = run-IsValid cents cents-IsIeee (codes "AAPL") calls made (ground arith)

set_bid_lem_example :
    let (r, b') = set_bid cents (dollars 188) 0 sample in
    (r ≡ ok tt)
    × (bid_at cents b' (dollars 189) ≡ (
        if same (greater cents) (dollars 189) (dollars 188)
        then level cents 0
        else bid_at cents sample (dollars 189)))
    × (b'.asks ≡ sample.asks)
    × (b'.symbol ≡ sample.symbol)
set_bid_lem_example =
    set_bid_lem cents cents-IsIeee (dollars 188) 0 sample (dollars 189) refl refl sample-IsValid

set_bid_nan_example :
    set_bid cents none 4 sample
    ≡ (ok tt, record sample { bids = (dollars 189, 4) ∷ (dollars 188, 5) ∷ [] })
set_bid_nan_example = set_bid_nan cents cents-IsIeee none 4 sample refl (λ e. omega arith)

best_is_first : best_bid cents sample ≡ some (dollars 189)
unfolding best_bid
best_is_first = refl

second_is_there : bid_at cents sample (dollars 188) ≢ none
unfolding bid_at find
second_is_there e = absurd (none≢some (sym e))

abbrev given : Levels cents.Num
given = (dollars 187, 4) ∷ (dollars 188, 0) ∷ []

replace_bids_lem_example :
    let (r, b') = replace_bids cents given sample in
    (r ≡ ok tt)
    × (bid_at cents b' (dollars 188) ≡ override (find cents.lt (dollars 188) given) none)
    × (b'.asks ≡ sample.asks)
    × (b'.symbol ≡ sample.symbol)
replace_bids_lem_example =
    replace_bids_lem cents cents-IsIeee given sample (dollars 188) (ground arith) (ground arith)
      sample-IsValid refl

replace_bids_fails_example :
    replace_bids cents ([] ++ ((dollars 0, 4) ∷ (dollars 188, 2) ∷ [])) sample
    ≡ (err bad_bid, record sample { bids = [] })
replace_bids_fails_example =
    replace_bids_fails cents cents-IsIeee [] ((dollars 188, 2) ∷ []) (dollars 0) 4 sample
      (ground arith) refl
