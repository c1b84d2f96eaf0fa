-- ===== src/Core/OrderBook/Replace.antt =====
-- `OrderBook::replace_bids`, given a `std::map` of levels (src/core/order_book.cpp).
use fin_core_streaming_syste.Prelude.{
  ℕ, ◌≡◌, refl, sym, ap, ◌∙◌, true, Option, none, some, [], ◌∷◌, ◌++◌, ◌==◌, if◌then◌else◌, ok, err,
  All, arith, ok≢err,
}
use fin_core_streaming_syste.Core.Double.{Double, IsIeee}
use fin_core_streaming_syste.Core.Levels.{Levels, find, same, Below, find-Below}
use fin_core_streaming_syste.Core.OrderBook.{
  OrderBook, Outcome, and_then, greater, set_bid, set_all, replace_bids, bad_bid,
}
use fin_core_streaming_syste.Core.OrderBook.Invariant.{
  IsPositive, IsValid, less-IsStrictOrder, set_bid-IsValid,
}
use fin_core_streaming_syste.Core.OrderBook.Contents.{bid_at, set_bid_lem}

module _ (D : Double) where
  -- The order of a `std::map<Price, Volume>`.
  abbrev pub IsRising : Levels D.Num → Type 0
  IsRising [] = Unit
  IsRising ((k, v) ∷ m) = Below D.lt k m × IsRising m

  abbrev pub ArePositive : Levels D.Num → Type 0
  ArePositive = All (λ e. IsPositive D (e.0))

-- A level that is given replaces what was there; a volume of zero gives no level.
abbrev pub override : Option ℕ → Option ℕ → Option ℕ
override none old = old
override (some v) old = if v == 0 then none else some v

module _ (D : Double) (laws : IsIeee D) where
  Below-lower : (q p : D.Num) (m : Levels D.Num) → D.lt q p ≡ true → Below D.lt p m → Below D.lt q m
  Below-lower q p [] h b = tt
  Below-lower q p ((k, v) ∷ m) h (b, bs) = (laws.lt_trans q p k h b, Below-lower q p m h bs)

  find-lower :
      (q p : D.Num) (m : Levels D.Num) → D.lt q p ≡ true → Below D.lt p m → find D.lt q m ≡ none
  find-lower q p m h b = find-Below (less-IsStrictOrder D laws) q m (Below-lower q p m h b)

  override-step :
      (q p : D.Num) (v : ℕ) (m : Levels D.Num) (old : Option ℕ)
      → IsPositive D q
      → IsPositive D p
      → Below D.lt p m
      → override
          (find D.lt q m)
          (if same (greater D) q p then (if v == 0 then none else some v) else old)
        ≡ override (find D.lt q ((p, v) ∷ m)) old
  unfolding find
  override-step q p v m old pq pp b = ground (
    arith,
    find-lower q p m,
    find-Below (less-IsStrictOrder D laws) p m b,
    laws.connected q p pq pp,
    laws.lt_trans q p q,
    laws.lt_irrefl q,
  )

  and_then-ok :
      (r : Outcome D) (next : OrderBook D → Outcome D) → r.0 ≡ ok tt → and_then D r next ≡ next r.1
  and_then-ok (ok _, b) next h = refl
  and_then-ok (err e, b) next h = absurd (ok≢err (sym h))

  set_all-contents :
      (levels : Levels D.Num) (b : OrderBook D)
      → IsRising D levels
      → ArePositive D levels
      → IsValid D b
      → let (r, b') = set_all D (set_bid D) levels b in
        (r ≡ ok tt)
        × ((q : D.Num)
            → IsPositive D q
            → bid_at D b' q ≡ override (find D.lt q levels) (bid_at D b q))
        × (b'.asks ≡ b.asks)
        × (b'.symbol ≡ b.symbol)
  unfolding set_all
  set_all-contents [] b up pos h = (refl, λ q pq. unfold find in refl, refl, refl)
  set_all-contents ((p, v) ∷ levels) b (below, up) (pp, pos) h =
      let num = (laws.numbers_of_lt D.nought p pp).1 in
      let b' = (set_bid D p v b).1 in
      let first = set_bid_lem D laws p v b p pp pp h in
      let rest = set_all-contents levels b' up pos (set_bid-IsValid D laws p v b num h) in
      rw (and_then-ok (set_bid D p v b) (set_all D (set_bid D) levels) first.0) (
        rest.0,
        λ q pq.
            rest.1 q pq
            ∙ (ap (override (find D.lt q levels)) (set_bid_lem D laws p v b q pp pq h).1
                ∙ override-step q p v levels (bid_at D b q) pq pp below),
        rest.2 ∙ first.2,
        rest.3 ∙ first.3,
      )

  -- Given levels at positive prices, in the order of a `std::map`, the call succeeds. The bids are
  -- then those levels but the ones of volume zero: none of the old bids is left, whatever they
  -- were. The asks and the symbol stay.
  pub replace_bids_lem :
      (levels : Levels D.Num) (b : OrderBook D) (q : D.Num)
      → IsRising D levels
      → ArePositive D levels
      → IsValid D b
      → IsPositive D q
      → let (r, b') = replace_bids D levels b in
        (r ≡ ok tt)
        × (bid_at D b' q ≡ override (find D.lt q levels) none)
        × (b'.asks ≡ b.asks)
        × (b'.symbol ≡ b.symbol)
  unfolding replace_bids
  replace_bids_lem levels b q up pos h pq =
      let cleared = record b { bids = [] } in
      let all =
        set_all-contents levels cleared up pos
          (record { named = h.named; bids = tt; asks = h.asks }) in
      (
        all.0,
        all.1 q pq ∙ ap (override (find D.lt q levels)) (unfold bid_at find in refl),
        all.2,
        all.3,
      )

  Below-mem :
      (k : D.Num) (xs ys : Levels D.Num) (p : D.Num) (w : ℕ)
      → Below D.lt k (xs ++ ((p, w) ∷ ys))
      → D.lt k p ≡ true
  Below-mem k [] ys p w b = b.0
  Below-mem k (x ∷ xs) ys p w b = Below-mem k xs ys p w b.1

  -- The call is not atomic. Given levels in the order of a `std::map`, one of which has a price that
  -- is not positive, it throws, and the book is left with no bids at all.
  pub replace_bids_fails :
      (xs ys : Levels D.Num) (p : D.Num) (w : ℕ) (b : OrderBook D)
      → IsRising D (xs ++ ((p, w) ∷ ys))
      → D.le p D.nought ≡ true
      → replace_bids D (xs ++ ((p, w) ∷ ys)) b ≡ (err bad_bid, record b { bids = [] })
  unfolding replace_bids set_all set_bid
  replace_bids_fails [] ys p w b up low = rw low
  replace_bids_fails ((k, v) ∷ xs) ys p w b (below, up) low =
      rw (laws.le_of_lt_le k p D.nought (Below-mem k xs ys p w below) low)
