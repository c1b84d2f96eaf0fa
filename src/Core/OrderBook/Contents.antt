-- ===== src/Core/OrderBook/Contents.antt =====
-- The book as two finite maps from prices to volumes, which is what a caller sees of it
-- (src/core/order_book.cpp).
use mathlib.Core.Option.{some-injective}
use fin_core_streaming_syste.Prelude.{
  ℕ, ◌+◌, ◌%◌, ◌^◌, ◌<◌, ◌≡◌, ◌≢◌, sym, ◌∙◌, false, Option, none, some, [], ◌∷◌, ◌==◌,
  if◌then◌else◌, ok, arith, none≢some,
}
use fin_core_streaming_syste.Core.Double.{Double, IsIeee}
use fin_core_streaming_syste.Core.Levels.{
  Levels, assign, erase, find, same, volume_sum, volume_or_0, find-assign, find-erase,
  volume_sum-assign, volume_sum-erase,
}
use fin_core_streaming_syste.Core.OrderBook.{
  OrderBook, greater, set_bid, set_ask, first_key, best_bid, total_from, total_bid_volume,
}
use fin_core_streaming_syste.Core.OrderBook.Invariant.{
  IsPositive, IsValid, less-IsStrictOrder, greater-IsStrictOrder,
}

module _ (D : Double) where
  unfoldable pub bid_at : OrderBook D → D.Num → Option ℕ
  bid_at b p = find (greater D) p b.bids

  unfoldable pub ask_at : OrderBook D → D.Num → Option ℕ
  ask_at b p = find D.lt p b.asks

  -- A volume of zero stands for no level.
  abbrev pub level : ℕ → Option ℕ
  level v = if v == 0 then none else some v

  module _ (laws : IsIeee D) where
    -- At positive prices `set_bid` succeeds, and is the update of a finite map: the price has the
    -- new level, or none for volume zero, every other bid, at a positive price `q`, is as
    -- before, and the asks and the symbol stay.
    pub set_bid_lem :
        (p : D.Num) (v : ℕ) (b : OrderBook D) (q : D.Num)
        → IsPositive D p
        → IsPositive D q
        → IsValid D b
        → let (r, b') = set_bid D p v b in
          (r ≡ ok tt)
          × (bid_at b' q ≡ (if same (greater D) q p then level v else bid_at b q))
          × (b'.asks ≡ b.asks)
          × (b'.symbol ≡ b.symbol)
    unfolding set_bid bid_at
    set_bid_lem p v b q pp pq h =
        let guard = laws.not_positive p pp in
        let o = greater-IsStrictOrder D laws in
        (
          ground arith,
          ground (
            arith,
            find-assign o q p v b.bids pq pp h.bids,
            find-erase o q p b.bids pq pp h.bids,
          ),
          ground arith,
          ground arith,
        )

    -- At positive prices `set_ask` succeeds, and is the update of a finite map: the price has the
    -- new level, or none for volume zero, every other ask, at a positive price `q`, is as before,
    -- and the bids and the symbol stay.
    pub set_ask_lem :
        (p : D.Num) (v : ℕ) (b : OrderBook D) (q : D.Num)
        → IsPositive D p
        → IsPositive D q
        → IsValid D b
        → let (r, b') = set_ask D p v b in
          (r ≡ ok tt)
          × (ask_at b' q ≡ (if same D.lt q p then level v else ask_at b q))
          × (b'.bids ≡ b.bids)
          × (b'.symbol ≡ b.symbol)
    unfolding set_ask ask_at
    set_ask_lem p v b q pp pq h =
        let guard = laws.not_positive p pp in
        let o = less-IsStrictOrder D laws in
        (
          ground arith,
          ground (
            arith,
            find-assign o q p v b.asks pq pp h.asks,
            find-erase o q p b.asks pq pp h.asks,
          ),
          ground arith,
          ground arith,
        )

    head_found : (k : D.Num) (w : ℕ) (m : Levels D.Num) → find (greater D) k ((k, w) ∷ m) ≡ some w
    unfolding find
    head_found k w m = rw (laws.lt_irrefl k)

    head_max :
        (k : D.Num) (w : ℕ) (m : Levels D.Num) (q : D.Num)
        → find (greater D) q ((k, w) ∷ m) ≢ none
        → D.lt k q ≡ false
    unfolding find
    head_max k w m q present = ground arith

    first_max :
        (m : Levels D.Num) (p q : D.Num)
        → first_key m ≡ some p
        → find (greater D) q m ≢ none
        → (find (greater D) p m ≢ none) × (D.lt p q ≡ false)
    first_max [] p q e present = absurd (none≢some e)
    first_max ((k, w) ∷ m) p q e present =
        let same_key = some-injective _ _ e in
        rw (← same_key)
          ((λ absent. none≢some (sym absent ∙ head_found k w m)), head_max k w m q present)

    -- `best_bid` is the price of a bid, and no bid of the book has a higher price.
    best_bid_max :
        (b : OrderBook D) (p q : D.Num)
        → best_bid D b ≡ some p
        → bid_at b q ≢ none
        → (bid_at b p ≢ none) × (D.lt p q ≡ false)
    unfolding best_bid bid_at
    best_bid_max b p q e present = first_max b.bids p q e present

    total_from-eq :
        {K : Type 0} (t : ℕ) (m : Levels K)
        → t < 2 ^ 64
        → total_from t m ≡ (t + volume_sum m) % 2 ^ 64
    unfolding total_from volume_sum
    total_from-eq t [] small = omega arith
    total_from-eq t ((k, v) ∷ m) small = omega (arith, total_from-eq ((t + v) % 2 ^ 64) m)

    -- `set_bid` moves the total by the difference of the new and the old volume, modulo 2^64.
    set_bid_total :
        (p : D.Num) (v : ℕ) (b : OrderBook D)
        → IsPositive D p
        → IsValid D b
        → (total_bid_volume D (set_bid D p v b).1 + volume_or_0 (bid_at b p)) % 2 ^ 64
          ≡ (total_bid_volume D b + v) % 2 ^ 64
    unfolding set_bid bid_at total_bid_volume
    set_bid_total p v b pp h =
        let o = greater-IsStrictOrder D laws in
        let guard = laws.not_positive p pp in
        ground (
          arith,
          volume_sum-assign o p v b.bids pp h.bids,
          volume_sum-erase o p b.bids pp h.bids,
          total_from-eq 0 b.bids,
          total_from-eq 0 (assign (greater D) p v b.bids),
          total_from-eq 0 (erase (greater D) p b.bids),
        )
