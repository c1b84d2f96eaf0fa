-- ===== src/Core/OrderBook/Invariant.antt =====
-- The invariant of the book, over every sequence of calls (src/core/order_book.cpp).
use mathlib.Core.List.{cons-ne-nil}
use fin_core_streaming_syste.Prelude.{
  ℕ, ◌≡◌, ◌≢◌, refl, sym, Bool, true, false, List, [], ◌∷◌, Text, ok, err, All, arith, ok≢err,
  ok-injective,
}
use fin_core_streaming_syste.Core.Double.{Double, IsIeee}
use fin_core_streaming_syste.Core.Levels.{
  Levels, assign, IsStrictOrder, IsLadder, assign-IsLadder, erase-IsLadder,
}
use fin_core_streaming_syste.Core.OrderBook.{
  OrderBook, Outcome, and_then, greater, create, set_bid, set_ask, set_all, replace_bids,
  replace_asks, clear, remove_zero_levels,
}

-- A call that changes the book.
pub data Op (D : Double) : Type 0 where
  bid : D.Num → ℕ → Op D
  ask : D.Num → ℕ → Op D
  all_bids : Levels D.Num → Op D
  all_asks : Levels D.Num → Op D
  clear_all : Op D

-- The levels with the volume given to the first key, or to `k` if there is none.
abbrev pub at_first : {K : Type 0} → K → ℕ → Levels K → Levels K
at_first k v [] = (k, v) ∷ []
at_first k v ((j, w) ∷ m) = (j, v) ∷ m

module _ (D : Double) where
  abbrev pub IsPositive : D.Num → Type 0
  IsPositive p = D.lt D.nought p ≡ true

  abbrev pub IsNumber : D.Num → Type 0
  IsNumber p = D.le p p ≡ true

  -- Bids in falling order, asks in rising order, every price positive, and no empty level.
  pub record IsValid (b : OrderBook D) : Type 0 where
    pub named : b.symbol ≢ []
    pub bids : IsLadder (greater D) IsPositive b.bids
    pub asks : IsLadder D.lt IsPositive b.asks

  pub apply : Op D → OrderBook D → Outcome D
  apply (bid p v) b = set_bid D p v b
  apply (ask p v) b = set_ask D p v b
  apply (all_bids levels) b = replace_bids D levels b
  apply (all_asks levels) b = replace_asks D levels b
  apply clear_all b = (ok tt, clear D b)

  -- A sequence of calls, in which the caller goes on after an exception.
  pub run : List (Op D) → OrderBook D → OrderBook D
  run [] b = b
  run (op ∷ ops) b = run ops (apply op b).1

  abbrev pub HasNumbers : Op D → Type 0
  HasNumbers (bid p v) = IsNumber p
  HasNumbers (ask p v) = IsNumber p
  HasNumbers (all_bids levels) = All (λ e. IsNumber (e.0)) levels
  HasNumbers (all_asks levels) = All (λ e. IsNumber (e.0)) levels
  HasNumbers clear_all = Unit

  module _ (laws : IsIeee D) where
    pub less-IsStrictOrder : IsStrictOrder D.lt IsPositive
    less-IsStrictOrder = record {
      irrefl = laws.lt_irrefl;
      trans = λ a b c _ _ _ h k. laws.lt_trans a b c h k;
      connected = laws.connected;
    }

    pub greater-IsStrictOrder : IsStrictOrder (greater D) IsPositive
    greater-IsStrictOrder = record {
      irrefl = laws.lt_irrefl;
      trans = λ a b c _ _ _ h k. laws.lt_trans c b a k h;
      connected = λ a b ga gb h k. laws.connected a b ga gb k h;
    }

    pub set_bid-IsValid :
        (p : D.Num) (v : ℕ) (b : OrderBook D) → IsNumber p → IsValid b → IsValid (set_bid D p v b).1
    unfolding set_bid
    set_bid-IsValid p v b num h = ground (
      arith,
      laws.positive p num,
      assign-IsLadder greater-IsStrictOrder p v b.bids,
      erase-IsLadder greater-IsStrictOrder p b.bids,
    )

    pub set_ask-IsValid :
        (p : D.Num) (v : ℕ) (b : OrderBook D) → IsNumber p → IsValid b → IsValid (set_ask D p v b).1
    unfolding set_ask
    set_ask-IsValid p v b num h = ground (
      arith,
      laws.positive p num,
      assign-IsLadder less-IsStrictOrder p v b.asks,
      erase-IsLadder less-IsStrictOrder p b.asks,
    )

    and_then-IsValid :
        (r : Outcome D) (next : OrderBook D → Outcome D)
        → IsValid r.1
        → IsValid (next r.1).1
        → IsValid (and_then D r next).1
    and_then-IsValid (ok _, b) next h k = k
    and_then-IsValid (err e, b) next h k = h

    set_all-IsValid :
        (set : D.Num → ℕ → OrderBook D → Outcome D)
        → ((p : D.Num) (v : ℕ) (b : OrderBook D) → IsNumber p → IsValid b → IsValid (set p v b).1)
        → (levels : Levels D.Num) (b : OrderBook D) → All (λ e. IsNumber (e.0)) levels
        → IsValid b
        → IsValid (set_all D set levels b).1
    unfolding set_all
    set_all-IsValid set keep [] b nums h = h
    set_all-IsValid set keep ((p, v) ∷ levels) b (num, nums) h =
        and_then-IsValid (set p v b) (set_all D set levels) (keep p v b num h)
          (set_all-IsValid set keep levels (set p v b).1 nums (keep p v b num h))

    pub apply-IsValid :
        (op : Op D) (b : OrderBook D) → HasNumbers op → IsValid b → IsValid (apply op b).1
    unfolding apply replace_bids replace_asks clear
    apply-IsValid (bid p v) b n h = set_bid-IsValid p v b n h
    apply-IsValid (ask p v) b n h = set_ask-IsValid p v b n h
    apply-IsValid (all_bids levels) b n h =
        set_all-IsValid (set_bid D) set_bid-IsValid levels (record b { bids = [] }) n
          (record { named = h.named; bids = tt; asks = h.asks })
    apply-IsValid (all_asks levels) b n h =
        set_all-IsValid (set_ask D) set_ask-IsValid levels (record b { asks = [] }) n
          (record { named = h.named; bids = h.bids; asks = tt })
    apply-IsValid clear_all b n h = record { named = h.named; bids = tt; asks = tt }

    run-keeps :
        (ops : List (Op D)) (b : OrderBook D) → All HasNumbers ops → IsValid b → IsValid (run ops b)
    unfolding run
    run-keeps [] b n h = h
    run-keeps (op ∷ ops) b (n, ns) h = run-keeps ops (apply op b).1 ns (apply-IsValid op b n h)

    -- From construction on, through any sequence of calls whose prices are not NaN, failed calls
    -- included, the book is well-formed: bids fall, asks rise, prices are positive, no level is empty.
    pub run-IsValid :
        (symbol : Text) {b : OrderBook D} (ops : List (Op D))
        → create D symbol ≡ ok b
        → All HasNumbers ops
        → IsValid (run ops b)
    unfolding create
    run-IsValid [] ops made n = absurd (ok≢err (sym made))
    run-IsValid (c ∷ s) ops made n =
        rw (← ok-injective made)
          (run-keeps ops _ n (record { named = cons-ne-nil c s; bids = tt; asks = tt }))

    assign-nan :
        (p : D.Num) (v : ℕ) (m : Levels D.Num)
        → D.le p p ≡ false
        → assign (greater D) p v m ≡ at_first p v m
    unfolding assign
    assign-nan p v [] nan = refl
    assign-nan p v ((k, w) ∷ m) nan = ground (arith, laws.numbers_of_lt p k, laws.numbers_of_lt k p)

    -- The guard of `set_bid` is `price <= 0.0`, which is false of NaN: the call succeeds. As NaN is
    -- neither before nor behind a price, the map takes it for its first key: the best bid of a book
    -- with bids gets the volume, and a book without bids gets a bid at NaN.
    pub set_bid_nan :
        (p : D.Num) (v : ℕ) (b : OrderBook D)
        → D.le p p ≡ false
        → v ≢ 0
        → set_bid D p v b ≡ (ok tt, record b { bids = at_first p v b.bids })
    unfolding set_bid
    set_bid_nan p v b nan some_volume =
        rw (← assign-nan p v b.bids nan) (ground (arith, laws.numbers_of_le p D.nought))

-- `remove_zero_levels` has nothing to remove.
remove_zero_levels-eq :
    {K : Type 0} (before : K → K → Bool) (Good : K → Type 0) (m : Levels K)
    → IsLadder before Good m
    → remove_zero_levels m ≡ m
unfolding remove_zero_levels
remove_zero_levels-eq before Good [] w = refl
remove_zero_levels-eq before Good ((k, v) ∷ m) (g, nz, b, w) =
    ground (arith, remove_zero_levels-eq before Good m w)
