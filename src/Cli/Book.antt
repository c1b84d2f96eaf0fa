-- ===== src/Cli/Book.antt =====
-- `populate_book_from_quote` of src/cli/fincore_cli.cpp, which derives a book from a quote.
use fin_core_streaming_syste.Prelude.{
  ℕ, zero, suc, ◌-◌, ◌/◌, ◌≡◌, ◌≢◌, refl, sym, ◌∙◌, Bool, true, false, ◌&&◌, [], ltb, if◌then◌else◌,
  ok, err, ok≢err, ap,
}
use fin_core_streaming_syste.Core.Double.{Double, IsIeee}
use fin_core_streaming_syste.Core.Types.{Quote}
use fin_core_streaming_syste.Core.OrderBook.{OrderBook, Outcome, and_then, set_bid, set_ask, clear}
use fin_core_streaming_syste.Core.OrderBook.Contents.{set_bid_lem, set_ask_lem}
use fin_core_streaming_syste.Core.OrderBook.Invariant.{
  IsPositive, IsValid, set_bid-IsValid, set_ask-IsValid,
}

module _ (D : Double) where
  -- One round of the loop of the bids, and of that of the asks. The division is on `uint64_t`.
  unfoldable pub bid_round : Quote D → ℕ → OrderBook D → Outcome D
  bid_round quote round book =
      let price = D.sub quote.price (D.mul (D.of_u64 round) D.hundredth) in
      let volume = quote.volume / 10 / round in
      if D.lt D.nought price && ltb 0 volume then set_bid D price volume book else (ok tt, book)

  unfoldable pub ask_round : Quote D → ℕ → OrderBook D → Outcome D
  ask_round quote round book =
      let price = D.add quote.price (D.mul (D.of_u64 round) D.hundredth) in
      let volume = quote.volume / 10 / round in
      if D.lt D.nought price && ltb 0 volume then set_ask D price volume book else (ok tt, book)

  -- `for (int level = 1; level <= 5; ++level)`, by the rounds left.
  unfoldable pub rounds : (ℕ → OrderBook D → Outcome D) → ℕ → OrderBook D → Outcome D
  rounds round zero book = (ok tt, book)
  rounds round (suc left) book = and_then D (round (5 - left) book) (rounds round left)

  unfoldable pub populate : Quote D → OrderBook D → Outcome D
  populate quote book =
      and_then D (rounds (bid_round quote) 5 (clear D book)) (rounds (ask_round quote) 5)

  module _ (laws : IsIeee D) where
    -- What a step that cannot throw returns.
    pub record Succeeds (before : OrderBook D) (r : Outcome D) : Type 0 where
      pub no_throw : r.0 ≡ ok tt
      pub valid : IsValid D r.1
      pub same_symbol : r.1.symbol ≡ before.symbol

    set_bid-Succeeds :
        (p : D.Num) (v : ℕ) (b : OrderBook D)
        → IsPositive D p
        → IsValid D b
        → Succeeds b (set_bid D p v b)
    set_bid-Succeeds p v b pp h =
        let done = set_bid_lem D laws p v b p pp pp h in
        record {
          no_throw = done.0;
          valid = set_bid-IsValid D laws p v b (laws.numbers_of_lt D.nought p pp).1 h;
          same_symbol = done.3;
        }

    set_ask-Succeeds :
        (p : D.Num) (v : ℕ) (b : OrderBook D)
        → IsPositive D p
        → IsValid D b
        → Succeeds b (set_ask D p v b)
    set_ask-Succeeds p v b pp h =
        let done = set_ask_lem D laws p v b p pp pp h in
        record {
          no_throw = done.0;
          valid = set_ask-IsValid D laws p v b (laws.numbers_of_lt D.nought p pp).1 h;
          same_symbol = done.3;
        }

    Succeeds-if :
        (t u : Bool) (r : Outcome D) (b : OrderBook D)
        → IsValid D b
        → (t ≡ true → Succeeds b r)
        → Succeeds b (if t && u then r else (ok tt, b))
    Succeeds-if true true r b h k = k refl
    Succeeds-if true false r b h k = record { no_throw = refl; valid = h; same_symbol = refl }
    Succeeds-if false u r b h k = record { no_throw = refl; valid = h; same_symbol = refl }

    Succeeds-then :
        (r : Outcome D) (next : OrderBook D → Outcome D) (b : OrderBook D)
        → Succeeds b r
        → ((b' : OrderBook D) → IsValid D b' → Succeeds b' (next b'))
        → Succeeds b (and_then D r next)
    Succeeds-then (ok _, b') next b s k =
        let later = k b' s.valid in
        record {
          no_throw = later.no_throw;
          valid = later.valid;
          same_symbol = later.same_symbol ∙ s.same_symbol;
        }
    Succeeds-then (err e, b') next b s k = absurd (ok≢err (sym s.no_throw))

    bid_round-Succeeds :
        (quote : Quote D) (round : ℕ) (book : OrderBook D)
        → IsValid D book
        → Succeeds book (bid_round quote round book)
    unfolding bid_round
    bid_round-Succeeds quote round book h =
        let price = D.sub quote.price (D.mul (D.of_u64 round) D.hundredth) in
        let volume = quote.volume / 10 / round in
        Succeeds-if (D.lt D.nought price) (ltb 0 volume) (set_bid D price volume book) book h
          (λ pp. set_bid-Succeeds price volume book pp h)

    ask_round-Succeeds :
        (quote : Quote D) (round : ℕ) (book : OrderBook D)
        → IsValid D book
        → Succeeds book (ask_round quote round book)
    unfolding ask_round
    ask_round-Succeeds quote round book h =
        let price = D.add quote.price (D.mul (D.of_u64 round) D.hundredth) in
        let volume = quote.volume / 10 / round in
        Succeeds-if (D.lt D.nought price) (ltb 0 volume) (set_ask D price volume book) book h
          (λ pp. set_ask-Succeeds price volume book pp h)

    rounds-Succeeds :
        (round : ℕ → OrderBook D → Outcome D) (left : ℕ) (book : OrderBook D)
        → ((n : ℕ) (b : OrderBook D) → IsValid D b → Succeeds b (round n b))
        → IsValid D book
        → Succeeds book (rounds round left book)
    unfolding rounds
    rounds-Succeeds round zero book each h = record {
      no_throw = refl;
      valid = h;
      same_symbol = refl;
    }
    rounds-Succeeds round (suc left) book each h =
        Succeeds-then (round (5 - left) book) (rounds round left) book (each (5 - left) book h)
          (λ b v. rounds-Succeeds round left b each v)

    -- Whatever the quote's numbers are, NaN among them, the book is rebuilt without an exception, and
    -- is well-formed under its symbol. Nothing of its old levels shows in the result: it is the same
    -- for another book of that symbol.
    pub populate_lem :
        (quote : Quote D) (book other : OrderBook D)
        → book.symbol ≢ []
        → other.symbol ≡ book.symbol
        → let (r, b) = populate quote book in
          (r ≡ ok tt)
          × IsValid D b
          × (b.symbol ≡ book.symbol)
          × (populate quote other ≡ populate quote book)
    unfolding populate clear
    populate_lem quote book other named e =
        let empty_book : OrderBook D = record book { bids = []; asks = [] } in
        let start : IsValid D empty_book = record { named = named; bids = tt; asks = tt } in
        let bids =
          rounds-Succeeds (bid_round quote) 5 empty_book (bid_round-Succeeds quote) start in
        let all =
          Succeeds-then (rounds (bid_round quote) 5 empty_book) (rounds (ask_round quote) 5)
            empty_book bids
            (λ b v. rounds-Succeeds (ask_round quote) 5 b (ask_round-Succeeds quote) v) in
        (
          all.no_throw,
          all.valid,
          all.same_symbol,
          ap
              (λ s.
                and_then D
                  (rounds (bid_round quote) 5 (record { symbol = s; bids = []; asks = [] }))
                  (rounds (ask_round quote) 5))
              e,
        )
