-- ===== src/Domain/Validation/Schema.antt =====
-- What migration/schema.sql demands of a row, next to what src/domain/validation.cpp accepts.
use mathlib.Core.List.{cons-ne-nil}
use fin_core_streaming_syste.Prelude.{
  ℕ, ◌^◌, ◌≤◌, ◌<◌, ◌≡◌, refl, ◌≢◌, ◌↔◌, ◌⊎◌, true, ◌||◌, ◌+◌, Option, none, some, [], ◌∷◌, arith,
  length, All, Text, ok, all_of_iff, ◌==◌, ◌-◌, zero, suc, replicate, length-replicate,
  if◌then◌else◌,
}
use fin_core_streaming_syste.Prelude.Int.{pos, negsuc, ◌≤ℤ◌, ◌<ℤ◌, IsInt64}
use fin_core_streaming_syste.Domain.Decimal.{Decimal, scale}
use fin_core_streaming_syste.Domain.MarketData.{Quote, Tick, OrderBookSnapshot}
use fin_core_streaming_syste.Domain.Validation.{
  holds, is_upper, is_digit, is_upper_identifier, is_symbol, is_source, symbol_extra, source_extra,
  validate_symbol_and_source, validate_quote, validate_tick, validate_snapshot,
}

-- The classes `[A-Z0-9._:/-]` and `[A-Z0-9_-]` of the CHECK constraints.
abbrev pub InRange : ℕ → ℕ → ℕ → Type 0
InRange lo hi c = (lo ≤ c) × (c ≤ hi)

abbrev pub IsSymbolChar : ℕ → Type 0
IsSymbolChar c =
    InRange b'A' b'Z' c
    ⊎ InRange b'0' b'9' c
    ⊎ (c ≡ b'.')
    ⊎ (c ≡ b'_')
    ⊎ (c ≡ b':')
    ⊎ (c ≡ b'/')
    ⊎ (c ≡ b'-')

abbrev pub IsSourceChar : ℕ → Type 0
IsSourceChar c = InRange b'A' b'Z' c ⊎ InRange b'0' b'9' c ⊎ (c ≡ b'_') ⊎ (c ≡ b'-')

-- `VARCHAR(16)` with its format, and the key of `data_sources`.
pub record IsSymbol (s : Text) : Type 0 where
  pub nonempty : s ≢ []
  pub fits : length s ≤ 16
  pub chars : All IsSymbolChar s

pub record IsSource (s : Text) : Type 0 where
  pub nonempty : s ≢ []
  pub fits : length s ≤ 20
  pub chars : All IsSourceChar s

-- `NUMERIC(p,8)` holds a multiple of 10^-8 whose magnitude has at most `p` digits.
abbrev pub IsNumeric : ℕ → Decimal → Type 0
IsNumeric p (pos n) = n < 10 ^ p
IsNumeric p (negsuc n) = n + 1 < 10 ^ p

IsSymbolChar-iff :
    (c : ℕ) → ((is_upper c || is_digit c || holds symbol_extra c) ≡ true) ↔ IsSymbolChar c
IsSymbolChar-iff c = (λ h. ground arith, λ h. ground arith)

IsSourceChar-iff :
    (c : ℕ) → ((is_upper c || is_digit c || holds source_extra c) ≡ true) ↔ IsSourceChar c
IsSourceChar-iff c = (λ h. ground arith, λ h. ground arith)

is_symbol_iff : (s : Text) → (is_symbol s ≡ true) ↔ IsSymbol s
unfolding is_symbol is_upper_identifier
is_symbol_iff [] = (λ h. ground arith, λ h. absurd (h.nonempty refl))
is_symbol_iff (c ∷ s) =
    let chars = all_of_iff _ IsSymbolChar IsSymbolChar-iff (c ∷ s) in
    (
      λ h. record {
        nonempty = cons-ne-nil c s;
        fits = ground arith;
        chars = chars.0 (ground arith);
      },
      λ h. ground (arith, chars.1 h.chars),
    )

is_source_iff : (s : Text) → (is_source s ≡ true) ↔ IsSource s
unfolding is_source is_upper_identifier
is_source_iff [] = (λ h. ground arith, λ h. absurd (h.nonempty refl))
is_source_iff (c ∷ s) =
    let chars = all_of_iff _ IsSourceChar IsSourceChar-iff (c ∷ s) in
    (
      λ h. record {
        nonempty = cons-ne-nil c s;
        fits = ground arith;
        chars = chars.0 (ground arith);
      },
      λ h. ground (arith, chars.1 h.chars),
    )

-- A row of `fincore.quotes` that meets the constraints of the table.
pub record IsQuoteRow (q : Quote) : Type 0 where
  pub symbol_ck : IsSymbol q.symbol
  pub source_ck : IsSource q.source
  pub numeric :
      IsNumeric 20 q.price × IsNumeric 20 q.opening × IsNumeric 20 q.high × IsNumeric 20 q.low
  pub numeric_volume : IsNumeric 24 q.volume
  pub nonnegative : (pos 0 ≤ℤ q.price) × (pos 0 ≤ℤ q.opening) × (pos 0 ≤ℤ q.high) × (pos 0 ≤ℤ q.low)
  pub high_low : q.low ≤ℤ q.high
  pub volume_nonnegative : pos 0 ≤ℤ q.volume

-- The prices are `int64_t` values.
pub record IsQuoteOfInt64 (q : Quote) : Type 0 where
  pub price : IsInt64 q.price
  pub opening : IsInt64 q.opening
  pub high : IsInt64 q.high
  pub low : IsInt64 q.low
  pub volume : IsInt64 q.volume

Int64-IsNumeric : (d : Decimal) → IsInt64 d → IsNumeric 20 d × IsNumeric 24 d
Int64-IsNumeric (pos n) h = omega arith
Int64-IsNumeric (negsuc n) h = omega arith

-- A quote of `int64_t` decimals is accepted exactly if it meets the CHECK, VARCHAR and NUMERIC
-- constraints of the table `fincore.quotes` on the validated columns, and the formats of the keys
-- of its instrument and its source.
pub validate_quote-row : (q : Quote) → IsQuoteOfInt64 q → (validate_quote q ≡ ok tt) ↔ IsQuoteRow q
unfolding validate_quote validate_symbol_and_source
validate_quote-row q b = (
  λ h. record {
    symbol_ck = (is_symbol_iff q.symbol).0 (ground arith);
    source_ck = (is_source_iff q.source).0 (ground arith);
    numeric = (
      (Int64-IsNumeric q.price b.price).0,
      (Int64-IsNumeric q.opening b.opening).0,
      (Int64-IsNumeric q.high b.high).0,
      (Int64-IsNumeric q.low b.low).0,
    );
    numeric_volume = (Int64-IsNumeric q.volume b.volume).1;
    nonnegative = ground arith;
    high_low = ground arith;
    volume_nonnegative = ground arith;
  },
  λ r.
      ground
        (arith, (is_symbol_iff q.symbol).1 r.symbol_ck, (is_source_iff q.source).1 r.source_ck),
)

-- A row of `fincore.order_book_snapshots`.
pub record IsSnapshotRow (s : OrderBookSnapshot) : Type 0 where
  pub symbol_ck : IsSymbol s.symbol
  pub source_ck : IsSource s.source
  pub numeric : IsNumeric 20 s.best_bid × IsNumeric 20 s.best_ask × IsNumeric 20 s.imbalance
  pub numeric_volume : IsNumeric 24 s.total_bid_volume × IsNumeric 24 s.total_ask_volume
  pub prices_positive : (pos 0 <ℤ s.best_bid) × (pos 0 <ℤ s.best_ask)
  pub not_crossed : s.best_bid ≤ℤ s.best_ask
  pub imbalance_ck : (negsuc (scale - 1) ≤ℤ s.imbalance) × (s.imbalance ≤ℤ pos scale)
  pub volumes_nonnegative : (pos 0 ≤ℤ s.total_bid_volume) × (pos 0 ≤ℤ s.total_ask_volume)

pub record IsSnapshotOfInt64 (s : OrderBookSnapshot) : Type 0 where
  pub best_bid : IsInt64 s.best_bid
  pub best_ask : IsInt64 s.best_ask
  pub imbalance : IsInt64 s.imbalance
  pub total_bid_volume : IsInt64 s.total_bid_volume
  pub total_ask_volume : IsInt64 s.total_ask_volume

-- A snapshot of `int64_t` decimals is accepted exactly if it meets the CHECK, VARCHAR and NUMERIC
-- constraints of the table `fincore.order_book_snapshots` on the validated columns, and the
-- formats of the keys of its instrument and its source.
pub validate_snapshot-row :
    (s : OrderBookSnapshot) → IsSnapshotOfInt64 s → (validate_snapshot s ≡ ok tt) ↔ IsSnapshotRow s
unfolding validate_snapshot validate_symbol_and_source
validate_snapshot-row s b = (
  λ h. record {
    symbol_ck = (is_symbol_iff s.symbol).0 (ground arith);
    source_ck = (is_source_iff s.source).0 (ground arith);
    numeric = (
      (Int64-IsNumeric s.best_bid b.best_bid).0,
      (Int64-IsNumeric s.best_ask b.best_ask).0,
      (Int64-IsNumeric s.imbalance b.imbalance).0,
    );
    numeric_volume = (
      (Int64-IsNumeric s.total_bid_volume b.total_bid_volume).1,
      (Int64-IsNumeric s.total_ask_volume b.total_ask_volume).1,
    );
    prices_positive = ground arith;
    not_crossed = ground arith;
    imbalance_ck = ground arith;
    volumes_nonnegative = ground arith;
  },
  λ r.
      ground
        (arith, (is_symbol_iff s.symbol).1 r.symbol_ck, (is_source_iff s.source).1 r.source_ck),
)

-- `btrim(trade_id) <> ''` fails exactly on a text of blanks.
abbrev pub blanks : ℕ → Text
blanks n = replicate n b' '

abbrev pub btrim : Text → Text
btrim [] = []
btrim (c ∷ s) = if c == b' ' then btrim s else c ∷ s

btrim-blanks : (n : ℕ) → btrim (blanks n) ≡ []
btrim-blanks zero = refl
btrim-blanks (suc n) = btrim-blanks n

-- The constraint `ticks_trade_id_nonempty_ck`.
abbrev pub MeetsTradeIdCk : Option Text → Type 0
MeetsTradeIdCk none = Unit {0}
MeetsTradeIdCk (some id) = btrim id ≢ []

-- A trade id of one to 64 blanks does not stop validation: an accepted tick
-- is accepted with this id in place of its own, and then breaks the table's constraint on trade ids.
pub validate_tick-blanks :
    (t : Tick) (n : ℕ)
    → 1 ≤ n
    → n ≤ 64
    → validate_tick t ≡ ok tt
    → let blank = record t { trade_id = some (blanks n) } in
      (validate_tick blank ≡ ok tt) × ¬ MeetsTradeIdCk blank.trade_id
unfolding validate_tick
validate_tick-blanks t zero low high h = elim low [ ]
validate_tick-blanks t (suc n) low high h =
    (ground (arith, length-replicate {A = ℕ} (suc n) b' '), λ ck. ck (btrim-blanks (suc n)))
