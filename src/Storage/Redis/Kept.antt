-- ===== src/Storage/Redis/Kept.antt =====
-- A quote that src/storage/redis_client.cpp has stored is read back, over a server that keeps the
-- documented promises of the commands.
use fin_core_streaming_syste.Prelude.{
  ℕ, ◌∙◌, ◌+◌, ◌^◌, ◌<◌, ◌≡◌, ◌≢◌, refl, Bool, true, false, Option, none, some, [], ◌∷◌,
  if◌then◌else◌, Text, codes, text_eq, length, Result, ok, err, Exception, invalid_argument,
  out_of_range, logic_error, runtime_error, database_error, arith, All,
}
use fin_core_streaming_syste.Prelude.Int.{ℤ, pos, negsuc, IsInt64, ltb_ℤ}
use fin_core_streaming_syste.Prelude.Io.{
  pure, throw, handle_result, ◌>>=◌, ◌>>◌, catching, bind-eq-ok,
}
use fin_core_streaming_syste.Cli.Parse.{read_digits}
use fin_core_streaming_syste.Cli.Parse.Number.{stoull-to_text, read_digits-All}
use fin_core_streaming_syste.Cli.Postgres.Requests.{stol, convert}
use fin_core_streaming_syste.Core.Double.{Double}
use fin_core_streaming_syste.Core.Types.{Quote, quote_is_valid}
use fin_core_streaming_syste.Domain.Decimal.{to_text}
use fin_core_streaming_syste.Domain.Decimal.Spelling.{IsDigit}
use fin_core_streaming_syste.Domain.Decimal.RoundTrip.{
  to_text-digits, to_text-value, to_text-ne-nil,
}
use fin_core_streaming_syste.Storage.Numbers.{signed_text}
use fin_core_streaming_syste.Storage.Redis.{
  Fields, Commands, quote_key, find_field, quote_fields, false_on_error, store_quote,
  double_or_nought, quote_of_fields, read_quote, get_quote,
}

-- The hashes of a server: the value of a field of a key.
abbrev pub Hashes : {D : Double} → Commands D → Type 0
Hashes C = C.World → Text → Text → Option Text

abbrev pub or_old : Option Text → Option Text → Option Text
or_old (some v) old = some v
or_old none old = old

-- The promises on hashes of commands that succeed, where no other client writes in between.
pub record KeepsHashes {D : Double} (C : Commands D) (hash : Hashes C) : Type 0 where
  pub hmset_sets :
      (key : Text) (fields : Fields) (w w' : C.World)
      → C.hmset key fields w ≡ (ok tt, w')
      → (f : Text) → hash w' key f ≡ or_old (find_field f fields) (hash w key f)
  pub expire_keeps :
      (key : Text) (ttl : ℤ) (w w' : C.World)
      → ltb_ℤ (pos 0) ttl ≡ true
      → C.expire key ttl w ≡ (ok tt, w')
      → (k f : Text) → hash w' k f ≡ hash w k f
  pub lpush_keeps :
      (key entry : Text) (w w' : C.World)
      → C.lpush key entry w ≡ (ok tt, w')
      → (k f : Text) → hash w' k f ≡ hash w k f
  pub ltrim_keeps :
      (key : Text) (start stop : ℤ) (w w' : C.World)
      → C.ltrim key start stop w ≡ (ok tt, w')
      → (k f : Text) → hash w' k f ≡ hash w k f
  pub hgetall_reads :
      (key : Text) (fields : Fields) (w w' : C.World)
      → C.hgetall key w ≡ (ok fields, w')
      → (f : Text) → find_field f fields ≡ hash w key f

-- With `true` the handled code has ended well.
pub catching-true :
    {W : Type 0} (r : Result Bool × W) (w' : W)
    → handle_result r false_on_error ≡ (ok true, w')
    → r ≡ (ok true, w')
unfolding pure throw
catching-true (ok b, w) w' e = e
catching-true (err (Exception.other m), w) w' e = cc
catching-true (err (invalid_argument m), w) w' e = cc
catching-true (err (out_of_range m), w) w' e = cc
catching-true (err (logic_error m), w) w' e = cc
catching-true (err (runtime_error m), w) w' e = cc
catching-true (err (database_error m s), w) w' e = cc

module _ {D : Double} (C : Commands D) (hash : Hashes C) (laws : KeepsHashes C hash) where
  store_quote-hash :
      (ttl : ℤ) (symbol : Text) (quote : Quote D) (w w' : C.World)
      → ltb_ℤ (pos 0) ttl ≡ true
      → store_quote C ttl symbol quote w ≡ (ok true, w')
      → (f : Text)
      → hash w' (quote_key symbol) f
        ≡ or_old (find_field f (quote_fields C quote)) (hash w (quote_key symbol) f)
  unfolding store_quote catching ◌>>=◌ ◌>>◌ pure
  store_quote-hash ttl symbol quote w w' live stored f =
      let body = catching-true _ w' stored in
      let (a1, w1, e1, k1) = bind-eq-ok _ _ true w' body in
      let (a2, w2, e2, k2) = bind-eq-ok _ _ true w' k1 in
      let (a3, w3, e3, k3) = bind-eq-ok _ _ true w' k2 in
      let (a4, w4, e4, k4) = bind-eq-ok _ _ true w' k3 in
      let last : w4 ≡ w' = cc in
      rw (← last) (
        laws.ltrim_keeps _ _ _ w3 w4 e4 (quote_key symbol) f
        ∙ laws.lpush_keeps _ _ w2 w3 e3 (quote_key symbol) f
        ∙ laws.expire_keeps _ ttl w1 w2 live e2 (quote_key symbol) f
        ∙ laws.hmset_sets _ _ w w1 e1 f)

stol-digits : (s : Text) → s ≢ [] → All IsDigit s → stol 0 s ≡ convert false 0 (read_digits s 0 0)
unfolding stol
stol-digits [] ne h = absurd (ne refl)
stol-digits (c ∷ s) ne (h, hs) = ground arith

stol-minus : (s : Text) → stol 0 (b'-' ∷ s) ≡ convert true 1 (read_digits s 0 0)
unfolding stol
stol-minus s = refl

length-pos : (s : Text) → s ≢ [] → 0 < length s
length-pos [] h = absurd (h refl)
length-pos (c ∷ s) h = omega arith

stol-signed_text : (z : ℤ) → IsInt64 z → (used : ℕ) × (stol 0 (signed_text z) ≡ ok (z, used))
unfolding signed_text
stol-signed_text (pos n) h = (
  0 + length (to_text n),
  rw
      (
        stol-digits (to_text n) (to_text-ne-nil n) (to_text-digits n (omega arith)),
        read_digits-All (to_text n) 0 0 (to_text-digits n (omega arith)),
        to_text-value n (omega arith),
      )
      (ground (arith, length-pos (to_text n) (to_text-ne-nil n))),
)
stol-signed_text (negsuc n) h = (
  1 + length (to_text (n + 1)),
  rw
      (
        stol-minus (to_text (n + 1)),
        read_digits-All (to_text (n + 1)) 0 0 (to_text-digits (n + 1) (omega arith)),
        to_text-value (n + 1) (omega arith),
      )
      (ground (arith, length-pos (to_text (n + 1)) (to_text-ne-nil (n + 1)))),
)

module _ {D : Double} (C : Commands D) where
  -- A number as it is printed and read.
  abbrev pub through : D.Num → D.Num
  through x = double_or_nought C (C.stod (C.double_text x))

  abbrev pub as_stored : Text → Quote D → Quote D
  as_stored symbol quote = record quote {
    symbol = symbol;
    price = through quote.price;
    opening = through quote.opening;
    high = through quote.high;
    low = through quote.low;
    change_pct = through quote.change_pct;
  }

  quote_of_fields-stored :
      (symbol : Text) (quote : Quote D) (fields : Fields) (h : Text → Option Text)
      → quote.volume < 2 ^ 64
      → IsInt64 quote.timestamp
      → ((f : Text) → find_field f fields ≡ or_old (find_field f (quote_fields C quote)) (h f))
      → quote_of_fields C symbol fields ≡ as_stored symbol quote
  unfolding find_field text_eq
  quote_of_fields-stored symbol quote fields h volume time e =
      let (used, t) = stol-signed_text quote.timestamp time in
      rw
        (
          e (codes "price"),
          e (codes "open"),
          e (codes "high"),
          e (codes "low"),
          e (codes "volume"),
          e (codes "change_pct"),
          e (codes "source"),
          e (codes "timestamp"),
          stoull-to_text quote.volume volume,
          t,
        )
        refl

  read_quote-some :
      (symbol : Text) (fields : Fields) (v : Text)
      → find_field (codes "price") fields ≡ some v
      → read_quote C symbol fields
        ≡ (let q = quote_of_fields C symbol fields in if quote_is_valid q then some q else none)
  unfolding read_quote find_field
  read_quote-some symbol [] v e = cc
  read_quote-some symbol (f ∷ fields) v e = refl

  module _ (hash : Hashes C) (laws : KeepsHashes C hash) where
    -- Where `store_quote` returns true and the hash can then be read, `get_quote` returns the quote under the
    -- symbol of the key, with the source, the volume and the microseconds unchanged and
    -- each number as it is printed and read, if that quote is valid, and else nothing. Fields that were
    -- there before do not matter.
    pub get_quote-store_quote :
        (ttl : ℤ) (symbol : Text) (quote : Quote D) (fields : Fields) (w w' u : C.World)
        → ltb_ℤ (pos 0) ttl ≡ true
        → quote.volume < 2 ^ 64
        → IsInt64 quote.timestamp
        → store_quote C ttl symbol quote w ≡ (ok true, w')
        → C.hgetall (quote_key symbol) w' ≡ (ok fields, u)
        → get_quote C symbol w' ≡ (
          ok (
              if quote_is_valid (as_stored symbol quote)
              then some (as_stored symbol quote)
              else none),
          u,
        )
    unfolding get_quote catching ◌>>=◌ pure find_field text_eq
    get_quote-store_quote ttl symbol quote fields w w' u live volume time stored read =
        let at_field = λ (f : Text).
          laws.hgetall_reads _ fields w' u read f
          ∙ store_quote-hash C hash laws ttl symbol quote w w' live stored f in
        rw
          (
            read,
            read_quote-some symbol fields (C.double_text quote.price) (at_field (codes "price")),
            quote_of_fields-stored symbol quote fields (hash w (quote_key symbol)) volume time
                at_field,
          )
          refl
