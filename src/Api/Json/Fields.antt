-- ===== src/Api/Json/Fields.antt =====
-- What `extract_string` of src/api/alpha_vantage_client.cpp finds.
use fin_core_streaming_syste.Prelude.{
  ℕ, ap, ◌∙◌, ◌≡◌, ◌≢◌, ◌↔◌, refl, Bool, true, false, Option, none, some, [], ◌∷◌, ◌++◌, Text,
  arith, ◌==◌, All,
}
use fin_core_streaming_syste.Api.Json.{
  strip_prefix, or_else, after_first, add_front, until_quote, quoted, extract_string,
}

-- No quotation mark stands in a text.
abbrev pub HasNoQuote : Text → Type 0
HasNoQuote s = All (λ c. c ≢ b'"') s

strip_prefix_sound : (key s rest : Text) → strip_prefix key s ≡ some rest → s ≡ key ++ rest
unfolding strip_prefix
strip_prefix_sound [] s rest e = cc
strip_prefix_sound (k ∷ key) [] rest e = cc
strip_prefix_sound (k ∷ key) (c ∷ s) rest e = ground (arith, strip_prefix_sound key s rest)

pub strip_prefix-append : (key rest : Text) → strip_prefix key (key ++ rest) ≡ some rest
unfolding strip_prefix
strip_prefix-append [] rest = refl
strip_prefix-append (k ∷ key) rest = ground (arith, strip_prefix-append key rest)

-- A text in front of the first place of a key: no place before it is one.
abbrev pub IsFirst : Text → Text → Text → Type 0
IsFirst key [] rest = Unit
IsFirst key (c ∷ before) rest =
    (strip_prefix key ((c ∷ before) ++ (key ++ rest)) ≡ none) × IsFirst key before rest

after_first-here :
    (key s rest : Text) → strip_prefix key s ≡ some rest → after_first key s ≡ some rest
unfolding after_first
after_first-here key [] rest e = e
after_first-here key (c ∷ s) rest e = rw e refl

after_first_complete :
    (key before rest : Text)
    → IsFirst key before rest
    → after_first key (before ++ (key ++ rest)) ≡ some rest
unfolding after_first
after_first_complete key [] rest h =
    after_first-here key (key ++ rest) rest (strip_prefix-append key rest)
after_first_complete key (c ∷ before) rest (h, hs) = rw h (after_first_complete key before rest hs)

-- Where a key is found.
record Found (key json rest : Text) : Type 0 where
  before : Text
  parts : json ≡ before ++ (key ++ rest)
  first : IsFirst key before rest

first_or_later :
    (key : Text) (c : ℕ) (s rest : Text) (o : Option Text)
    → strip_prefix key (c ∷ s) ≡ o
    → or_else o (after_first key s) ≡ some rest
    → ((r : Text) → after_first key s ≡ some r → Found key s r)
    → Found key (c ∷ s) rest
first_or_later key c s rest (some r) e f ih = record {
  before = [];
  parts = strip_prefix_sound key (c ∷ s) rest (e ∙ f);
  first = tt;
}
first_or_later key c s rest none e f ih =
    let h = ih rest f in
    record {
      before = c ∷ h.before;
      parts = ap (λ t. c ∷ t) h.parts;
      first = (rw (← h.parts) e, h.first);
    }

after_first_sound : (key json rest : Text) → after_first key json ≡ some rest → Found key json rest
unfolding after_first
after_first_sound key [] rest e = record {
  before = [];
  parts = strip_prefix_sound key [] rest e;
  first = tt;
}
after_first_sound key (c ∷ s) rest e =
    first_or_later key c s rest (strip_prefix key (c ∷ s)) refl e (λ r. after_first_sound key s r)

until_quote_complete :
    (value rest : Text) → HasNoQuote value → until_quote (value ++ (b'"' ∷ rest)) ≡ some value
unfolding until_quote
until_quote_complete [] rest h = refl
until_quote_complete (c ∷ value) rest (h, hs) = ground (arith, until_quote_complete value rest hs)

-- `extract_string` returns the text between the first place of the key and the next quotation
-- mark.
pub record Extracted (json key value : Text) : Type 0 where
  pub before : Text
  pub after : Text
  pub parts : json ≡ before ++ (key ++ (value ++ (b'"' ∷ after)))
  pub first : IsFirst key before (value ++ (b'"' ∷ after))
  pub unquoted : HasNoQuote value

-- What is read up to a quotation mark.
record UpTo (s value : Text) : Type 0 where
  behind : Text
  whole : s ≡ value ++ (b'"' ∷ behind)
  no_quote : HasNoQuote value

read_later :
    (c : ℕ) (s value : Text) (o : Option Text)
    → c ≢ b'"'
    → add_front c o ≡ some value
    → ((v : Text) → o ≡ some v → UpTo s v)
    → UpTo (c ∷ s) value
read_later c s value none ne e ih = cc
read_later c s value (some v) ne e ih =
    let h = ih v refl in
    let e' : value ≡ c ∷ v = cc in
    rw e'
      (record { behind = h.behind; whole = ap (λ t. c ∷ t) h.whole; no_quote = (ne, h.no_quote) })

read_step :
    (c : ℕ) (s value : Text) (b : Bool)
    → (c == b'"') ≡ b
    → elim b as (λ _. Option Text) [ true ↦ some [] | false ↦ add_front c (until_quote s) ]
      ≡ some value
    → ((v : Text) → until_quote s ≡ some v → UpTo s v)
    → UpTo (c ∷ s) value
read_step c s value true h e ih =
    let e' : value ≡ [] = cc in
    let h' : c ≡ b'"' = ground arith in
    rw (e', h') (record { behind = s; whole = refl; no_quote = tt })
read_step c s value false h e ih = read_later c s value (until_quote s) (λ g. ground arith) e ih

until_quote_sound : (s value : Text) → until_quote s ≡ some value → UpTo s value
unfolding until_quote
until_quote_sound [] value e = cc
until_quote_sound (c ∷ s) value e =
    read_step c s value (c == b'"') refl e (λ v. until_quote_sound s v)

value_found :
    (json key value : Text) (o : Option Text)
    → after_first key json ≡ o
    → quoted o ≡ some value
    → Extracted json key value
value_found json key value none f e = cc
value_found json key value (some rest) f e =
    let found = after_first_sound key json rest f in
    let up = until_quote_sound rest value e in
    record {
      before = found.before;
      after = up.behind;
      parts = found.parts ∙ ap (λ t. found.before ++ (key ++ t)) up.whole;
      first = rw (← up.whole) found.first;
      unquoted = up.no_quote;
    }

-- `extract_string` returns a value exactly where the value stands between the first place of the
-- key and the next quotation mark.
pub extract_string_iff :
    (json key value : Text) → (extract_string json key ≡ some value) ↔ Extracted json key value
unfolding extract_string
extract_string_iff json key value = (
  λ e. value_found json key value (after_first key json) refl e,
  λ h.
      rw (h.parts, after_first_complete key h.before (value ++ (b'"' ∷ h.after)) h.first)
        (until_quote_complete value h.after h.unquoted),
)
