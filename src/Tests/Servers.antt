-- ===== src/Tests/Servers.antt =====
-- A server of hashes, and examples of src/storage/redis_client.cpp.
use fin_core_streaming_syste.Prelude.{
  ap, ◌≡◌, ◌≢◌, refl, inl, inr, Bool-cases, true, Option, none, some, List, [], ◌∷◌, ◌++◌,
  if◌then◌else◌, Text, codes, text_eq, text_eq_refl, text_eq_iff, Result, ok, arith,
}
use fin_core_streaming_syste.Prelude.Int.{pos, negsuc}
use fin_core_streaming_syste.Prelude.Io.{◌>>◌, ◌>>=◌, pure, catching, observe}
use fin_core_streaming_syste.Core.Types.{Quote, quote_is_valid}
use fin_core_streaming_syste.Storage.Redis.{
  Fields, Commands, find_field, quote_key, store_quote, get_quote, bids_key, asks_key, time_key,
  set_levels, update_order_book,
}
use fin_core_streaming_syste.Storage.Redis.Kept.{
  or_old, KeepsHashes, as_stored, get_quote-store_quote,
}
use fin_core_streaming_syste.Storage.Redis.Book.{
  ChangesHashes, last_volume, text_ne, update_order_book-hash,
}
use fin_core_streaming_syste.Tests.Doubles.{cents}

abbrev pub Store : Type 0
Store = List (Text × Fields)

unfoldable pub fields_of : Text → Store → Fields
fields_of key [] = []
fields_of key ((k, fields) ∷ store) = if text_eq key k then fields else fields_of key store

abbrev pub server : Commands cents
server = record {
  World = Store;
  open_redis = λ text w. (ok tt, w);
  ping = λ w. (ok tt, w);
  hmset = λ key fields w. (ok tt, (key, fields ++ fields_of key w) ∷ w);
  hset = λ key field v w. (ok tt, (key, (field, v) ∷ fields_of key w) ∷ w);
  hgetall = λ key w. (ok (fields_of key w), w);
  expire = λ key ttl w. (ok tt, w);
  lpush = λ key entry w. (ok tt, w);
  ltrim = λ key start stop w. (ok tt, w);
  xadd = λ key id fields w. (ok tt, w);
  set = λ key v w. (ok tt, w);
  del = λ key w. (ok tt, (key, []) ∷ w);
  system_now = λ w. pos 0;
  double_text = λ x. codes "1.000000";
  stod = λ text. some (some (pos 100));
}

abbrev hash : Store → Text → Text → Option Text
hash w key f = find_field f (fields_of key w)

find_field-append :
    (f : Text) (a b : Fields) → find_field f (a ++ b) ≡ or_old (find_field f a) (find_field f b)
unfolding find_field
find_field-append f [] b = refl
find_field-append f ((k, v) ∷ a) b = elim (Bool-cases (text_eq f k)) [
  | inl e ↦ rw e refl
  | inr e ↦ rw e (find_field-append f a b)
]

fields_of-head :
    (key : Text) (fields : Fields) (w : Store) → fields_of key ((key, fields) ∷ w) ≡ fields
unfolding fields_of
fields_of-head key fields w = rw (text_eq_refl key) refl

fields_of-tail :
    (key k : Text) (fields : Fields) (w : Store)
    → k ≢ key
    → fields_of k ((key, fields) ∷ w) ≡ fields_of k w
unfolding fields_of
fields_of-tail key k fields w ne = elim (Bool-cases (text_eq k key)) [
  | inl e ↦ absurd (ne ((text_eq_iff k key).0 e))
  | inr e ↦ rw e refl
]

abbrev reached : Result (Unit {0}) × Store → Store
reached r = r.1

server-KeepsHashes : KeepsHashes server hash
server-KeepsHashes = record {
  hmset_sets = λ key fields w w' e f.
      rw (← ap reached e, fields_of-head key (fields ++ fields_of key w) w)
        (find_field-append f fields (fields_of key w));
  expire_keeps = λ key ttl w w' live e k f. rw (← ap reached e) refl;
  lpush_keeps = λ key entry w w' e k f. rw (← ap reached e) refl;
  ltrim_keeps = λ key start stop w w' e k f. rw (← ap reached e) refl;
  hgetall_reads = λ key fields w w' e f. let same : fields ≡ fields_of key w = cc in rw same refl;
}

find_field-head :
    (f field v : Text) (fields : Fields)
    → find_field f ((field, v) ∷ fields) ≡ (if text_eq f field then some v else find_field f fields)
unfolding find_field
find_field-head f field v fields = refl

find_field-nil : (f : Text) → find_field f [] ≡ none
unfolding find_field
find_field-nil f = refl

server-ChangesHashes : ChangesHashes server hash
server-ChangesHashes = record {
  del_clears = λ key w w' e f. rw (← ap reached e, fields_of-head key [] w) (find_field-nil f);
  del_keeps = λ key w w' e k f ne. rw (← ap reached e, fields_of-tail key k [] w ne) refl;
  hset_sets = λ key field v w w' e f.
      rw (← ap reached e, fields_of-head key ((field, v) ∷ fields_of key w) w)
        (find_field-head f field v (fields_of key w));
  hset_keeps = λ key field v w w' e k f ne.
      rw (← ap reached e, fields_of-tail key k ((field, v) ∷ fields_of key w) w ne) refl;
  set_keeps = λ key v w w' e k f ne. rw (← ap reached e) refl;
}

abbrev quote : Quote cents
quote = record {
  symbol = codes "IBM";
  price = some (pos 100);
  opening = some (pos 100);
  high = some (pos 100);
  low = some (pos 100);
  volume = 42;
  change_pct = some (pos 0);
  source = codes "STREAM";
  timestamp = negsuc 7;
}

abbrev stored : Store
stored = (store_quote server (pos 60) (codes "IBM") quote []).1

stores : store_quote server (pos 60) (codes "IBM") quote [] ≡ (ok true, stored)
unfolding store_quote catching ◌>>◌ ◌>>=◌ pure
stores = refl

get_quote-store_quote_example : get_quote server (codes "IBM") stored ≡ (
  ok (
      if quote_is_valid (as_stored server (codes "IBM") quote)
      then some (as_stored server (codes "IBM") quote)
      else none),
  stored,
)
get_quote-store_quote_example =
    get_quote-store_quote server hash server-KeepsHashes (pos 60) (codes "IBM") quote
      (fields_of (quote_key (codes "IBM")) stored) [] stored stored refl (omega arith) (omega arith)
      stores refl

abbrev written : Store
written = (update_order_book server (codes "IBM") ((some (pos 100), 5) ∷ []) [] []).1

writes :
    update_order_book server (codes "IBM") ((some (pos 100), 5) ∷ []) [] [] ≡ (ok true, written)
unfolding update_order_book set_levels catching ◌>>◌ ◌>>=◌ pure observe
writes = refl

other_key : codes "order_book:IBM:bids" ≢ time_key (codes "IBM")
unfolding text_eq
other_key = text_ne (codes "order_book:IBM:bids") (time_key (codes "IBM")) refl

update_order_book-hash_example : hash written (codes "order_book:IBM:bids") (codes "1.000000") ≡ (
    if text_eq (codes "order_book:IBM:bids") (bids_key (codes "IBM"))
    then last_volume server ((some (pos 100), 5) ∷ []) (codes "1.000000") none
    else if text_eq (codes "order_book:IBM:bids") (asks_key (codes "IBM"))
    then last_volume server [] (codes "1.000000") none
    else hash [] (codes "order_book:IBM:bids") (codes "1.000000"))
update_order_book-hash_example =
    update_order_book-hash server hash server-ChangesHashes (codes "IBM")
      (codes "order_book:IBM:bids") (codes "1.000000") ((some (pos 100), 5) ∷ []) [] [] written
      writes other_key
