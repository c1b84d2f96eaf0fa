-- ===== src/Storage/Redis/Book.antt =====
-- The order book that src/storage/redis_client.cpp writes, over a server that keeps the documented
-- promises of the commands.
use fin_core_streaming_syste.Prelude.{
  ap, ◌∙◌, sym, ◌≡◌, ◌≢◌, refl, inl, inr, Bool-cases, true, false, Option, none, some, [], ◌∷◌,
  ◌++◌, if◌then◌else◌, Text, codes, text_eq, text_eq_iff, ok,
}
use fin_core_streaming_syste.Prelude.Io.{pure, ◌>>=◌, ◌>>◌, catching, bind-eq-ok, observe}
use fin_core_streaming_syste.Core.Double.{Double}
use fin_core_streaming_syste.Core.Levels.{Levels}
use fin_core_streaming_syste.Domain.Decimal.{to_text}
use fin_core_streaming_syste.Storage.Redis.{
  Commands, bids_key, asks_key, time_key, set_levels, update_order_book,
}
use fin_core_streaming_syste.Storage.Redis.Kept.{Hashes, catching-true}

-- The promises on hashes of the commands that the order book takes.
pub record ChangesHashes {D : Double} (C : Commands D) (hash : Hashes C) : Type 0 where
  pub del_clears :
      (key : Text) (w w' : C.World) → C.del key w ≡ (ok tt, w') → (f : Text) → hash w' key f ≡ none
  pub del_keeps :
      (key : Text) (w w' : C.World)
      → C.del key w ≡ (ok tt, w')
      → (k f : Text) → k ≢ key
      → hash w' k f ≡ hash w k f
  pub hset_sets :
      (key field v : Text) (w w' : C.World)
      → C.hset key field v w ≡ (ok tt, w')
      → (f : Text) → hash w' key f ≡ (if text_eq f field then some v else hash w key f)
  pub hset_keeps :
      (key field v : Text) (w w' : C.World)
      → C.hset key field v w ≡ (ok tt, w')
      → (k f : Text) → k ≢ key
      → hash w' k f ≡ hash w k f
  pub set_keeps :
      (key v : Text) (w w' : C.World)
      → C.set key v w ≡ (ok tt, w')
      → (k f : Text) → k ≢ key
      → hash w' k f ≡ hash w k f

append-cancel : (s a b : Text) → s ++ a ≡ s ++ b → a ≡ b
append-cancel [] a b e = e
append-cancel (c ∷ s) a b e = append-cancel s a b (cc)

book_key-ne :
    (symbol a b : Text)
    → a ≢ b
    → codes "order_book:" ++ (symbol ++ a) ≢ codes "order_book:" ++ (symbol ++ b)
book_key-ne symbol a b ne e =
    ne (append-cancel symbol a b (append-cancel (codes "order_book:") _ _ e))

pub text_ne : (a b : Text) → text_eq a b ≡ false → a ≢ b
text_ne a b h e = let g = (text_eq_iff a b).1 e in cc

bids-ne-asks : codes ":bids" ≢ codes ":asks"
unfolding text_eq
bids-ne-asks = text_ne (codes ":bids") (codes ":asks") refl

bids-ne-time : codes ":bids" ≢ codes ":timestamp"
unfolding text_eq
bids-ne-time = text_ne (codes ":bids") (codes ":timestamp") refl

asks-ne-time : codes ":asks" ≢ codes ":timestamp"
unfolding text_eq
asks-ne-time = text_ne (codes ":asks") (codes ":timestamp") refl

module _ {D : Double} (C : Commands D) where
  -- The volume that the levels, written one after the other, leave at a price text: the last one's.
  unfoldable pub last_volume : Levels D.Num → Text → Option Text → Option Text
  last_volume [] f old = old
  last_volume ((price, volume) ∷ levels) f old =
      last_volume levels f (if text_eq f (C.double_text price) then some (to_text volume) else old)

  module _ (hash : Hashes C) (laws : ChangesHashes C hash) where
    set_levels-hash :
        (key : Text) (levels : Levels D.Num) (w w' : C.World)
        → set_levels C key levels w ≡ (ok tt, w')
        → (f : Text) → hash w' key f ≡ last_volume levels f (hash w key f)
    unfolding set_levels last_volume ◌>>◌ ◌>>=◌ pure
    set_levels-hash key [] w w' e f = let same : w ≡ w' = cc in rw (← same) refl
    set_levels-hash key ((price, volume) ∷ levels) w w' e f =
        let (a, w1, e1, k1) = bind-eq-ok _ _ tt w' e in
        rw (← laws.hset_sets key (C.double_text price) (to_text volume) w w1 e1 f)
          (set_levels-hash key levels w1 w' k1 f)

    set_levels-keeps :
        (key : Text) (levels : Levels D.Num) (w w' : C.World)
        → set_levels C key levels w ≡ (ok tt, w')
        → (k f : Text) → k ≢ key
        → hash w' k f ≡ hash w k f
    unfolding set_levels ◌>>◌ ◌>>=◌ pure
    set_levels-keeps key [] w w' e k f ne = let same : w ≡ w' = cc in rw (← same) refl
    set_levels-keeps key ((price, volume) ∷ levels) w w' e k f ne =
        let (a, w1, e1, k1) = bind-eq-ok _ _ tt w' e in
        set_levels-keeps key levels w1 w' k1 k f ne
        ∙ laws.hset_keeps key (C.double_text price) (to_text volume) w w1 e1 k f ne

    sides :
        (symbol : Text) (bids asks : Levels D.Num) (w w' : C.World)
        → update_order_book C symbol bids asks w ≡ (ok true, w')
        → (f : Text)
        → (hash w' (bids_key symbol) f ≡ last_volume bids f none)
          × (hash w' (asks_key symbol) f ≡ last_volume asks f none)
          × ((k : Text)
              → k ≢ bids_key symbol
              → k ≢ asks_key symbol
              → k ≢ time_key symbol
              → hash w' k f ≡ hash w k f)
    unfolding update_order_book catching ◌>>=◌ ◌>>◌ pure observe
    sides symbol bids asks w w' stored f =
        let b = bids_key symbol in
        let a = asks_key symbol in
        let other = time_key symbol in
        let body = catching-true _ w' stored in
        let (a1, w1, e1, k1) = bind-eq-ok _ _ true w' body in
        let (a2, w2, e2, k2) = bind-eq-ok _ _ true w' k1 in
        let (a3, w3, e3, k3) = bind-eq-ok _ _ true w' k2 in
        let (a4, w4, e4, k4) = bind-eq-ok _ _ true w' k3 in
        let (a5, w5, e5, k5) = bind-eq-ok _ _ true w' k4 in
        let last : w5 ≡ w' = cc in
        let ab : b ≢ a = book_key-ne symbol (codes ":bids") (codes ":asks") bids-ne-asks in
        let bo : b ≢ other = book_key-ne symbol (codes ":bids") (codes ":timestamp") bids-ne-time in
        let ao : a ≢ other = book_key-ne symbol (codes ":asks") (codes ":timestamp") asks-ne-time in
        rw (← last) (
          laws.set_keeps other _ w4 w5 e5 b f bo
              ∙ set_levels-keeps a asks w3 w4 e4 b f ab
              ∙ set_levels-hash b bids w2 w3 e3 f
              ∙ ap (last_volume bids f)
                  (laws.del_keeps a w1 w2 e2 b f ab ∙ laws.del_clears b w w1 e1 f),
          laws.set_keeps other _ w4 w5 e5 a f ao
              ∙ set_levels-hash a asks w3 w4 e4 f
              ∙ ap (last_volume asks f) (
                  set_levels-keeps b bids w2 w3 e3 a f (λ e. ab (sym e))
                  ∙ laws.del_clears a w1 w2 e2 f),
          λ k nb na no.
              laws.set_keeps other _ w4 w5 e5 k f no
              ∙ set_levels-keeps a asks w3 w4 e4 k f na
              ∙ set_levels-keeps b bids w2 w3 e3 k f nb
              ∙ laws.del_keeps a w1 w2 e2 k f na
              ∙ laws.del_keeps b w w1 e1 k f nb,
        )

    -- Where `update_order_book` returns true, each side's hash holds exactly the levels: at the text of a price the
    -- volume of the last level that is printed so, and nothing else, whatever it held before. Every
    -- other hash but one under the key of the book's time is as before.
    pub update_order_book-hash :
        (symbol key field : Text) (bids asks : Levels D.Num) (w w' : C.World)
        → update_order_book C symbol bids asks w ≡ (ok true, w')
        → key ≢ time_key symbol
        → hash w' key field ≡ (
            if text_eq key (bids_key symbol)
            then last_volume bids field none
            else if text_eq key (asks_key symbol)
            then last_volume asks field none
            else hash w key field)
    update_order_book-hash symbol key field bids asks w w' stored other =
        let (b, a, rest) = sides symbol bids asks w w' stored field in
        elim (Bool-cases (text_eq key (bids_key symbol))) [
          | inl e ↦ rw (e, (text_eq_iff key (bids_key symbol)).0 e) b
          | inr e ↦ elim (Bool-cases (text_eq key (asks_key symbol))) [
            | inl e' ↦ rw (e, e', (text_eq_iff key (asks_key symbol)).0 e') a
            | inr e' ↦ rw (e, e') (rest key (text_ne _ _ e) (text_ne _ _ e') other)
          ]
        ]
