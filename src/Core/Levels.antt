-- ===== src/Core/Levels.antt =====
-- `std::map<Price, Volume, Compare>`, as src/core/order_book.cpp uses it: the entries in the order
-- of the comparison, whose equivalence `!(a < b) && !(b < a)` is the equality of keys.
use fin_core_streaming_syste.Prelude.{
  ℕ, ◌+◌, ◌≡◌, ◌≢◌, refl, sym, ◌∙◌, inl, inr, Bool-cases, true≢false, Bool, true, false, not, ◌&&◌,
  Option, none, some, List, [], ◌∷◌, arith, All, if◌then◌else◌,
}

abbrev pub Levels {ℓ} : Type ℓ → Type ℓ
Levels K = List (K × ℕ)

module _ {K : Type 0} (before : K → K → Bool) where
  -- `map[key] = volume`: a key that is there already stays, with the new volume.
  unfoldable pub assign : K → ℕ → Levels K → Levels K
  assign k v [] = (k, v) ∷ []
  assign k v ((j, w) ∷ m) =
      if before k j
      then (k, v) ∷ ((j, w) ∷ m)
      else if before j k
      then (j, w) ∷ assign k v m
      else (j, v) ∷ m

  -- `map.insert({key, volume})`: a key that is there already keeps its volume.
  unfoldable pub insert_new : K → ℕ → Levels K → Levels K
  insert_new k v [] = (k, v) ∷ []
  insert_new k v ((j, w) ∷ m) =
      if before k j
      then (k, v) ∷ ((j, w) ∷ m)
      else if before j k
      then (j, w) ∷ insert_new k v m
      else (j, w) ∷ m

  -- The map of a range of entries.
  unfoldable pub from_range : Levels K → Levels K → Levels K
  from_range [] m = m
  from_range ((k, v) ∷ entries) m = from_range entries (insert_new k v m)

  -- `map.erase(key)`.
  unfoldable pub erase : K → Levels K → Levels K
  erase k [] = []
  erase k ((j, w) ∷ m) =
      if before k j then (j, w) ∷ m else if before j k then (j, w) ∷ erase k m else m

  -- The volume at a key.
  unfoldable pub find : K → Levels K → Option ℕ
  find k [] = none
  find k ((j, w) ∷ m) = if before k j then none else if before j k then find k m else some w

  abbrev pub same : K → K → Bool
  same a b = not (before a b) && not (before b a)

  abbrev pub Below : K → Levels K → Type 0
  Below k = All (λ e. before k (e.0) ≡ true)

-- The sum of the volumes.
unfoldable pub volume_sum : {K : Type 0} → Levels K → ℕ
volume_sum [] = 0
volume_sum ((k, v) ∷ m) = v + volume_sum m

abbrev pub volume_or_0 : Option ℕ → ℕ
volume_or_0 none = 0
volume_or_0 (some v) = v

-- A comparison that is a strict order on the keys that are `Good`.
pub record IsStrictOrder {K : Type 0} (before : K → K → Bool) (Good : K → Type 0) : Type 0 where
  pub irrefl : (a : K) → before a a ≡ false
  pub trans :
      (a b c : K)
      → Good a
      → Good b
      → Good c
      → before a b ≡ true
      → before b c ≡ true
      → before a c ≡ true
  pub connected : (a b : K) → Good a → Good b → before a b ≡ false → before b a ≡ false → a ≡ b

-- The entries stand in the order of the comparison, with good keys and no volume of zero.
abbrev pub IsLadder : {K : Type 0} → (K → K → Bool) → (K → Type 0) → Levels K → Type 0
IsLadder before Good [] = Unit
IsLadder before Good ((k, v) ∷ m) = Good k × (v ≢ 0) × Below before k m × IsLadder before Good m

module _ {K : Type 0} {before : K → K → Bool} {Good : K → Type 0}
    (o : IsStrictOrder before Good) where
  asym : (a b : K) → Good a → Good b → before a b ≡ true → before b a ≡ false
  asym a b ga gb h = elim (Bool-cases (before b a)) [
    | inl e ↦ absurd (true≢false (sym (o.trans a b a ga gb ga h e) ∙ o.irrefl a))
    | inr e ↦ e
  ]

  Below-trans :
      (a k : K) (m : Levels K)
      → Good a
      → Good k
      → before a k ≡ true
      → IsLadder before Good m
      → Below before k m
      → Below before a m
  Below-trans a k [] ga gk h w b = tt
  Below-trans a k ((j, v) ∷ m) ga gk h (gj, _, _, w) (b, bs) =
      (o.trans a k j ga gk gj h b, Below-trans a k m ga gk h w bs)

  Below-assign :
      (a k : K) (v : ℕ) (m : Levels K)
      → before a k ≡ true
      → Below before a m
      → Below before a (assign before k v m)
  unfolding assign
  Below-assign a k v [] h b = (h, tt)
  Below-assign a k v ((j, w) ∷ m) h (b, bs) = ground (arith, Below-assign a k v m h bs)

  Below-erase : (a k : K) (m : Levels K) → Below before a m → Below before a (erase before k m)
  unfolding erase
  Below-erase a k [] b = tt
  Below-erase a k ((j, w) ∷ m) (b, bs) = ground (arith, Below-erase a k m bs)

  -- Writing and erasing keep the order.
  pub assign-IsLadder :
      (k : K) (v : ℕ) (m : Levels K)
      → Good k
      → v ≢ 0
      → IsLadder before Good m
      → IsLadder before Good (assign before k v m)
  unfolding assign
  assign-IsLadder k v [] gk nz w = (gk, nz, tt, tt)
  assign-IsLadder k v ((j, x) ∷ m) gk nz (gj, nx, b, w) =
      ground (arith, assign-IsLadder k v m gk nz w, Below-trans k j m gk gj, Below-assign j k v m)

  pub erase-IsLadder :
      (k : K) (m : Levels K) → IsLadder before Good m → IsLadder before Good (erase before k m)
  unfolding erase
  erase-IsLadder k [] w = tt
  erase-IsLadder k ((j, x) ∷ m) (gj, nx, b, w) =
      ground (arith, erase-IsLadder k m w, Below-erase j k m b)

  -- Nothing in front of the head is found.
  pub find-Below : (k : K) (m : Levels K) → Below before k m → find before k m ≡ none
  unfolding find
  find-Below k [] b = refl
  find-Below k ((j, v) ∷ m) (b, bs) = rw b

  -- A write is read back at its key, and changes no other key.
  pub find-assign :
      (q k : K) (v : ℕ) (m : Levels K)
      → Good q
      → Good k
      → IsLadder before Good m
      → find before q (assign before k v m) ≡ (if same before q k then some v else find before q m)
  unfolding find assign
  find-assign q k v [] gq gk w = ground (arith, asym q k gq gk)
  find-assign q k v ((j, x) ∷ m) gq gk (gj, nx, b, w) = ground (
    arith,
    find-assign q k v m gq gk w,
    asym q k gq gk,
    asym k q gk gq,
    asym k j gk gj,
    asym q j gq gj,
    o.connected q k gq gk,
    o.connected k j gk gj,
    o.connected q j gq gj,
    o.trans q k j gq gk gj,
    o.trans k j q gk gj gq,
    o.trans j k q gj gk gq,
    o.trans j q k gj gq gk,
    o.trans k q j gk gq gj,
    o.trans q j k gq gj gk,
  )

  pub find-erase :
      (q k : K) (m : Levels K)
      → Good q
      → Good k
      → IsLadder before Good m
      → find before q (erase before k m) ≡ (if same before q k then none else find before q m)
  unfolding find erase
  find-erase q k [] gq gk w = ground arith
  find-erase q k ((j, x) ∷ m) gq gk (gj, nx, b, w) = ground (
    arith,
    find-erase q k m gq gk w,
    find-Below q m,
    Below-trans q j m gq gj,
    asym q k gq gk,
    asym k q gk gq,
    asym k j gk gj,
    asym q j gq gj,
    o.connected q k gq gk,
    o.connected k j gk gj,
    o.connected q j gq gj,
    o.trans q k j gq gk gj,
    o.trans k j q gk gj gq,
    o.trans j k q gj gk gq,
    o.trans j q k gj gq gk,
    o.trans k q j gk gq gj,
    o.trans q j k gq gj gk,
  )

  -- A write replaces the old volume in the sum.
  pub volume_sum-assign :
      (k : K) (v : ℕ) (m : Levels K)
      → Good k
      → IsLadder before Good m
      → volume_sum (assign before k v m) + volume_or_0 (find before k m) ≡ volume_sum m + v
  unfolding find assign volume_sum
  volume_sum-assign k v [] g w = omega arith
  volume_sum-assign k v ((j, x) ∷ m) g (gj, nx, b, w) = ground (arith, volume_sum-assign k v m g w)

  pub volume_sum-erase :
      (k : K) (m : Levels K)
      → Good k
      → IsLadder before Good m
      → volume_sum (erase before k m) + volume_or_0 (find before k m) ≡ volume_sum m
  unfolding find erase volume_sum
  volume_sum-erase k [] g w = omega arith
  volume_sum-erase k ((j, x) ∷ m) g (gj, nx, b, w) = ground (arith, volume_sum-erase k m g w)
