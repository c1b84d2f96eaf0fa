-- ===== src/Api/AlphaVantage/Cache.antt =====
-- The cache of src/api/alpha_vantage_client.cpp over the time that passes and the calls in between.
use fin_core_streaming_syste.Prelude.{
  ◌∙◌, sym, ◌≡◌, ◌≢◌, refl, inl, inr, Bool-cases, true, false, Option, none, some, List, [], ◌∷◌,
  if◌then◌else◌, Text, text_eq, text_eq_iff, text_eq_refl, Result, ok, err, arith,
}
use fin_core_streaming_syste.Prelude.Int.{ℤ, ltb_ℤ, ◌-ℤ◌}
use fin_core_streaming_syste.Prelude.Io.{pure, bind_result, ◌>>=◌, ◌>>◌}
use fin_core_streaming_syste.Api.AlphaVantage.{
  Web, CacheEntry, Client, find_entry, set_entry, with_client, fetch_by, remember, keep_quote,
  parse_quote, get_quote_fresh, nanoseconds, is_live, from_cache, get_quote,
}
use fin_core_streaming_syste.Core.Double.{Double}
use fin_core_streaming_syste.Core.Types.{Quote}

text_eq-ne : (s t : Text) → s ≢ t → text_eq s t ≡ false
text_eq-ne s t ne = elim (Bool-cases (text_eq s t)) [
  | inl e ↦ absurd (ne ((text_eq_iff s t).0 e))
  | inr e ↦ e
]

module _ {D : Double} (V : Web D) where
  find_entry-set_entry :
      (symbol : Text) (entry : CacheEntry D) (cache : List (Text × CacheEntry D))
      → find_entry V symbol (set_entry V symbol entry cache) ≡ some entry
  unfolding find_entry set_entry
  find_entry-set_entry symbol entry [] = rw (text_eq_refl symbol) refl
  find_entry-set_entry symbol entry ((s, old) ∷ rest) = elim (Bool-cases (text_eq symbol s)) [
    | inl e ↦ rw (e, e) refl
    | inr e ↦ rw (e, e) (find_entry-set_entry symbol entry rest)
  ]

  find_entry-set_other :
      (symbol other : Text) (entry : CacheEntry D) (cache : List (Text × CacheEntry D))
      → other ≢ symbol
      → find_entry V symbol (set_entry V other entry cache) ≡ find_entry V symbol cache
  unfolding find_entry set_entry
  find_entry-set_other symbol other entry [] ne =
      rw (text_eq-ne symbol other (λ e. ne (sym e))) refl
  find_entry-set_other symbol other entry ((s, old) ∷ rest) ne =
      elim (Bool-cases (text_eq other s)) [
        | inl e ↦
            let f = (text_eq_iff other s).0 e in
            rw (e, text_eq-ne symbol s (λ g. ne (f ∙ sym g))) refl
        | inr e ↦ rw e (ground (arith, find_entry-set_other symbol other entry rest ne))
      ]

  -- A call that keeps the entry of a symbol.
  abbrev Keeps : {A : Type 0} → Text → Client V → Result A × Client V → Type 0
  Keeps symbol c r = find_entry V symbol r.1.cache ≡ find_entry V symbol c.cache

  remember-Keeps :
      (symbol other : Text) (quote : Option (Quote D)) (c : Client V)
      → other ≢ symbol
      → Keeps symbol c (remember V other quote c)
  remember-Keeps symbol other none c ne = refl
  remember-Keeps symbol other (some quote) c ne = find_entry-set_other symbol other _ c.cache ne

  after_fetch-Keeps :
      (symbol other : Text) (c : Client V) (r : Result Text × V.World)
      → other ≢ symbol
      → Keeps symbol c (bind_result (with_client V c r) (keep_quote V other))
  unfolding pure
  after_fetch-Keeps symbol other c (err e, w) ne = refl
  after_fetch-Keeps symbol other c (ok [], w) ne = refl
  after_fetch-Keeps symbol other c (ok (j ∷ json), w) ne =
      remember-Keeps symbol other (parse_quote V (j ∷ json) other) (record c { world = w }) ne

  module _ (api_key : Text) (cache_ttl : ℤ) where
    fresh-Keeps :
        (symbol other : Text) (c : Client V)
        → other ≢ symbol
        → Keeps symbol c (get_quote_fresh V api_key cache_ttl other c)
    unfolding get_quote_fresh ◌>>◌ ◌>>=◌ pure
    fresh-Keeps symbol [] c ne = refl
    fresh-Keeps symbol (s ∷ other) c ne =
        after_fetch-Keeps symbol (s ∷ other) (record c { last_was_cached = false })
          (fetch_by V api_key V.fetch_function (s ∷ other) c.world) ne

    from_cache-Keeps :
        (symbol other : Text) (entry : Option (CacheEntry D)) (c : Client V)
        → other ≢ symbol
        → Keeps symbol c (from_cache V api_key cache_ttl other entry c)
    from_cache-Keeps symbol other none c ne = fresh-Keeps symbol other c ne
    from_cache-Keeps symbol other (some entry) c ne =
        elim (Bool-cases (is_live V api_key cache_ttl (V.steady_now c.world).0 entry)) [
          | inl e ↦ rw e refl
          | inr e ↦
              rw e (fresh-Keeps symbol other (record c { world = (V.steady_now c.world).1 }) ne)
        ]

    get_quote-Keeps :
        (symbol other : Text) (c : Client V)
        → other ≢ symbol
        → Keeps symbol c (get_quote V api_key cache_ttl other c)
    unfolding get_quote ◌>>◌ ◌>>=◌
    get_quote-Keeps symbol [] c ne = refl
    get_quote-Keeps symbol (s ∷ other) c ne =
        from_cache-Keeps symbol (s ∷ other) (find_entry V (s ∷ other) c.cache)
          (record c { last_was_cached = false }) ne

    -- What may happen between two requests of a symbol: time passes, and other symbols are
    -- requested.
    pub data Meanwhile (symbol : Text) (c : Client V) : Client V → Type 0 where
      at_once : Meanwhile symbol c c
      waits :
          (d : Client V) (w : V.World)
          → Meanwhile symbol c d
          → Meanwhile symbol c (record d { world = w })
      fetches :
          (d : Client V) (other : Text)
          → other ≢ symbol
          → Meanwhile symbol c d
          → Meanwhile symbol c (get_quote_fresh V api_key cache_ttl other d).1
      requests :
          (d : Client V) (other : Text)
          → other ≢ symbol
          → Meanwhile symbol c d
          → Meanwhile symbol c (get_quote V api_key cache_ttl other d).1

    Meanwhile-Keeps :
        (symbol : Text) (c d : Client V)
        → Meanwhile symbol c d
        → find_entry V symbol d.cache ≡ find_entry V symbol c.cache
    Meanwhile-Keeps symbol c d at_once = refl
    Meanwhile-Keeps symbol c d (waits d' w m) = Meanwhile-Keeps symbol c d' m
    Meanwhile-Keeps symbol c d (fetches d' other ne m) =
        fresh-Keeps symbol other d' ne ∙ Meanwhile-Keeps symbol c d' m
    Meanwhile-Keeps symbol c d (requests d' other ne m) =
        get_quote-Keeps symbol other d' ne ∙ Meanwhile-Keeps symbol c d' m

    -- The entry that a request leaves behind where it fetched a quote.
    abbrev Fetched : Text → Result (Option (Quote D)) × Client V → Type 0
    Fetched symbol (err e, c) = Unit
    Fetched symbol (ok none, c) = Unit
    Fetched symbol (ok (some quote), c) =
        (u : V.World) × (find_entry V symbol c.cache
          ≡ some (record { quote = quote; fetched_at = (V.steady_now u).0 }))

    remember-Fetched :
        (symbol : Text) (quote : Option (Quote D)) (c : Client V)
        → Fetched symbol (remember V symbol quote c)
    remember-Fetched symbol none c = tt
    remember-Fetched symbol (some quote) c = (c.world, find_entry-set_entry symbol _ c.cache)

    after_fetch-Fetched :
        (symbol : Text) (c : Client V) (r : Result Text × V.World)
        → Fetched symbol (bind_result (with_client V c r) (keep_quote V symbol))
    unfolding pure
    after_fetch-Fetched symbol c (err e, w) = tt
    after_fetch-Fetched symbol c (ok [], w) = tt
    after_fetch-Fetched symbol c (ok (j ∷ json), w) =
        remember-Fetched symbol (parse_quote V (j ∷ json) symbol) (record c { world = w })

    fresh-Fetched :
        (symbol : Text) (c : Client V)
        → Fetched symbol (get_quote_fresh V api_key cache_ttl symbol c)
    unfolding get_quote_fresh ◌>>◌ ◌>>=◌ pure
    fresh-Fetched [] c = tt
    fresh-Fetched (s ∷ symbol) c =
        after_fetch-Fetched (s ∷ symbol) (record c { last_was_cached = false })
          (fetch_by V api_key V.fetch_function (s ∷ symbol) c.world)

    -- What a request does with an entry that was made at `t`, by the time of the clock.
    abbrev pub served : Text → Quote D → ℤ → Client V → Result (Option (Quote D)) × Client V
    served symbol quote t d =
        let (now, w) = V.steady_now d.world in
        if ltb_ℤ (now -ℤ t) (nanoseconds cache_ttl)
        then (ok (some quote), record d { world = w; last_was_cached = true })
        else get_quote_fresh V api_key cache_ttl symbol (record d { world = w })

    entry-served :
        (symbol : Text) (quote : Quote D) (t : ℤ) (d : Client V)
        → symbol ≢ []
        → find_entry V symbol d.cache ≡ some (record { quote = quote; fetched_at = t })
        → get_quote V api_key cache_ttl symbol d ≡ served symbol quote t d
    unfolding get_quote get_quote_fresh ◌>>◌ ◌>>=◌
    entry-served [] quote t d ne e = absurd (ne refl)
    entry-served (s ∷ symbol) quote t d ne e =
        rw e (elim (Bool-cases (ltb_ℤ ((V.steady_now d.world).0 -ℤ t) (nanoseconds cache_ttl))) [
          | inl h ↦ rw h refl
          | inr h ↦ rw h refl
        ])

    -- A quote that `get_quote_fresh` has fetched is returned by `get_quote` from the cache as long as its age
    -- is below the time to live, whatever time has passed and whichever other symbols were
    -- requested: nothing is fetched, only the clock is read, and `last_was_cached` becomes true. From then
    -- on `get_quote` does what `get_quote_fresh` does. The entry's time is a reading of the clock.
    pub get_quote-served :
        (symbol : Text) (quote : Quote D) (c c' d : Client V)
        → symbol ≢ []
        → get_quote_fresh V api_key cache_ttl symbol c ≡ (ok (some quote), c')
        → Meanwhile symbol c' d
        → (u : V.World) × (get_quote V api_key cache_ttl symbol d
            ≡ served symbol quote (V.steady_now u).0 d)
    get_quote-served symbol quote c c' d ne fetched m =
        let (u, e) = rw fetched at (fresh-Fetched symbol c) in
        (u, entry-served symbol quote _ d ne (Meanwhile-Keeps symbol c' d m ∙ e))
