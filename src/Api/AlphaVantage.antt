-- ===== src/Api/AlphaVantage.antt =====
-- `class AlphaVantageClient` of include/api/alpha_vantage_client.hpp and
-- src/api/alpha_vantage_client.cpp. What it writes to `std::cerr` is not modelled.
pub mod Cache
pub mod Dates
use fin_core_streaming_syste.Prelude.{
  ℕ, ◌+◌, ◌-◌, ◌*◌, ◌/◌, ◌%◌, ◌^◌, ◌≡◌, Bool, true, false, not, ◌||◌, ◌&&◌, Option, none, some,
  List, [], ◌∷◌, ◌++◌, if◌then◌else◌, Text, codes, text_eq, length, ◌==◌, Result, ok, err,
  Exception, invalid_argument, lit,
}
use fin_core_streaming_syste.Prelude.Int.{ℤ, pos, negsuc, ltb_ℤ, ◌-ℤ◌, negate}
use fin_core_streaming_syste.Prelude.Io.{
  Io, pure, throw, lift, ◌>>=◌, ◌>>◌, observe, act, bind_result,
}
use fin_core_streaming_syste.Api.Json.{extract_string, contains, read_int}
use fin_core_streaming_syste.Cli.Postgres.Times.{time_point_of}
use fin_core_streaming_syste.Cli.Postgres.Requests.{stol}
use fin_core_streaming_syste.Core.Double.{Double}
use fin_core_streaming_syste.Core.Types.{Quote, TimePoint}

-- The transfer of a URL by libcurl: whether `curl_easy_perform` returned `CURLE_OK`, the response
-- code, and the chunks of the body.
pub record Transfer : Type 0 where
  pub completed : Bool
  pub http_code : ℕ
  pub chunks : List Text

-- What the client calls: the steady clock in nanoseconds, the fetch function that it may be given,
-- libcurl (`none` where `curl_easy_init` fails), `std::stod` (`none` where it throws), and `mktime`
-- of a date with only the year, in its count of years since 1900.
pub record Web (D : Double) : Type 1 where
  pub World : Type 0
  pub steady_now : World → ℤ × World
  pub fetch_function : Option (Text → World → Result Text × World)
  pub transfer : Text → World → Option Transfer × World
  pub stod : Text → Option D.Num
  pub mktime : ℤ → ℤ

-- `curl_write_cb`.
unfoldable pub curl_write_cb : Text → Text → Text × ℕ
curl_write_cb buf chunk = (buf ++ chunk, length chunk)

unfoldable pub body_of : Text → List Text → Text
body_of buf [] = buf
body_of buf (chunk ∷ chunks) = body_of (curl_write_cb buf chunk).0 chunks

abbrev pub is_api_error : Text → Bool
is_api_error body =
    contains body (codes "Error Message")
    || contains body (b'"' ∷ (codes "Note" ++ (b'"' ∷ [])))
    || contains body (b'"' ∷ (codes "Information" ++ (b'"' ∷ [])))

unfoldable pub accepted_body : Option Transfer → Text
accepted_body none = []
accepted_body (some t) =
    let body = body_of [] t.chunks in
    if not t.completed
    then []
    else if not (t.http_code == 200)
    then []
    else if is_api_error body
    then []
    else body

unfoldable pub query_url : Text → Text → Text
query_url api_key symbol =
    codes "https://www.alphavantage.co/query?function=GLOBAL_QUOTE&symbol="
    ++ (symbol ++ (codes "&apikey=" ++ api_key))

-- `"05. price": "` and so on.
abbrev pub json_key : Text → Text
json_key name = b'"' ∷ (name ++ codes "\": \"")

abbrev pub without_percent : Text → Text
without_percent [] = []
without_percent (c ∷ []) = if c == b'%' then [] else c ∷ []
without_percent (c ∷ (d ∷ s)) = c ∷ without_percent (d ∷ s)

abbrev pub to_u64 : ℤ → ℕ
to_u64 (pos n) = n % 2 ^ 64
to_u64 (negsuc n) = 2 ^ 64 - 1 - n % 2 ^ 64

abbrev pub volume_of : Result (ℤ × ℕ) → ℕ
volume_of (ok r) = to_u64 r.0
volume_of (err e) = 0

-- `volume` behind the member initializer.
unfoldable pub read_volume : Option Text → ℕ
read_volume none = 0
read_volume (some text) = volume_of (stol 0 text)

-- `duration_cast<microseconds>` rounds toward zero.
abbrev pub to_micros : ℤ → TimePoint
to_micros (pos n) = pos (n / 1_000)
to_micros (negsuc n) = negate (pos ((n + 1) / 1_000))

-- The time to live in nanoseconds.
abbrev pub nanoseconds : ℤ → ℤ
nanoseconds (pos n) = pos (n * 1_000_000_000)
nanoseconds (negsuc n) = negate (pos ((n + 1) * 1_000_000_000))

pub record CacheEntry (D : Double) : Type 0 where
  pub quote : Quote D
  pub fetched_at : ℤ

module _ {D : Double} (V : Web D) where
  abbrev pub number_of : Option Text → Option D.Num
  number_of none = none
  number_of (some raw) = V.stod raw

  unfoldable pub extract_double : Text → Text → Option D.Num
  extract_double json key = number_of (extract_string json key)

  abbrev pub number_or : D.Num → Option D.Num → D.Num
  number_or d none = d
  number_or d (some x) = x

  abbrev pub percent_of : Option Text → D.Num
  percent_of none = D.nought
  percent_of (some text) = number_or D.nought (V.stod (without_percent text))

  -- The count of the year is stored as the years since 1900.
  abbrev pub time_of_year : Option ℤ → TimePoint
  time_of_year none = pos 0
  time_of_year (some year) = to_micros (time_point_of (V.mktime year) 0)

  unfoldable pub read_date : Option Text → TimePoint
  read_date none = pos 0
  read_date (some text) = time_of_year (read_int text)

  abbrev pub quote_of :
      Text → Text → Option D.Num → Option D.Num → Option D.Num → Option D.Num → Option (Quote D)
  quote_of json symbol none opening high low = none
  quote_of json symbol (some price) none high low = none
  quote_of json symbol (some price) (some opening) none low = none
  quote_of json symbol (some price) (some opening) (some high) none = none
  quote_of json symbol (some price) (some opening) (some high) (some low) = some (record {
    symbol = symbol;
    price = price;
    opening = opening;
    high = high;
    low = low;
    volume = read_volume (extract_string json (json_key (codes "06. volume")));
    change_pct = percent_of (extract_string json (json_key (codes "10. change percent")));
    source = codes "ALPHA_VANTAGE";
    timestamp = read_date (extract_string json (json_key (codes "07. latest trading day")));
  })

  -- All four prices are looked for; one that is missing fails the parse.
  unfoldable pub parse_quote : Text → Text → Option (Quote D)
  parse_quote json symbol =
      quote_of json symbol (extract_double json (json_key (codes "05. price")))
        (extract_double json (json_key (codes "02. open")))
        (extract_double json (json_key (codes "03. high")))
        (extract_double json (json_key (codes "04. low")))

  pub record Client : Type 0 where
    pub world : V.World
    pub last_was_cached : Bool
    pub cache : List (Text × CacheEntry D)

  -- The constructor; the key and the time to live do not change.
  unfoldable pub make_client : Text → V.World → Result Client
  make_client [] w = err (invalid_argument (lit "AlphaVantageClient: api_key must not be empty"))
  make_client (c ∷ key) w = ok (record { world = w; last_was_cached = false; cache = [] })

  unfoldable pub find_entry : Text → List (Text × CacheEntry D) → Option (CacheEntry D)
  find_entry symbol [] = none
  find_entry symbol ((s, entry) ∷ rest) =
      if text_eq symbol s then some entry else find_entry symbol rest

  -- `cache_[symbol] = entry`.
  unfoldable pub set_entry :
      Text → CacheEntry D → List (Text × CacheEntry D) → List (Text × CacheEntry D)
  set_entry symbol entry [] = (symbol, entry) ∷ []
  set_entry symbol entry ((s, old) ∷ rest) =
      let more = set_entry symbol entry rest in
      if text_eq symbol s then (s, entry) ∷ rest else (s, old) ∷ more

  abbrev pub with_client : {A : Type 0} → Client → Result A × V.World → Result A × Client
  with_client c (r, w) = (r, record c { world = w })

  abbrev pub call : {A : Type 0} → Io V.World A → Io Client A
  call m c = with_client c (m c.world)

  unfoldable pub fetch_json : Text → Text → Io V.World Text
  fetch_json api_key symbol w =
      let (reply, w') = V.transfer (query_url api_key symbol) w in (ok (accepted_body reply), w')

  abbrev pub fetch_by :
      Text → Option (Text → V.World → Result Text × V.World) → Text → Io V.World Text
  fetch_by api_key none symbol = fetch_json api_key symbol
  fetch_by api_key (some fetch) symbol = fetch symbol

  abbrev pub remember : Text → Option (Quote D) → Io Client (Option (Quote D))
  remember symbol none c = (ok none, c)
  remember symbol (some quote) c =
      let (now, w) = V.steady_now c.world in
      (
        ok (some quote),
        record c {
          world = w;
          cache = set_entry symbol (record { quote = quote; fetched_at = now }) c.cache;
        },
      )

  abbrev pub keep_quote : Text → Text → Io Client (Option (Quote D))
  keep_quote symbol [] = pure none
  keep_quote symbol (c ∷ json) = remember symbol (parse_quote (c ∷ json) symbol)

  abbrev pub set_cached : Bool → Io Client (Unit {0})
  set_cached b c = (ok tt, record c { last_was_cached = b })

  module _ (api_key : Text) (cache_ttl : ℤ) where
    abbrev pub fetch_new : Text → Io Client (Option (Quote D))
    fetch_new [] = pure none
    fetch_new (c ∷ symbol) = do
      json ← call (fetch_by api_key V.fetch_function (c ∷ symbol))
      keep_quote (c ∷ symbol) json

    unfoldable pub get_quote_fresh : Text → Io Client (Option (Quote D))
    get_quote_fresh symbol = do set_cached false; fetch_new symbol

    abbrev pub is_live : ℤ → CacheEntry D → Bool
    is_live now entry = ltb_ℤ (now -ℤ entry.fetched_at) (nanoseconds cache_ttl)

    -- A live entry is returned, and the rest of the function is left out.
    abbrev pub from_cache : Text → Option (CacheEntry D) → Io Client (Option (Quote D))
    from_cache symbol none c = get_quote_fresh symbol c
    from_cache symbol (some entry) c =
        let (now, w) = V.steady_now c.world in
        if is_live now entry
        then (ok (some entry.quote), record c { world = w; last_was_cached = true })
        else get_quote_fresh symbol (record c { world = w })

    abbrev pub look_up : Text → Io Client (Option (Quote D))
    look_up [] c = (ok none, c)
    look_up (s ∷ symbol) c = from_cache (s ∷ symbol) (find_entry (s ∷ symbol) c.cache) c

    unfoldable pub get_quote : Text → Io Client (Option (Quote D))
    get_quote symbol = do set_cached false; look_up symbol
