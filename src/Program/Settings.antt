-- ===== src/Program/Settings.antt =====
-- The settings that `main` of src/core/main.cpp reads from the environment.
use fin_core_streaming_syste.Prelude.{
  ℕ, ◌||◌, Option, if◌then◌else◌, Text, codes, Result, ok, err, invalid_argument, out_of_range, lit,
  ◌>>=◌,
}
use fin_core_streaming_syste.Prelude.Int.{ℤ, pos, negsuc, ltb_ℤ}
use fin_core_streaming_syste.Cli.Postgres.Requests.{stol}
use fin_core_streaming_syste.Storage.Connection.{value_or}

abbrev pub int_or_error : Result (ℤ × ℕ) → Result ℤ
int_or_error (ok (value, used)) =
    if ltb_ℤ value (negsuc 2_147_483_647) || ltb_ℤ (pos 2_147_483_647) value
    then err (out_of_range (lit "stoi"))
    else ok value
int_or_error (err (out_of_range message)) = err (out_of_range (lit "stoi"))
int_or_error (err thrown) = err (invalid_argument (lit "stoi"))

-- `std::stoi`, which may leave a rest of the text.
unfoldable pub stoi : Text → Result ℤ
stoi text = int_or_error (stol 0 text)

pub record Settings : Type 0 where
  pub api_key : Text
  pub redis_host : Text
  pub redis_port : ℤ
  pub redis_quote_ttl : ℤ
  pub poll_seconds : ℤ

-- `env_or`, and the settings that `main` reads with it.
unfoldable pub env_or : (Text → Option Text) → Text → Text → Text
env_or environment name fallback = value_or (environment name) fallback

unfoldable pub read_settings : (Text → Option Text) → Result Settings
read_settings environment = do
  redis_port ← stoi (env_or environment (codes "REDIS_PORT") (codes "6379"))
  redis_quote_ttl ← stoi (env_or environment (codes "REDIS_QUOTE_TTL_SECONDS") (codes "60"))
  poll_seconds ← stoi (env_or environment (codes "POLL_SECONDS") (codes "60"))
  ok (record {
    api_key = env_or environment (codes "AV_API_KEY") (codes "demo");
    redis_host = env_or environment (codes "REDIS_HOST") (codes "127.0.0.1");
    redis_port = redis_port;
    redis_quote_ttl = redis_quote_ttl;
    poll_seconds = poll_seconds;
  })
