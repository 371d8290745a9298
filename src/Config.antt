-- ===== src/Config.antt =====
-- internal/infrastructure/config/config.go: the configuration, from the environment.
pub mod Origins
mod Tests
use Prim.Native.Char.{Char, code}
use Prim.Native.String.{◌++◌ as ◌<>◌}
use text.Mathlib.Text.{◌==◌ as str_eq}
use supply_chain_game.Prelude.{
  ℕ, Bool, not, ◌&&◌, ◌||◌, List, [], ◌∷◌, Option, none, some, String, if◌then◌else◌, ◌==◌, leb,
}
use supply_chain_game.Prelude.Trim.{trim, split}
use supply_chain_game.Word.{GoInt}

-- `unicode.IsSpace`
unfoldable pub is_space : Char → Bool
is_space c =
    let n = code c in
    (leb 9 n && leb n 13)
    || (n == 32)
    || (n == 133)
    || (n == 160)
    || (n == 5760)
    || (leb 8192 n && leb n 8202)
    || (n == 8232)
    || (n == 8233)
    || (n == 8239)
    || (n == 8287)
    || (n == 12288)

abbrev pub is_comma : Char → Bool
is_comma c = code c == b','

-- The loop of `splitCSV`.
unfoldable pub kept_parts : List String → List String
kept_parts [] = []
kept_parts (part ∷ rest) =
    let trimmed = trim is_space part in
    if str_eq trimmed "" then kept_parts rest else trimmed ∷ kept_parts rest

unfoldable pub split_csv : String → List String
unfolding kept_parts
split_csv value = if str_eq value "" then [] else kept_parts (split is_comma value)

-- os.Getenv, which is empty for a missing variable, strconv.Atoi and time.ParseDuration.
pub record Environment : Type 0 where
  pub getenv : String → String
  pub atoi : String → Option GoInt
  pub parse_duration : String → Option GoInt

pub record RedisSettings : Type 0 where
  pub enabled : Bool
  pub addr : String
  pub password : String
  pub db : GoInt
  pub key_ttl : GoInt

pub record App : Type 0 where
  pub http_addr : String
  pub allowed_origins : List String
  pub redis : RedisSettings

module _ (environment : Environment) where
  open environment use {getenv, atoi, parse_duration}

  -- A value that is set and can be read, and `fallback` for any other.
  unfoldable pub parsed_or : (String → Option GoInt) → String → GoInt → GoInt
  parsed_or parse value fallback =
      if str_eq value ""
      then fallback
      else elim (parse value) [ none ↦ fallback | some read ↦ read ]

  unfoldable pub env_int : String → GoInt → GoInt
  unfolding parsed_or
  env_int key fallback = parsed_or atoi (trim is_space (getenv key)) fallback

  -- In nanoseconds.
  unfoldable pub env_duration : String → GoInt → GoInt
  unfolding parsed_or
  env_duration key fallback = parsed_or parse_duration (trim is_space (getenv key)) fallback

  unfoldable pub port_or_default : String → String
  port_or_default port = if str_eq port "" then "8080" else port

  unfoldable pub load : App
  unfolding split_csv env_int env_duration port_or_default
  load = record {
    http_addr = ":" <> port_or_default (getenv "PORT");
    allowed_origins = split_csv (getenv "ALLOWED_ORIGINS");
    redis = record {
      enabled = not (str_eq (getenv "REDIS_ADDR") "");
      addr = getenv "REDIS_ADDR";
      password = getenv "REDIS_PASSWORD";
      db = env_int "REDIS_DB" 0;
      key_ttl = env_duration "REDIS_KEY_TTL" 259200000000000;
    };
  }
