-- ===== src/Config.antt =====
-- internal/config/config.go: the settings, and where they come from.
-- The environment, the files, the YAML and JSON decoders, `time.ParseDuration` and the number
-- parsers of strconv, and the SDK's strkey check are parameters. A text that `fmt.Errorf` renders is
-- the constructor of its format.
pub mod Apply
pub mod Load
pub mod Validate
pub mod Layers
pub mod Overrides
pub mod Environment
pub mod Sources
pub mod Precedence
pub mod Usable
use soroprobe.Prelude.{
  ℕ, ◌*◌, Bool, true, false, Option, none, some, List, [], ◌∷◌, if◌then◌else◌, Text, text, is_empty,
  Result,
}
use soroprobe.Prelude.Int.{ℤ, pos}
use soroprobe.Health.{ThresholdOverrides, EntryKind, second}

pub record Config : Type 0 where
  pub rpc_url : Text
  pub network_passphrase : Text
  pub source_account : Text
  pub http_addr : Text
  pub cors_origins : List Text
  pub http_rate_limit_per_minute : ℕ
  pub http_rate_limit_burst : ℕ
  pub http_trust_forwarded_for : Bool
  pub http_tls_cert : Text
  pub http_tls_key : Text
  pub log_level : Text
  pub log_format : Text
  pub timeout : ℤ
  pub warn_ledgers : ℕ
  pub critical_ledgers : ℕ
  pub threshold_overrides : ThresholdOverrides
  pub sorovault_url : Text
  pub inspect_cache_ttl : ℤ
  pub api_token : Text
  pub base_fee : ℤ

abbrev pub no_overrides : ThresholdOverrides
no_overrides = record { for_instance = none; for_code = none; for_data = none }

abbrev pub min_api_token_length : ℕ
min_api_token_length = 16

-- Default. The test network's passphrase is a constant of the SDK.
unfoldable pub default_config : Text → Config
default_config test_network = record {
  rpc_url = text "https://soroban-testnet.stellar.org";
  network_passphrase = test_network;
  source_account = text "GAAAAAAAAAAAAAAAAAAAAAAAAAAAAAAAAAAAAAAAAAAAAAAAAAAAAWHF";
  http_addr = text "127.0.0.1:8080";
  cors_origins = [];
  http_rate_limit_per_minute = 60;
  http_rate_limit_burst = 10;
  http_trust_forwarded_for = false;
  http_tls_cert = [];
  http_tls_key = [];
  log_level = text "info";
  log_format = text "text";
  timeout = pos (30 * second);
  warn_ledgers = 120_960;
  critical_ledgers = 17_280;
  threshold_overrides = no_overrides;
  sorovault_url = [];
  inspect_cache_ttl = pos 0;
  api_token = [];
  base_fee = pos 100;
}

-- fileConfig, less its profiles
pub record FileValues : Type 0 where
  pub rpc_url : Option Text
  pub network_passphrase : Option Text
  pub source_account : Option Text
  pub http_addr : Option Text
  pub log_level : Option Text
  pub log_format : Option Text
  pub timeout : Option Text
  pub warn_ledgers : Option ℕ
  pub critical_ledgers : Option ℕ
  pub threshold_overrides : Option ThresholdOverrides
  pub sorovault_url : Option Text
  pub base_fee : Option ℤ
  pub inspect_cache_ttl : Option Text
  pub http_rate_limit_per_minute : Option ℕ
  pub http_rate_limit_burst : Option ℕ
  pub http_trust_forwarded_for : Option Bool
  pub http_tls_cert : Option Text
  pub http_tls_key : Option Text
  pub api_token : Option Text

-- fileConfig; a profile may be null, and hold profiles of its own
mutual
  pub data FileConfig : Type 0 where
    file_config : FileValues → Profiles → FileConfig

  pub data Profiles : Type 0 where
    no_profiles : Profiles
    profile : Text → FileConfig → Profiles → Profiles
    null_profile : Text → Profiles → Profiles

pub data ConfigError : Type 0 where
  -- parse <name>: <error>
  parse_env : Text → Text → ConfigError
  -- parse config file <path>: <name>: <error>
  parse_file_value : Text → Text → Text → ConfigError
  -- parse config file <path>: <error>
  parse_file : Text → Text → ConfigError
  read_file : Text → Text → ConfigError
  no_file_for_profile : Text → ConfigError
  file_not_found : Text → Text → Text → ConfigError
  unknown_profile : Text → Text → List Text → ConfigError
  -- Validate
  tls_pair rate_limit_positive url_required passphrase_required : ConfigError
  bad_url bad_sorovault_url bad_source_account : Text → ConfigError
  timeout_positive cache_ttl_negative : ℤ → ConfigError
  critical_above_warn : ℕ → ℕ → ConfigError
  kind_critical_above_warn : EntryKind → ℕ → ℕ → ConfigError
  unknown_log_level unknown_log_format : Text → ConfigError
  short_token : ℕ → ConfigError

-- The libraries: a failure is the text of its error.
pub record Parsers : Type 0 where
  pub parse_duration : Text → Result Text ℤ
  -- ParseUint to base 10 and 32 bits, ParseInt to base 10 and 64 bits, ParseBool
  pub parse_uint32 : Text → Result Text ℕ
  pub parse_int64 : Text → Result Text ℤ
  pub parse_boolean : Text → Result Text Bool

-- how a file is read, and why not
pub data ReadFailure : Type 0 where
  not_exist : Text → ReadFailure
  cannot_read : Text → ReadFailure

-- what a decoder reports: the end of the input, or another error
pub data DecodeFailure : Type 0 where
  end_of_file : DecodeFailure
  malformed : Text → DecodeFailure

-- what the process sees: the environment, the files and the decoders, which leave what they have
-- filled in the file's settings
pub record Surroundings : Type 0 where
  pub parsers : Parsers
  pub test_network : Text
  pub getenv : Text → Option Text
  pub exists : Text → Bool
  pub read : Text → Result ReadFailure Text
  pub decode_json : Text → FileConfig × Option DecodeFailure
  pub decode_yaml : Text → FileConfig × Option DecodeFailure
  pub is_public_key : Text → Bool

-- lookup: an empty variable counts as unset
unfoldable pub lookup_env : (Text → Option Text) → Text → Option Text
lookup_env getenv key = elim (getenv key) [
  | none ↦ none
  | some v ↦ if is_empty v then none else some v
]

-- setString, and the assignments of `*src` where `src` is not nil
unfoldable pub set_value : {A : Type 0} → A → Option A → A
set_value old none = old
set_value old (some v) = v

-- a value that is parsed where its text is given
unfoldable pub set_parsed :
    {A : Type 0}
    → (Text → Result Text A)
    → (Text → ConfigError)
    → A
    → Option Text
    → Result ConfigError A
set_parsed parse wrap old none = Result.ok old
set_parsed parse wrap old (some v) = elim (parse v) [
  | Result.ok n ↦ Result.ok n
  | Result.err e ↦ Result.err (wrap e)
]
