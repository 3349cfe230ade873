-- ===== src/Config/Sources.antt =====
-- The sources of a loaded configuration, and what they should make of it together.
pub mod Together
use mathlib.Core.Path.{subst}
use soroprobe.Prelude.{
  ◌≡◌, ◌∙◌, refl, sym, Bool, Option, none, some, List, [], if◌then◌else◌, Text, text, is_empty,
  Result, ok, err,
}
use soroprobe.Health.{ThresholdOverrides, instance_entry, code_entry, data_entry}
use soroprobe.Config.{
  Config, default_config, no_overrides, FileValues, FileConfig, file_config, ConfigError, Parsers,
  Surroundings, lookup_env,
}
use soroprobe.Config.Apply.{warn_side, crit_side}
use soroprobe.Config.Load.{find_profile, unmarshal_config_file}
use soroprobe.Config.Layers.{Set, Parsed, FileSet}
use soroprobe.Config.Overrides.{override_value, OverrideSet}
use soroprobe.Config.Environment.{SetOrigins, EnvSet}

-- What the higher of two sources gives, and else the lower.
abbrev pub or_else : {A : Type 0} → Option A → Option A → Option A
or_else none low = low
or_else (some v) low = some v

-- the settings of a profile over those of its file
abbrev pub over : FileValues → FileValues → FileValues
over p f = record {
  rpc_url = or_else p.rpc_url f.rpc_url;
  network_passphrase = or_else p.network_passphrase f.network_passphrase;
  source_account = or_else p.source_account f.source_account;
  http_addr = or_else p.http_addr f.http_addr;
  log_level = or_else p.log_level f.log_level;
  log_format = or_else p.log_format f.log_format;
  timeout = or_else p.timeout f.timeout;
  warn_ledgers = or_else p.warn_ledgers f.warn_ledgers;
  critical_ledgers = or_else p.critical_ledgers f.critical_ledgers;
  threshold_overrides = or_else p.threshold_overrides f.threshold_overrides;
  sorovault_url = or_else p.sorovault_url f.sorovault_url;
  base_fee = or_else p.base_fee f.base_fee;
  inspect_cache_ttl = or_else p.inspect_cache_ttl f.inspect_cache_ttl;
  http_rate_limit_per_minute = or_else p.http_rate_limit_per_minute f.http_rate_limit_per_minute;
  http_rate_limit_burst = or_else p.http_rate_limit_burst f.http_rate_limit_burst;
  http_trust_forwarded_for = or_else p.http_trust_forwarded_for f.http_trust_forwarded_for;
  http_tls_cert = or_else p.http_tls_cert f.http_tls_cert;
  http_tls_key = or_else p.http_tls_key f.http_tls_key;
  api_token = or_else p.api_token f.api_token;
}

abbrev pub nothing_set : FileValues
nothing_set = record {
  rpc_url = none;
  network_passphrase = none;
  source_account = none;
  http_addr = none;
  log_level = none;
  log_format = none;
  timeout = none;
  warn_ledgers = none;
  critical_ledgers = none;
  threshold_overrides = none;
  sorovault_url = none;
  base_fee = none;
  inspect_cache_ttl = none;
  http_rate_limit_per_minute = none;
  http_rate_limit_burst = none;
  http_trust_forwarded_for = none;
  http_tls_cert = none;
  http_tls_key = none;
  api_token = none;
}

-- Independently of the code that applies them: the settings that the file and the profile give.
abbrev pub with_profile : Text → FileConfig → Option FileValues
with_profile name (file_config v ps) =
    if is_empty name
    then some v
    else elim (find_profile name ps) [ none ↦ none | some p ↦ some (over p v) ]

abbrev pub decoded_settings : Text → Result ConfigError FileConfig → Option FileValues
decoded_settings name (ok f) = with_profile name f
decoded_settings name (err e) = none

abbrev pub file_settings : Surroundings → Text → Option (Text × Bool) → Option FileValues
file_settings u name none = some nothing_set
file_settings u name (some (path, explicit)) = elim (u.read path) [
  | ok raw ↦ decoded_settings name (unmarshal_config_file u path raw)
  | err e ↦ some nothing_set
]

-- A setting that the environment gives as a text, and the file as a value.
abbrev pub ParsedOver :
    {A : Type 0} → (Text → Result Text A) → Option Text → Option A → A → A → Type 0
ParsedOver parse none given old new = Set given old new
ParsedOver parse (some t) given old new = parse t ≡ ok new

abbrev pub overrides_or : Option ThresholdOverrides → ThresholdOverrides
overrides_or none = no_overrides
overrides_or (some os) = os

-- Every setting is what the environment says, else what the file's settings say, else the default.
pub record Loaded (u : Surroundings) (v : FileValues) (c : Config) : Type 0 where
  pub rpc_url :
      Set
        (or_else (lookup_env u.getenv (text "RPC_URL")) v.rpc_url)
        (default_config u.test_network).rpc_url
        c.rpc_url
  pub network_passphrase :
      Set
        (or_else (lookup_env u.getenv (text "NETWORK_PASSPHRASE")) v.network_passphrase)
        (default_config u.test_network).network_passphrase
        c.network_passphrase
  pub source_account :
      Set
        (or_else (lookup_env u.getenv (text "SOURCE_ACCOUNT")) v.source_account)
        (default_config u.test_network).source_account
        c.source_account
  pub http_addr :
      Set
        (or_else (lookup_env u.getenv (text "HTTP_ADDR")) v.http_addr)
        (default_config u.test_network).http_addr
        c.http_addr
  pub http_tls_cert :
      Set
        (or_else (lookup_env u.getenv (text "HTTP_TLS_CERT")) v.http_tls_cert)
        (default_config u.test_network).http_tls_cert
        c.http_tls_cert
  pub http_tls_key :
      Set
        (or_else (lookup_env u.getenv (text "HTTP_TLS_KEY")) v.http_tls_key)
        (default_config u.test_network).http_tls_key
        c.http_tls_key
  pub log_level :
      Set
        (or_else (lookup_env u.getenv (text "LOG_LEVEL")) v.log_level)
        (default_config u.test_network).log_level
        c.log_level
  pub log_format :
      Set
        (or_else (lookup_env u.getenv (text "LOG_FORMAT")) v.log_format)
        (default_config u.test_network).log_format
        c.log_format
  pub sorovault_url :
      Set
        (or_else (lookup_env u.getenv (text "SOROVAULT_URL")) v.sorovault_url)
        (default_config u.test_network).sorovault_url
        c.sorovault_url
  pub http_rate_limit_per_minute :
      ParsedOver u.parsers.parse_uint32
        (lookup_env u.getenv (text "HTTP_RATE_LIMIT_PER_MINUTE"))
        v.http_rate_limit_per_minute
        (default_config u.test_network).http_rate_limit_per_minute
        c.http_rate_limit_per_minute
  pub http_rate_limit_burst :
      ParsedOver u.parsers.parse_uint32
        (lookup_env u.getenv (text "HTTP_RATE_LIMIT_BURST"))
        v.http_rate_limit_burst
        (default_config u.test_network).http_rate_limit_burst
        c.http_rate_limit_burst
  pub http_trust_forwarded_for :
      ParsedOver u.parsers.parse_boolean
        (lookup_env u.getenv (text "HTTP_TRUST_FORWARDED_FOR"))
        v.http_trust_forwarded_for
        (default_config u.test_network).http_trust_forwarded_for
        c.http_trust_forwarded_for
  pub warn_ledgers :
      ParsedOver u.parsers.parse_uint32
        (lookup_env u.getenv (text "WARN_LEDGERS"))
        v.warn_ledgers
        (default_config u.test_network).warn_ledgers
        c.warn_ledgers
  pub critical_ledgers :
      ParsedOver u.parsers.parse_uint32
        (lookup_env u.getenv (text "CRITICAL_LEDGERS"))
        v.critical_ledgers
        (default_config u.test_network).critical_ledgers
        c.critical_ledgers
  pub base_fee :
      ParsedOver u.parsers.parse_int64
        (lookup_env u.getenv (text "BASE_FEE"))
        v.base_fee
        (default_config u.test_network).base_fee
        c.base_fee
  pub timeout :
      Parsed u.parsers.parse_duration
        (or_else (lookup_env u.getenv (text "RPC_TIMEOUT")) v.timeout)
        (default_config u.test_network).timeout
        c.timeout
  pub inspect_cache_ttl :
      Parsed u.parsers.parse_duration
        (or_else (lookup_env u.getenv (text "INSPECT_CACHE_TTL")) v.inspect_cache_ttl)
        (default_config u.test_network).inspect_cache_ttl
        c.inspect_cache_ttl
  pub cors_origins : SetOrigins (lookup_env u.getenv (text "CORS_ORIGINS")) [] c.cors_origins
  pub api_token : Set (lookup_env u.getenv (text "API_TOKEN")) [] c.api_token
  pub instance_warn :
      OverrideSet u.parsers.parse_uint32
        (lookup_env u.getenv (text "INSTANCE_WARN_LEDGERS"))
        (override_value instance_entry warn_side (overrides_or v.threshold_overrides))
        (override_value instance_entry warn_side c.threshold_overrides)
  pub instance_crit :
      OverrideSet u.parsers.parse_uint32
        (lookup_env u.getenv (text "INSTANCE_CRITICAL_LEDGERS"))
        (override_value instance_entry crit_side (overrides_or v.threshold_overrides))
        (override_value instance_entry crit_side c.threshold_overrides)
  pub code_warn :
      OverrideSet u.parsers.parse_uint32
        (lookup_env u.getenv (text "CODE_WARN_LEDGERS"))
        (override_value code_entry warn_side (overrides_or v.threshold_overrides))
        (override_value code_entry warn_side c.threshold_overrides)
  pub code_crit :
      OverrideSet u.parsers.parse_uint32
        (lookup_env u.getenv (text "CODE_CRITICAL_LEDGERS"))
        (override_value code_entry crit_side (overrides_or v.threshold_overrides))
        (override_value code_entry crit_side c.threshold_overrides)
  pub data_warn :
      OverrideSet u.parsers.parse_uint32
        (lookup_env u.getenv (text "DATA_WARN_LEDGERS"))
        (override_value data_entry warn_side (overrides_or v.threshold_overrides))
        (override_value data_entry warn_side c.threshold_overrides)
  pub data_crit :
      OverrideSet u.parsers.parse_uint32
        (lookup_env u.getenv (text "DATA_CRITICAL_LEDGERS"))
        (override_value data_entry crit_side (overrides_or v.threshold_overrides))
        (override_value data_entry crit_side c.threshold_overrides)
