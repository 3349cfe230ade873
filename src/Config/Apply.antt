-- ===== src/Config/Apply.antt =====
-- internal/config/config.go: the settings that a file, a profile and the environment override.
use soroprobe.Prelude.{
  ℕ, Option, none, some, List, [], ◌∷◌, if◌then◌else◌, Text, text, is_empty, ◌==◌, Result, ok, err,
}
use soroprobe.Prelude.Outcome.{◌>>=◌}
use soroprobe.Prelude.Strings.{trim_space}
use soroprobe.Health.{
  ThresholdOverride, ThresholdOverrides, EntryKind, instance_entry, code_entry, data_entry,
}
use soroprobe.Config.{
  Config, FileValues, ConfigError, parse_env, parse_file_value, Parsers, lookup_env, set_value,
  set_parsed,
}

-- the assignments of applyValues that cannot fail
unfoldable pub apply_plain : Config → FileValues → Config
apply_plain c f = record c {
  rpc_url = set_value c.rpc_url f.rpc_url;
  network_passphrase = set_value c.network_passphrase f.network_passphrase;
  source_account = set_value c.source_account f.source_account;
  http_addr = set_value c.http_addr f.http_addr;
  http_rate_limit_per_minute = set_value c.http_rate_limit_per_minute f.http_rate_limit_per_minute;
  http_rate_limit_burst = set_value c.http_rate_limit_burst f.http_rate_limit_burst;
  http_trust_forwarded_for = set_value c.http_trust_forwarded_for f.http_trust_forwarded_for;
  http_tls_cert = set_value c.http_tls_cert f.http_tls_cert;
  http_tls_key = set_value c.http_tls_key f.http_tls_key;
  log_level = set_value c.log_level f.log_level;
  log_format = set_value c.log_format f.log_format;
  sorovault_url = set_value c.sorovault_url f.sorovault_url;
  warn_ledgers = set_value c.warn_ledgers f.warn_ledgers;
  critical_ledgers = set_value c.critical_ledgers f.critical_ledgers;
  threshold_overrides = set_value c.threshold_overrides f.threshold_overrides;
  base_fee = set_value c.base_fee f.base_fee;
}

-- strings.Split at a byte
unfoldable pub prepend : ℕ → List Text → List Text
prepend c [] = (c ∷ []) ∷ []
prepend c (w ∷ ws) = (c ∷ w) ∷ ws

unfoldable pub split : ℕ → Text → List Text
split b [] = [] ∷ []
split b (c ∷ s) = let rest = split b s in if c == b then [] ∷ rest else prepend c rest

-- the loop over the origins
unfoldable pub origins : List Text → List Text
origins [] = []
origins (w ∷ ws) =
    let rest = origins ws in if is_empty (trim_space w) then rest else trim_space w ∷ rest

unfoldable pub set_origins : List Text → Option Text → List Text
set_origins old none = old
set_origins old (some v) = origins (split b',' v)

-- thresholdOverride: the override of a kind, made if there is none
unfoldable pub made : Option ThresholdOverride → ThresholdOverride
made none = record { warn = none; crit = none }
made (some o) = o

pub data Side : Type 0 where
  warn_side crit_side : Side

unfoldable pub set_side : Side → ℕ → ThresholdOverride → ThresholdOverride
set_side warn_side n o = record o { warn = some n }
set_side crit_side n o = record o { crit = some n }

-- field.set of thresholdOverride
unfoldable pub set_override : EntryKind → Side → ℕ → ThresholdOverrides → ThresholdOverrides
unfolding made set_side
set_override instance_entry side n os = record os {
  for_instance = some (set_side side n (made os.for_instance));
}
set_override code_entry side n os = record os {
  for_code = some (set_side side n (made os.for_code));
}
set_override _ side n os = record os { for_data = some (set_side side n (made os.for_data)) }

pub record OverrideField : Type 0 where
  pub kind : EntryKind
  pub side : Side
  pub key : Text

abbrev pub field : EntryKind → Side → Text → OverrideField
field kind side key = record { kind = kind; side = side; key = key }

abbrev pub override_fields : List OverrideField
override_fields =
    field instance_entry warn_side (text "INSTANCE_WARN_LEDGERS")
    ∷ field instance_entry crit_side (text "INSTANCE_CRITICAL_LEDGERS")
    ∷ field code_entry warn_side (text "CODE_WARN_LEDGERS")
    ∷ field code_entry crit_side (text "CODE_CRITICAL_LEDGERS")
    ∷ field data_entry warn_side (text "DATA_WARN_LEDGERS")
    ∷ field data_entry crit_side (text "DATA_CRITICAL_LEDGERS")
    ∷ []

module _ (ps : Parsers) where
  -- applyValues
  unfoldable pub apply_values : Config → Text → FileValues → Result ConfigError Config
  apply_values c path f =
      let c1 = apply_plain c f in
      set_parsed ps.parse_duration (parse_file_value path (text "timeout")) c1.timeout f.timeout
      >>= λ timeout.
          set_parsed ps.parse_duration (parse_file_value path (text "inspect_cache_ttl"))
            c1.inspect_cache_ttl f.inspect_cache_ttl
          >>= λ ttl. ok (record c1 { timeout = timeout; inspect_cache_ttl = ttl })

  module _ (getenv : Text → Option Text) where
    -- one round of the loop of applyThresholdOverrideEnv
    unfoldable pub override_step :
        OverrideField → ThresholdOverrides → Result ConfigError ThresholdOverrides
    override_step f os = elim (lookup_env getenv f.key) [
      | none ↦ ok os
      | some v ↦ elim (ps.parse_uint32 v) [
        | ok n ↦ ok (set_override f.kind f.side n os)
        | err e ↦ err (parse_env f.key e)
      ]
    ]

    unfoldable pub apply_override_fields :
        List OverrideField → ThresholdOverrides → Result ConfigError ThresholdOverrides
    apply_override_fields [] os = ok os
    apply_override_fields (f ∷ fs) os = override_step f os >>= λ os'. apply_override_fields fs os'

    unfoldable pub apply_threshold_override_env :
        ThresholdOverrides → Result ConfigError ThresholdOverrides
    unfolding apply_override_fields
    apply_threshold_override_env os = apply_override_fields override_fields os

    -- the first assignments of applyEnv, up to the first that may fail
    unfoldable pub env_addresses : Config → Config
    env_addresses c = record c {
      rpc_url = set_value c.rpc_url (lookup_env getenv (text "RPC_URL"));
      network_passphrase =
          set_value c.network_passphrase (lookup_env getenv (text "NETWORK_PASSPHRASE"));
      source_account = set_value c.source_account (lookup_env getenv (text "SOURCE_ACCOUNT"));
      http_addr = set_value c.http_addr (lookup_env getenv (text "HTTP_ADDR"));
    }

    -- the assignments between HTTP_TRUST_FORWARDED_FOR and RPC_TIMEOUT
    unfoldable pub env_texts : Config → Config
    env_texts c = record c {
      http_tls_cert = set_value c.http_tls_cert (lookup_env getenv (text "HTTP_TLS_CERT"));
      http_tls_key = set_value c.http_tls_key (lookup_env getenv (text "HTTP_TLS_KEY"));
      cors_origins = set_origins c.cors_origins (lookup_env getenv (text "CORS_ORIGINS"));
      log_level = set_value c.log_level (lookup_env getenv (text "LOG_LEVEL"));
      log_format = set_value c.log_format (lookup_env getenv (text "LOG_FORMAT"));
      sorovault_url = set_value c.sorovault_url (lookup_env getenv (text "SOROVAULT_URL"));
      api_token = set_value c.api_token (lookup_env getenv (text "API_TOKEN"));
    }

    -- setUint32FromEnv, setInt64FromEnv, and the blocks of applyEnv of the same form
    unfoldable pub from_env :
        {A : Type 0} → (Text → Result Text A) → Text → A → Result ConfigError A
    from_env parse key old = set_parsed parse (parse_env key) old (lookup_env getenv key)

    unfoldable pub env_limits : Config → Result ConfigError Config
    env_limits c =
        from_env ps.parse_uint32 (text "HTTP_RATE_LIMIT_PER_MINUTE") c.http_rate_limit_per_minute
        >>= λ rate.
            from_env ps.parse_uint32 (text "HTTP_RATE_LIMIT_BURST") c.http_rate_limit_burst
            >>= λ burst.
                from_env ps.parse_boolean (text "HTTP_TRUST_FORWARDED_FOR")
                  c.http_trust_forwarded_for
                >>= λ trusted. ok (record c {
                  http_rate_limit_per_minute = rate;
                  http_rate_limit_burst = burst;
                  http_trust_forwarded_for = trusted;
                })

    unfoldable pub env_durations : Config → Result ConfigError Config
    env_durations c = from_env ps.parse_duration (text "RPC_TIMEOUT") c.timeout >>= λ timeout.
        from_env ps.parse_duration (text "INSPECT_CACHE_TTL") c.inspect_cache_ttl >>= λ ttl.
        ok (record c { timeout = timeout; inspect_cache_ttl = ttl })

    unfoldable pub env_thresholds : Config → Result ConfigError Config
    env_thresholds c = from_env ps.parse_uint32 (text "WARN_LEDGERS") c.warn_ledgers >>= λ warn.
        from_env ps.parse_uint32 (text "CRITICAL_LEDGERS") c.critical_ledgers >>= λ crit.
        from_env ps.parse_int64 (text "BASE_FEE") c.base_fee >>= λ fee.
        apply_threshold_override_env c.threshold_overrides >>= λ os. ok (record c {
          warn_ledgers = warn;
          critical_ledgers = crit;
          base_fee = fee;
          threshold_overrides = os;
        })

    -- applyEnv
    unfoldable pub apply_env : Config → Result ConfigError Config
    apply_env c = env_limits (env_addresses c) >>= λ c1.
        env_durations (env_texts c1) >>= λ c2. env_thresholds c2
