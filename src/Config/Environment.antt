-- ===== src/Config/Environment.antt =====
-- What the environment does to each setting.
use soroprobe.Prelude.{ℕ, ◌≡◌, refl, Bool, Option, none, some, List, Text, text, Result, bind-eq-ok}
use soroprobe.Prelude.Outcome.{◌>>=◌}
use mathlib.Core.Path.{subst}
use soroprobe.Prelude.Int.{ℤ}
use soroprobe.Health.{ThresholdOverrides, instance_entry, code_entry, data_entry}
use soroprobe.Config.{Config, Parsers, lookup_env}
use soroprobe.Config.Apply.{
  set_origins, origins, split, env_addresses, env_texts, from_env, env_limits, env_durations,
  env_thresholds, apply_env, warn_side, crit_side,
}
use soroprobe.Config.Overrides.{
  override_value, OverrideSet, Overridden, apply_threshold_override_env-Overridden,
}
use soroprobe.Config.Layers.{Set, Parsed, Gives, ok-inj, set_value_lem, set_parsed_lem}

abbrev pub SetOrigins : Option Text → List Text → List Text → Type 0
SetOrigins none old new = new ≡ old
SetOrigins (some v) old new = new ≡ origins (split b',' v)

set_origins_lem : (old : List Text) (o : Option Text) → SetOrigins o old (set_origins old o)
unfolding set_origins
set_origins_lem old none = refl
set_origins_lem old (some v) = refl

-- The environment, applied to a configuration.
pub record EnvSet (ps : Parsers) (getenv : Text → Option Text) (old new : Config) : Type 0 where
  pub rpc_url : Set (lookup_env getenv (text "RPC_URL")) old.rpc_url new.rpc_url
  pub network_passphrase :
      Set
        (lookup_env getenv (text "NETWORK_PASSPHRASE"))
        old.network_passphrase
        new.network_passphrase
  pub source_account :
      Set (lookup_env getenv (text "SOURCE_ACCOUNT")) old.source_account new.source_account
  pub http_addr : Set (lookup_env getenv (text "HTTP_ADDR")) old.http_addr new.http_addr
  pub http_tls_cert :
      Set (lookup_env getenv (text "HTTP_TLS_CERT")) old.http_tls_cert new.http_tls_cert
  pub http_tls_key : Set (lookup_env getenv (text "HTTP_TLS_KEY")) old.http_tls_key new.http_tls_key
  pub log_level : Set (lookup_env getenv (text "LOG_LEVEL")) old.log_level new.log_level
  pub log_format : Set (lookup_env getenv (text "LOG_FORMAT")) old.log_format new.log_format
  pub sorovault_url :
      Set (lookup_env getenv (text "SOROVAULT_URL")) old.sorovault_url new.sorovault_url
  pub http_rate_limit_per_minute :
      Parsed ps.parse_uint32
        (lookup_env getenv (text "HTTP_RATE_LIMIT_PER_MINUTE"))
        old.http_rate_limit_per_minute
        new.http_rate_limit_per_minute
  pub http_rate_limit_burst :
      Parsed ps.parse_uint32
        (lookup_env getenv (text "HTTP_RATE_LIMIT_BURST"))
        old.http_rate_limit_burst
        new.http_rate_limit_burst
  pub http_trust_forwarded_for :
      Parsed ps.parse_boolean
        (lookup_env getenv (text "HTTP_TRUST_FORWARDED_FOR"))
        old.http_trust_forwarded_for
        new.http_trust_forwarded_for
  pub warn_ledgers :
      Parsed ps.parse_uint32
        (lookup_env getenv (text "WARN_LEDGERS"))
        old.warn_ledgers
        new.warn_ledgers
  pub critical_ledgers :
      Parsed ps.parse_uint32
        (lookup_env getenv (text "CRITICAL_LEDGERS"))
        old.critical_ledgers
        new.critical_ledgers
  pub base_fee :
      Parsed ps.parse_int64 (lookup_env getenv (text "BASE_FEE")) old.base_fee new.base_fee
  pub timeout :
      Parsed ps.parse_duration (lookup_env getenv (text "RPC_TIMEOUT")) old.timeout new.timeout
  pub inspect_cache_ttl :
      Parsed ps.parse_duration
        (lookup_env getenv (text "INSPECT_CACHE_TTL"))
        old.inspect_cache_ttl
        new.inspect_cache_ttl
  pub cors_origins :
      SetOrigins (lookup_env getenv (text "CORS_ORIGINS")) old.cors_origins new.cors_origins
  pub api_token : Set (lookup_env getenv (text "API_TOKEN")) old.api_token new.api_token
  pub instance_warn :
      OverrideSet ps.parse_uint32
        (lookup_env getenv (text "INSTANCE_WARN_LEDGERS"))
        (override_value instance_entry warn_side old.threshold_overrides)
        (override_value instance_entry warn_side new.threshold_overrides)
  pub instance_crit :
      OverrideSet ps.parse_uint32
        (lookup_env getenv (text "INSTANCE_CRITICAL_LEDGERS"))
        (override_value instance_entry crit_side old.threshold_overrides)
        (override_value instance_entry crit_side new.threshold_overrides)
  pub code_warn :
      OverrideSet ps.parse_uint32
        (lookup_env getenv (text "CODE_WARN_LEDGERS"))
        (override_value code_entry warn_side old.threshold_overrides)
        (override_value code_entry warn_side new.threshold_overrides)
  pub code_crit :
      OverrideSet ps.parse_uint32
        (lookup_env getenv (text "CODE_CRITICAL_LEDGERS"))
        (override_value code_entry crit_side old.threshold_overrides)
        (override_value code_entry crit_side new.threshold_overrides)
  pub data_warn :
      OverrideSet ps.parse_uint32
        (lookup_env getenv (text "DATA_WARN_LEDGERS"))
        (override_value data_entry warn_side old.threshold_overrides)
        (override_value data_entry warn_side new.threshold_overrides)
  pub data_crit :
      OverrideSet ps.parse_uint32
        (lookup_env getenv (text "DATA_CRITICAL_LEDGERS"))
        (override_value data_entry crit_side old.threshold_overrides)
        (override_value data_entry crit_side new.threshold_overrides)

module _ (ps : Parsers) (getenv : Text → Option Text) where
  -- The parts of applyEnv: what holds of the configuration that they make holds of the one they
  -- return.
  abbrev From : {A : Type 0} → (Text → Result Text A) → Text → A → A → Type 0
  From parse key old new = Parsed parse (lookup_env getenv key) old new

  limits_cases :
      (c : Config) {c' : Config}
      → Gives (env_limits ps getenv c) c'
      → (P : Config → Type 0)
      → ((rate burst : ℕ) (trusted : Bool)
          → From ps.parse_uint32
              (text "HTTP_RATE_LIMIT_PER_MINUTE")
              c.http_rate_limit_per_minute
              rate
          → From ps.parse_uint32 (text "HTTP_RATE_LIMIT_BURST") c.http_rate_limit_burst burst
          → From ps.parse_boolean
              (text "HTTP_TRUST_FORWARDED_FOR")
              c.http_trust_forwarded_for
              trusted
          → P (record c {
            http_rate_limit_per_minute = rate;
            http_rate_limit_burst = burst;
            http_trust_forwarded_for = trusted;
          }))
      → P c'
  unfolding env_limits from_env
  limits_cases c h P k =
      let (rate, r, l1) = bind-eq-ok _ _ h in
      let (burst, b, l2) = bind-eq-ok _ _ l1 in
      let (trusted, t, l3) = bind-eq-ok _ _ l2 in
      subst P (ok-inj l3) (
        k rate burst trusted (set_parsed_lem _ _ _ _ r) (set_parsed_lem _ _ _ _ b)
          (set_parsed_lem _ _ _ _ t))

  durations_cases :
      (c : Config) {c' : Config}
      → Gives (env_durations ps getenv c) c'
      → (P : Config → Type 0)
      → ((timeout ttl : ℤ)
          → From ps.parse_duration (text "RPC_TIMEOUT") c.timeout timeout
          → From ps.parse_duration (text "INSPECT_CACHE_TTL") c.inspect_cache_ttl ttl
          → P (record c { timeout = timeout; inspect_cache_ttl = ttl }))
      → P c'
  unfolding env_durations from_env
  durations_cases c h P k =
      let (timeout, t, l1) = bind-eq-ok _ _ h in
      let (ttl, l, l2) = bind-eq-ok _ _ l1 in
      subst P (ok-inj l2) (k timeout ttl (set_parsed_lem _ _ _ _ t) (set_parsed_lem _ _ _ _ l))

  thresholds_cases :
      (c : Config) {c' : Config}
      → Gives (env_thresholds ps getenv c) c'
      → (P : Config → Type 0)
      → ((warn crit : ℕ) (fee : ℤ) (os : ThresholdOverrides)
          → From ps.parse_uint32 (text "WARN_LEDGERS") c.warn_ledgers warn
          → From ps.parse_uint32 (text "CRITICAL_LEDGERS") c.critical_ledgers crit
          → From ps.parse_int64 (text "BASE_FEE") c.base_fee fee
          → Overridden ps getenv c.threshold_overrides os
          → P (record c {
            warn_ledgers = warn;
            critical_ledgers = crit;
            base_fee = fee;
            threshold_overrides = os;
          }))
      → P c'
  unfolding env_thresholds from_env
  thresholds_cases c h P k =
      let (warn, w, l1) = bind-eq-ok _ _ h in
      let (crit, r, l2) = bind-eq-ok _ _ l1 in
      let (fee, f, l3) = bind-eq-ok _ _ l2 in
      let (os, o, l4) = bind-eq-ok _ _ l3 in
      subst P (ok-inj l4) (
        k warn crit fee os (set_parsed_lem _ _ _ _ w) (set_parsed_lem _ _ _ _ r)
          (set_parsed_lem _ _ _ _ f) (apply_threshold_override_env-Overridden ps getenv _ o))

  pub apply_env-EnvSet :
      (c : Config) {c' : Config} → Gives (apply_env ps getenv c) c' → EnvSet ps getenv c c'
  unfolding apply_env env_addresses env_texts
  apply_env-EnvSet c {c'} h =
      let (c1, limits, h1) = bind-eq-ok (env_limits ps getenv (env_addresses ps getenv c)) _ h in
      limits_cases (env_addresses ps getenv c) limits
        (λ c1.
          Gives (env_durations ps getenv (env_texts ps getenv c1) >>= env_thresholds ps getenv) c'
          → EnvSet ps getenv c c')
        (λ rate burst trusted r b tr h2.
          (let (c2, durations, thresholds) =
              bind-eq-ok (env_durations ps getenv _) (env_thresholds ps getenv) h2 in
            durations_cases _ durations
              (λ c2. Gives (env_thresholds ps getenv c2) c' → EnvSet ps getenv c c')
              (λ timeout ttl t l h3.
                thresholds_cases _ h3 (λ n. EnvSet ps getenv c n)
                  (λ warn crit fee os w cr fe o. record {
                    rpc_url = set_value_lem _ (lookup_env getenv (text "RPC_URL"));
                    network_passphrase =
                        set_value_lem _ (lookup_env getenv (text "NETWORK_PASSPHRASE"));
                    source_account = set_value_lem _ (lookup_env getenv (text "SOURCE_ACCOUNT"));
                    http_addr = set_value_lem _ (lookup_env getenv (text "HTTP_ADDR"));
                    http_tls_cert = set_value_lem _ (lookup_env getenv (text "HTTP_TLS_CERT"));
                    http_tls_key = set_value_lem _ (lookup_env getenv (text "HTTP_TLS_KEY"));
                    log_level = set_value_lem _ (lookup_env getenv (text "LOG_LEVEL"));
                    log_format = set_value_lem _ (lookup_env getenv (text "LOG_FORMAT"));
                    sorovault_url = set_value_lem _ (lookup_env getenv (text "SOROVAULT_URL"));
                    http_rate_limit_per_minute = r;
                    http_rate_limit_burst = b;
                    http_trust_forwarded_for = tr;
                    warn_ledgers = w;
                    critical_ledgers = cr;
                    base_fee = fe;
                    timeout = t;
                    inspect_cache_ttl = l;
                    cors_origins = set_origins_lem _ (lookup_env getenv (text "CORS_ORIGINS"));
                    api_token = set_value_lem _ (lookup_env getenv (text "API_TOKEN"));
                    instance_warn = o.instance_warn;
                    instance_crit = o.instance_crit;
                    code_warn = o.code_warn;
                    code_crit = o.code_crit;
                    data_warn = o.data_warn;
                    data_crit = o.data_crit;
                  }))
              thresholds))
        h1
