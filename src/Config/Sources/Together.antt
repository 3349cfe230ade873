-- ===== src/Config/Sources/Together.antt =====
-- One source laid over another.
use mathlib.Core.Path.{subst}
use soroprobe.Prelude.{◌≡◌, ◌∙◌, refl, sym, Option, none, some, List, Text, text, Result, ok}
use soroprobe.Health.{ThresholdOverrides, instance_entry, code_entry, data_entry}
use soroprobe.Config.{
  Config, default_config, no_overrides, FileValues, Parsers, Surroundings, lookup_env,
}
use soroprobe.Config.Apply.{warn_side, crit_side}
use soroprobe.Config.Layers.{Set, Parsed, FileSet}
use soroprobe.Config.Overrides.{override_value, OverrideSet}
use soroprobe.Config.Environment.{SetOrigins, EnvSet}
use soroprobe.Config.Sources.{or_else, over, nothing_set, ParsedOver, overrides_or, Loaded}

set_over :
    {A : Type 0} (high low : Option A) (old mid new : A)
    → Set low old mid
    → Set high mid new
    → Set (or_else high low) old new
set_over none none old mid new h k = k ∙ h
set_over none (some v) old mid new h k = k ∙ h
set_over (some v) low old mid new h k = k

parsed_over :
    {A : Type 0} (parse : Text → Result Text A) (high low : Option Text) (old mid new : A)
    → Parsed parse low old mid
    → Parsed parse high mid new
    → Parsed parse (or_else high low) old new
parsed_over parse none none old mid new h k = k ∙ h
parsed_over parse none (some v) old mid new h k = subst (λ z. parse v ≡ ok z) (sym k) h
parsed_over parse (some v) low old mid new h k = k

ParsedOver-value :
    {A : Type 0} (parse : Text → Result Text A) (high : Option Text) (low : Option A)
    (old mid new : A)
    → Set low old mid
    → Parsed parse high mid new
    → ParsedOver parse high low old new
ParsedOver-value parse none none old mid new h k = k ∙ h
ParsedOver-value parse none (some v) old mid new h k = k ∙ h
ParsedOver-value parse (some v) low old mid new h k = k

origins_over :
    (high : Option Text) (old mid new : List Text)
    → mid ≡ old
    → SetOrigins high mid new
    → SetOrigins high old new
origins_over none old mid new h k = k ∙ h
origins_over (some v) old mid new h k = k

set_after :
    {A : Type 0} (high : Option A) (old mid new : A)
    → mid ≡ old
    → Set high mid new
    → Set high old new
set_after none old mid new h k = k ∙ h
set_after (some v) old mid new h k = k

overrides_given :
    (o : Option ThresholdOverrides) {new : ThresholdOverrides}
    → Set o no_overrides new
    → new ≡ overrides_or o
overrides_given none h = h
overrides_given (some os) h = h

pub FileSet-over :
    (ps : Parsers) (p f : FileValues) {old mid new : Config}
    → FileSet ps f old mid
    → FileSet ps p mid new
    → FileSet ps (over p f) old new
FileSet-over ps p f {old} {mid} {new} h k = record {
  rpc_url = set_over p.rpc_url f.rpc_url old.rpc_url mid.rpc_url new.rpc_url h.rpc_url k.rpc_url;
  network_passphrase =
      set_over p.network_passphrase f.network_passphrase old.network_passphrase
        mid.network_passphrase new.network_passphrase h.network_passphrase k.network_passphrase;
  source_account =
      set_over p.source_account f.source_account old.source_account mid.source_account
        new.source_account h.source_account k.source_account;
  http_addr =
      set_over p.http_addr f.http_addr old.http_addr mid.http_addr new.http_addr h.http_addr
        k.http_addr;
  http_tls_cert =
      set_over p.http_tls_cert f.http_tls_cert old.http_tls_cert mid.http_tls_cert new.http_tls_cert
        h.http_tls_cert k.http_tls_cert;
  http_tls_key =
      set_over p.http_tls_key f.http_tls_key old.http_tls_key mid.http_tls_key new.http_tls_key
        h.http_tls_key k.http_tls_key;
  log_level =
      set_over p.log_level f.log_level old.log_level mid.log_level new.log_level h.log_level
        k.log_level;
  log_format =
      set_over p.log_format f.log_format old.log_format mid.log_format new.log_format h.log_format
        k.log_format;
  sorovault_url =
      set_over p.sorovault_url f.sorovault_url old.sorovault_url mid.sorovault_url new.sorovault_url
        h.sorovault_url k.sorovault_url;
  http_rate_limit_per_minute =
      set_over p.http_rate_limit_per_minute f.http_rate_limit_per_minute
        old.http_rate_limit_per_minute mid.http_rate_limit_per_minute new.http_rate_limit_per_minute
        h.http_rate_limit_per_minute k.http_rate_limit_per_minute;
  http_rate_limit_burst =
      set_over p.http_rate_limit_burst f.http_rate_limit_burst old.http_rate_limit_burst
        mid.http_rate_limit_burst new.http_rate_limit_burst h.http_rate_limit_burst
        k.http_rate_limit_burst;
  http_trust_forwarded_for =
      set_over p.http_trust_forwarded_for f.http_trust_forwarded_for old.http_trust_forwarded_for
        mid.http_trust_forwarded_for new.http_trust_forwarded_for h.http_trust_forwarded_for
        k.http_trust_forwarded_for;
  warn_ledgers =
      set_over p.warn_ledgers f.warn_ledgers old.warn_ledgers mid.warn_ledgers new.warn_ledgers
        h.warn_ledgers k.warn_ledgers;
  critical_ledgers =
      set_over p.critical_ledgers f.critical_ledgers old.critical_ledgers mid.critical_ledgers
        new.critical_ledgers h.critical_ledgers k.critical_ledgers;
  base_fee =
      set_over p.base_fee f.base_fee old.base_fee mid.base_fee new.base_fee h.base_fee k.base_fee;
  threshold_overrides =
      set_over p.threshold_overrides f.threshold_overrides old.threshold_overrides
        mid.threshold_overrides new.threshold_overrides h.threshold_overrides k.threshold_overrides;
  timeout =
      parsed_over _ p.timeout f.timeout old.timeout mid.timeout new.timeout h.timeout k.timeout;
  inspect_cache_ttl =
      parsed_over _ p.inspect_cache_ttl f.inspect_cache_ttl old.inspect_cache_ttl
        mid.inspect_cache_ttl new.inspect_cache_ttl h.inspect_cache_ttl k.inspect_cache_ttl;
  cors_origins = k.cors_origins ∙ h.cors_origins;
  api_token = k.api_token ∙ h.api_token;
}

pub FileSet-nothing : (ps : Parsers) (c : Config) → FileSet ps nothing_set c c
FileSet-nothing ps c = record {
  rpc_url = refl;
  network_passphrase = refl;
  source_account = refl;
  http_addr = refl;
  http_tls_cert = refl;
  http_tls_key = refl;
  log_level = refl;
  log_format = refl;
  sorovault_url = refl;
  http_rate_limit_per_minute = refl;
  http_rate_limit_burst = refl;
  http_trust_forwarded_for = refl;
  warn_ledgers = refl;
  critical_ledgers = refl;
  base_fee = refl;
  threshold_overrides = refl;
  timeout = refl;
  inspect_cache_ttl = refl;
  cors_origins = refl;
  api_token = refl;
}

pub EnvSet-Loaded :
    (u : Surroundings) (v : FileValues) {mid new : Config}
    → FileSet u.parsers v (default_config u.test_network) mid
    → EnvSet u.parsers u.getenv mid new
    → Loaded u v new
unfolding default_config
EnvSet-Loaded u v {mid} {new} h k = record {
  rpc_url =
      set_over (lookup_env u.getenv (text "RPC_URL")) v.rpc_url
        (default_config u.test_network).rpc_url mid.rpc_url new.rpc_url h.rpc_url k.rpc_url;
  network_passphrase =
      set_over (lookup_env u.getenv (text "NETWORK_PASSPHRASE")) v.network_passphrase
        (default_config u.test_network).network_passphrase mid.network_passphrase
        new.network_passphrase h.network_passphrase k.network_passphrase;
  source_account =
      set_over (lookup_env u.getenv (text "SOURCE_ACCOUNT")) v.source_account
        (default_config u.test_network).source_account mid.source_account new.source_account
        h.source_account k.source_account;
  http_addr =
      set_over (lookup_env u.getenv (text "HTTP_ADDR")) v.http_addr
        (default_config u.test_network).http_addr mid.http_addr new.http_addr h.http_addr
        k.http_addr;
  http_tls_cert =
      set_over (lookup_env u.getenv (text "HTTP_TLS_CERT")) v.http_tls_cert
        (default_config u.test_network).http_tls_cert mid.http_tls_cert new.http_tls_cert
        h.http_tls_cert k.http_tls_cert;
  http_tls_key =
      set_over (lookup_env u.getenv (text "HTTP_TLS_KEY")) v.http_tls_key
        (default_config u.test_network).http_tls_key mid.http_tls_key new.http_tls_key
        h.http_tls_key k.http_tls_key;
  log_level =
      set_over (lookup_env u.getenv (text "LOG_LEVEL")) v.log_level
        (default_config u.test_network).log_level mid.log_level new.log_level h.log_level
        k.log_level;
  log_format =
      set_over (lookup_env u.getenv (text "LOG_FORMAT")) v.log_format
        (default_config u.test_network).log_format mid.log_format new.log_format h.log_format
        k.log_format;
  sorovault_url =
      set_over (lookup_env u.getenv (text "SOROVAULT_URL")) v.sorovault_url
        (default_config u.test_network).sorovault_url mid.sorovault_url new.sorovault_url
        h.sorovault_url k.sorovault_url;
  http_rate_limit_per_minute =
      ParsedOver-value _ (lookup_env u.getenv (text "HTTP_RATE_LIMIT_PER_MINUTE"))
        v.http_rate_limit_per_minute (default_config u.test_network).http_rate_limit_per_minute
        mid.http_rate_limit_per_minute new.http_rate_limit_per_minute h.http_rate_limit_per_minute
        k.http_rate_limit_per_minute;
  http_rate_limit_burst =
      ParsedOver-value _ (lookup_env u.getenv (text "HTTP_RATE_LIMIT_BURST"))
        v.http_rate_limit_burst (default_config u.test_network).http_rate_limit_burst
        mid.http_rate_limit_burst new.http_rate_limit_burst h.http_rate_limit_burst
        k.http_rate_limit_burst;
  http_trust_forwarded_for =
      ParsedOver-value _ (lookup_env u.getenv (text "HTTP_TRUST_FORWARDED_FOR"))
        v.http_trust_forwarded_for (default_config u.test_network).http_trust_forwarded_for
        mid.http_trust_forwarded_for new.http_trust_forwarded_for h.http_trust_forwarded_for
        k.http_trust_forwarded_for;
  warn_ledgers =
      ParsedOver-value _ (lookup_env u.getenv (text "WARN_LEDGERS")) v.warn_ledgers
        (default_config u.test_network).warn_ledgers mid.warn_ledgers new.warn_ledgers
        h.warn_ledgers k.warn_ledgers;
  critical_ledgers =
      ParsedOver-value _ (lookup_env u.getenv (text "CRITICAL_LEDGERS")) v.critical_ledgers
        (default_config u.test_network).critical_ledgers mid.critical_ledgers new.critical_ledgers
        h.critical_ledgers k.critical_ledgers;
  base_fee =
      ParsedOver-value _ (lookup_env u.getenv (text "BASE_FEE")) v.base_fee
        (default_config u.test_network).base_fee mid.base_fee new.base_fee h.base_fee k.base_fee;
  timeout =
      parsed_over _ (lookup_env u.getenv (text "RPC_TIMEOUT")) v.timeout
        (default_config u.test_network).timeout mid.timeout new.timeout h.timeout k.timeout;
  inspect_cache_ttl =
      parsed_over _ (lookup_env u.getenv (text "INSPECT_CACHE_TTL")) v.inspect_cache_ttl
        (default_config u.test_network).inspect_cache_ttl mid.inspect_cache_ttl
        new.inspect_cache_ttl h.inspect_cache_ttl k.inspect_cache_ttl;
  cors_origins =
      origins_over (lookup_env u.getenv (text "CORS_ORIGINS"))
        (default_config u.test_network).cors_origins mid.cors_origins new.cors_origins
        h.cors_origins k.cors_origins;
  api_token =
      set_after (lookup_env u.getenv (text "API_TOKEN")) (default_config u.test_network).api_token
        mid.api_token new.api_token h.api_token k.api_token;
  instance_warn =
      subst
        (λ os.
          OverrideSet u.parsers.parse_uint32 (lookup_env u.getenv (text "INSTANCE_WARN_LEDGERS"))
            (override_value instance_entry warn_side os)
            (override_value instance_entry warn_side new.threshold_overrides))
        (overrides_given v.threshold_overrides h.threshold_overrides) k.instance_warn;
  instance_crit =
      subst
        (λ os.
          OverrideSet u.parsers.parse_uint32
            (lookup_env u.getenv (text "INSTANCE_CRITICAL_LEDGERS"))
            (override_value instance_entry crit_side os)
            (override_value instance_entry crit_side new.threshold_overrides))
        (overrides_given v.threshold_overrides h.threshold_overrides) k.instance_crit;
  code_warn =
      subst
        (λ os.
          OverrideSet u.parsers.parse_uint32 (lookup_env u.getenv (text "CODE_WARN_LEDGERS"))
            (override_value code_entry warn_side os)
            (override_value code_entry warn_side new.threshold_overrides))
        (overrides_given v.threshold_overrides h.threshold_overrides) k.code_warn;
  code_crit =
      subst
        (λ os.
          OverrideSet u.parsers.parse_uint32 (lookup_env u.getenv (text "CODE_CRITICAL_LEDGERS"))
            (override_value code_entry crit_side os)
            (override_value code_entry crit_side new.threshold_overrides))
        (overrides_given v.threshold_overrides h.threshold_overrides) k.code_crit;
  data_warn =
      subst
        (λ os.
          OverrideSet u.parsers.parse_uint32 (lookup_env u.getenv (text "DATA_WARN_LEDGERS"))
            (override_value data_entry warn_side os)
            (override_value data_entry warn_side new.threshold_overrides))
        (overrides_given v.threshold_overrides h.threshold_overrides) k.data_warn;
  data_crit =
      subst
        (λ os.
          OverrideSet u.parsers.parse_uint32 (lookup_env u.getenv (text "DATA_CRITICAL_LEDGERS"))
            (override_value data_entry crit_side os)
            (override_value data_entry crit_side new.threshold_overrides))
        (overrides_given v.threshold_overrides h.threshold_overrides) k.data_crit;
}
