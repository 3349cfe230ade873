-- ===== src/Config/Layers.antt =====
-- What one source of settings, a file's values or the environment, does to each of them.
use soroprobe.Prelude.{◌≡◌, refl, sym, Option, none, some, Text, Result, ok, err, bind-eq-ok}
use mathlib.Core.Path.{subst}
use mathlib.Core.Path.{subst}
use mathlib.Core.Path.{subst}
use mathlib.Core.Path.{subst}
use mathlib.Core.Path.{subst}
use soroprobe.Config.{Config, FileValues, ConfigError, Parsers, set_value, set_parsed}
use soroprobe.Config.Apply.{apply_plain, apply_values}

-- A setting after a source: what the source gives, if it does, and else what it was.
abbrev pub Set : {A : Type 0} → Option A → A → A → Type 0
Set none old new = new ≡ old
Set (some v) old new = new ≡ v

-- The same where the source gives a text that is parsed.
abbrev pub Parsed : {A : Type 0} → (Text → Result Text A) → Option Text → A → A → Type 0
Parsed parse none old new = new ≡ old
Parsed parse (some v) old new = parse v ≡ ok new

pub set_value_lem : {A : Type 0} (old : A) (o : Option A) → Set o old (set_value old o)
unfolding set_value
set_value_lem old none = refl
set_value_lem old (some v) = refl

abbrev pub Gives : {A : Type 0} → Result ConfigError A → A → Type 0
Gives r a = r ≡ ok a

pub ok-inj : {A : Type 0} {a b : A} → Gives (ok a) b → a ≡ b
ok-inj h = cc

pub err-ne-ok : {A : Type 0} {e : ConfigError} {a : A} → Gives (err e) a → ⊥
err-ne-ok h = cc

parsed_by :
    {A : Type 0} (r : Result Text A) (wrap : Text → ConfigError) {new : A}
    → Gives (elim r [ ok n ↦ ok n | err e ↦ err (wrap e) ]) new
    → r ≡ ok new
parsed_by (ok n) wrap h = cc
parsed_by (err e) wrap h = absurd (err-ne-ok h)

pub set_parsed_lem :
    {A : Type 0} (parse : Text → Result Text A) (wrap : Text → ConfigError) (o : Option Text)
    (old : A) {new : A}
    → set_parsed parse wrap old o ≡ ok new
    → Parsed parse o old new
unfolding set_parsed
set_parsed_lem parse wrap none old h = sym (ok-inj h)
set_parsed_lem parse wrap (some v) old h = parsed_by (parse v) wrap h

-- The file's settings, applied to a configuration.
pub record FileSet (ps : Parsers) (f : FileValues) (old new : Config) : Type 0 where
  pub rpc_url : Set f.rpc_url old.rpc_url new.rpc_url
  pub network_passphrase : Set f.network_passphrase old.network_passphrase new.network_passphrase
  pub source_account : Set f.source_account old.source_account new.source_account
  pub http_addr : Set f.http_addr old.http_addr new.http_addr
  pub http_tls_cert : Set f.http_tls_cert old.http_tls_cert new.http_tls_cert
  pub http_tls_key : Set f.http_tls_key old.http_tls_key new.http_tls_key
  pub log_level : Set f.log_level old.log_level new.log_level
  pub log_format : Set f.log_format old.log_format new.log_format
  pub sorovault_url : Set f.sorovault_url old.sorovault_url new.sorovault_url
  pub http_rate_limit_per_minute :
      Set f.http_rate_limit_per_minute old.http_rate_limit_per_minute new.http_rate_limit_per_minute
  pub http_rate_limit_burst :
      Set f.http_rate_limit_burst old.http_rate_limit_burst new.http_rate_limit_burst
  pub http_trust_forwarded_for :
      Set f.http_trust_forwarded_for old.http_trust_forwarded_for new.http_trust_forwarded_for
  pub warn_ledgers : Set f.warn_ledgers old.warn_ledgers new.warn_ledgers
  pub critical_ledgers : Set f.critical_ledgers old.critical_ledgers new.critical_ledgers
  pub base_fee : Set f.base_fee old.base_fee new.base_fee
  pub threshold_overrides :
      Set f.threshold_overrides old.threshold_overrides new.threshold_overrides
  pub timeout : Parsed ps.parse_duration f.timeout old.timeout new.timeout
  pub inspect_cache_ttl :
      Parsed ps.parse_duration f.inspect_cache_ttl old.inspect_cache_ttl new.inspect_cache_ttl
  pub cors_origins : new.cors_origins ≡ old.cors_origins
  pub api_token : new.api_token ≡ old.api_token

module _ (ps : Parsers) where
  pub apply_values-FileSet :
      (c : Config) (path : Text) (f : FileValues) {c' : Config}
      → Gives (apply_values ps c path f) c'
      → FileSet ps f c c'
  unfolding apply_values apply_plain
  apply_values-FileSet c path f h =
      let (timeout, t, h1) = bind-eq-ok _ _ h in
      let (ttl, l, h2) = bind-eq-ok _ _ h1 in
      subst (λ n. FileSet ps f c n) (ok-inj h2)
        (record {
          rpc_url = set_value_lem c.rpc_url f.rpc_url;
          network_passphrase = set_value_lem c.network_passphrase f.network_passphrase;
          source_account = set_value_lem c.source_account f.source_account;
          http_addr = set_value_lem c.http_addr f.http_addr;
          http_tls_cert = set_value_lem c.http_tls_cert f.http_tls_cert;
          http_tls_key = set_value_lem c.http_tls_key f.http_tls_key;
          log_level = set_value_lem c.log_level f.log_level;
          log_format = set_value_lem c.log_format f.log_format;
          sorovault_url = set_value_lem c.sorovault_url f.sorovault_url;
          http_rate_limit_per_minute =
              set_value_lem c.http_rate_limit_per_minute f.http_rate_limit_per_minute;
          http_rate_limit_burst = set_value_lem c.http_rate_limit_burst f.http_rate_limit_burst;
          http_trust_forwarded_for =
              set_value_lem c.http_trust_forwarded_for f.http_trust_forwarded_for;
          warn_ledgers = set_value_lem c.warn_ledgers f.warn_ledgers;
          critical_ledgers = set_value_lem c.critical_ledgers f.critical_ledgers;
          base_fee = set_value_lem c.base_fee f.base_fee;
          threshold_overrides = set_value_lem c.threshold_overrides f.threshold_overrides;
          timeout = set_parsed_lem _ _ f.timeout c.timeout t;
          inspect_cache_ttl = set_parsed_lem _ _ f.inspect_cache_ttl c.inspect_cache_ttl l;
          cors_origins = refl;
          api_token = refl;
        })
