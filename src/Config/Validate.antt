-- ===== src/Config/Validate.antt =====
-- internal/config/config.go: Validate, ParseLogLevel and ParseLogFormat.
use soroprobe.Prelude.{
  Bool, true, false, not, ◌&&◌, ◌||◌, Option, none, some, List, [], ◌∷◌, if◌then◌else◌, Text, text,
  text_eq, is_empty, ◌==◌, ltb, length, Result, ok, err,
}
use soroprobe.Prelude.Strings.{trim_space, to_lower, has_prefix}
use soroprobe.Prelude.Int.{pos, leb_ℤ, ltb_ℤ}
use soroprobe.Health.{
  Thresholds, EntryKind, instance_entry, code_entry, data_entry, resolve_thresholds,
}
use soroprobe.Config.{
  Config, min_api_token_length, ConfigError, tls_pair, rate_limit_positive, url_required,
  passphrase_required, bad_url, bad_sorovault_url, bad_source_account, timeout_positive,
  cache_ttl_negative, critical_above_warn, kind_critical_above_warn, unknown_log_level,
  unknown_log_format, short_token,
}

pub data LogLevel : Type 0 where
  debug info warn error : LogLevel

-- ParseLogLevel, by the trimmed name in lower case
unfoldable pub log_level_of : Text → Option LogLevel
log_level_of s =
    if text_eq s (text "debug")
    then some debug
    else if text_eq s (text "info") || is_empty s
    then some info
    else if text_eq s (text "warn") || text_eq s (text "warning")
    then some warn
    else if text_eq s (text "error")
    then some error
    else none

unfoldable pub parse_log_level : Text → Result ConfigError LogLevel
parse_log_level name = elim (log_level_of (to_lower (trim_space name))) [
  | some l ↦ ok l
  | none ↦ err (unknown_log_level name)
]

pub data LogFormat : Type 0 where
  plain_text json : LogFormat

unfoldable pub log_format_of : Text → Option LogFormat
log_format_of s =
    if text_eq s (text "text") || is_empty s
    then some plain_text
    else if text_eq s (text "json")
    then some json
    else none

unfoldable pub parse_log_format : Text → Result ConfigError LogFormat
parse_log_format name = elim (log_format_of (to_lower (trim_space name))) [
  | some l ↦ ok l
  | none ↦ err (unknown_log_format name)
]

-- which handler and level Logger chooses
unfoldable pub logger : Config → LogFormat × LogLevel
logger c = (
  elim (parse_log_format c.log_format) [ ok f ↦ f | err e ↦ plain_text ],
  elim (parse_log_level c.log_level) [ ok l ↦ l | err e ↦ info ],
)

unfoldable pub is_http_url : Text → Bool
is_http_url url = has_prefix url (text "http://") || has_prefix url (text "https://")

abbrev pub same : Bool → Bool → Bool
same true b = b
same false b = not b

abbrev pub global_thresholds : Config → Thresholds
global_thresholds c = record { warn = c.warn_ledgers; crit = c.critical_ledgers }

-- one round of the loop over the kinds
unfoldable pub check_kind : Config → EntryKind → Option ConfigError
check_kind c kind =
    let t = resolve_thresholds kind (global_thresholds c) c.threshold_overrides in
    if ltb t.warn t.crit then some (kind_critical_above_warn kind t.crit t.warn) else none

unfoldable pub check_kinds : Config → List EntryKind → Option ConfigError
check_kinds c [] = none
check_kinds c (k ∷ ks) = elim (check_kind c k) [ some e ↦ some e | none ↦ check_kinds c ks ]

abbrev pub entry_kinds : List EntryKind
entry_kinds = instance_entry ∷ code_entry ∷ data_entry ∷ []

unfoldable pub error_of : {A : Type 0} → Result ConfigError A → Option ConfigError
error_of (ok a) = none
error_of (err e) = some e

-- the first of several checks that fails
unfoldable pub first_error : List (Option ConfigError) → Option ConfigError
first_error [] = none
first_error (some e ∷ es) = some e
first_error (none ∷ es) = first_error es

unfoldable pub fails_if : Bool → ConfigError → Option ConfigError
fails_if true e = some e
fails_if false e = none

-- Validate: none if the configuration is usable
unfoldable pub validate : (Text → Bool) → Config → Option ConfigError
validate is_public_key c = first_error (
    fails_if (not (same (is_empty c.http_tls_cert) (is_empty c.http_tls_key))) tls_pair
    ∷ fails_if (c.http_rate_limit_per_minute == 0 || c.http_rate_limit_burst == 0)
        rate_limit_positive
    ∷ fails_if (is_empty c.rpc_url) url_required
    ∷ fails_if (not (is_http_url c.rpc_url)) (bad_url c.rpc_url)
    ∷ fails_if (is_empty c.network_passphrase) passphrase_required
    ∷ fails_if (not (is_public_key c.source_account)) (bad_source_account c.source_account)
    ∷ fails_if (leb_ℤ c.timeout (pos 0)) (timeout_positive c.timeout)
    ∷ fails_if (ltb c.warn_ledgers c.critical_ledgers)
        (critical_above_warn c.critical_ledgers c.warn_ledgers)
    ∷ fails_if (ltb_ℤ c.inspect_cache_ttl (pos 0)) (cache_ttl_negative c.inspect_cache_ttl)
    ∷ check_kinds c entry_kinds
    ∷ error_of (parse_log_level c.log_level)
    ∷ error_of (parse_log_format c.log_format)
    ∷ fails_if (not (is_empty c.api_token) && ltb (length c.api_token) min_api_token_length)
        (short_token (length c.api_token))
    ∷ fails_if (not (is_empty c.sorovault_url) && not (is_http_url c.sorovault_url))
        (bad_sorovault_url c.sorovault_url)
    ∷ [])
