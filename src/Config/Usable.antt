-- ===== src/Config/Usable.antt =====
-- What a validated configuration may be relied on for.
use soroprobe.Prelude.{
  ℕ, ◌≤◌, ◌<◌, ◌≡◌, refl, ◌&&◌, ◌≢◌, ◌↔◌, ◌⊎◌, inl, inr, Bool, true, false, not, ◌||◌, Option, none,
  some, List, [], ◌∷◌, ◌++◌, Text, text, is_empty, length, Result, ok, err, All, ◌==◌, Bool-cases,
  ltb, arith,
}
use soroprobe.Prelude.Strings.{has_prefix}
use soroprobe.Prelude.Int.{ℤ, pos, pos_part, neg_part, leb_ℤ, ltb_ℤ}
use soroprobe.Health.{
  EntryKind, instance_entry, code_entry, data_entry, resolve_thresholds, override_for,
  apply_override,
}
use soroprobe.Config.{Config, ConfigError, min_api_token_length}
use soroprobe.Config.Validate.{
  parse_log_level, LogLevel, parse_log_format, LogFormat, is_http_url, global_thresholds,
  check_kind, check_kinds, entry_kinds, error_of, first_error, fails_if, validate, same,
}

abbrev NoError : Option ConfigError → Type 0
NoError e = e ≡ none

first_error_iff : (es : List (Option ConfigError)) → (first_error es ≡ none) ↔ All NoError es
unfolding first_error
first_error_iff [] = (λ h. tt, λ h. refl)
first_error_iff (some e ∷ es) = (λ h. absurd cc, λ h. absurd (cc h.0))
first_error_iff (none ∷ es) =
    (λ h. (refl, (first_error_iff es).0 h), λ h. (first_error_iff es).1 h.1)

-- A text that begins with one of the two schemes.
abbrev Begins : Text → Text → Type 0
Begins prefix s = (rest : Text) × (s ≡ prefix ++ rest)

has_prefix_iff : (s p : Text) → (has_prefix s p ≡ true) ↔ Begins p s
unfolding has_prefix
has_prefix_iff s [] = (λ h. (s, refl), λ h. refl)
has_prefix_iff [] (p ∷ ps) = (λ h. absurd cc, λ h. absurd (cc h.1))
has_prefix_iff (c ∷ s) (p ∷ ps) = (
  λ h. let (rest, e) = (has_prefix_iff s ps).0 (ground (arith, h)) in (rest, ground (arith, e, h)),
  λ h. let k = (has_prefix_iff s ps).1 (h.0, ground (arith, h.1)) in ground (arith, h.1, k),
)

abbrev IsHttp : Text → Type 0
IsHttp url = Begins (text "http://") url ⊎ Begins (text "https://") url

differs : {b : Bool} → b ≡ true → b ≡ false → ⊥
differs h k = cc

is_http_url_iff : (url : Text) → (is_http_url url ≡ true) ↔ IsHttp url
unfolding is_http_url
is_http_url_iff url = elim (Bool-cases (has_prefix url (text "http://"))) [
  | inl plain ↦ rw plain (λ h. inl ((has_prefix_iff url (text "http://")).0 plain), λ h. refl)
  | inr not_plain ↦ rw not_plain (
    λ h. inr ((has_prefix_iff url (text "https://")).0 h),
    λ h. elim h [
      | inl p ↦ absurd (differs ((has_prefix_iff url (text "http://")).1 p) not_plain)
      | inr p ↦ (has_prefix_iff url (text "https://")).1 p
    ],
  )
]

-- The thresholds by which entries of a kind are classified.
abbrev Ordered : Config → EntryKind → Type 0
Ordered c kind =
    let t = resolve_thresholds kind (global_thresholds c) c.threshold_overrides in t.crit ≤ t.warn

check_kind_iff : (c : Config) (kind : EntryKind) → (check_kind c kind ≡ none) ↔ Ordered c kind
unfolding check_kind
check_kind_iff c kind = ground arith

check_kinds_iff :
    (c : Config) (ks : List EntryKind) → (check_kinds c ks ≡ none) ↔ All (Ordered c) ks
unfolding check_kinds
check_kinds_iff c [] = (λ h. tt, λ h. refl)
check_kinds_iff c (k ∷ ks) = ground (arith, check_kind_iff c k, check_kinds_iff c ks)

-- Thresholds of a kind without overrides are the global ones.
every_kind :
    (c : Config)
    → c.critical_ledgers ≤ c.warn_ledgers
    → All (Ordered c) entry_kinds
    → (kind : EntryKind) → Ordered c kind
unfolding resolve_thresholds override_for apply_override
every_kind c g h instance_entry = h.0
every_kind c g h code_entry = h.1.0
every_kind c g h data_entry = h.1.1.0
every_kind c g h (EntryKind.other s) = g

fails_if_iff : (b : Bool) (e : ConfigError) → (fails_if b e ≡ none) ↔ (b ≡ false)
unfolding fails_if
fails_if_iff true e = (λ h. absurd cc, λ h. absurd cc)
fails_if_iff false e = (λ h. refl, λ h. refl)

error_of_iff :
    {A : Type 0} (r : Result ConfigError A) → (error_of r ≡ none) ↔ ((a : A) × (r ≡ ok a))
unfolding error_of
error_of_iff (ok a) = (λ h. (a, refl), λ h. refl)
error_of_iff (err e) = (λ h. absurd cc, λ h. absurd (cc h.1))

pub record IsUsable (is_public_key : Text → Bool) (c : Config) : Type 0 where
  pub tls_pair : (c.http_tls_cert ≡ []) ↔ (c.http_tls_key ≡ [])
  pub rate_positive : (0 < c.http_rate_limit_per_minute) × (0 < c.http_rate_limit_burst)
  pub url : IsHttp c.rpc_url
  pub passphrase : c.network_passphrase ≢ []
  pub account : is_public_key c.source_account ≡ true
  pub timeout_positive : 0 < pos_part c.timeout
  pub ttl_sign : neg_part c.inspect_cache_ttl ≡ 0
  pub thresholds_ordered : (kind : EntryKind) → Ordered c kind
  pub level : (l : LogLevel) × (parse_log_level c.log_level ≡ ok l)
  pub format : (f : LogFormat) × (parse_log_format c.log_format ≡ ok f)
  pub token : (c.api_token ≡ []) ⊎ (min_api_token_length ≤ length c.api_token)
  pub vault : (c.sorovault_url ≡ []) ⊎ IsHttp c.sorovault_url

is_empty_iff : (s : Text) → (is_empty s ≡ true) ↔ (s ≡ [])
is_empty_iff [] = (λ h. refl, λ h. refl)
is_empty_iff (c ∷ s) = (λ h. absurd cc, λ h. absurd cc)

http-not-empty : (s : Text) → IsHttp s → is_empty s ≡ false
http-not-empty [] (inl (r, e)) = absurd (cc e)
http-not-empty [] (inr (r, e)) = absurd (cc e)
http-not-empty (c ∷ s) h = refl

-- each test of the validation, and what it lets through
both_or_none : (s t : Text) → (not (same (is_empty s) (is_empty t)) ≡ false) ↔ ((s ≡ []) ↔ (t ≡ []))
both_or_none [] [] = (λ h. (λ e. refl, λ e. refl), λ h. refl)
both_or_none [] (c ∷ t) = (λ h. absurd cc, λ h. absurd (cc (h.0 refl)))
both_or_none (c ∷ s) [] = (λ h. absurd cc, λ h. absurd (cc (h.1 refl)))
both_or_none (c ∷ s) (d ∷ t) = (λ h. (λ e. absurd cc, λ e. absurd cc), λ h. refl)

not_empty_iff : (s : Text) → (is_empty s ≡ false) ↔ (s ≢ [])
not_empty_iff [] = (λ h. absurd cc, λ h. absurd (h refl))
not_empty_iff (c ∷ s) = (λ h e. cc, λ h. refl)

not_iff : (b : Bool) → (not b ≡ false) ↔ (b ≡ true)
not_iff true = (λ h. refl, λ h. refl)
not_iff false = (λ h. absurd cc, λ h. absurd cc)

token_iff :
    (s : Text) (n : ℕ)
    → ((not (is_empty s) && ltb (length s) n) ≡ false) ↔ ((s ≡ []) ⊎ (n ≤ length s))
token_iff [] n = (λ h. inl refl, λ h. refl)
token_iff (c ∷ s) n = ground arith

vault_iff : (s : Text) → ((not (is_empty s) && not (is_http_url s)) ≡ false) ↔ ((s ≡ []) ⊎ IsHttp s)
vault_iff [] = (λ h. inl refl, λ h. refl)
vault_iff (c ∷ s) = (
  λ h. inr ((is_http_url_iff (c ∷ s)).0 ((not_iff _).0 h)),
  λ h. elim h [ inl e ↦ absurd cc | inr k ↦ (not_iff _).1 ((is_http_url_iff (c ∷ s)).1 k) ],
)

rates_iff : (a b : ℕ) → ((a == 0 || b == 0) ≡ false) ↔ ((0 < a) × (0 < b))
rates_iff a b = ground arith

positive_iff : (z : ℤ) → (leb_ℤ z (pos 0) ≡ false) ↔ (0 < pos_part z)
positive_iff z = ground arith

not_negative_iff : (z : ℤ) → (ltb_ℤ z (pos 0) ≡ false) ↔ (neg_part z ≡ 0)
not_negative_iff z = ground arith

not_below_iff : (a b : ℕ) → (ltb a b ≡ false) ↔ (b ≤ a)
not_below_iff a b = ground arith

global-Ordered :
    (c : Config) → ((kind : EntryKind) → Ordered c kind) → c.critical_ledgers ≤ c.warn_ledgers
unfolding resolve_thresholds override_for apply_override
global-Ordered c h = h (EntryKind.other [])

module _ (is_public_key : Text → Bool) (c : Config) where
  IsUsable-validate : validate is_public_key c ≡ none → IsUsable is_public_key c
  unfolding validate
  IsUsable-validate v =
      let (
        tls,
        (
          rate,
          (
            url,
            (
              scheme,
              (
                pass,
                (
                  account,
                  (time, (order, (ttl, (kinds, (level, (format, (token, (vault, end)))))))),
                ),
              ),
            ),
          ),
        ),
      ) =
        (first_error_iff _).0 v in
      record {
        tls_pair = (both_or_none _ _).0 ((fails_if_iff _ _).0 tls);
        rate_positive = (rates_iff _ _).0 ((fails_if_iff _ _).0 rate);
        url = (is_http_url_iff _).0 ((not_iff _).0 ((fails_if_iff _ _).0 scheme));
        passphrase = (not_empty_iff _).0 ((fails_if_iff _ _).0 pass);
        account = (not_iff _).0 ((fails_if_iff _ _).0 account);
        timeout_positive = (positive_iff c.timeout).0 ((fails_if_iff _ _).0 time);
        ttl_sign = (not_negative_iff c.inspect_cache_ttl).0 ((fails_if_iff _ _).0 ttl);
        thresholds_ordered =
            every_kind c ((not_below_iff _ _).0 ((fails_if_iff _ _).0 order))
              ((check_kinds_iff c entry_kinds).0 kinds);
        level = (error_of_iff _).0 level;
        format = (error_of_iff _).0 format;
        token = (token_iff _ _).0 ((fails_if_iff _ _).0 token);
        vault = (vault_iff _).0 ((fails_if_iff _ _).0 vault);
      }

  validate-IsUsable : IsUsable is_public_key c → validate is_public_key c ≡ none
  unfolding validate
  validate-IsUsable u = (first_error_iff _).1 (
    (fails_if_iff _ _).1 ((both_or_none _ _).1 u.tls_pair),
    (
      (fails_if_iff _ _).1 ((rates_iff _ _).1 u.rate_positive),
      (
        (fails_if_iff _ _).1 (http-not-empty _ u.url),
        (
          (fails_if_iff _ _).1 ((not_iff _).1 ((is_http_url_iff _).1 u.url)),
          (
            (fails_if_iff _ _).1 ((not_empty_iff _).1 u.passphrase),
            (
              (fails_if_iff _ _).1 ((not_iff _).1 u.account),
              (
                (fails_if_iff _ _).1 ((positive_iff c.timeout).1 u.timeout_positive),
                (
                  (fails_if_iff _ _).1
                      ((not_below_iff _ _).1 (global-Ordered c u.thresholds_ordered)),
                  (
                    (fails_if_iff _ _).1 ((not_negative_iff c.inspect_cache_ttl).1 u.ttl_sign),
                    (
                      (check_kinds_iff c entry_kinds).1 (
                        u.thresholds_ordered instance_entry,
                        (u.thresholds_ordered code_entry, (u.thresholds_ordered data_entry, tt)),
                      ),
                      (
                        (error_of_iff _).1 u.level,
                        (
                          (error_of_iff _).1 u.format,
                          (
                            (fails_if_iff _ _).1 ((token_iff _ _).1 u.token),
                            ((fails_if_iff _ _).1 ((vault_iff _).1 u.vault), tt),
                          ),
                        ),
                      ),
                    ),
                  ),
                ),
              ),
            ),
          ),
        ),
      ),
    ),
  )

  -- A configuration passes validation just if it is usable: a certificate comes with its key, the
  -- rates and the timeout are positive, the URLs are HTTP, the passphrase is not empty, the account
  -- is a public key, the cache's lifetime is not negative, the thresholds of every kind of entry are
  -- ordered, the log level and format are known ones, and a token is not short.
  pub validate_iff : (validate is_public_key c ≡ none) ↔ IsUsable is_public_key c
  validate_iff = (IsUsable-validate, validate-IsUsable)
