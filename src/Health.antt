-- ===== src/Health.antt =====
-- internal/health/health.go: how a ledger entry's remaining lifetime is classified.
-- A Go string type with named constants is a data type: `other` is any other text, `unset` the
-- empty one. A uint32 is a number, an int64 (a `time.Duration`, in nanoseconds) an integer.
-- A text that `fmt.Sprintf` renders is the constructor of its format, with its arguments.
pub mod Classify
pub mod Estimate
pub mod Worst
use soroprobe.Prelude.{
  ℕ, ◌*◌, ◌^◌, Text, Bool, true, false, Option, none, some, List, [], ◌∷◌, ltb, if◌then◌else◌,
}
use soroprobe.Prelude.Int.{ℤ, pos, sub_ℕ, neg_ℤ, ltb_ℤ, leb_ℤ, quot_ℕ, ◌*ℤ◌, wrap_int64}

abbrev pub second : ℕ
second = 1_000_000_000

abbrev pub minute : ℕ
minute = 60 * second

abbrev pub hour : ℕ
hour = 60 * minute

-- LedgerCloseTime
abbrev pub ledger_close_time : ℤ
ledger_close_time = pos (5 * second)

pub data Status : Type 0 where
  healthy warning critical expired missing unknown : Status
  other : Text → Status

unfoldable pub severity : Status → ℕ
severity healthy = 0
severity unknown = 1
severity warning = 2
severity critical = 3
severity expired = 4
severity missing = 5
severity (other s) = 6

-- Status.OK
unfoldable pub is_ok : Status → Bool
is_ok healthy = true
is_ok unknown = true
is_ok _ = false

-- the loop of Worst, from the worst status so far
unfoldable pub worst_from : Status → List Status → Status
worst_from w [] = w
worst_from w (s ∷ ss) = worst_from (if ltb (severity w) (severity s) then s else w) ss

unfoldable pub worst : List Status → Status
worst ss = worst_from healthy ss

pub data Durability : Type 0 where
  unset persistent temporary : Durability
  other : Text → Durability

unfoldable pub archivable : Durability → Bool
archivable temporary = false
archivable _ = true

pub data Expiry : Type 0 where
  archived_and_restorable deleted_permanently : Expiry

unfoldable pub on_expiry : Durability → Expiry
unfolding archivable
on_expiry d = if archivable d then archived_and_restorable else deleted_permanently

pub record Thresholds : Type 0 where
  pub warn : ℕ
  pub crit : ℕ

pub record ThresholdOverride : Type 0 where
  pub warn : Option ℕ
  pub crit : Option ℕ

pub record ThresholdOverrides : Type 0 where
  pub for_instance : Option ThresholdOverride
  pub for_code : Option ThresholdOverride
  pub for_data : Option ThresholdOverride

pub data EntryKind : Type 0 where
  instance_entry code_entry data_entry : EntryKind
  other : Text → EntryKind

-- the first switch of ResolveThresholds
unfoldable pub override_for : EntryKind → ThresholdOverrides → Option ThresholdOverride
override_for instance_entry o = o.for_instance
override_for code_entry o = o.for_code
override_for data_entry o = o.for_data
override_for (other s) o = none

unfoldable pub or_global : Option ℕ → ℕ → ℕ
or_global none g = g
or_global (some n) g = n

unfoldable pub apply_override : Thresholds → Option ThresholdOverride → Thresholds
unfolding or_global
apply_override global none = global
apply_override global (some o) = record {
  warn = or_global o.warn global.warn;
  crit = or_global o.crit global.crit;
}

unfoldable pub resolve_thresholds : EntryKind → Thresholds → ThresholdOverrides → Thresholds
unfolding override_for apply_override
resolve_thresholds kind global overrides = apply_override global (override_for kind overrides)

abbrev pub default_thresholds : Thresholds
default_thresholds = record { warn = 120_960; crit = 17_280 }

pub record Ttl : Type 0 where
  pub present : Bool
  pub live_until_ledger : Option ℕ
  pub current_ledger : ℕ
  pub ledgers_remaining : ℤ
  pub estimated_time_left : ℤ
  pub durability : Durability
  pub status : Status

-- the last switch of EvaluateWithCloseTime
unfoldable pub classify : ℤ → Thresholds → Status
classify remaining t =
    if ltb_ℤ remaining (pos 0)
    then expired
    else if leb_ℤ remaining (pos t.crit)
    then critical
    else if leb_ℤ remaining (pos t.warn)
    then warning
    else healthy

unfoldable pub effective_close_time : ℤ → ℤ
effective_close_time t = if leb_ℤ t (pos 0) then ledger_close_time else t

unfoldable pub evaluate_with_close_time : Option ℕ → ℕ → Durability → Thresholds → ℤ → Ttl
unfolding classify effective_close_time
evaluate_with_close_time none current d t close = record {
  present = true;
  live_until_ledger = none;
  current_ledger = current;
  ledgers_remaining = pos 0;
  estimated_time_left = pos 0;
  durability = d;
  status = unknown;
}
evaluate_with_close_time (some live_until) current d t close =
    let remaining = sub_ℕ live_until current in
    record {
      present = true;
      live_until_ledger = some live_until;
      current_ledger = current;
      ledgers_remaining = remaining;
      estimated_time_left = wrap_int64 (remaining *ℤ effective_close_time close);
      durability = d;
      status = classify remaining t;
    }

unfoldable pub evaluate : Option ℕ → ℕ → Durability → Thresholds → Ttl
unfolding evaluate_with_close_time
evaluate live_until current d t = evaluate_with_close_time live_until current d t ledger_close_time

unfoldable pub absent : ℕ → Ttl
absent current = record {
  present = false;
  live_until_ledger = none;
  current_ledger = current;
  ledgers_remaining = pos 0;
  estimated_time_left = pos 0;
  durability = unset;
  status = missing;
}

-- What humanizeDuration prints: whole seconds or minutes, or a duration in nanoseconds that the
-- format shows in hours or days to one decimal.
pub data Human : Type 0 where
  in_seconds in_minutes in_hours in_days : ℤ → Human

unfoldable pub humanize_duration : ℤ → Human
humanize_duration d =
    let a = if ltb_ℤ d (pos 0) then wrap_int64 (neg_ℤ d) else d in
    if ltb_ℤ a (pos minute)
    then in_seconds (quot_ℕ a second)
    else if ltb_ℤ a (pos hour)
    then in_minutes (quot_ℕ a minute)
    else if ltb_ℤ a (pos (24 * hour))
    then in_hours a
    else in_days a

-- What TTL.Describe prints. `nil_panic` is the panic of reading `*t.LiveUntilLedger` when nil.
pub data Summary : Type 0 where
  not_found no_ttl nil_panic : Summary
  expired_ago : Human → ℕ → Expiry → Summary
  live_for : ℤ → Human → ℕ → Summary

unfoldable pub describe_at : Status → Option ℕ → Ttl → Summary
unfolding humanize_duration on_expiry
describe_at missing l t = not_found
describe_at unknown l t = no_ttl
describe_at expired none t = nil_panic
describe_at expired (some l) t =
    expired_ago (humanize_duration (wrap_int64 (neg_ℤ t.estimated_time_left))) l
      (on_expiry t.durability)
describe_at _ none t = nil_panic
describe_at _ (some l) t = live_for t.ledgers_remaining (humanize_duration t.estimated_time_left) l

unfoldable pub describe : Ttl → Summary
unfolding describe_at
describe t = describe_at t.status t.live_until_ledger t
