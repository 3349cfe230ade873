-- ===== src/Health/Classify.antt =====
-- The classification of a ledger entry, by its last live ledger and its thresholds.
use soroprobe.Prelude.{ℕ, ◌+◌, ◌≤◌, ◌≡◌, ◌≢◌, Option, none, some, ltb, leb, arith, if◌then◌else◌}
use soroprobe.Prelude.Int.{ℤ}
use soroprobe.Health.{
  healthy, warning, critical, expired, severity, Durability, Thresholds, evaluate_with_close_time,
  absent, describe, nil_panic,
}

-- For an entry that is live through ledger `l`, seen at ledger `c`, the status is found by
-- comparing `l` with `c` and with `c` plus each threshold: expired before `c`, critical up to
-- `c + crit`, a warning up to `c + warn`, and healthy after that, whatever the close time.
pub status-evaluate :
    (l c : ℕ) (d : Durability) (t : Thresholds) (close : ℤ)
    → (evaluate_with_close_time (some l) c d t close).status ≡ (
        if ltb l c
        then expired
        else if leb l (c + t.crit)
        then critical
        else if leb l (c + t.warn)
        then warning
        else healthy)
unfolding evaluate_with_close_time
status-evaluate l c d t close = ground arith

-- An entry that lives longer is never classified as more severe.
pub severity-evaluate_mono :
    (l m c : ℕ) (d e : Durability) (t : Thresholds) (close : ℤ)
    → l ≤ m
    → severity (evaluate_with_close_time (some m) c d t close).status
      ≤ severity (evaluate_with_close_time (some l) c e t close).status
unfolding evaluate_with_close_time severity
severity-evaluate_mono l m c d e t close h = ground arith

-- Every entry that Evaluate or Absent describes can be printed: `Describe` never reads the last
-- live ledger of an entry that has none.
pub describe-evaluate-ne-panic :
    (l : Option ℕ) (c : ℕ) (d : Durability) (t : Thresholds) (close : ℤ)
    → (describe (evaluate_with_close_time l c d t close) ≢ nil_panic)
      × (describe (absent c) ≢ nil_panic)
unfolding describe
describe-evaluate-ne-panic none c d t close =
    (unfold evaluate_with_close_time in λ e. cc e, unfold absent in λ e. cc e)
describe-evaluate-ne-panic (some l) c d t close =
    (unfold evaluate_with_close_time in λ e. ground arith, unfold absent in λ e. cc e)
