-- ===== src/Health/Estimate.antt =====
-- When the remaining time that Evaluate estimates wraps.
use soroprobe.Prelude.{ℕ, ◌+◌, ◌≤◌, ◌<◌, ◌≢◌, some, arith}
use soroprobe.Prelude.Int.{neg_part, ◌*ℤ◌, wrap_int64}
use soroprobe.Health.{expired, Durability, Thresholds, evaluate}

-- At the default five seconds a ledger, an entry that has between 1844674408 and 3689348814
-- ledgers left is not expired, and its estimated time left is negative: the product has wrapped.
pub estimated_time_left_wraps :
    (n c : ℕ) (d : Durability) (t : Thresholds)
    → 1_844_674_408 ≤ n
    → n ≤ 3_689_348_814
    → (0 < neg_part (evaluate (some (c + n)) c d t).estimated_time_left)
      × ((evaluate (some (c + n)) c d t).status ≢ expired)
unfolding evaluate wrap_int64 ◌*ℤ◌
estimated_time_left_wraps n c d t h k = (ground arith, ground arith)
