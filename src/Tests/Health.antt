-- ===== src/Tests/Health.antt =====
-- The classification at concrete ledgers.
use soroprobe.Prelude.{
  ◌≡◌, ◌≢◌, ◌<◌, ◌+◌, ◌⊎◌, some, [], ◌∷◌, ltb, leb, if◌then◌else◌, arith, All, In,
}
use soroprobe.Prelude.Int.{neg_part}
use soroprobe.Health.{
  healthy, warning, critical, expired, worst, Durability, Thresholds, evaluate,
  evaluate_with_close_time, ledger_close_time,
}
use soroprobe.Health.Classify.{status-evaluate}
use soroprobe.Health.Worst.{NoWorse, worst-greatest}
use soroprobe.Health.Estimate.{estimated_time_left_wraps}

abbrev day : Thresholds
day = record { warn = 17_280; crit = 1_440 }

status-evaluate_example :
    (evaluate_with_close_time (some 2_000) 1_000 Durability.temporary day ledger_close_time).status
    ≡ (if ltb 2_000 1_000
        then expired
        else if leb 2_000 (1_000 + day.crit)
        then critical
        else if leb 2_000 (1_000 + day.warn)
        then warning
        else healthy)
status-evaluate_example = status-evaluate 2_000 1_000 Durability.temporary day ledger_close_time

worst-greatest_example :
    All (NoWorse (worst (warning ∷ expired ∷ []))) (warning ∷ expired ∷ [])
    × ((worst (warning ∷ expired ∷ []) ≡ healthy)
        ⊎ In (worst (warning ∷ expired ∷ [])) (warning ∷ expired ∷ []))
worst-greatest_example = worst-greatest (warning ∷ expired ∷ [])

estimated_time_left_wraps_example :
    (0
      < neg_part
          (evaluate
            (some (1_000 + 2_000_000_000))
            1_000
            Durability.persistent
            day).estimated_time_left)
    × ((evaluate (some (1_000 + 2_000_000_000)) 1_000 Durability.persistent day).status ≢ expired)
estimated_time_left_wraps_example =
    estimated_time_left_wraps 2_000_000_000 1_000 Durability.persistent day (omega arith)
      (omega arith)
