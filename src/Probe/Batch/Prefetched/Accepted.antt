-- ===== src/Probe/Batch/Prefetched/Accepted.antt =====
-- What CheckBatch answers, whichever way it runs the checks.
use soroprobe.Prelude.{
  map, ◌≡◌, refl, Bool, true, false, ◌||◌, Option, none, some, Result, ok, Text, ◌⊎◌, inl, inr,
  Bool-cases,
}
use soroprobe.Prelude.Int.{ℤ, pos, ltb_ℤ}
use soroprobe.Errors.{Error}
use soroprobe.Probe.Exec.{Exec}
use soroprobe.Probe.Prober.{Prober, Session}
use soroprobe.Probe.Check.{SimulateRequest, SimulateResult}
use soroprobe.Probe.Batch.{BatchRequest, BatchResult, check_name, validate_batch}
use soroprobe.Probe.Batch.Prefetched.{some_timeout, check_valid_batch, check_if_valid, check_batch}
use soroprobe.Probe.Batch.Prefetched.Items.{Sums, check_batch_prefetched-Sums}

-- the batch asks for concurrency or gives a check a timeout of its own
abbrev pub is_concurrent : BatchRequest → Bool
is_concurrent req = ltb_ℤ (pos 1) req.concurrency || some_timeout req.checks

module _ {W : Type 0} (p : Prober W)
    (simulate : Prober W → SimulateRequest → Exec (Session W) SimulateResult)
    (parse_duration : Text → Result Text ℤ)
    (check_batch_concurrent : BatchRequest → Exec (Session W) BatchResult) where
  abbrev pub IsAccepted : BatchRequest → BatchResult → Type 0
  IsAccepted req out =
      (ltb_ℤ req.concurrency (pos 0) ≡ false)
      × ((is_concurrent req ≡ true) ⊎ Sums p simulate (map check_name req.checks) out)

  check_valid_batch-IsAccepted :
      (req : BatchRequest) (s : Session W) (out : BatchResult)
      → (check_valid_batch p simulate parse_duration check_batch_concurrent req s).0 ≡ ok out
      → IsAccepted req out
  unfolding check_valid_batch
  check_valid_batch-IsAccepted req s out h = elim (Bool-cases (ltb_ℤ req.concurrency (pos 0))) [
    | inl negative ↦ absurd (let k = rw negative at h in cc)
    | inr enough ↦ (
      enough,
      elim (Bool-cases (is_concurrent req)) [
        | inl wanted ↦ inl wanted
        | inr sequential ↦
            inr (check_batch_prefetched-Sums p simulate req s out (rw (enough, sequential) at h))
      ],
    )
  ]

  check_if_valid-IsAccepted :
      (o : Option Error) (req : BatchRequest) (s : Session W) (out : BatchResult)
      → (check_if_valid p simulate parse_duration check_batch_concurrent o req s).0 ≡ ok out
      → (o ≡ none) × IsAccepted req out
  unfolding check_if_valid
  check_if_valid-IsAccepted (some e) req s out h = absurd cc
  check_if_valid-IsAccepted none req s out h = (refl, check_valid_batch-IsAccepted req s out h)

  -- CheckBatch returns a result only for a batch that is valid and whose concurrency is not
  -- negative. Unless the batch asks for concurrency or for a timeout, the result has an item for
  -- each check, in order and under its name, and its flags sum up the items.
  pub check_batch-IsAccepted :
      (req : BatchRequest) (s : Session W) (out : BatchResult)
      → (check_batch p simulate parse_duration check_batch_concurrent req s).0 ≡ ok out
      → (validate_batch parse_duration req ≡ none) × IsAccepted req out
  unfolding check_batch
  check_batch-IsAccepted req s out h =
      check_if_valid-IsAccepted (validate_batch parse_duration req) req s out h
