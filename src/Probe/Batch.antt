-- ===== src/Probe/Batch.antt =====
-- internal/probe/batch.go: a batch of checks, and what a batch must satisfy before any is run.
-- `time.ParseDuration` is a parameter.
pub mod Fetch
pub mod Prefetched
pub mod Validated
use soroprobe.Prelude.{
  ℕ, suc, Bool, true, false, ◌||◌, Option, none, some, List, [], ◌∷◌, ltb, if◌then◌else◌, Result,
  ok, err, Text, is_empty, length,
}
use soroprobe.Prelude.Int.{ℤ, pos, ltb_ℤ}
use soroprobe.Prelude.Dict.{Dict, lookup, insert}
use soroprobe.Health.{Durability}
use soroprobe.Errors.{
  Error, no_checks, too_many_checks, no_contract_id, bad_timeout, negative_timeout,
  unknown_durability, same_name,
}
use soroprobe.Probe.Check.{CheckRequest, CheckResult}

abbrev pub max_batch_checks : ℕ
max_batch_checks = 100

pub record NamedCheck : Type 0 where
  pub name : Text
  pub timeout : Text
  pub request : CheckRequest

pub record BatchRequest : Type 0 where
  pub checks : List NamedCheck
  pub concurrency : ℤ

-- The result of a check that ran, or the error of one that could not.
pub record BatchItem : Type 0 where
  pub name : Text
  pub contract_id : Text
  pub result : Result Error CheckResult

pub record BatchResult : Type 0 where
  pub all_ok : Bool
  pub errored : Bool
  pub items : List BatchItem

unfoldable pub check_name : NamedCheck → Text
check_name c = if is_empty c.name then c.request.contract_id else c.name

module _ (parse_duration : Text → Result Text ℤ) where
  unfoldable pub parsed_timeout : NamedCheck → Result Text ℤ → Result Error ℤ
  parsed_timeout c (err e) = err (bad_timeout (check_name c) c.timeout)
  parsed_timeout c (ok d) =
      if ltb_ℤ d (pos 0) then err (negative_timeout (check_name c) d) else ok d

  -- checkTimeout
  unfoldable pub check_timeout : NamedCheck → Result Error ℤ
  check_timeout c =
      if is_empty c.timeout then ok (pos 0) else parsed_timeout c (parse_duration c.timeout)

  unfoldable pub validate_durability : NamedCheck → Durability → Option Error
  validate_durability c (Durability.other d) = some (unknown_durability (check_name c) d)
  validate_durability c _ = none

  unfoldable pub validate_name : ℕ → Text → Option ℕ → Option Error
  validate_name i name none = none
  validate_name i name (some prev) = some (same_name prev i name)

  abbrev pub error_of : {E A : Type 0} → Result E A → Option E
  error_of (ok a) = none
  error_of (err e) = some e

  -- the first error, if there is one
  abbrev pub or_else : Option Error → Option Error → Option Error
  or_else none rest = rest
  or_else (some e) rest = some e

  -- the body of the loop of validateBatch, at check number `i`
  unfoldable pub validate_check : ℕ → Dict ℕ → NamedCheck → Option Error
  validate_check i seen c =
      or_else (if is_empty c.request.contract_id then some (no_contract_id i) else none) (
        or_else (error_of (check_timeout c)) (
          or_else (validate_durability c c.request.data_durability)
            (validate_name i (check_name c) (lookup (check_name c) seen))))

  -- the loop of validateBatch
  unfoldable pub validate_from : ℕ → Dict ℕ → List NamedCheck → Option Error
  validate_from i seen [] = none
  validate_from i seen (c ∷ cs) =
      or_else (validate_check i seen c) (validate_from (suc i) (insert (check_name c) i seen) cs)

  -- validateBatch: the error, or none
  unfoldable pub validate_batch : BatchRequest → Option Error
  validate_batch req =
      let n = length req.checks in
      let rest = validate_from 0 [] req.checks in
      if ltb 0 n
      then (if ltb max_batch_checks n then some (too_many_checks n) else rest)
      else some no_checks
