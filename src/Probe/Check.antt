-- ===== src/Probe/Check.antt =====
-- internal/probe/check.go: the combined health check, a pipeline of steps over one inspection
-- and at most one simulation. `Prober.Simulate` is a parameter of the pipeline.
pub mod Expect
pub mod Sound
pub mod Compare
pub mod Answer
pub mod Verdict
use soroprobe.Prelude.{
  ℕ, Bool, true, false, not, ◌&&◌, ◌||◌, Option, none, some, List, [], ◌∷◌, ◌++◌, map,
  if◌then◌else◌, Result, ok, err, Text, text, is_empty,
}
use soroprobe.Prelude.Int.{ℤ}
use soroprobe.Health.{Status, healthy, warning, unknown, Durability}
use soroprobe.Errors.{Error, stop, no_simulation_result}
use soroprobe.Scval.Decode.{Json}
use soroprobe.Scval.Literal.{LiteralError}
use soroprobe.Probe.Exec.{Exec, pure, lift, ◌>>=◌}
use soroprobe.Probe.Report.{
  InspectRequest, InspectResult, EntryReport, EntrySummary, ExecutableName, CloseTimeNote,
}
use soroprobe.Probe.Prober.{Prober, Session}
use soroprobe.Probe.Cache.{inspect}

pub record CheckRequest : Type 0 where
  pub contract_id : Text
  pub function : Text
  pub args : List Text
  pub expect : Text
  pub data_keys : List Text
  pub data_durability : Durability

-- the fields of SimulateRequest that a check sets
pub record SimulateRequest : Type 0 where
  pub contract_id : Text
  pub function : Text
  pub args : List Text

-- the fields of SimulateResult that a check reads
pub record SimulateResult : Type 0 where
  pub success : Bool
  pub error : Text
  pub return_value : Option Json
  pub return_value_xdr : Text
  pub instructions : ℕ
  pub min_resource_fee : ℤ

pub data CheckOutcome : Type 0 where
  pass warn fail skip : CheckOutcome

-- the text of a check's detail, by its format
pub data Detail : Type 0 where
  no_instance : Detail
  instance_found : ExecutableName → Detail
  entry_summary : EntrySummary → Detail
  no_code_entry no_function : Detail
  call_failed : Text → Text → Detail
  call_succeeded : Text → ℕ → ℤ → Detail
  expect_without_function expect_without_result : Detail
  invalid_expected : Text → Error → Detail
  undecodable_actual : Text → Detail
  expected_got type_mismatch : Option Json → Option Json → Detail

pub record Check : Type 0 where
  pub name : Text
  pub outcome : CheckOutcome
  pub detail : Detail

pub record CheckResult : Type 0 where
  pub contract_id : Text
  pub all_ok : Bool
  pub status : Status
  pub checks : List Check
  pub inspect_result : InspectResult
  pub simulation : Option SimulateResult
  pub latest_ledger : ℕ
  pub close_time_note : CloseTimeNote

-- what CheckStep.Run returns: the checks, and an error
abbrev pub StepResult : Type 0
StepResult = List Check × Option Error

abbrev pub CheckStep : Type 0
CheckStep = CheckRequest → InspectResult → Option SimulateResult → StepResult

unfoldable pub ttl_outcome : Status → CheckOutcome
ttl_outcome healthy = pass
ttl_outcome unknown = pass
ttl_outcome warning = warn
ttl_outcome _ = fail

unfoldable pub ttl_check : Text → EntryReport → Check
ttl_check name entry = record {
  name = name;
  outcome = ttl_outcome entry.ttl.status;
  detail = entry_summary entry.summary;
}

abbrev pub one : Text → CheckOutcome → Detail → List Check
one name outcome detail = (record { name = name; outcome = outcome; detail = detail }) ∷ []

unfoldable pub deployed_step : CheckStep
deployed_step req r sim =
    if not r.deployed
    then (one (text "deployed") fail no_instance, some stop)
    else (one (text "deployed") pass (instance_found r.executable), none)

unfoldable pub instance_ttl_step : CheckStep
instance_ttl_step req r sim = (ttl_check (text "instance_ttl") r.instance_report ∷ [], none)

unfoldable pub code_checks : Option EntryReport → List Check
code_checks none = one (text "code_ttl") skip no_code_entry
code_checks (some code) = ttl_check (text "code_ttl") code ∷ []

unfoldable pub code_ttl_step : CheckStep
code_ttl_step req r sim = (code_checks r.code, none)

unfoldable pub data_checks : List EntryReport → List Check
data_checks [] = []
data_checks (entry ∷ entries) =
    ttl_check (text "data_ttl:" ++ entry.key) entry ∷ data_checks entries

unfoldable pub data_ttl_step : CheckStep
data_ttl_step req r sim = (data_checks r.data_reports, none)

unfoldable pub simulate_checks : Text → Option SimulateResult → StepResult
simulate_checks function none = ([], some no_simulation_result)
simulate_checks function (some sim) =
    if not sim.success
    then (one (text "simulate") fail (call_failed function sim.error), none)
    else (
      one (text "simulate") pass (call_succeeded function sim.instructions sim.min_resource_fee),
      none,
    )

unfoldable pub simulate_step : CheckStep
simulate_step req r sim =
    if is_empty req.function
    then (one (text "simulate") skip no_function, none)
    else simulate_checks req.function sim

abbrev pub StepsResult : Type 0
StepsResult = Result Error (List Check)

-- what follows a step: its error, the end of the pipeline, or the checks of the steps behind it
unfoldable pub after_step : StepResult → StepsResult → StepsResult
after_step (checks, some stop) rest = ok checks
after_step (checks, some e) rest = err e
after_step (checks, none) (ok more) = ok (checks ++ more)
after_step (checks, none) (err e) = err e

-- the loop over the steps
unfoldable pub run_steps :
    List CheckStep → CheckRequest → InspectResult → Option SimulateResult → StepsResult
run_steps [] req r sim = ok []
run_steps (step ∷ steps) req r sim = after_step (step req r sim) (run_steps steps req r sim)

abbrev pub is_fail : CheckOutcome → Bool
is_fail fail = true
is_fail _ = false

unfoldable pub none_failed : List Check → Bool
none_failed [] = true
none_failed (c ∷ cs) = let rest = none_failed cs in if is_fail c.outcome then false else rest

unfoldable pub check_result :
    CheckRequest → InspectResult → Option SimulateResult → List Check → CheckResult
check_result req r sim checks = record {
  contract_id = req.contract_id;
  all_ok = none_failed checks;
  status = r.status;
  checks = checks;
  inspect_result = r;
  simulation = sim;
  latest_ledger = r.latest_ledger;
  close_time_note = r.close_time_note;
}
