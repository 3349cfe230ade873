-- ===== src/Probe/Check/Sound.antt =====
-- What a health check demands of a contract, and how its steps report on each demand.
use soroprobe.Prelude.{
  ◌≡◌, refl, Bool, true, false, not, ◌&&◌, ◌||◌, Option, none, some, List, [], ◌∷◌, ◌++◌, Result,
  ok, Text, is_empty, arith, leb,
}
use soroprobe.Health.{Status, warning, severity}
use soroprobe.Errors.{Error}
use soroprobe.Scval.Value.{ScVal}
use soroprobe.Probe.Report.{InspectResult, EntryReport}
use soroprobe.Probe.Prober.{Prober}
use soroprobe.Probe.Check.{
  CheckRequest, SimulateResult, Check, ttl_outcome, ttl_check, code_checks, data_checks,
  none_failed, is_fail,
}
use soroprobe.Probe.Check.Expect.{compare_sc_vals, actual_value}

-- an entry that is no worse than warning
unfoldable pub tolerable : EntryReport → Bool
tolerable e = leb (severity e.ttl.status) (severity warning)

unfoldable pub all_tolerable : List EntryReport → Bool
all_tolerable [] = true
all_tolerable (e ∷ es) = tolerable e && all_tolerable es

unfoldable pub code_tolerable : Option EntryReport → Bool
code_tolerable none = true
code_tolerable (some e) = tolerable e

unfoldable pub succeeded : Option SimulateResult → Bool
succeeded none = false
succeeded (some sim) = sim.success

unfoldable pub same_value : {W : Type 0} → Prober W → Result Error ScVal → Result Text ScVal → Bool
same_value p (ok expected) (ok actual) = (compare_sc_vals p.sdk expected actual).0
same_value p _ _ = false

-- the call returned the value that the specification denotes
unfoldable pub returned : {W : Type 0} → Prober W → Text → Option SimulateResult → Bool
returned p spec none = false
returned p spec (some sim) = same_value p (p.codec.encode spec) (actual_value p sim)

-- What a request demands: the contract is deployed, no entry is worse than warning, the call, if
-- one is named, succeeds, and the value, if one is expected, comes back from such a call.
unfoldable pub sound :
    {W : Type 0} → Prober W → CheckRequest → InspectResult → Option SimulateResult → Bool
sound p req r sim =
    r.deployed
    && (tolerable r.instance_report
        && (code_tolerable r.code
            && (all_tolerable r.data_reports
                && ((is_empty req.function || succeeded sim)
                    && (is_empty req.expect
                        || (not (is_empty req.function)
                            && (succeeded sim && returned p req.expect sim)))))))

-- a simulation is there just if the contract is deployed and a function is named
abbrev pub is_some : {A : Type 0} → Option A → Bool
is_some none = false
is_some (some a) = true

unfoldable pub wanted : CheckRequest → InspectResult → Bool
wanted req r = r.deployed && not (is_empty req.function)

pub none_failed-append :
    (xs ys : List Check) → none_failed (xs ++ ys) ≡ (none_failed xs && none_failed ys)
unfolding none_failed
none_failed-append [] ys = refl
none_failed-append (x ∷ xs) ys = ground (arith, none_failed-append xs ys)

pub ttl_outcome-tolerable :
    (s : Status) → is_fail (ttl_outcome s) ≡ not (leb (severity s) (severity warning))
unfolding ttl_outcome severity
ttl_outcome-tolerable Status.healthy = refl
ttl_outcome-tolerable Status.warning = refl
ttl_outcome-tolerable Status.critical = refl
ttl_outcome-tolerable Status.expired = refl
ttl_outcome-tolerable Status.missing = refl
ttl_outcome-tolerable Status.unknown = refl
ttl_outcome-tolerable (Status.other s) = refl

pub none_failed-ttl_check :
    (name : Text) (e : EntryReport) (cs : List Check)
    → none_failed (ttl_check name e ∷ cs) ≡ (tolerable e && none_failed cs)
unfolding none_failed ttl_check tolerable
none_failed-ttl_check name e cs = rw ttl_outcome-tolerable (ground arith)

pub code_checks-tolerable :
    (o : Option EntryReport) → none_failed (code_checks o) ≡ code_tolerable o
unfolding code_checks code_tolerable
code_checks-tolerable none = unfold none_failed in refl
code_checks-tolerable (some e) = rw none_failed-ttl_check (unfold none_failed in ground arith)

pub data_checks-tolerable :
    (es : List EntryReport) → none_failed (data_checks es) ≡ all_tolerable es
unfolding data_checks all_tolerable
data_checks-tolerable [] = unfold none_failed in refl
data_checks-tolerable (e ∷ es) = rw (none_failed-ttl_check, data_checks-tolerable es) refl
