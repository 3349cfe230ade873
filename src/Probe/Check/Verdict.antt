-- ===== src/Probe/Check/Verdict.antt =====
-- When the health check says that all is well.
use soroprobe.Prelude.{
  ◌≡◌, refl, Bool, true, false, not, ◌&&◌, ◌||◌, Option, none, some, List, [], ◌∷◌, Result, ok, err,
  Text, text, is_empty, arith, ◌⊎◌, inl, inr, Bool-cases,
}
use soroprobe.Errors.{Error}
use soroprobe.Scval.Value.{ScVal}
use soroprobe.Probe.Report.{InspectResult, EntryReport}
use soroprobe.Probe.Prober.{Prober}
use soroprobe.Probe.Check.{
  CheckRequest, SimulateResult, fail, Check, CheckResult, no_instance, one, StepsResult, ttl_check,
  deployed_step, instance_ttl_step, code_ttl_step, data_ttl_step, simulate_checks, simulate_step,
  run_steps, after_step, none_failed, is_fail, check_result,
}
use soroprobe.Probe.Check.Expect.{
  matched, actual_value, expect_values, expect_encoded, expect_simulated, expect_check, expect_step,
  check_steps, concluded, conclude,
}
use soroprobe.Probe.Check.Sound.{
  tolerable, all_tolerable, code_tolerable, succeeded, same_value, returned, sound, is_some, wanted,
  none_failed-append, none_failed-ttl_check, code_checks-tolerable, data_checks-tolerable,
}

-- The steps went through, and what they report has no failure just if `b`.
Reports : Bool → StepsResult → Type 0
Reports b (ok cs) = none_failed cs ≡ b
Reports b (err e) = ⊥

after_step-Reports :
    (cs : List Check) (rest : StepsResult) (b : Bool)
    → Reports b rest
    → Reports (none_failed cs && b) (after_step (cs, none) rest)
unfolding Reports after_step
after_step-Reports cs (ok more) b h = rw (none_failed-append, h) refl
after_step-Reports cs (err e) b h = h

none_failed-one :
    (e : EntryReport) → none_failed (ttl_check (text "instance_ttl") e ∷ []) ≡ tolerable e
none_failed-one e = rw none_failed-ttl_check (unfold none_failed in ground arith)

module _ {W : Type 0} (p : Prober W) where
  matched-outcome : (m : Bool × Bool) (a b : Option _) → not (is_fail (matched m a b).0) ≡ m.0
  unfolding matched
  matched-outcome (true, x) a b = refl
  matched-outcome (false, true) a b = refl
  matched-outcome (false, false) a b = refl

  expect_values-outcome :
      (sim : SimulateResult) (v : ScVal) (r : Result Text ScVal)
      → not (is_fail (expect_values p sim v r).0) ≡ same_value p (ok v) r
  unfolding expect_values same_value
  expect_values-outcome sim v (ok a) = matched-outcome _ _ _
  expect_values-outcome sim v (err e) = refl

  expect_encoded-outcome :
      (spec : Text) (sim : SimulateResult) (r : Result Error ScVal)
      → not (is_fail (expect_encoded p spec sim r).0) ≡ same_value p r (actual_value p sim)
  unfolding expect_encoded
  expect_encoded-outcome spec sim (ok v) = expect_values-outcome sim v (actual_value p sim)
  expect_encoded-outcome spec sim (err e) = unfold same_value in refl

  expect_simulated-outcome :
      (spec : Text) (sim : Option SimulateResult)
      → not (is_fail (expect_simulated p spec sim).0) ≡ (succeeded sim && returned p spec sim)
  unfolding expect_simulated succeeded returned
  expect_simulated-outcome spec none = refl
  expect_simulated-outcome spec (some sim) =
      ground (arith, expect_encoded-outcome spec sim (p.codec.encode spec))

  expect_check-outcome :
      (req : CheckRequest) (sim : Option SimulateResult)
      → not (is_fail (expect_check p req sim).0)
        ≡ (not (is_empty req.function) && (succeeded sim && returned p req.expect sim))
  unfolding expect_check
  expect_check-outcome req sim = ground (arith, expect_simulated-outcome req.expect sim)

  abbrev return_ok : CheckRequest → Option SimulateResult → Bool
  return_ok req sim =
      is_empty req.expect
      || (not (is_empty req.function) && (succeeded sim && returned p req.expect sim))

  expect_step-Reports :
      (req : CheckRequest) (r : InspectResult) (sim : Option SimulateResult)
      → Reports (return_ok req sim) (after_step (expect_step p req r sim) (ok []))
  unfolding expect_step Reports after_step none_failed
  expect_step-Reports req r sim = ground (arith, expect_check-outcome req sim)

  abbrev call_ok : CheckRequest → Option SimulateResult → Bool
  call_ok req sim = is_empty req.function || succeeded sim

  simulate_step-Reports :
      (req : CheckRequest) (r : InspectResult) (sim : Option SimulateResult) (rest : StepsResult)
      (b : Bool)
      → (is_empty req.function ≡ true) ⊎ (is_some sim ≡ true)
      → Reports b rest
      → Reports (call_ok req sim && b) (after_step (simulate_step req r sim) rest)
  unfolding simulate_step simulate_checks succeeded none_failed
  simulate_step-Reports req r none rest b (inr h) k = absurd cc
  simulate_step-Reports req r sim rest b (inl h) k = rw h (after_step-Reports _ rest b k)
  simulate_step-Reports req r (some sim) rest b (inr h) k =
      elim (Bool-cases (is_empty req.function)) [
        | inl unnamed ↦ rw unnamed (after_step-Reports _ rest b k)
        | inr named ↦ rw named (elim (Bool-cases sim.success) [
          | inl good ↦ rw good (after_step-Reports _ rest b k)
          | inr bad ↦ rw bad (after_step-Reports _ rest b k)
        ])
      ]

  deployed_step-Reports :
      (req : CheckRequest) (r : InspectResult) (sim : Option SimulateResult) (rest : StepsResult)
      (b : Bool)
      → r.deployed ≡ true
      → Reports b rest
      → Reports (r.deployed && b) (after_step (deployed_step req r sim) rest)
  unfolding deployed_step none_failed
  deployed_step-Reports req r sim rest b deployed k = rw deployed (after_step-Reports _ rest b k)

  instance_ttl_step-Reports :
      (req : CheckRequest) (r : InspectResult) (sim : Option SimulateResult) (rest : StepsResult)
      (b : Bool)
      → Reports b rest
      → Reports (tolerable r.instance_report && b) (after_step (instance_ttl_step req r sim) rest)
  unfolding instance_ttl_step
  instance_ttl_step-Reports req r sim rest b k =
      rw (← none_failed-one r.instance_report) (after_step-Reports _ rest b k)

  code_ttl_step-Reports :
      (req : CheckRequest) (r : InspectResult) (sim : Option SimulateResult) (rest : StepsResult)
      (b : Bool)
      → Reports b rest
      → Reports (code_tolerable r.code && b) (after_step (code_ttl_step req r sim) rest)
  unfolding code_ttl_step
  code_ttl_step-Reports req r sim rest b k =
      rw (← code_checks-tolerable r.code) (after_step-Reports _ rest b k)

  data_ttl_step-Reports :
      (req : CheckRequest) (r : InspectResult) (sim : Option SimulateResult) (rest : StepsResult)
      (b : Bool)
      → Reports b rest
      → Reports (all_tolerable r.data_reports && b) (after_step (data_ttl_step req r sim) rest)
  unfolding data_ttl_step
  data_ttl_step-Reports req r sim rest b k =
      rw (← data_checks-tolerable r.data_reports) (after_step-Reports _ rest b k)

  steps-Reports :
      (req : CheckRequest) (r : InspectResult) (sim : Option SimulateResult)
      → r.deployed ≡ true
      → (is_empty req.function ≡ true) ⊎ (is_some sim ≡ true)
      → Reports (sound p req r sim) (run_steps (check_steps p) req r sim)
  unfolding sound run_steps check_steps
  steps-Reports req r sim deployed h =
      (deployed_step-Reports req r sim _ _ deployed (
        instance_ttl_step-Reports req r sim _ _ (
          code_ttl_step-Reports req r sim _ _ (
            data_ttl_step-Reports req r sim _ _
              (simulate_step-Reports req r sim _ _ h (expect_step-Reports req r sim))))))

  undeployed_steps :
      (req : CheckRequest) (r : InspectResult) (sim : Option SimulateResult)
      → r.deployed ≡ false
      → run_steps (check_steps p) req r sim ≡ ok (one (text "deployed") fail no_instance)
  unfolding run_steps check_steps deployed_step after_step
  undeployed_steps req r sim undeployed = rw undeployed refl

  -- What a check concludes from an inspection and a simulation.
  pub record Verdict (req : CheckRequest) (r : InspectResult) (sim : Option SimulateResult)
      (c : CheckResult) : Type 0 where
    pub subject : (c.contract_id ≡ req.contract_id) × (c.inspect_result ≡ r) × (c.simulation ≡ sim)
    pub status : c.status ≡ r.status
    pub verdict : c.all_ok ≡ sound p req r sim
    pub undeployed : (r.deployed ≡ true) ⊎ (c.checks ≡ one (text "deployed") fail no_instance)

  concluded-Verdict :
      (req : CheckRequest) (r : InspectResult) (sim : Option SimulateResult) (steps : StepsResult)
      → Reports (sound p req r sim) steps
      → (r.deployed ≡ true) ⊎ (steps ≡ ok (one (text "deployed") fail no_instance))
      → (c : CheckResult) × (concluded p req r sim steps ≡ ok c) × Verdict req r sim c
  unfolding concluded Reports check_result
  concluded-Verdict req r sim (err e) h stopped = absurd h
  concluded-Verdict req r sim (ok checks) h stopped = (
    check_result req r sim checks,
    refl,
    record {
      subject = (refl, refl, refl);
      status = refl;
      verdict = h;
      undeployed = elim stopped [ inl deployed ↦ inl deployed | inr same ↦ inr cc ];
    },
  )

  undeployed-Reports :
      (req : CheckRequest) (r : InspectResult) (sim : Option SimulateResult)
      → r.deployed ≡ false
      → Reports (sound p req r sim) (run_steps (check_steps p) req r sim)
  unfolding sound Reports none_failed
  undeployed-Reports req r sim undeployed =
      rw (undeployed_steps req r sim undeployed, undeployed) refl

  -- Given a simulation just when the contract is deployed and a function is named, the steps
  -- always conclude, and say that all is well just if the request's demands are met.
  pub conclude-Verdict :
      (req : CheckRequest) (r : InspectResult) (sim : Option SimulateResult)
      → is_some sim ≡ wanted req r
      → (c : CheckResult) × (conclude p req r sim ≡ ok c) × Verdict req r sim c
  unfolding wanted conclude
  conclude-Verdict req r sim h = elim (Bool-cases r.deployed) [
    | inl deployed ↦
        concluded-Verdict req r sim _ (steps-Reports req r sim deployed (ground arith))
          (inl deployed)
    | inr undeployed ↦
        concluded-Verdict req r sim _ (undeployed-Reports req r sim undeployed)
          (inr (undeployed_steps req r sim undeployed))
  ]
