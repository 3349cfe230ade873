-- ===== src/Probe/Check/Answer.antt =====
-- What Prober.Check answers, as a whole.
use soroprobe.Prelude.{◌≡◌, refl, Bool, true, false, Option, none, some, ok}
use soroprobe.Probe.Exec.{Exec, pure}
use soroprobe.Probe.Exec.Ensures.{Ensures, bind-Ensures, Ensures-ok}
use soroprobe.Probe.Report.{InspectRequest, InspectResult}
use soroprobe.Probe.Prober.{Prober, Session}
use soroprobe.Probe.Cache.{inspect}
use soroprobe.Probe.Check.{CheckRequest, SimulateRequest, SimulateResult, CheckResult}
use soroprobe.Probe.Check.Expect.{gather_if, gather, check, inspect_request, simulate_request}
use soroprobe.Probe.Check.Sound.{is_some, wanted}
use soroprobe.Probe.Check.Verdict.{Verdict, conclude-Verdict}

-- The inspection that a check asks for is of its own contract and data entries, without an estimate.
pub record InspectOf (req : CheckRequest) (q : InspectRequest) : Type 0 where
  pub contract_id : q.contract_id ≡ req.contract_id
  pub data_keys : q.data_keys ≡ req.data_keys
  pub data_durability : q.data_durability ≡ req.data_durability
  pub estimate_extend : q.estimate_extend ≡ 0

-- The call that a check simulates is its own.
pub record CallOf (req : CheckRequest) (q : SimulateRequest) : Type 0 where
  pub contract_id : q.contract_id ≡ req.contract_id
  pub function : q.function ≡ req.function
  pub args : q.args ≡ req.args

module _ {W : Type 0} (p : Prober W)
    (simulate : SimulateRequest → Exec (Session W) SimulateResult) where
  -- What was gathered, by whether a simulation is wanted: the answer of one call of the simulator,
  -- for the contract, function and arguments of the check, or nothing.
  abbrev pub Gathered : Bool → CheckRequest → Session W → Option SimulateResult → Type 0
  Gathered true req s sim =
      (q : SimulateRequest) × CallOf req q
      × (a : SimulateResult) × ((simulate q s).0 ≡ ok a)
      × (sim ≡ some a)
  Gathered false req s sim = sim ≡ none

  Gathered-is_some :
      (b : Bool) (req : CheckRequest) (s : Session W) (sim : Option SimulateResult)
      → Gathered b req s sim
      → is_some sim ≡ b
  Gathered-is_some true req s sim (q, of_call, a, answer, e) = rw e refl
  Gathered-is_some false req s sim e = rw e refl

  gather_if-Gathered :
      (b : Bool) (req : CheckRequest) (s : Session W)
      → Ensures (Gathered b req s) (gather_if p simulate b req s).0
  unfolding gather_if
  gather_if-Gathered true req s =
      bind-Ensures (Gathered true req s) (simulate (simulate_request p req))
        (λ sim. pure (some sim)) s
        (λ a e. (
          simulate_request p req,
          record { contract_id = refl; function = refl; args = refl },
          a,
          e,
          refl,
        ))
  gather_if-Gathered false req s = refl

  gather-Gathered :
      (req : CheckRequest) (r : InspectResult) (s : Session W)
      → Ensures (Gathered (wanted req r) req s) (gather p simulate req r s).0
  unfolding gather wanted
  gather-Gathered req r s = gather_if-Gathered _ req s

  -- What a check that returned a result says, of an inspection and perhaps a simulation.
  pub Answered : CheckRequest → Session W → CheckResult → Type 0
  Answered req s c =
      (q : InspectRequest) × InspectOf req q
      × (r : InspectResult) × ((inspect p q s).0 ≡ ok r)
      × (sim : Option SimulateResult) × Gathered (wanted req r) req (inspect p q s).1 sim
      × Verdict p req r sim c

  check-Ensures :
      (req : CheckRequest) (s : Session W) → Ensures (Answered req s) (check p simulate req s).0
  unfolding check Answered
  check-Ensures req s =
      bind-Ensures (Answered req s) (inspect p (inspect_request p req)) _ s (λ r e.
        bind-Ensures (Answered req s) (gather p simulate req r) _ _ (λ sim e'.
          let t = (inspect p (inspect_request p req) s).1 in
          let gathered =
            Ensures-ok (Gathered (wanted req r) req t) _ sim (gather-Gathered req r t) e' in
          let h = Gathered-is_some (wanted req r) req t sim gathered in
          let (c, concluded, verdict) = conclude-Verdict p req r sim h in
          rw concluded (
            inspect_request p req,
            record {
              contract_id = refl;
              data_keys = refl;
              data_durability = refl;
              estimate_extend = refl;
            },
            r,
            e,
            sim,
            gathered,
            verdict,
          )))

  -- Every result of the check comes from one inspection, of the contract and the data keys and
  -- durability of the request and without an estimate, and from one simulation after it, of the
  -- request's call, just if the contract is deployed and the request names a function. It says that
  -- all is well just if the contract is deployed, no entry is worse than a warning, the named call
  -- succeeds and the expected value comes back; for a contract that is not deployed it names that
  -- check only.
  pub check-verdict :
      (req : CheckRequest) (s : Session W) (c : CheckResult)
      → (check p simulate req s).0 ≡ ok c
      → Answered req s c
  check-verdict req s c h =
      Ensures-ok (Answered req s) (check p simulate req s).0 c (check-Ensures req s) h
