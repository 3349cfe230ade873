-- ===== src/Probe/Check/Expect.antt =====
-- internal/probe/check.go: the assertion on the returned value, and Prober.Check itself.
use soroprobe.Prelude.{
  ℕ, Bool, true, false, not, ◌&&◌, ◌==◌, Option, none, some, List, [], ◌∷◌, if◌then◌else◌, Result,
  ok, err, Text, text, text_eq, is_empty,
}
use soroprobe.Prelude.Int.{ℤ, ltb_ℤ}
use soroprobe.Errors.{Error}
use soroprobe.Scval.Value.{ScVal}
use soroprobe.Scval.Decode.{Json, to_big_int}
use soroprobe.Stellar.{Sdk}
use soroprobe.Probe.Exec.{Exec, pure, lift, ◌>>=◌}
use soroprobe.Probe.Report.{InspectRequest, InspectResult}
use soroprobe.Probe.Prober.{Prober, Session}
use soroprobe.Probe.Cache.{inspect}
use soroprobe.Probe.Check.{
  CheckRequest, SimulateRequest, SimulateResult, CheckOutcome, pass, fail, Detail,
  expect_without_function, expect_without_result, invalid_expected, undecodable_actual,
  expected_got, type_mismatch, CheckResult, StepsResult, CheckStep, one, deployed_step,
  instance_ttl_step, code_ttl_step, data_ttl_step, simulate_step, run_steps, check_result,
}

-- The XDR discriminant of a value's type, by name in front of the types that have none here.
unfoldable pub type_of : ScVal → ℕ × Text
type_of (ScVal.bool b) = (0, [])
type_of ScVal.void = (1, [])
type_of (ScVal.error e) = (2, [])
type_of (ScVal.u32 n) = (3, [])
type_of (ScVal.i32 z) = (4, [])
type_of (ScVal.u64 n) = (5, [])
type_of (ScVal.i64 z) = (6, [])
type_of (ScVal.timepoint n) = (7, [])
type_of (ScVal.duration n) = (8, [])
type_of (ScVal.u128 w) = (9, [])
type_of (ScVal.i128 w) = (10, [])
type_of (ScVal.u256 w) = (11, [])
type_of (ScVal.i256 w) = (12, [])
type_of (ScVal.bytes b) = (13, [])
type_of (ScVal.string s) = (14, [])
type_of (ScVal.symbol s) = (15, [])
type_of ScVal.no_vec = (16, [])
type_of (ScVal.vec v) = (16, [])
type_of ScVal.no_map = (17, [])
type_of (ScVal.mapping m) = (17, [])
type_of (ScVal.address a) = (18, [])
type_of ScVal.no_instance = (19, [])
type_of (ScVal.instance_bare e) = (19, [])
type_of (ScVal.instance_with e m) = (19, [])
type_of ScVal.ledger_key_contract_instance = (20, [])
type_of (ScVal.ledger_key_nonce n) = (21, [])
type_of (ScVal.unsupported name) = (22, name)

abbrev pub same_type : ℕ × Text → ℕ × Text → Bool
same_type (m, s) (n, t) = (m == n) && text_eq s t

-- big.Int's Cmp is 0
unfoldable pub eq_ℤ : ℤ → ℤ → Bool
eq_ℤ a b = not (ltb_ℤ a b) && not (ltb_ℤ b a)

-- the tail of compareScVals, by the two MarshalBinary
unfoldable pub compare_bytes : Sdk → ScVal → ScVal → Option Text → Option Text → Bool
compare_bytes sdk a b (some s) (some t) = text_eq s t
compare_bytes sdk a b _ _ = sdk.deep_equal a b

-- compareScVals on values that are not both integers
unfoldable pub compare_others : Sdk → ScVal → ScVal → Bool × Bool
compare_others sdk a b =
    if not (same_type (type_of a) (type_of b))
    then (false, true)
    else (compare_bytes sdk a b (sdk.marshal_value a) (sdk.marshal_value b), false)

unfoldable pub compare_by : Sdk → ScVal → ScVal → Option ℤ → Option ℤ → Bool × Bool
compare_by sdk a b (some x) (some y) = (eq_ℤ x y, false)
compare_by sdk a b (some x) none = (false, true)
compare_by sdk a b none (some y) = (false, true)
compare_by sdk a b none none = compare_others sdk a b

-- compareScVals: whether they match, and whether their types do not
unfoldable pub compare_sc_vals : Sdk → ScVal → ScVal → Bool × Bool
compare_sc_vals sdk a b = compare_by sdk a b (to_big_int a) (to_big_int b)

unfoldable pub to_option : {E A : Type 0} → Result E A → Option A
to_option (ok a) = some a
to_option (err e) = none

-- the last three returns of expectCheck
unfoldable pub matched : Bool × Bool → Option Json → Option Json → CheckOutcome × Detail
matched (true, mismatch) expected actual = (pass, expected_got expected actual)
matched (false, true) expected actual = (fail, type_mismatch expected actual)
matched (false, false) expected actual = (fail, expected_got expected actual)

module _ {W : Type 0} (p : Prober W) where
  -- the returned value; a call that returned nothing returned void
  unfoldable pub actual_value : SimulateResult → Result Text ScVal
  actual_value sim =
      if is_empty sim.return_value_xdr
      then ok ScVal.void
      else p.sdk.unmarshal_value sim.return_value_xdr

  unfoldable pub expect_values : SimulateResult → ScVal → Result Text ScVal → CheckOutcome × Detail
  expect_values sim expected (err e) = (fail, undecodable_actual e)
  expect_values sim expected (ok actual) =
      matched (compare_sc_vals p.sdk expected actual) (to_option (p.codec.decode expected))
        sim.return_value

  unfoldable pub expect_encoded : Text → SimulateResult → Result Error ScVal → CheckOutcome × Detail
  expect_encoded spec sim (err e) = (fail, invalid_expected spec e)
  expect_encoded spec sim (ok expected) = expect_values sim expected (actual_value sim)

  unfoldable pub expect_simulated : Text → Option SimulateResult → CheckOutcome × Detail
  expect_simulated spec none = (fail, expect_without_result)
  expect_simulated spec (some sim) =
      if not sim.success
      then (fail, expect_without_result)
      else expect_encoded spec sim (p.codec.encode spec)

  -- expectCheck
  unfoldable pub expect_check : CheckRequest → Option SimulateResult → CheckOutcome × Detail
  expect_check req sim =
      if is_empty req.function
      then (fail, expect_without_function)
      else expect_simulated req.expect sim

  unfoldable pub expect_step : CheckStep
  expect_step req r sim =
      let (outcome, detail) = expect_check req sim in
      if is_empty req.expect then ([], none) else (one (text "expect") outcome detail, none)

  -- checkSteps
  unfoldable pub check_steps : List CheckStep
  check_steps =
      deployed_step ∷ instance_ttl_step ∷ code_ttl_step ∷ data_ttl_step ∷ simulate_step
      ∷ expect_step ∷ []

  abbrev pub inspect_request : CheckRequest → InspectRequest
  inspect_request req = record {
    contract_id = req.contract_id;
    data_keys = req.data_keys;
    data_durability = req.data_durability;
    estimate_extend = 0;
  }

  abbrev pub simulate_request : CheckRequest → SimulateRequest
  simulate_request req = record {
    contract_id = req.contract_id;
    function = req.function;
    args = req.args;
  }

  -- the end of Check, by the checks that its steps gave
  unfoldable pub concluded :
      CheckRequest → InspectResult → Option SimulateResult → StepsResult → Result Error CheckResult
  concluded req r sim (ok checks) = ok (check_result req r sim checks)
  concluded req r sim (err e) = err e

  -- what Check does once the simulation is there
  unfoldable pub conclude :
      CheckRequest → InspectResult → Option SimulateResult → Result Error CheckResult
  conclude req r sim = concluded req r sim (run_steps check_steps req r sim)

  module _ (simulate : SimulateRequest → Exec (Session W) SimulateResult) where
    unfoldable pub gather_if : Bool → CheckRequest → Exec (Session W) (Option SimulateResult)
    gather_if true req = simulate (simulate_request req) >>= (λ sim. pure (some sim))
    gather_if false req = pure none

    -- the simulation, only for a deployed contract and a named function
    unfoldable pub gather : CheckRequest → InspectResult → Exec (Session W) (Option SimulateResult)
    gather req r = gather_if (r.deployed && not (is_empty req.function)) req

    -- Prober.Check
    unfoldable pub check : CheckRequest → Exec (Session W) CheckResult
    check req = do
      r ← inspect p (inspect_request req)
      sim ← gather req r
      lift (conclude req r sim)
