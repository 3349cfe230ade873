-- ===== src/Probe/Simulate/Run.antt =====
-- internal/probe/simulate.go: Simulate and SimulateBatch. internal/stellar/tx.go: BuildInvocationTx.
use soroprobe.Prelude.{
  ℕ, zero, suc, ◌-◌, Bool, false, not, ◌||◌, ltb, Option, none, some, List, [], ◌∷◌, if◌then◌else◌,
  Text, text_eq, is_empty, Result, ok, err, map,
}
use soroprobe.Prelude.Outcome.{◌>>=◌}
use soroprobe.Prelude.Int.{ℤ, pos, pos_part, ltb_ℤ}
use soroprobe.Errors.{Error, source_required, build_transaction}
use soroprobe.Scval.Value.{ScVal, ScAddress}
use soroprobe.Stellar.{Sdk, parse_contract_id}
use soroprobe.Abi.{Interface, AbiError, lookup_function, signature}
use soroprobe.Abi.Annotate as Annotate
use soroprobe.Probe.Prober.{Codec}
use soroprobe.Probe.Cost.{Cost, Floats, CostComparison, compare_cost}
use soroprobe.Probe.Spread.{SpreadReport, spread_cost}
use soroprobe.Probe.Simulate.{
  SimulationSdk, SimulationResponse, SimulateError, plain, in_abi, function_required, nil_result,
  baseline_unnamed, baseline_contract, baseline_function, SimulateRequest, SimulateResult,
  build_simulate_result,
}

-- What Simulate uses of a prober. `has_type` is that of a codec that has it, and `interface` the
-- source of interfaces, if one is configured.
pub record Simulator (W : Type 0) : Type 0 where
  pub stellar : Sdk
  pub sdk : SimulationSdk
  pub codec : Codec
  pub has_type : Option (Text → Bool)
  pub json : Annotate.Json
  pub floats : Floats
  pub source : Text
  pub base_fee : ℤ
  pub interface : Option (Text → W → Result AbiError Interface × W)
  pub envelope : Text → ScAddress → Text → List ScVal → Result Text Text
  pub simulate_transaction : Text → W → Result Error SimulationResponse × W
  pub ctx_err : W → Option Error × W

-- checkBaseline: none if there is no baseline or it is one of this call
unfoldable pub check_baseline : SimulateRequest → Option SimulateError
check_baseline req = elim req.baseline [
  | none ↦ none
  | some b ↦
      if is_empty b.contract_id || is_empty b.function
      then some baseline_unnamed
      else if not (text_eq b.contract_id req.contract_id)
      then some (baseline_contract b.contract_id req.contract_id)
      else if not (text_eq b.function req.function)
      then some (baseline_function b.function req.function)
      else none
]

-- typedArgs
pub record TypedArgs : Type 0 where
  pub args : List Text
  pub signature : Text
  pub note : Option AbiError
  pub changed : Bool

abbrev pub untyped : List Text → TypedArgs
untyped args = record { args = args; signature = []; note = none; changed = false }

unfoldable pub any_changed : List Text → List Text → Bool
any_changed (a ∷ as_) (b ∷ bs) = not (text_eq a b) || any_changed as_ bs
any_changed _ _ = false

-- the runs of a request: one, and these more
unfoldable pub more_runs : ℤ → ℕ
more_runs z = if ltb_ℤ z (pos 1) then 0 else pos_part z - 1

module _ {W : Type 0} (p : Simulator W) where
  -- typeArgs, by the interface that was found
  unfoldable pub type_by :
      (Text → Bool) → SimulateRequest → Interface → Result SimulateError TypedArgs
  type_by has_type req i = elim (lookup_function i req.function) [
    | err e ↦ err (in_abi e)
    | ok f ↦ elim (Annotate.annotate p.json has_type f req.args) [
      | err e ↦ err (in_abi e)
      | ok args ↦ ok (record {
        args = args;
        signature = signature f;
        note = none;
        changed = any_changed args req.args;
      })
    ]
  ]

  -- an interface that cannot be had is noted, unless the request was canceled
  unfoldable pub note_unless_canceled :
      SimulateRequest → AbiError → Option Error × W → Result SimulateError TypedArgs × W
  note_unless_canceled req e (some c, w) = (err (plain c), w)
  note_unless_canceled req e (none, w) = (ok (record (untyped req.args) { note = some e }), w)

  unfoldable pub type_found :
      (Text → Bool)
      → SimulateRequest
      → Result AbiError Interface × W
      → Result SimulateError TypedArgs × W
  type_found has_type req (ok i, w) = (type_by has_type req i, w)
  type_found has_type req (err e, w) = note_unless_canceled req e (p.ctx_err w)

  unfoldable pub type_from :
      Option (Text → W → Result AbiError Interface × W)
      → Option (Text → Bool)
      → SimulateRequest
      → W
      → Result SimulateError TypedArgs × W
  type_from (some interface) (some has_type) req w =
      type_found has_type req (interface req.contract_id w)
  type_from _ _ req w = (ok (untyped req.args), w)

  -- typeArgs
  unfoldable pub type_args : SimulateRequest → W → Result SimulateError TypedArgs × W
  type_args req w = type_from p.interface p.has_type req w

  -- BuildInvocationTx
  unfoldable pub build_invocation_tx : ScAddress → Text → List ScVal → Result SimulateError Text
  build_invocation_tx address function args =
      if is_empty p.source
      then err (plain source_required)
      else if is_empty function
      then err function_required
      else elim (p.envelope p.source address function args) [
        | ok envelope ↦ ok envelope
        | err e ↦ err (plain (build_transaction e))
      ]

  unfoldable pub built :
      SimulateRequest → Result Error SimulationResponse → Result SimulateError SimulateResult
  built req (err e) = err (plain e)
  built req (ok r) = build_simulate_result p.sdk p.codec.decode p.source p.base_fee req r

  unfoldable pub with_run :
      SimulateResult
      → Result SimulateError (List SimulateResult) × W
      → Result SimulateError (List SimulateResult) × W
  with_run r (ok rs, w) = (ok (r ∷ rs), w)
  with_run r (err e, w) = (err e, w)

  unfoldable pub after_run :
      Result SimulateError SimulateResult
      → Result SimulateError (List SimulateResult) × W
      → W
      → Result SimulateError (List SimulateResult) × W
  after_run (err e) rest w = (err e, w)
  after_run (ok r) rest w = with_run r rest

  -- the loop of Simulate
  unfoldable pub run_all :
      SimulateRequest → Text → ℕ → W → Result SimulateError (List SimulateResult) × W
  run_all req envelope zero w = (ok [], w)
  run_all req envelope (suc n) w =
      let (response, w') = p.simulate_transaction envelope w in
      let rest = run_all req envelope n w' in after_run (built req response) rest w'

  -- the spread of several runs
  unfoldable pub spread_of : SimulateRequest → List SimulateResult → Option SpreadReport
  spread_of req runs =
      if ltb 0 (more_runs req.repeat)
      then some (
          spread_cost p.floats (map (λ (r : SimulateResult). r.cost) runs)
            (map (λ (r : SimulateResult). r.footprint) runs) req.max_spread_percent)
      else none

  unfoldable pub current_cost : Cost → Option SpreadReport → Cost
  current_cost c none = c
  current_cost c (some s) = s.max

  unfoldable pub comparison_of :
      SimulateRequest → Cost → Option SpreadReport → Option CostComparison
  comparison_of req c spread = elim req.baseline [
    | none ↦ none
    | some b ↦ some (compare_cost p.floats b.cost (current_cost c spread) req.max_increase_percent)
  ]

  -- the end of Simulate; `runs` are in the order in which they were made
  unfoldable pub report :
      SimulateRequest → TypedArgs → List SimulateResult → SimulateResult → SimulateResult
  report req typed runs last =
      let spread = spread_of req runs in
      record last {
        signature = typed.signature;
        abi_note = typed.note;
        encoded_args = if typed.changed then typed.args else [];
        spread = spread;
        comparison = comparison_of req last.cost spread;
      }

  unfoldable pub last_from : SimulateResult → List SimulateResult → SimulateResult
  last_from r [] = r
  last_from r (s ∷ ss) = last_from s ss

  -- There is a run at least, so the result is not nil.
  unfoldable pub finish :
      SimulateRequest
      → TypedArgs
      → Result SimulateError (List SimulateResult) × W
      → Result SimulateError SimulateResult × W
  finish req typed (err e, w) = (err e, w)
  finish req typed (ok [], w) = (err nil_result, w)
  finish req typed (ok (r ∷ rs), w) = (ok (report req typed (r ∷ rs) (last_from r rs)), w)

  unfoldable pub send :
      SimulateRequest
      → TypedArgs
      → Result SimulateError Text
      → W
      → Result SimulateError SimulateResult × W
  send req typed (err e) w = (err e, w)
  send req typed (ok envelope) w =
      finish req typed (run_all req envelope (suc (more_runs req.repeat)) w)

  unfoldable pub encoded : Result Error (List ScVal) → Result SimulateError (List ScVal)
  encoded (ok vs) = ok vs
  encoded (err e) = err (plain e)

  unfoldable pub simulate_typed :
      SimulateRequest
      → ScAddress
      → Result SimulateError TypedArgs × W
      → Result SimulateError SimulateResult × W
  simulate_typed req address (err e, w) = (err e, w)
  simulate_typed req address (ok typed, w) =
      send req typed
        (encoded (p.codec.encode_all typed.args) >>= λ args.
          build_invocation_tx address req.function args)
        w

  unfoldable pub unless_mismatch :
      SimulateRequest
      → ScAddress
      → Option SimulateError
      → W
      → Result SimulateError SimulateResult × W
  unless_mismatch req address (some e) w = (err e, w)
  unless_mismatch req address none w = simulate_typed req address (type_args req w)

  unfoldable pub simulate_parsed :
      SimulateRequest
      → Result Error ScAddress
      → Option SimulateError
      → W
      → Result SimulateError SimulateResult × W
  simulate_parsed req (err e) mismatch w = (err (plain e), w)
  simulate_parsed req (ok address) mismatch w =
      if is_empty req.function
      then (err function_required, w)
      else unless_mismatch req address mismatch w

  -- Simulate
  unfoldable pub simulate : SimulateRequest → W → Result SimulateError SimulateResult × W
  simulate req w =
      simulate_parsed req (parse_contract_id p.stellar req.contract_id) (check_baseline req) w
