-- ===== src/Tests/Simulate.antt =====
-- Simulated calls at a concrete endpoint.
use soroprobe.Prelude.{◌≡◌, refl, none, some, [], ◌∷◌, text, text_eq, ok, err}
use soroprobe.Prelude.Int.{pos}
use soroprobe.Scval.Value.{ScVal}
use soroprobe.Stellar.{parse_contract_id}
use soroprobe.Probe.Simulate.{
  TransactionData, SimulationSdk, SimulationResponse, SimulateRequest, SimulateResult, code_key,
  restore_info, cost_of, value_of, build_simulate_result,
}
use soroprobe.Probe.Simulate.Run.{
  Simulator, check_baseline, more_runs, type_from, type_args, build_invocation_tx, built, with_run,
  after_run, run_all, last_from, finish, send, encoded, simulate_typed, unless_mismatch,
  simulate_parsed, simulate,
}
use soroprobe.Probe.Simulate.Batch.{batch_item, batch_call, Items, batch_from, simulate_batch}
use soroprobe.Probe.Simulate.Judged.{OfCall, Judged, simulate-Judged}
use soroprobe.Probe.Simulate.Items.{names, call_names, simulate_batch-names}
use soroprobe.Tests.World.{World, the_sdk, the_codec}
use soroprobe.Tests.Cost.{whole_percents, small_cost}

abbrev response : SimulationResponse
response = record {
  error = [];
  latest_ledger = 100;
  min_resource_fee = pos 480;
  restore_preamble = none;
  transaction_data_xdr = text "t";
  results = [];
  events_xdr = [];
}

abbrev resources : TransactionData
resources = record {
  instructions = 1_100;
  disk_read_bytes = 0;
  write_bytes = 64;
  resource_fee = pos 500;
  read_only = [];
  read_write = code_key (1 ∷ 2 ∷ []) ∷ [];
}

abbrev simulation_sdk : SimulationSdk
simulation_sdk = record {
  unmarshal_transaction = λ t. ok resources;
  unmarshal_value = λ t. ok ScVal.void;
  unmarshal_event = λ t. err (text "no");
  address_text = λ a. none;
  auth = record { unmarshal_auth = λ t. err (text "no") };
}

abbrev simulator : Simulator World
simulator = record {
  stellar = the_sdk;
  sdk = simulation_sdk;
  codec = the_codec;
  has_type = none;
  json = record {
    items = λ t. err (text "no");
    lists = λ t. err (text "no");
    string = λ t. err (text "no");
    marshal = λ t. err (text "no");
    marshal_pairs = λ t. err (text "no");
  };
  floats = whole_percents;
  source = text "G";
  base_fee = pos 100;
  interface = none;
  envelope = λ s c f args. ok (text "e");
  simulate_transaction = λ t w. (ok response, w);
  ctx_err = λ w. (none, w);
}

abbrev call : SimulateRequest
call = record {
  contract_id = text "C1";
  function = text "pay";
  args = [];
  baseline = some (record { contract_id = text "C1"; function = text "pay"; cost = small_cost });
  max_increase_percent = some 10;
  repeat = pos 2;
  max_spread_percent = none;
}

simulated : (r : SimulateResult) × ((simulate simulator call tt).0 ≡ ok r)
unfolding simulate simulate_parsed parse_contract_id unless_mismatch check_baseline text_eq
    simulate_typed type_args type_from send encoded build_invocation_tx finish run_all after_run
    with_run built build_simulate_result restore_info cost_of value_of more_runs last_from
simulated = (_, refl)

simulate-Judged_example : OfCall call.baseline call × Judged simulator call simulated.0
simulate-Judged_example = simulate-Judged simulator call tt simulated.0 simulated.1

batched :
    (items : Items simulator) × ((simulate_batch simulator
        ((text "first", call) ∷ ([], call) ∷ [])
        tt).0
      ≡ ok items)
unfolding simulate_batch batch_from batch_call batch_item simulate simulate_parsed parse_contract_id
    unless_mismatch check_baseline text_eq simulate_typed type_args type_from send encoded
    build_invocation_tx finish run_all after_run with_run built build_simulate_result restore_info
    cost_of value_of more_runs last_from
batched = (_, refl)

simulate_batch-names_example :
    names simulator batched.0 ≡ call_names simulator ((text "first", call) ∷ ([], call) ∷ [])
simulate_batch-names_example =
    simulate_batch-names simulator ((text "first", call) ∷ ([], call) ∷ []) tt batched.0 batched.1
