-- ===== src/Tests/World.antt =====
-- A small network for the tests: one contract, a Stellar Asset Contract that lives for 900 ledgers
-- more, and an endpoint that answers no question about ledgers.
use soroprobe.Prelude.{true, none, some, [], ◌∷◌, ok, err, text, replicate}
use soroprobe.Prelude.Int.{pos}
use soroprobe.Health.{Durability}
use soroprobe.Errors.{Error, external}
use soroprobe.Scval.Value.{ScVal, Executable}
use soroprobe.Stellar.{Sdk, Client, LedgerEntry, data_value}
use soroprobe.Probe.Exec.{Exec}
use soroprobe.Probe.Report.{InspectRequest}
use soroprobe.Probe.Prober.{Codec, Prober, Session}
use soroprobe.Probe.Check.{CheckRequest, SimulateRequest, SimulateResult}

abbrev pub World : Type 0
World = Unit

abbrev pub failure : Error
failure = external (text "timeout")

abbrev pub the_entry : LedgerEntry
the_entry = record { key_xdr = text "k"; data_xdr = text "d"; live_until = some 1_000 }

abbrev pub the_client : Client World
the_client = record {
  get_ledger_entries = λ keys w. (ok (record { entries = the_entry ∷ []; latest_ledger = 100 }), w);
  get_latest_ledger = λ w. (err failure, w);
  get_ledgers = λ start n w. (err failure, w);
  simulate_transaction = λ t w.
      (ok (record { error = []; transaction_data_xdr = text "t"; min_resource_fee = pos 7 }), w);
  get_health = λ w. (ok (text "healthy"), w);
  get_network = λ w. (ok (text "test"), w);
  ctx_err = λ w. (none, w);
  now = λ w. (pos 50, w);
}

abbrev pub the_sdk : Sdk
the_sdk = record {
  decode_contract = λ id. ok (replicate 32 0);
  marshal_key = λ key. ok (text "k");
  unmarshal_entry = λ t. ok (data_value (ScVal.instance_bare Executable.stellar_asset));
  unmarshal_value = λ t. ok (ScVal.u64 (some 5));
  unmarshal_resource_fee = λ t. ok (pos 3);
  extend_envelope = λ source key extend_to. ok (text "e");
  marshal_value = λ v. none;
  deep_equal = λ a b. true;
}

abbrev pub the_codec : Codec
the_codec = record {
  encode = λ spec. ok (ScVal.i128 (some (record { hi = pos 0; lo = 5 })));
  encode_all = λ specs. ok [];
  decode = λ v. err failure;
}

abbrev pub the_prober : Prober World
the_prober = record {
  client = the_client;
  sdk = the_sdk;
  codec = the_codec;
  source = text "G";
  thresholds = record { warn = 50; crit = 10 };
  threshold_overrides = record { for_instance = none; for_code = none; for_data = none };
}

abbrev pub the_session : Session World
the_session = record {
  world = tt;
  ledger_time = record { duration = pos 0; measured_at = pos 0 };
  cache = none;
}

abbrev pub the_request : InspectRequest
the_request = record {
  contract_id = text "C1";
  data_keys = [];
  data_durability = Durability.unset;
  estimate_extend = 0;
}

abbrev pub a_check : CheckRequest
a_check = record {
  contract_id = text "C1";
  function = text "balance";
  args = [];
  expect = text "i128:5";
  data_keys = [];
  data_durability = Durability.unset;
}

abbrev pub a_simulation : SimulateResult
a_simulation = record {
  success = true;
  error = [];
  return_value = none;
  return_value_xdr = text "v";
  instructions = 1;
  min_resource_fee = pos 1;
}

abbrev pub simulated : SimulateRequest → Exec (Session World) SimulateResult
simulated req s = (ok a_simulation, s)
