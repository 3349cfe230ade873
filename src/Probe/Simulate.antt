-- ===== src/Probe/Simulate.antt =====
-- internal/probe/simulate.go: the report of a simulated call. The Stellar SDK is a parameter.
pub mod Auth
pub mod Run
pub mod Batch
pub mod Judged
pub mod Items
use soroprobe.Prelude.{
  ℕ, ◌%◌, ◌^◌, ◌++◌, Bool, true, false, Option, none, some, List, [], ◌∷◌, if◌then◌else◌, Text,
  text, is_empty, take, Result, ok, err, map,
}
use soroprobe.Prelude.Outcome.{◌>>=◌}
use soroprobe.Prelude.Int.{ℤ, pos}
use soroprobe.Prelude.Strings.Hex.{hex_encode}
use soroprobe.Errors.{Error}
use soroprobe.Scval.Value.{ScVal, ScAddress}
use soroprobe.Scval.Decode.{Json}
use soroprobe.Stellar.{KeyDurability, persistent, temporary}
use soroprobe.Abi.{AbiError}
use soroprobe.Probe.Cost.{Cost, Float, CostComparison, estimate_total_fee}
use soroprobe.Probe.Spread.{Footprint, SpreadReport}
use soroprobe.Probe.Simulate.Auth.{AuthEntry, AuthSdk, decode_auth_entries}

-- xdr.LedgerKey, as far as its label shows it: a contract's data with its key, code by its hash, an
-- account by its address, or another kind by its name
pub data FootprintKey : Type 0 where
  data_key : ScAddress → ScVal → KeyDurability → FootprintKey
  code_key account_key other_key : Text → FootprintKey
  trustline_key ttl_key : FootprintKey

-- xdr.SorobanTransactionData
pub record TransactionData : Type 0 where
  pub instructions : ℕ
  pub disk_read_bytes : ℕ
  pub write_bytes : ℕ
  pub resource_fee : ℤ
  pub read_only : List FootprintKey
  pub read_write : List FootprintKey

-- xdr.DiagnosticEvent
pub record DiagnosticEvent : Type 0 where
  pub kind : Text
  pub contract_id : Option Text
  pub topics : List ScVal
  pub payload : ScVal
  pub in_successful_contract_call : Bool

-- what the program takes from the SDK here
pub record SimulationSdk : Type 0 where
  pub unmarshal_transaction : Text → Result Text TransactionData
  pub unmarshal_value : Text → Result Text ScVal
  pub unmarshal_event : Text → Result Text DiagnosticEvent
  pub address_text : ScAddress → Option Text
  pub auth : AuthSdk

pub data SimulateError : Type 0 where
  plain : Error → SimulateError
  in_abi : AbiError → SimulateError
  function_required : SimulateError
  -- ErrBaselineMismatch: no name, another contract, another function
  baseline_unnamed : SimulateError
  baseline_contract baseline_function : Text → Text → SimulateError
  decode_restore_data decode_transaction_data decode_return_value : Text → SimulateError
  return_value : Error → SimulateError
  empty_batch : SimulateError
  -- the panic of a result that is nil
  nil_result : SimulateError

unfoldable pub durability_name : KeyDurability → Text
durability_name temporary = text "temporary"
durability_name persistent = text "persistent"

unfoldable pub data_kind : ScVal → Text
data_kind ScVal.ledger_key_contract_instance = text "instance"
data_kind _ = text "data"

unfoldable pub address_or : Option Text → Text
address_or none = text "<unknown contract>"
address_or (some a) = a

-- describeLedgerKey
unfoldable pub describe_ledger_key : (ScAddress → Option Text) → FootprintKey → Text
describe_ledger_key address_text (data_key c k d) =
    text "contract "
    ++ (data_kind k
        ++ (text " "
            ++ (address_or (address_text c) ++ (text " (" ++ (durability_name d ++ text ")")))))
describe_ledger_key address_text (code_key hash) = text "contract code " ++ hex_encode (take 8 hash)
describe_ledger_key address_text (account_key a) = text "account " ++ a
describe_ledger_key address_text trustline_key = text "trustline"
describe_ledger_key address_text ttl_key = text "ttl entry"
describe_ledger_key address_text (other_key name) = name

-- describeFootprint
unfoldable pub describe_footprint : (ScAddress → Option Text) → TransactionData → Footprint
describe_footprint address_text d = record {
  read_only = map (describe_ledger_key address_text) d.read_only;
  read_write = map (describe_ledger_key address_text) d.read_write;
}

pub record RestoreInfo : Type 0 where
  pub min_resource_fee : ℤ
  pub archived_entries : List Text
  pub transaction_data_xdr : Text

pub record Event : Type 0 where
  pub kind : Text
  pub contract_id : Text
  pub topics : List Json
  pub payload : Json
  pub in_successful_contract_call : Bool

-- the response of the RPC endpoint; a result has the value and the authorizations, if they are set
pub record SimulationResponse : Type 0 where
  pub error : Text
  pub latest_ledger : ℕ
  pub min_resource_fee : ℤ
  pub restore_preamble : Option (ℤ × Text)
  pub transaction_data_xdr : Text
  pub results : List (Option Text × Option (List Text))
  pub events_xdr : List Text

pub record Baseline : Type 0 where
  pub contract_id : Text
  pub function : Text
  pub cost : Cost

pub record SimulateRequest : Type 0 where
  pub contract_id : Text
  pub function : Text
  pub args : List Text
  pub baseline : Option Baseline
  pub max_increase_percent : Option Float
  pub repeat : ℤ
  pub max_spread_percent : Option Float

pub record SimulateResult : Type 0 where
  pub contract_id : Text
  pub function : Text
  pub args : List Text
  pub signature : Text
  pub encoded_args : List Text
  pub abi_note : Option AbiError
  pub success : Bool
  pub error : Text
  pub return_value : Option Json
  pub return_value_xdr : Text
  pub cost : Cost
  pub footprint : Footprint
  pub comparison : Option CostComparison
  pub spread : Option SpreadReport
  pub restore_required : Option RestoreInfo
  pub events : List Event
  pub auth : List AuthEntry
  pub latest_ledger : ℕ

module _ (sdk : SimulationSdk) (decode : ScVal → Result Error Json) where
  unfoldable pub decode_all : List ScVal → Option (List Json)
  decode_all [] = some []
  decode_all (v ∷ vs) = elim (decode v) [
    | err e ↦ none
    | ok j ↦ elim (decode_all vs) [ none ↦ none | some js ↦ some (j ∷ js) ]
  ]

  unfoldable pub contract_text : Option Text → Text
  contract_text none = []
  contract_text (some id) = elim (sdk.address_text (ScAddress.contract id)) [
    | none ↦ []
    | some a ↦ a
  ]

  unfoldable pub event_of : DiagnosticEvent → Option Event
  event_of e = elim (decode_all e.topics) [
    | none ↦ none
    | some topics ↦ elim (decode e.payload) [
      | err x ↦ none
      | ok payload ↦ some (record {
        kind = e.kind;
        contract_id = contract_text e.contract_id;
        topics = topics;
        payload = payload;
        in_successful_contract_call = e.in_successful_contract_call;
      })
    ]
  ]

  -- decodeEvents, whose error is only logged
  unfoldable pub decode_events : List Text → Option (List Event)
  decode_events [] = some []
  decode_events (t ∷ ts) = elim (sdk.unmarshal_event t) [
    | err e ↦ none
    | ok e ↦ elim (event_of e) [
      | none ↦ none
      | some event ↦ elim (decode_events ts) [ none ↦ none | some es ↦ some (event ∷ es) ]
    ]
  ]

  unfoldable pub events_or_none : Option (List Event) → List Event
  events_or_none none = []
  events_or_none (some es) = es

  -- the blocks of buildSimulateResult
  unfoldable pub restore_info : Option (ℤ × Text) → Result SimulateError (Option RestoreInfo)
  restore_info none = ok none
  restore_info (some (fee, xdr)) = elim (sdk.unmarshal_transaction xdr) [
    | err e ↦ err (decode_restore_data e)
    | ok d ↦ ok (
        some (record {
          min_resource_fee = fee;
          archived_entries = map (describe_ledger_key sdk.address_text) d.read_write;
          transaction_data_xdr = xdr;
        }))
  ]

  abbrev pub no_footprint : Footprint
  no_footprint = record { read_only = []; read_write = [] }

  -- the cost before the total fee is estimated, and the footprint
  unfoldable pub cost_of : ℤ → Text → Result SimulateError (Cost × Footprint)
  cost_of min_fee xdr =
      let base : Cost = record {
        instructions = 0;
        disk_read_bytes = 0;
        write_bytes = 0;
        resource_fee = pos 0;
        min_resource_fee = min_fee;
        estimated_total_fee = pos 0;
      } in
      if is_empty xdr then ok (base, no_footprint) else elim (sdk.unmarshal_transaction xdr) [
        | err e ↦ err (decode_transaction_data e)
        | ok d ↦ ok (
          record base {
            instructions = d.instructions;
            disk_read_bytes = d.disk_read_bytes;
            write_bytes = d.write_bytes;
            resource_fee = d.resource_fee;
          },
          describe_footprint sdk.address_text d,
        )
      ]

  unfoldable pub value_of :
      List (Option Text × Option (List Text)) → Result SimulateError (Option Json × Text)
  value_of ((some raw, auth) ∷ rs) = elim (sdk.unmarshal_value raw) [
    | err e ↦ err (decode_return_value e)
    | ok v ↦ elim (decode v) [ err e ↦ err (return_value e) | ok j ↦ ok (some j, raw) ]
  ]
  value_of _ = ok (none, [])

  unfoldable pub auth_of : Text → List (Option Text × Option (List Text)) → List AuthEntry
  auth_of source ((v, some raw) ∷ rs) =
      decode_auth_entries sdk.auth sdk.address_text decode source raw
  auth_of source _ = []

  -- buildSimulateResult
  unfoldable pub build_simulate_result :
      Text → ℤ → SimulateRequest → SimulationResponse → Result SimulateError SimulateResult
  build_simulate_result source base_fee req r = restore_info r.restore_preamble >>= λ restore.
      cost_of r.min_resource_fee r.transaction_data_xdr >>= λ c. value_of r.results >>= λ v.
      ok (record {
        contract_id = req.contract_id;
        function = req.function;
        args = req.args;
        signature = [];
        encoded_args = [];
        abi_note = none;
        success = is_empty r.error;
        error = r.error;
        return_value = v.0;
        return_value_xdr = v.1;
        cost = record c.0 { estimated_total_fee = estimate_total_fee c.0.resource_fee base_fee };
        footprint = c.1;
        comparison = none;
        spread = none;
        restore_required = restore;
        events = events_or_none (decode_events r.events_xdr);
        auth = auth_of source r.results;
        latest_ledger = r.latest_ledger;
      })
