-- ===== src/Stellar.antt =====
-- internal/stellar: ledger keys, transaction envelopes and the RPC interface.
-- The Stellar SDK (strkey, XDR, transaction building) and the RPC endpoint are parameters.
use soroprobe.Prelude.{
  ℕ, Bool, Option, List, if◌then◌else◌, ◌==◌, Result, ok, err, Text, is_empty, length,
}
use soroprobe.Prelude.Int.{ℤ}
use soroprobe.Errors.{
  Error, invalid_contract_id, contract_id_length, encode_ledger_key, decode_entry_data,
  source_required, build_transaction,
}
use soroprobe.Scval.Value.{ScVal, ScAddress}
use soroprobe.Scval.Encode.{copy_32}

pub data KeyDurability : Type 0 where
  persistent temporary : KeyDurability

pub data LedgerKey : Type 0 where
  contract_data : ScAddress → ScVal → KeyDurability → LedgerKey
  contract_code : Text → LedgerKey

-- What a ledger entry holds: the value of contract data, the bytes of contract code, or the name of
-- another entry type.
pub data EntryData : Type 0 where
  data_value : ScVal → EntryData
  wasm_code : List ℕ → EntryData
  other_entry : Text → EntryData

-- The resource fee of a SorobanTransactionData.
pub record Sdk : Type 0 where
  pub decode_contract : Text → Result Text Text
  pub marshal_key : LedgerKey → Result Text Text
  pub unmarshal_entry : Text → Result Text EntryData
  pub unmarshal_value : Text → Result Text ScVal
  pub unmarshal_resource_fee : Text → Result Text ℤ
  pub extend_envelope : Text → LedgerKey → ℕ → Result Text Text
  -- the XDR bytes of a value, and reflect.DeepEqual
  pub marshal_value : ScVal → Option Text
  pub deep_equal : ScVal → ScVal → Bool

unfoldable pub parse_contract_id : Sdk → Text → Result Error ScAddress
parse_contract_id sdk id = elim (sdk.decode_contract id) [
  | err e ↦ err (invalid_contract_id id e)
  | ok raw ↦
      if length raw == 32
      then ok (ScAddress.contract (copy_32 raw))
      else err (contract_id_length id (length raw))
]

unfoldable pub instance_key : ScAddress → LedgerKey
instance_key c = contract_data c ScVal.ledger_key_contract_instance persistent

unfoldable pub code_key : Text → LedgerKey
code_key hash = contract_code hash

unfoldable pub data_key : ScAddress → ScVal → KeyDurability → LedgerKey
data_key c key d = contract_data c key d

unfoldable pub encode_key : Sdk → LedgerKey → Result Error Text
encode_key sdk key = elim (sdk.marshal_key key) [ ok s ↦ ok s | err e ↦ err (encode_ledger_key e) ]

unfoldable pub decode_entry : Sdk → Text → Result Error EntryData
decode_entry sdk b64 = elim (sdk.unmarshal_entry b64) [
  | ok d ↦ ok d
  | err e ↦ err (decode_entry_data e)
]

-- BuildExtendFootprintTx
unfoldable pub build_extend_footprint_tx : Sdk → Text → LedgerKey → ℕ → Result Error Text
build_extend_footprint_tx sdk source key extend_to =
    if is_empty source
    then err source_required
    else elim (sdk.extend_envelope source key extend_to) [
      | ok envelope ↦ ok envelope
      | err e ↦ err (build_transaction e)
    ]

-- The RPC responses, as far as the program reads them. `live_until` is nil for an entry
-- without a TTL.
pub record LedgerEntry : Type 0 where
  pub key_xdr : Text
  pub data_xdr : Text
  pub live_until : Option ℕ

pub record EntriesResponse : Type 0 where
  pub entries : List LedgerEntry
  pub latest_ledger : ℕ

pub record LedgerInfo : Type 0 where
  pub sequence : ℕ
  pub close_time : ℤ

pub record SimulateResponse : Type 0 where
  pub error : Text
  pub transaction_data_xdr : Text
  pub min_resource_fee : ℤ

-- The RPC client over the state `W` of everything outside the program: a call returns an answer
-- or an error, and a new state. The context's error and the clock are read the same way.
pub record Client (W : Type 0) : Type 0 where
  pub get_ledger_entries : List Text → W → Result Error EntriesResponse × W
  pub get_latest_ledger : W → Result Error ℕ × W
  pub get_ledgers : ℕ → ℕ → W → Result Error (List LedgerInfo) × W
  pub simulate_transaction : Text → W → Result Error SimulateResponse × W
  pub get_health : W → Result Error Text × W
  pub get_network : W → Result Error Text × W
  pub ctx_err : W → Option Error × W
  pub now : W → ℤ × W
