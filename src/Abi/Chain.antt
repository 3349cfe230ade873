-- ===== src/Abi/Chain.antt =====
-- internal/abi/chain.go: the interface in a contract's deployed Wasm code, with its cache.
-- The XDR decoder of a spec entry is a parameter; the lock around the cache is left out, since one
-- call is one step.
pub mod Cached
use soroprobe.Prelude.{
  ℕ, zero, suc, Option, none, some, List, [], ◌∷◌, ◌++◌, if◌then◌else◌, Text, text, Result, ok, err,
  length,
}
use soroprobe.Prelude.Outcome.{◌>>=◌}
use soroprobe.Prelude.Dict.{Dict, lookup, insert}
use soroprobe.Prelude.Strings.Hex.{hex_encode}
use soroprobe.Errors.{Error}
use soroprobe.Scval.Value.{ScVal, Executable, ScAddress}
use soroprobe.Stellar.{
  Sdk, Client, EntriesResponse, LedgerEntry, EntryData, data_value, wasm_code, other_entry,
  parse_contract_id, instance_key, code_key, encode_key, decode_entry,
}
use soroprobe.Abi.{
  SpecType, spec_type, MaybeType, no_type, a_type, display, Param, Function, Interface, AbiError,
  unknown_contract, no_wasm, client, decode_instance, decode_code, not_contract_data,
  not_an_instance, no_wasm_hash, not_contract_code, code_not_found, in_wasm, decode_spec,
}
use soroprobe.Abi.Wasm.{out_of_fuel, custom_section}

-- xdr.ScSpecTypeDef
pub data SpecDef : Type 0 where
  option_def vec_def : SpecDef → SpecDef
  map_def : SpecDef → SpecDef → SpecDef
  result_def tuple_def bytes_n_def : SpecDef
  udt_def : Text → SpecDef
  val_def bool_def void_def error_def u32_def i32_def u64_def i64_def : SpecDef
  timepoint_def duration_def u128_def i128_def u256_def i256_def : SpecDef
  bytes_def string_def symbol_def address_def muxed_address_def : SpecDef
  other_def : Text → SpecDef

abbrev pub named : Text → SpecType
named n = spec_type n n no_type no_type no_type no_type

-- specType
unfoldable pub spec_type_of : SpecDef → SpecType
spec_type_of (option_def d) =
    let inner = spec_type_of d in
    spec_type (text "option") (text "Option<" ++ (display inner ++ text ">")) (a_type inner) no_type
      no_type no_type
spec_type_of (vec_def d) =
    let element = spec_type_of d in
    spec_type (text "vec") (text "Vec<" ++ (display element ++ text ">")) no_type (a_type element)
      no_type no_type
spec_type_of (map_def k v) =
    let key = spec_type_of k in
    let value = spec_type_of v in
    spec_type (text "map")
      (text "Map<" ++ (display key ++ (text ", " ++ (display value ++ text ">")))) no_type no_type
      (a_type key) (a_type value)
spec_type_of result_def = spec_type (text "result") (text "Result") no_type no_type no_type no_type
spec_type_of tuple_def = spec_type (text "tuple") (text "Tuple") no_type no_type no_type no_type
spec_type_of bytes_n_def =
    spec_type (text "bytes_n") (text "BytesN") no_type no_type no_type no_type
spec_type_of (udt_def name) = spec_type (text "udt") name no_type no_type no_type no_type
spec_type_of val_def = named (text "val")
spec_type_of bool_def = named (text "bool")
spec_type_of void_def = named (text "void")
spec_type_of error_def = named (text "error")
spec_type_of u32_def = named (text "u32")
spec_type_of i32_def = named (text "i32")
spec_type_of u64_def = named (text "u64")
spec_type_of i64_def = named (text "i64")
spec_type_of timepoint_def = named (text "timepoint")
spec_type_of duration_def = named (text "duration")
spec_type_of u128_def = named (text "u128")
spec_type_of i128_def = named (text "i128")
spec_type_of u256_def = named (text "u256")
spec_type_of i256_def = named (text "i256")
spec_type_of bytes_def = named (text "bytes")
spec_type_of string_def = named (text "string")
spec_type_of symbol_def = named (text "symbol")
spec_type_of address_def = named (text "address")
spec_type_of muxed_address_def = named (text "address")
spec_type_of (other_def name) = named name

-- xdr.ScSpecFunctionV0; an entry of another kind is `none`
pub record FunctionSpec : Type 0 where
  pub name : Text
  pub doc : Text
  pub inputs : List (Text × SpecDef)
  pub outputs : List SpecDef

unfoldable pub params_of : List (Text × SpecDef) → List Param
params_of [] = []
params_of ((n, d) ∷ ps) = (record { name = n; of_type = spec_type_of d }) ∷ params_of ps

unfoldable pub types_of : List SpecDef → List SpecType
types_of [] = []
types_of (d ∷ ds) = spec_type_of d ∷ types_of ds

unfoldable pub function_of : FunctionSpec → Function
function_of f = record {
  name = f.name;
  doc = f.doc;
  inputs = params_of f.inputs;
  outputs = types_of f.outputs;
}

unfoldable pub add_function : Option FunctionSpec → List Function → List Function
add_function none fs = fs
add_function (some f) fs = fs ++ function_of f ∷ []

-- what the chain source keeps: the state of the world outside, and the interface of each hash
pub record ChainState (W : Type 0) : Type 0 where
  pub world : W
  pub cache : Dict Interface

module _ (decode_entry_spec : List ℕ → Result Text (Option FunctionSpec × List ℕ)) where
  -- the loop of decodeContractWasm, on fuel
  unfoldable pub decode_functions : ℕ → List Function → List ℕ → Result AbiError (List Function)
  decode_functions fuel fs [] = ok fs
  decode_functions zero fs (b ∷ bytes) = err (in_wasm out_of_fuel)
  decode_functions (suc fuel) fs (b ∷ bytes) = elim (decode_entry_spec (b ∷ bytes)) [
    | err e ↦ err (decode_spec e)
    | ok (entry, rest) ↦ decode_functions fuel (add_function entry fs) rest
  ]

  -- decodeContractWasm
  unfoldable pub decode_contract_wasm : List ℕ → Result AbiError Interface
  decode_contract_wasm wasm = elim (custom_section wasm (text "contractspecv0")) [
    | err e ↦ err (in_wasm e)
    | ok section ↦
        decode_functions (length section) [] section >>= λ fs. ok (record { functions = fs })
  ]

  -- what the code entry of a hash holds
  unfoldable pub interface_in : Sdk → Text → EntriesResponse → Result AbiError Interface
  interface_in sdk hash r = elim r.entries [
    | [] ↦ err (code_not_found (hex_encode hash))
    | e ∷ es ↦ elim (decode_entry sdk e.data_xdr) [
      | err x ↦ err (decode_code x)
      | ok (wasm_code bytes) ↦ decode_contract_wasm bytes
      | ok (data_value v) ↦ err not_contract_code
      | ok (other_entry n) ↦ err not_contract_code
    ]
  ]

  unfoldable pub hash_of_executable : Executable → Result AbiError Text
  hash_of_executable (Executable.wasm (some hash)) = ok hash
  hash_of_executable Executable.stellar_asset = err no_wasm
  hash_of_executable _ = err no_wasm_hash

  unfoldable pub hash_of_value : ScVal → Result AbiError Text
  hash_of_value (ScVal.instance_bare e) = hash_of_executable e
  hash_of_value (ScVal.instance_with e m) = hash_of_executable e
  hash_of_value _ = err not_an_instance

  -- the Wasm hash of the contract's instance
  unfoldable pub hash_in : Sdk → EntriesResponse → Result AbiError Text
  hash_in sdk r = elim r.entries [
    | [] ↦ err unknown_contract
    | e ∷ es ↦ elim (decode_entry sdk e.data_xdr) [
      | err x ↦ err (decode_instance x)
      | ok (data_value v) ↦ hash_of_value v
      | ok (wasm_code bytes) ↦ err not_contract_data
      | ok (other_entry n) ↦ err not_contract_data
    ]
  ]

  module _ {W : Type 0} (sdk : Sdk) (rpc : Client W) where
    abbrev pub answered : {A : Type 0} → Result Error A → Result AbiError A
    answered (ok a) = ok a
    answered (err e) = err (client e)

    -- a request for one entry
    unfoldable pub ask : Result Error Text → W → Result AbiError EntriesResponse × W
    ask (err e) w = (err (client e), w)
    ask (ok key) w = let (r, w') = rpc.get_ledger_entries (key ∷ []) w in (answered r, w')

    -- the end of Interface: an interface that was decoded is kept
    unfoldable pub keep :
        Text → Result AbiError Interface → ChainState W → Result AbiError Interface × ChainState W
    keep hash (err e) s = (err e, s)
    keep hash (ok i) s = (ok i, record s { cache = insert (hex_encode hash) i s.cache })

    -- by what the cache has for the hash
    unfoldable pub by_cached :
        Text → Option Interface → ChainState W → Result AbiError Interface × ChainState W
    by_cached hash (some i) s = (ok i, s)
    by_cached hash none s =
        let (r, w) = ask (encode_key sdk (code_key hash)) s.world in
        keep hash (r >>= interface_in sdk hash) (record s { world = w })

    -- the cache is looked up before the code is asked for
    unfoldable pub by_hash :
        Result AbiError Text → ChainState W → Result AbiError Interface × ChainState W
    by_hash (err e) s = (err e, s)
    by_hash (ok hash) s = by_cached hash (lookup (hex_encode hash) s.cache) s

    -- the first part of Interface: the hash of the code that the contract runs now
    unfoldable pub instance_hash : Text → W → Result AbiError Text × W
    instance_hash contract_id w = elim (parse_contract_id sdk contract_id) [
      | err e ↦ (err (client e), w)
      | ok c ↦ let (r, w') = ask (encode_key sdk (instance_key c)) w in (r >>= hash_in sdk, w')
    ]

    -- ChainSource.Interface
    unfoldable pub chain_interface : Text → ChainState W → Result AbiError Interface × ChainState W
    chain_interface contract_id s =
        let (r, w) = instance_hash contract_id s.world in by_hash r (record s { world = w })
