-- ===== src/Tests/Abi.antt =====
-- Interfaces at concrete modules, arguments and contracts.
use soroprobe.Prelude.{
  ◌≡◌, ◌≢◌, ◌++◌, refl, false, some, List, [], ◌∷◌, Text, text, text_eq, Result, ok, err, All,
  arith, ℕ, Option, map, if◌then◌else◌,
}
use soroprobe.Prelude.Strings.Hex.{hex_encode, hex_digit}
use soroprobe.Prelude.Strings.{
  trim_space, trim_from, space_width, last_space_width, has_prefix, to_lower,
}
use soroprobe.Prelude.Dict.{lookup, insert, delete}
use soroprobe.Scval.Value.{ScVal, Executable}
use soroprobe.Stellar.{
  instance_key, code_key, Sdk, Client, LedgerKey, contract_code, LedgerEntry, wasm_code, data_value,
  encode_key, decode_entry, parse_contract_id,
}
use soroprobe.Abi.{SpecType, spec_type, no_type, a_type, Function, Interface, AbiError}
use soroprobe.Abi.Wasm.{
  magic, custom_section, out_of_fuel, find_section, counted, read_uleb, uleb_from, after_section,
  named_section, named_of,
}
use soroprobe.Abi.Wasm.Leb.{leb128, leb_from}
use soroprobe.Abi.Wasm.Sections.{
  Section, section_bytes, custom, numbered, sized, all_bytes, IsWritable, first_named,
  custom_section-all_bytes,
}
use soroprobe.Abi.Wasm.Total.{failed, custom_section_total}
use soroprobe.Abi.Annotate.{
  Json, annotate, annotate_each, annotate_spec, annotate_inner, annotate_element, annotate_vec,
  each_item, literal_of, as_vec, by_kind, prefix_of, listed, with_prefix,
}
use soroprobe.Abi.Annotate.Typed.{EachTyped, annotate-EachTyped}
use soroprobe.Abi.Chain.{
  ChainState, FunctionSpec, keep, interface_in, decode_contract_wasm, decode_functions, ask,
  hash_in, hash_of_value, hash_of_executable, by_hash, by_cached, instance_hash, chain_interface,
}
use soroprobe.Abi.Chain.Cached.{IsFaithful, Answers, chain_interface-Answers}
use soroprobe.Tests.World.{World, the_client, the_sdk, the_entry}

abbrev sections : List Section
sections = numbered 1 (7 ∷ 8 ∷ []) ∷ custom (text "spec") (1 ∷ 2 ∷ 3 ∷ []) ∷ []

sections-IsWritable : All IsWritable sections
unfolding sized leb128 leb_from
sections-IsWritable = omega arith

custom_section-all_bytes_example :
    custom_section (magic ++ 1 ∷ 0 ∷ 0 ∷ 0 ∷ all_bytes sections) (text "spec")
    ≡ first_named (text "spec") sections
custom_section-all_bytes_example =
    custom_section-all_bytes (text "spec") 1 0 0 0 sections sections-IsWritable

custom_section_total_example : custom_section (magic ++ 1 ∷ []) (text "spec") ≢ failed out_of_fuel
custom_section_total_example = custom_section_total (magic ++ 1 ∷ []) (text "spec")

abbrev joined : List Text → Text
joined [] = text "]"
joined (s ∷ []) = s ++ text "]"
joined (s ∷ t ∷ ts) = s ++ b',' ∷ joined (t ∷ ts)

-- reads the one array `[1,2]`, and writes arrays of strings without their quotes
abbrev a_json : Json
a_json = record {
  items = λ t. if text_eq t (text "[1,2]") then ok (text "1" ∷ text "2" ∷ []) else err (text "no");
  lists = λ t. err (text "no");
  string = λ t. err (text "no");
  marshal = λ specs. ok (b'[' ∷ joined specs);
  marshal_pairs = λ t. err (text "no");
}

abbrev plain_type : Text → SpecType
plain_type name = spec_type name name no_type no_type no_type no_type

abbrev maybe_amount : SpecType
maybe_amount =
    spec_type (text "option") (text "Option<i128>") (a_type (plain_type (text "i128"))) no_type
      no_type no_type

abbrev numbers : SpecType
numbers =
    spec_type (text "vec") (text "Vec<u32>") no_type (a_type (plain_type (text "u32"))) no_type
      no_type

abbrev pay : Function
pay = record {
  name = text "pay";
  doc = [];
  inputs =
      (record { name = text "amount"; of_type = plain_type (text "i128") })
      ∷ (record { name = text "limit"; of_type = maybe_amount })
      ∷ (record { name = text "ids"; of_type = numbers })
      ∷ [];
  outputs = [];
}

abbrev pay_args : List Text
pay_args = text "5" ∷ text "7" ∷ text "[1,2]" ∷ []

abbrev pay_typed : List Text
pay_typed = text "i128:5" ∷ text "i128:7" ∷ text "vec:[u32:1,u32:2]" ∷ []

pays : annotate a_json (λ t. false) pay pay_args ≡ ok pay_typed
unfolding annotate annotate_each annotate_spec annotate_inner annotate_element annotate_vec
    each_item literal_of as_vec by_kind prefix_of listed with_prefix text_eq trim_space trim_from
    space_width last_space_width has_prefix to_lower
pays = refl

annotate-EachTyped_example : EachTyped a_json (λ t. false) pay.inputs pay_args pay_typed
annotate-EachTyped_example = annotate-EachTyped a_json (λ t. false) pay pay_args pay_typed pays

abbrev key_text : LedgerKey → Text
key_text (contract_code h) = text "code"
key_text _ = text "instance"

abbrev echo_entry : Text → LedgerEntry
echo_entry key = record the_entry { data_xdr = key }

-- Instances name the code `01`, whose entry is a module with an empty spec section.
abbrev wasm_sdk : Sdk
wasm_sdk = record the_sdk {
  marshal_key = λ key. ok (key_text key);
  unmarshal_entry = λ t. ok (
      if text_eq t (text "code")
      then wasm_code (magic ++ 1 ∷ 0 ∷ 0 ∷ 0 ∷ all_bytes (custom (text "contractspecv0") [] ∷ []))
      else data_value (ScVal.instance_bare (Executable.wasm (some (1 ∷ [])))));
}

-- answers with an entry that is named like the key asked for
abbrev echo_client : Client World
echo_client = record the_client {
  get_ledger_entries =
      λ keys w. (ok (record { entries = map echo_entry keys; latest_ledger = 100 }), w);
}

abbrev no_spec : List ℕ → Result Text (Option FunctionSpec × List ℕ)
no_spec bytes = err (text "no")

abbrev fresh_state : ChainState World
fresh_state = record { world = tt; cache = [] }

abbrev after_call : Result AbiError Interface × ChainState World
after_call = chain_interface no_spec wasm_sdk echo_client (text "C1") fresh_state

found : after_call ≡ (
  ok (record { functions = [] }),
  record { world = tt; cache = (text "01", record { functions = [] }) ∷ [] },
)
unfolding chain_interface by_hash instance_hash parse_contract_id instance_key code_key ask
    encode_key hash_in decode_entry hash_of_value hash_of_executable by_cached lookup text_eq
    hex_encode hex_digit keep interface_in decode_contract_wasm decode_functions custom_section
    all_bytes section_bytes sized leb128 leb_from find_section counted read_uleb uleb_from
    after_section named_section named_of delete insert
found = refl

fresh-IsFaithful : IsFaithful no_spec wasm_sdk echo_client fresh_state.cache
unfolding lookup
fresh-IsFaithful key = tt

chain_interface-Answers_example :
    Answers no_spec wasm_sdk echo_client (text "C1") fresh_state after_call
    × IsFaithful no_spec wasm_sdk echo_client after_call.1.cache
chain_interface-Answers_example =
    chain_interface-Answers no_spec wasm_sdk echo_client (text "C1") fresh_state fresh-IsFaithful
