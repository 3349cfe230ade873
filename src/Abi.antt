-- ===== src/Abi.antt =====
-- internal/abi/abi.go: contract interfaces.
pub mod Wasm
pub mod Annotate
pub mod Chain
use soroprobe.Prelude.{
  Option, none, some, List, [], ◌∷◌, ◌++◌, if◌then◌else◌, ℕ, Text, text, text_eq, Result, ok, err,
}
use soroprobe.Abi.Wasm.{WasmError}
use soroprobe.Errors.{Error}
use soroprobe.Probe.Spread.{sort_strings}

-- Type: its kind, what it is displayed as, and the types that it is made of, where they are set:
-- the inner one, the element, the key and the value.
mutual
  pub data SpecType : Type 0 where
    spec_type : Text → Text → MaybeType → MaybeType → MaybeType → MaybeType → SpecType

  pub data MaybeType : Type 0 where
    no_type : MaybeType
    a_type : SpecType → MaybeType

abbrev pub display : SpecType → Text
display (spec_type kind d inner element key value) = d

pub record Param : Type 0 where
  pub name : Text
  pub of_type : SpecType

pub record Function : Type 0 where
  pub name : Text
  pub doc : Text
  pub inputs : List Param
  pub outputs : List SpecType

pub record Interface : Type 0 where
  pub functions : List Function

pub data AbiError : Type 0 where
  -- ErrNoSuchFunction with the name and the names there are
  no_such_function : Text → List Text → AbiError
  -- ErrArgumentCount with the signature and the two counts
  argument_count : Text → ℕ → ℕ → AbiError
  argument : Text → AbiError → AbiError
  not_an_array not_pairs : Text → Text → AbiError
  not_a_pair : ℕ → AbiError
  at_item at_key at_value : ℕ → AbiError → AbiError
  json_error : Text → AbiError
  -- ErrUnknownContract, ErrNoWasm
  unknown_contract no_wasm : AbiError
  client : Error → AbiError
  decode_instance decode_code : Error → AbiError
  not_contract_data not_an_instance no_wasm_hash not_contract_code : AbiError
  code_not_found : Text → AbiError
  in_wasm : WasmError → AbiError
  decode_spec : Text → AbiError

unfoldable pub find_function : Text → List Text → List Function → Result AbiError Function
find_function wanted names [] = err (no_such_function wanted (sort_strings names))
find_function wanted names (f ∷ fs) =
    let rest = find_function wanted (names ++ f.name ∷ []) fs in
    if text_eq f.name wanted then ok f else rest

-- Lookup
unfoldable pub lookup_function : Interface → Text → Result AbiError Function
lookup_function i wanted = find_function wanted [] i.functions

unfoldable pub render_inputs : List Param → Text
render_inputs [] = []
render_inputs (p ∷ []) = p.name ++ (text ": " ++ display p.of_type)
render_inputs (p ∷ q ∷ ps) =
    p.name ++ (text ": " ++ (display p.of_type ++ (text ", " ++ render_inputs (q ∷ ps))))

unfoldable pub render_output : List SpecType → Text
render_output [] = []
render_output (t ∷ ts) = text " -> " ++ display t

-- Signature
unfoldable pub signature : Function → Text
signature f =
    text "fn "
    ++ (f.name ++ (text "(" ++ (render_inputs f.inputs ++ (text ")" ++ render_output f.outputs))))

-- internal/abi/sorovault.go: NetworkName
unfoldable pub network_name : Text → Text
network_name passphrase =
    if text_eq passphrase (text "Public Global Stellar Network ; September 2015")
    then text "public"
    else if text_eq passphrase (text "Test SDF Network ; September 2015")
    then text "testnet"
    else if text_eq passphrase (text "Test SDF Future Network ; October 2022")
    then text "futurenet"
    else passphrase
