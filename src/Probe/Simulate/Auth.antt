-- ===== src/Probe/Simulate/Auth.antt =====
-- internal/probe/simulate.go: the authorizations that a call requires.
use soroprobe.Prelude.{
  Bool, true, false, not, ◌&&◌, Option, none, some, List, [], ◌∷◌, Text, text, text_eq, is_empty,
  Result, ok, err,
}
use soroprobe.Errors.{Error}
use soroprobe.Scval.Value.{ScVal, ScAddress}
use soroprobe.Scval.Decode.{Json}

-- xdr.SorobanAuthorizedFunction; a contract function may be a nil pointer
pub data AuthFunction : Type 0 where
  contract_fn : Option (ScAddress × Text × List ScVal) → AuthFunction
  create_contract create_contract_v2 : AuthFunction
  other : Text → AuthFunction

-- xdr.SorobanAuthorizedInvocation
mutual
  pub data AuthTree : Type 0 where
    auth_tree : AuthFunction → AuthTrees → AuthTree

  pub data AuthTrees : Type 0 where
    no_trees : AuthTrees
    tree : AuthTree → AuthTrees → AuthTrees

-- the credentials: those of the source account, or of an address, which may be a nil pointer, in one
-- of three forms
pub data Credentials : Type 0 where
  source_account : Credentials
  address address_v2 address_with_delegates : Option ScAddress → Credentials
  other_credentials : Credentials

pub record AuthSdk : Type 0 where
  pub unmarshal_auth : Text → Result Text (Credentials × AuthTree)

-- AuthorizedInvocation
mutual
  pub data AuthorizedInvocation : Type 0 where
    invocation : Text → Text → List Json → Invocations → AuthorizedInvocation

  pub data Invocations : Type 0 where
    no_invocations : Invocations
    invoked : AuthorizedInvocation → Invocations → Invocations

pub record AuthEntry : Type 0 where
  pub address : Text
  pub is_source_account : Bool
  pub root_invocation : Option AuthorizedInvocation
  pub raw_xdr : Text

module _ (sdk : AuthSdk) (address_text : ScAddress → Option Text)
    (decode : ScVal → Result Error Json) where
  unfoldable pub text_or_empty : Option Text → Text
  text_or_empty none = []
  text_or_empty (some t) = t

  unfoldable pub decode_args : List ScVal → Option (List Json)
  decode_args [] = some []
  decode_args (v ∷ vs) = elim (decode v) [
    | err e ↦ none
    | ok j ↦ elim (decode_args vs) [ none ↦ none | some js ↦ some (j ∷ js) ]
  ]

  -- the first switch: the contract, the function and its arguments
  unfoldable pub function_of : AuthFunction → Option (Text × Text × List Json)
  function_of (contract_fn none) = some ([], [], [])
  function_of (contract_fn (some (a, name, args))) = elim (decode_args args) [
    | none ↦ none
    | some js ↦ some (text_or_empty (address_text a), name, js)
  ]
  function_of create_contract = some ([], text "create_contract", [])
  function_of create_contract_v2 = some ([], text "create_contract_v2", [])
  function_of (other name) = none

  unfoldable pub with_children :
      Option (Text × Text × List Json) → Option Invocations → Option AuthorizedInvocation
  with_children (some (c, f, args)) (some subs) = some (invocation c f args subs)
  with_children _ _ = none

  unfoldable pub add_child : Option AuthorizedInvocation → Option Invocations → Option Invocations
  add_child (some i) (some is) = some (invoked i is)
  add_child _ _ = none

  -- decodeAuthorizedInvocation, whose error is not read
  unfoldable mutual
    pub decode_invocation : AuthTree → Option AuthorizedInvocation
    decode_invocation (auth_tree f subs) = with_children (function_of f) (decode_children subs)

    pub decode_children : AuthTrees → Option Invocations
    decode_children no_trees = some no_invocations
    decode_children (tree t ts) = add_child (decode_invocation t) (decode_children ts)

  unfoldable pub address_of : Option ScAddress → Text
  address_of none = []
  address_of (some a) = text_or_empty (address_text a)

  -- the switch on the credentials: the address, and whether it is the source account
  unfoldable pub signer : Text → Credentials → Text × Bool
  signer source source_account = (source, true)
  signer source other_credentials = ([], false)
  signer source (address a) =
      (address_of a, not (is_empty (address_of a)) && text_eq (address_of a) source)
  signer source (address_v2 a) =
      (address_of a, not (is_empty (address_of a)) && text_eq (address_of a) source)
  signer source (address_with_delegates a) =
      (address_of a, not (is_empty (address_of a)) && text_eq (address_of a) source)

  abbrev pub raw_entry : Text → AuthEntry
  raw_entry raw = record {
    address = [];
    is_source_account = false;
    root_invocation = none;
    raw_xdr = raw;
  }

  unfoldable pub decode_auth_entry : Text → Text → AuthEntry
  decode_auth_entry source raw = elim (sdk.unmarshal_auth raw) [
    | err e ↦ raw_entry raw
    | ok (credentials, root) ↦ elim (decode_invocation root) [
      | none ↦ raw_entry raw
      | some i ↦ record {
        address = (signer source credentials).0;
        is_source_account = (signer source credentials).1;
        root_invocation = some i;
        raw_xdr = [];
      }
    ]
  ]

  -- decodeAuthEntries
  unfoldable pub decode_auth_entries : Text → List Text → List AuthEntry
  decode_auth_entries source [] = []
  decode_auth_entries source (raw ∷ rest) =
      decode_auth_entry source raw ∷ decode_auth_entries source rest
