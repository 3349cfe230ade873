-- ===== src/Scval/Value.antt =====
-- Soroban values: the XDR union `ScVal` of the Stellar SDK, as far as internal/scval reads it.
-- A constructor is an arm of the union; `none` stands for an arm's nil pointer.
use soroprobe.Prelude.{ℕ, Bool, Option, Text}
use soroprobe.Prelude.Int.{ℤ}

-- UInt128Parts and UInt256Parts; Int128Parts and Int256Parts have a signed first word.
pub record UnsignedPair : Type 0 where
  pub hi : ℕ
  pub lo : ℕ

pub record SignedPair : Type 0 where
  pub hi : ℤ
  pub lo : ℕ

pub record UnsignedQuad : Type 0 where
  pub hi_hi : ℕ
  pub hi_lo : ℕ
  pub lo_hi : ℕ
  pub lo_lo : ℕ

pub record SignedQuad : Type 0 where
  pub hi_hi : ℤ
  pub hi_lo : ℕ
  pub lo_hi : ℕ
  pub lo_lo : ℕ

pub data ScAddress : Type 0 where
  account contract : Text → ScAddress

-- The executable of a contract instance; `other` holds the name of any other type.
pub data Executable : Type 0 where
  wasm : Option Text → Executable
  stellar_asset : Executable
  other : Text → Executable

-- An error value: the name of its type, the name of its code and the contract's own code.
pub record ScError : Type 0 where
  pub kind : Text
  pub code : Option Text
  pub contract_code : Option ℕ

mutual
  pub data ScVal : Type 0 where
    void : ScVal
    bool : Option Bool → ScVal
    u32 u64 timepoint duration : Option ℕ → ScVal
    i32 i64 : Option ℤ → ScVal
    u128 : Option UnsignedPair → ScVal
    i128 : Option SignedPair → ScVal
    u256 : Option UnsignedQuad → ScVal
    i256 : Option SignedQuad → ScVal
    bytes string symbol : Option Text → ScVal
    address : Option ScAddress → ScVal
    no_vec no_map no_instance : ScVal
    vec : ScVec → ScVal
    mapping : ScMap → ScVal
    error : Option ScError → ScVal
    ledger_key_contract_instance : ScVal
    ledger_key_nonce : Option ℤ → ScVal
    instance_bare : Executable → ScVal
    instance_with : Executable → ScMap → ScVal
    unsupported : Text → ScVal

  pub data ScVec : Type 0 where
    nil : ScVec
    cons : ScVal → ScVec → ScVec

  pub data ScMap : Type 0 where
    end : ScMap
    entry : ScVal → ScVal → ScMap → ScMap
