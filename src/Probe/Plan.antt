-- ===== src/Probe/Plan.antt =====
-- internal/probe/inspect.go: the contract and the ledger keys that an inspection reads.
use soroprobe.Prelude.{List, [], ◌∷◌, map, Result, ok, Text}
use soroprobe.Prelude.Outcome.{◌>>=◌ as bind_result}
use soroprobe.Health.{Durability}
use soroprobe.Errors.{Error}
use soroprobe.Scval.Value.{ScAddress}
use soroprobe.Stellar
use soroprobe.Stellar.{LedgerKey, KeyDurability, parse_contract_id, data_key, encode_key}
use soroprobe.Probe.Report.{InspectRequest}
use soroprobe.Probe.Prober.{Prober}

-- encodedDataKey
pub record DataKey : Type 0 where
  pub spec : Text
  pub encoded : Text
  pub key : LedgerKey

-- inspectPlan
pub record Plan : Type 0 where
  pub contract : ScAddress
  pub instance_key : Text
  pub data_keys : List DataKey
  pub keys : List Text
  pub durability : Durability

-- the default durability
unfoldable pub or_persistent : Durability → Durability
or_persistent Durability.unset = Durability.persistent
or_persistent d = d

unfoldable pub key_durability : Durability → KeyDurability
key_durability Durability.temporary = KeyDurability.temporary
key_durability _ = KeyDurability.persistent

module _ {W : Type 0} (p : Prober W) where
  unfoldable pub encode_data_key : ScAddress → Durability → Text → Result Error DataKey
  encode_data_key addr d spec = bind_result (p.codec.encode spec) (λ val.
      let key = data_key addr val (key_durability d) in
      bind_result (encode_key p.sdk key)
        (λ encoded. ok (record { spec = spec; encoded = encoded; key = key })))

  unfoldable pub encode_data_keys : ScAddress → List Text → Durability → Result Error (List DataKey)
  encode_data_keys addr [] d = ok []
  encode_data_keys addr (spec ∷ specs) d =
      bind_result (encode_data_key addr d spec)
        (λ k. bind_result (encode_data_keys addr specs d) (λ ks. ok (k ∷ ks)))

  unfoldable pub plan_inspect : InspectRequest → Result Error Plan
  plan_inspect req = bind_result (parse_contract_id p.sdk req.contract_id) (λ addr.
      let d = or_persistent req.data_durability in
      bind_result (encode_key p.sdk (Stellar.instance_key addr)) (λ ik.
        bind_result (encode_data_keys addr req.data_keys d) (λ ks. ok (record {
          contract = addr;
          instance_key = ik;
          data_keys = ks;
          keys = ik ∷ map (λ (k : DataKey). k.encoded) ks;
          durability = d;
        }))))
