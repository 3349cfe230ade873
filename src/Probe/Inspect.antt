-- ===== src/Probe/Inspect.antt =====
-- internal/probe/inspect.go: reading a contract's instance, code and data entries.
pub mod Verdict
use soroprobe.Prelude.{
  ℕ, ◌+◌, ◌%◌, ◌^◌, Bool, true, false, Option, none, some, List, [], ◌∷◌, ◌++◌, map, ltb,
  if◌then◌else◌, Result, ok, err, Text, text, is_empty,
}
use soroprobe.Prelude.Outcome.{◌>>=◌ as bind_result}
use soroprobe.Prelude.Int.{ℤ, pos}
use soroprobe.Prelude.Dict.{Dict, lookup, insert}
use soroprobe.Prelude.Strings.Hex.{hex_encode}
use soroprobe.Health.{
  Status, missing, expired, Durability, Thresholds, Ttl, EntryKind, instance_entry, code_entry,
  data_entry, evaluate_with_close_time, absent, describe, worst,
}
use soroprobe.Errors.{
  Error, not_contract_data, not_an_instance, extension_failed, no_transaction_data,
  decode_transaction_data,
}
use soroprobe.Scval.Value.{ScVal, ScMap, ScAddress, Executable}
use soroprobe.Stellar
use soroprobe.Stellar.{
  EntryData, data_value, wasm_code, other_entry, LedgerEntry, EntriesResponse, code_key, encode_key,
  decode_entry,
}
use soroprobe.Probe.Exec.{Exec, pure, raise, lift, ◌>>=◌}
use soroprobe.Probe.Report.{
  InspectRequest, InspectResult, EntryReport, EntrySummary, described, not_deployed, code_not_found,
  Kind, instance_kind, code_kind, data_kind, ExtendEstimate, ExtendNote, not_on_ledger, has_expired,
  no_reported_ttl, ExecutableName, Storage, no_storage, storage, storage_error, CloseTimeNote,
}
use soroprobe.Probe.Prober.{Prober, Session, call, thresholds_for}
use soroprobe.Probe.LedgerTime.{CloseTime, close_time}
use soroprobe.Probe.Plan.{DataKey, Plan, plan_inspect}
use soroprobe.Probe.Extend.{estimate_extends}

-- What readInstanceEntry fills in, and the Wasm hash that it returns.
pub record InstanceInfo : Type 0 where
  pub executable : ExecutableName
  pub wasm_hex : Text
  pub hash : Option Text
  pub instance_storage : Storage

abbrev pub executable_name : Executable → ExecutableName
executable_name (Executable.wasm h) = ExecutableName.wasm
executable_name Executable.stellar_asset = ExecutableName.stellar_asset
executable_name (Executable.other name) = ExecutableName.other name

abbrev pub wasm_hash_of : Executable → Option Text
wasm_hash_of (Executable.wasm h) = h
wasm_hash_of _ = none

abbrev pub hex_of : Option Text → Text
hex_of none = []
hex_of (some h) = hex_encode h

abbrev pub instance_info : Executable → Storage → InstanceInfo
instance_info e st = record {
  executable = executable_name e;
  wasm_hex = hex_of (wasm_hash_of e);
  hash = wasm_hash_of e;
  instance_storage = st;
}

unfoldable pub index_from : Dict LedgerEntry → List LedgerEntry → Dict LedgerEntry
index_from out [] = out
index_from out (e ∷ es) = index_from (insert e.key_xdr e out) es

-- indexEntries
unfoldable pub index_entries : List LedgerEntry → Dict LedgerEntry
unfolding index_from
index_entries es = index_from [] es

unfoldable pub worst_status : InspectResult → Status
worst_status r = worst (
    r.instance_report.ttl.status ∷ (elim r.code [ none ↦ [] | some c ↦ c.ttl.status ∷ [] ])
    ++ map (λ (d : EntryReport). d.ttl.status) r.data_reports)

module _ {W : Type 0} (p : Prober W) where
  -- decodeStorage; its error stands in the report in place of the storage
  unfoldable pub decode_storage : ScMap → Storage
  decode_storage m = elim (p.codec.decode (ScVal.mapping m)) [
    | ok j ↦ storage j
    | err e ↦ storage_error e
  ]

  -- The entry's value as a contract instance, by GetInstance.
  unfoldable pub instance_of : ScVal → Result Error InstanceInfo
  instance_of (ScVal.instance_bare e) = ok (instance_info e no_storage)
  instance_of (ScVal.instance_with e m) = ok (instance_info e (decode_storage m))
  instance_of _ = err not_an_instance

  unfoldable pub instance_in : EntryData → Result Error InstanceInfo
  instance_in (data_value v) = instance_of v
  instance_in (wasm_code bytes) = err not_contract_data
  instance_in (other_entry name) = err not_contract_data

  unfoldable pub read_instance_entry : LedgerEntry → Result Error InstanceInfo
  read_instance_entry entry = bind_result (decode_entry p.sdk entry.data_xdr) instance_in

  unfoldable pub instance_report : LedgerEntry → ℕ → ℤ → EntryReport
  instance_report entry latest close =
      let t = thresholds_for p instance_entry in
      let ttl = evaluate_with_close_time entry.live_until latest Durability.persistent t close in
      record {
        kind = instance_kind;
        key = [];
        ttl = ttl;
        summary = described (describe ttl);
        thresholds = t;
      }

  -- the health of a data entry that was found, and of one that was not
  abbrev pub data_ttl : Option LedgerEntry → ℕ → Durability → Thresholds → ℤ → Ttl
  data_ttl (some entry) latest d t close =
      evaluate_with_close_time entry.live_until latest d t close
  data_ttl none latest d t close = let a = absent latest in record a { durability = d }

  unfoldable pub data_report : Dict LedgerEntry → Durability → ℕ → ℤ → DataKey → EntryReport
  data_report found d latest close dk =
      let t = thresholds_for p data_entry in
      let ttl = data_ttl (lookup dk.encoded found) latest d t close in
      record {
        kind = data_kind;
        key = dk.spec;
        ttl = ttl;
        summary = described (describe ttl);
        thresholds = t;
      }

  -- the report of inspectCode, by the first entry of the response
  unfoldable pub code_report : List LedgerEntry → ℕ → ℤ → EntryReport
  code_report [] latest close = record {
    kind = code_kind;
    key = [];
    ttl = absent latest;
    summary = code_not_found;
    thresholds = thresholds_for p code_entry;
  }
  code_report (entry ∷ es) latest close =
      let t = thresholds_for p code_entry in
      let ttl = evaluate_with_close_time entry.live_until latest Durability.persistent t close in
      record {
        kind = code_kind;
        key = [];
        ttl = ttl;
        summary = described (describe ttl);
        thresholds = t;
      }

  unfoldable pub inspect_code : Text → ℤ → Exec (Session W) EntryReport
  inspect_code hash close = do
    key ← lift (encode_key p.sdk (code_key hash))
    resp ← call (p.client.get_ledger_entries (key ∷ []))
    pure (code_report resp.entries resp.latest_ledger close)

  -- the second round of requests, if there is a Wasm hash
  unfoldable pub inspect_code_of : Option Text → ℤ → Exec (Session W) (Option EntryReport)
  inspect_code_of none close = pure none
  inspect_code_of (some hash) close = inspect_code hash close >>= λ r. pure (some r)

  -- the report on a contract without an instance entry
  unfoldable pub missing_result : InspectRequest → EntriesResponse → CloseTimeNote → InspectResult
  missing_result req resp note = record {
    contract_id = req.contract_id;
    deployed = false;
    executable = ExecutableName.unset;
    wasm_hash = [];
    instance_report = record {
      kind = instance_kind;
      key = [];
      ttl = absent resp.latest_ledger;
      summary = not_deployed;
      thresholds = thresholds_for p instance_entry;
    };
    code = none;
    data_reports = [];
    instance_storage = no_storage;
    extend_estimates = [];
    status = missing;
    latest_ledger = resp.latest_ledger;
    close_time_note = note;
  }

  -- the report on a deployed contract, before its code entry is read
  unfoldable pub found_result :
      InspectRequest
      → Plan
      → EntriesResponse
      → CloseTime
      → LedgerEntry
      → InstanceInfo
      → InspectResult
  found_result req plan resp close entry info = record {
    contract_id = req.contract_id;
    deployed = true;
    executable = info.executable;
    wasm_hash = info.wasm_hex;
    instance_report = instance_report entry resp.latest_ledger close.0;
    code = none;
    data_reports =
        map (data_report (index_entries resp.entries) plan.durability resp.latest_ledger close.0)
          plan.data_keys;
    instance_storage = info.instance_storage;
    extend_estimates = [];
    status = Status.other [];
    latest_ledger = resp.latest_ledger;
    close_time_note = close.1;
  }

  unfoldable pub inspect_deployed :
      InspectRequest
      → Plan
      → EntriesResponse
      → CloseTime
      → LedgerEntry
      → Exec (Session W) InspectResult
  inspect_deployed req plan resp close entry = do
    info ← lift (read_instance_entry entry)
    code ← inspect_code_of info.hash close.0
    let base = found_result req plan resp close entry info
    let result = record base { code = code }
    estimates ← estimate_extends p plan info.hash result req.estimate_extend
    let priced = record result { extend_estimates = estimates }
    pure (record priced { status = worst_status priced })

  unfoldable pub inspect_found :
      InspectRequest
      → Plan
      → EntriesResponse
      → CloseTime
      → Option LedgerEntry
      → Exec (Session W) InspectResult
  inspect_found req plan resp close none = pure (missing_result req resp close.1)
  inspect_found req plan resp close (some entry) = inspect_deployed req plan resp close entry

  unfoldable pub inspect_uncached : InspectRequest → Exec (Session W) InspectResult
  inspect_uncached req = do
    plan ← lift (plan_inspect p req)
    resp ← call (p.client.get_ledger_entries plan.keys)
    close ← close_time p
    inspect_found req plan resp close (lookup plan.instance_key (index_entries resp.entries))
