-- ===== src/Probe/Inspect/Verdict.antt =====
-- What every report of an inspection says.
use soroprobe.Prelude.{
  ℕ, ◌≡◌, refl, ap, ◌∙◌, true, false, Option, none, some, List, [], ◌∷◌, ◌++◌, map, ok, Text, arith,
  ◌⊎◌, inl, inr,
}
use soroprobe.Prelude.Outcome.{bind-eq-ok}
use soroprobe.Health.{Status, missing, Durability, worst, absent}
use soroprobe.Scval.Value.{ScAddress}
use soroprobe.Stellar.{LedgerEntry, EntriesResponse, encode_key, parse_contract_id}
use soroprobe.Probe.Exec.{lift}
use soroprobe.Probe.Exec.Ensures.{Ensures, bind-Ensures, Ensures-ok}
use soroprobe.Probe.Report.{InspectRequest, InspectResult, EntryReport}
use soroprobe.Probe.Prober.{Prober, Session, call}
use soroprobe.Probe.LedgerTime.{CloseTime, close_time}
use soroprobe.Probe.Plan.{DataKey, Plan, encode_data_key, encode_data_keys, plan_inspect}
use soroprobe.Probe.Extend.{estimate_extends}
use soroprobe.Probe.Inspect.{
  worst_status, data_report, inspect_code_of, found_result, missing_result, inspect_deployed,
  inspect_found, inspect_uncached, read_instance_entry,
}

-- the statuses of the entries that a report covers
abbrev pub entry_statuses : InspectResult → List Status
entry_statuses r =
    r.instance_report.ttl.status ∷ (elim r.code [ none ↦ [] | some c ↦ c.ttl.status ∷ [] ])
    ++ map (λ (d : EntryReport). d.ttl.status) r.data_reports

abbrev pub report_keys : InspectResult → List Text
report_keys r = map (λ (d : EntryReport). d.key) r.data_reports

-- What a report says of a deployed contract, and of one that is not.
pub record IsReport (req : InspectRequest) (r : InspectResult) : Type 0 where
  pub contract_id : r.contract_id ≡ req.contract_id
  pub verdict :
      ((r.deployed ≡ true)
        × (r.status ≡ worst (entry_statuses r))
        × (report_keys r ≡ req.data_keys))
      ⊎ ((r.deployed ≡ false)
          × (r.status ≡ missing)
          × (r.instance_report.ttl.status ≡ missing)
          × (r.code ≡ none)
          × (r.data_reports ≡ [])
          × (r.extend_estimates ≡ []))

module _ {W : Type 0} (p : Prober W) where
  encode_data_key_lem :
      (a : ScAddress) (d : Durability) (spec : Text) (k : DataKey)
      → encode_data_key p a d spec ≡ ok k
      → k.spec ≡ spec
  unfolding encode_data_key
  encode_data_key_lem a d spec k h =
      let (val, e, rest) = bind-eq-ok (p.codec.encode spec) _ h in
      let (enc, e', same) = bind-eq-ok (encode_key p.sdk _) _ rest in ground arith

  encode_data_keys-specs :
      (a : ScAddress) (specs : List Text) (d : Durability) (ks : List DataKey)
      → encode_data_keys p a specs d ≡ ok ks
      → map (λ (k : DataKey). k.spec) ks ≡ specs
  unfolding encode_data_keys
  encode_data_keys-specs a [] d ks h = ground arith
  encode_data_keys-specs a (s ∷ ss) d ks h =
      let (k, e, rest) = bind-eq-ok (encode_data_key p a d s) _ h in
      let (ks', e', same) = bind-eq-ok (encode_data_keys p a ss d) _ rest in
      cc (encode_data_key_lem a d s k e, encode_data_keys-specs a ss d ks' e')

  plan_inspect-specs :
      (req : InspectRequest) (plan : Plan)
      → plan_inspect p req ≡ ok plan
      → map (λ (k : DataKey). k.spec) plan.data_keys ≡ req.data_keys
  unfolding plan_inspect
  plan_inspect-specs req plan h =
      let (a, e, rest) = bind-eq-ok (parse_contract_id p.sdk req.contract_id) _ h in
      let (ik, e', rest') = bind-eq-ok (encode_key p.sdk _) _ rest in
      let (ks, e'', same) = bind-eq-ok (encode_data_keys p a req.data_keys _) _ rest' in
      cc (encode_data_keys-specs a req.data_keys _ ks e'')

  map-data_report-key :
      (found : _) (d : Durability) (latest : ℕ) (close : _) (ks : List DataKey)
      → map (λ (r : EntryReport). r.key) (map (data_report p found d latest close) ks)
        ≡ map (λ (k : DataKey). k.spec) ks
  unfolding data_report
  map-data_report-key found d latest close [] = refl
  map-data_report-key found d latest close (k ∷ ks) =
      ap (◌∷◌ k.spec) (map-data_report-key found d latest close ks)

  inspect_deployed-IsReport :
      (req : InspectRequest) (plan : Plan) (resp : EntriesResponse) (close : CloseTime)
      (entry : LedgerEntry) (s : Session W)
      → map (λ (k : DataKey). k.spec) plan.data_keys ≡ req.data_keys
      → Ensures (IsReport req) (inspect_deployed p req plan resp close entry s).0
  unfolding inspect_deployed
  inspect_deployed-IsReport req plan resp close entry s specs =
      bind-Ensures (IsReport req) (lift (read_instance_entry p entry)) _ s (λ info e.
        bind-Ensures (IsReport req) (inspect_code_of p info.hash close.0) _ _ (λ code e'.
          bind-Ensures (IsReport req) (estimate_extends p plan info.hash _ req.estimate_extend) _ _
            (λ estimates e''. record {
              contract_id = unfold found_result in refl;
              verdict = inl (
                unfold found_result in refl,
                unfold worst_status in refl,
                unfold found_result in map-data_report-key _ _ _ _ plan.data_keys ∙ specs,
              );
            })))

  inspect_found-IsReport :
      (req : InspectRequest) (plan : Plan) (resp : EntriesResponse) (close : CloseTime)
      (entry : Option LedgerEntry) (s : Session W)
      → map (λ (k : DataKey). k.spec) plan.data_keys ≡ req.data_keys
      → Ensures (IsReport req) (inspect_found p req plan resp close entry s).0
  unfolding inspect_found missing_result
  inspect_found-IsReport req plan resp close none s specs = record {
    contract_id = refl;
    verdict = inr (refl, refl, unfold absent in refl, refl, refl, refl);
  }
  inspect_found-IsReport req plan resp close (some entry) s specs =
      inspect_deployed-IsReport req plan resp close entry s specs

  inspect_uncached-Ensures :
      (req : InspectRequest) (s : Session W) → Ensures (IsReport req) (inspect_uncached p req s).0
  unfolding inspect_uncached
  inspect_uncached-Ensures req s =
      bind-Ensures (IsReport req) (lift (plan_inspect p req)) _ s (λ plan e.
        bind-Ensures (IsReport req) (call (p.client.get_ledger_entries plan.keys)) _ _ (λ resp e'.
          bind-Ensures (IsReport req) (close_time p) _ _ (λ close e''.
            inspect_found-IsReport req plan resp close _ _ (plan_inspect-specs req plan e))))

  -- Every report that an inspection returns is about the contract asked for. If it says deployed,
  -- its status is the worst of its entries' statuses, and it has a report for each data
  -- key asked for, in that order; if not, its status and its instance's are missing, and it has no
  -- other entry and no estimate.
  pub inspect_uncached-IsReport :
      (req : InspectRequest) (s : Session W) (r : InspectResult)
      → (inspect_uncached p req s).0 ≡ ok r
      → IsReport req r
  inspect_uncached-IsReport req s r =
      Ensures-ok (IsReport req) (inspect_uncached p req s).0 r (inspect_uncached-Ensures req s)
