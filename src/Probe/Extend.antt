-- ===== src/Probe/Extend.antt =====
-- internal/probe/inspect.go: what extending the life of a contract's entries would cost.
use soroprobe.Prelude.{
  ℕ, ◌+◌, ◌%◌, ◌^◌, Option, none, some, List, [], ◌∷◌, ◌++◌, ltb, if◌then◌else◌, Result, ok, err,
  Text, is_empty,
}
use soroprobe.Prelude.Int.{ℤ, pos}
use soroprobe.Health.{expired, Ttl}
use soroprobe.Errors.{Error, extension_failed, no_transaction_data, decode_transaction_data}
use soroprobe.Scval.Value.{ScAddress}
use soroprobe.Stellar
use soroprobe.Stellar.{LedgerKey, SimulateResponse, code_key, build_extend_footprint_tx}
use soroprobe.Probe.Exec.{Exec, pure, lift, ◌>>=◌}
use soroprobe.Probe.Report.{
  InspectResult, EntryReport, Kind, instance_kind, code_kind, data_kind, ExtendEstimate, ExtendNote,
  not_on_ledger, has_expired, no_reported_ttl,
}
use soroprobe.Probe.Prober.{Prober, Session, call}
use soroprobe.Probe.Plan.{DataKey, Plan}

-- extendTarget
pub record ExtendTarget : Type 0 where
  pub kind : Kind
  pub spec : Text
  pub key : LedgerKey
  pub ttl : Ttl

module _ {W : Type 0} (p : Prober W) where
  -- the fees in the answer to an extension
  unfoldable pub extension_fees : SimulateResponse → Result Error (ℤ × ℤ)
  extension_fees resp =
      if is_empty resp.error
      then (if is_empty resp.transaction_data_xdr
          then err no_transaction_data
          else elim (p.sdk.unmarshal_resource_fee resp.transaction_data_xdr) [
            | ok fee ↦ ok (fee, resp.min_resource_fee)
            | err e ↦ err (decode_transaction_data e)
          ])
      else err (extension_failed resp.error)

  unfoldable pub estimate_extend_fee : LedgerKey → ℕ → Exec (Session W) (ℤ × ℤ)
  estimate_extend_fee key extend_to = do
    envelope ← lift (build_extend_footprint_tx p.sdk p.source key extend_to)
    resp ← call (p.client.simulate_transaction envelope)
    lift (extension_fees resp)

  -- The switch of estimateExtends: why there is nothing to extend, or none.
  unfoldable pub extend_note : Ttl → Option ExtendNote
  extend_note t =
      if t.present
      then elim t.status [
        | expired ↦ some has_expired
        | _ ↦ elim t.live_until_ledger [ none ↦ some no_reported_ttl | some l ↦ none ]
      ]
      else some not_on_ledger

  abbrev pub estimate : ExtendTarget → ℕ → ℕ → ℤ × ℤ → Option ExtendNote → ExtendEstimate
  estimate t latest ledgers fees note = record {
    kind = t.kind;
    key = t.spec;
    ledgers = ledgers;
    extend_to = (latest + ledgers) % 2 ^ 32;
    resource_fee = fees.0;
    min_resource_fee = fees.1;
    note = note;
  }

  unfoldable pub estimate_by :
      Option ExtendNote → ExtendTarget → ℕ → ℕ → Exec (Session W) ExtendEstimate
  estimate_by (some note) t latest ledgers =
      pure (estimate t latest ledgers (pos 0, pos 0) (some note))
  estimate_by none t latest ledgers = do
    fees ← estimate_extend_fee t.key ((latest + ledgers) % 2 ^ 32)
    pure (estimate t latest ledgers fees none)

  -- the loop of estimateExtends
  unfoldable pub estimate_targets :
      List ExtendTarget → ℕ → ℕ → Exec (Session W) (List ExtendEstimate)
  estimate_targets [] latest ledgers = pure []
  estimate_targets (t ∷ ts) latest ledgers = do
    e ← estimate_by (extend_note t.ttl) t latest ledgers
    es ← estimate_targets ts latest ledgers
    pure (e ∷ es)

  -- Each data key with the report at its index.
  unfoldable pub data_targets : List DataKey → List EntryReport → List ExtendTarget
  data_targets (dk ∷ dks) (r ∷ rs) =
      (record { kind = data_kind; spec = dk.spec; key = dk.key; ttl = r.ttl }) ∷ data_targets dks rs
  data_targets _ _ = []

  abbrev pub code_targets : Option Text → Option EntryReport → List ExtendTarget
  code_targets (some hash) (some r) =
      (record { kind = code_kind; spec = []; key = code_key hash; ttl = r.ttl }) ∷ []
  code_targets _ _ = []

  unfoldable pub extend_targets :
      ScAddress → Option Text → List DataKey → InspectResult → List ExtendTarget
  extend_targets addr hash dks r =
      (record {
        kind = instance_kind;
        spec = [];
        key = Stellar.instance_key addr;
        ttl = r.instance_report.ttl;
      })
      ∷ (code_targets hash r.code ++ data_targets dks r.data_reports)

  unfoldable pub estimate_extends :
      Plan → Option Text → InspectResult → ℕ → Exec (Session W) (List ExtendEstimate)
  estimate_extends plan hash r ledgers =
      if ltb 0 ledgers
      then estimate_targets (extend_targets plan.contract hash plan.data_keys r) r.latest_ledger
          ledgers
      else pure []
