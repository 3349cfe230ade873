-- ===== src/Probe/Report.antt =====
-- internal/probe/inspect.go: the request and the report of an inspection.
use soroprobe.Prelude.{ℕ, Bool, Option, List, Text}
use soroprobe.Prelude.Int.{ℤ}
use soroprobe.Health.{Durability, Status, Summary, Thresholds, Ttl}
use soroprobe.Errors.{Error}
use soroprobe.Scval.Decode.{Json}

pub record InspectRequest : Type 0 where
  pub contract_id : Text
  pub data_keys : List Text
  pub data_durability : Durability
  pub estimate_extend : ℕ

pub data Kind : Type 0 where
  instance_kind code_kind data_kind : Kind

pub data ExtendNote : Type 0 where
  not_on_ledger has_expired no_reported_ttl : ExtendNote

pub record ExtendEstimate : Type 0 where
  pub kind : Kind
  pub key : Text
  pub ledgers : ℕ
  pub extend_to : ℕ
  pub resource_fee : ℤ
  pub min_resource_fee : ℤ
  pub note : Option ExtendNote

-- The text in front of the thresholds, which `entrySummary` adds.
pub data EntrySummary : Type 0 where
  described : Summary → EntrySummary
  not_deployed code_not_found : EntrySummary

pub record EntryReport : Type 0 where
  pub kind : Kind
  pub key : Text
  pub ttl : Ttl
  pub summary : EntrySummary
  pub thresholds : Thresholds

pub data ExecutableName : Type 0 where
  unset wasm stellar_asset : ExecutableName
  other : Text → ExecutableName

-- The decoded instance storage, or the error that stands in its place.
pub data Storage : Type 0 where
  no_storage : Storage
  storage : Json → Storage
  storage_error : Error → Storage

pub data CloseTimeNote : Type 0 where
  measured_average : ℤ → CloseTimeNote
  five_second_target : CloseTimeNote

pub record InspectResult : Type 0 where
  pub contract_id : Text
  pub deployed : Bool
  pub executable : ExecutableName
  pub wasm_hash : Text
  pub instance_report : EntryReport
  pub code : Option EntryReport
  pub data_reports : List EntryReport
  pub instance_storage : Storage
  pub extend_estimates : List ExtendEstimate
  pub status : Status
  pub latest_ledger : ℕ
  pub close_time_note : CloseTimeNote
