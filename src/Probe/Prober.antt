-- ===== src/Probe/Prober.antt =====
-- internal/probe/probe.go: a Prober, and the state that its operations share.
use soroprobe.Prelude.{ℕ, Option, List, Text, Result, ok, err}
use soroprobe.Prelude.Int.{ℤ}
use soroprobe.Prelude.Dict.{Dict}
use soroprobe.Health.{Thresholds, ThresholdOverrides, EntryKind, resolve_thresholds}
use soroprobe.Errors.{Error, literal, decoding}
use soroprobe.Scval.Value.{ScVal}
use soroprobe.Scval.Decode.{Json, decode}
use soroprobe.Scval.Decode as ScvalDecode
use soroprobe.Scval.Encode.{Strkey}
use soroprobe.Scval.Registry.{Registry, encode, encode_all}
use soroprobe.Stellar.{Sdk, Client}
use soroprobe.Probe.Exec.{Exec}
use soroprobe.Probe.Report.{InspectResult}

-- scval.Codec
pub record Codec : Type 0 where
  pub encode : Text → Result Error ScVal
  pub encode_all : List Text → Result Error (List ScVal)
  pub decode : ScVal → Result Error Json

abbrev pub map_err : {E F A : Type 0} → (E → F) → Result E A → Result F A
map_err f (ok a) = ok a
map_err f (err e) = err (f e)

-- the default codec
unfoldable pub registry_codec : Strkey → Registry → ScvalDecode.Sdk → Codec
registry_codec k r a = record {
  encode = λ spec. map_err literal (encode k r spec);
  encode_all = λ specs. map_err literal (encode_all k r specs);
  decode = λ v. map_err decoding (decode a v);
}

pub record Prober (W : Type 0) : Type 0 where
  pub client : Client W
  pub sdk : Sdk
  pub codec : Codec
  pub source : Text
  pub thresholds : Thresholds
  pub threshold_overrides : ThresholdOverrides

-- ledgerTimeCache
pub record LedgerTime : Type 0 where
  pub duration : ℤ
  pub measured_at : ℤ

pub record CacheEntry : Type 0 where
  pub result : InspectResult
  pub expires : ℤ

-- inspectCache
pub record Cache : Type 0 where
  pub ttl : ℤ
  pub max_entries : ℕ
  pub entries : Dict CacheEntry

-- The state outside the program, and what the prober keeps between calls. A nil cache is `none`;
-- `New` always sets `ledgerTime`.
pub record Session (W : Type 0) : Type 0 where
  pub world : W
  pub ledger_time : LedgerTime
  pub cache : Option Cache

module _ {W : Type 0} where
  -- A call of the client in a session.
  abbrev pub call : {A : Type 0} → (W → Result Error A × W) → Exec (Session W) A
  call f s = let (r, w) = f s.world in (r, record s { world = w })

  -- Reading the clock or the context.
  abbrev pub read : {A : Type 0} → (W → A × W) → Exec (Session W) A
  read f s = let (a, w) = f s.world in (ok a, record s { world = w })

  unfoldable pub thresholds_for : Prober W → EntryKind → Thresholds
  thresholds_for p kind = resolve_thresholds kind p.thresholds p.threshold_overrides
