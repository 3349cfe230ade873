-- ===== src/Probe/LedgerTime.antt =====
-- internal/probe/ledger_time.go: the measured time between ledgers, which is kept for five minutes.
pub mod Laws
use soroprobe.Prelude.{
  ℕ, zero, suc, ◌+◌, ◌-◌, ◌*◌, Bool, true, false, not, ◌&&◌, ◌||◌, Option, none, some, List, [],
  ◌∷◌, ltb, leb, if◌then◌else◌, Result, ok, err, length,
}
use soroprobe.Prelude.Int.{ℤ, pos, sub_ℕ, pos_part, ltb_ℤ, leb_ℤ, ◌-ℤ◌, ◌*ℤ◌, wrap_int64, quot_ℕ}
use soroprobe.Health.{ledger_close_time, second, minute}
use soroprobe.Errors.{Error}
use soroprobe.Stellar.{Client, LedgerInfo}
use soroprobe.Probe.Exec.{Exec, pure, raise, ◌>>=◌}
use soroprobe.Probe.Report.{CloseTimeNote, measured_average, five_second_target}
use soroprobe.Probe.Prober.{Prober, Session, LedgerTime, call, read}

abbrev pub ledger_time_window : ℕ
ledger_time_window = 20

abbrev pub ledger_time_cache_ttl : ℤ
ledger_time_cache_ttl = pos (5 * minute)

-- sort.Slice by sequence
unfoldable pub insert_ledger : LedgerInfo → List LedgerInfo → List LedgerInfo
insert_ledger x [] = x ∷ []
insert_ledger x (y ∷ ys) =
    let rest = insert_ledger x ys in if leb x.sequence y.sequence then x ∷ y ∷ ys else y ∷ rest

unfoldable pub sort_ledgers : List LedgerInfo → List LedgerInfo
unfolding insert_ledger
sort_ledgers [] = []
sort_ledgers (x ∷ xs) = insert_ledger x (sort_ledgers xs)

abbrev pub last_of : LedgerInfo → List LedgerInfo → LedgerInfo
last_of x [] = x
last_of x (y ∷ ys) = last_of y ys

-- The average between the first and the last of sorted ledgers; `none` is the fallback.
unfoldable pub average_of : List LedgerInfo → Option ℤ
average_of [] = none
average_of (first ∷ rest) =
    let last = last_of first rest in
    let sequence_delta = last.sequence - first.sequence in
    let close_time_delta = wrap_int64 (last.close_time -ℤ first.close_time) in
    let measured = quot_ℕ (wrap_int64 (close_time_delta *ℤ pos second)) sequence_delta in
    if leb last.sequence first.sequence || leb_ℤ close_time_delta (pos 0)
    then none
    else if leb_ℤ measured (pos 0)
    then none
    else some measured

unfoldable pub measure : List LedgerInfo → Option ℤ
unfolding sort_ledgers average_of
measure ledgers = if ltb (length ledgers) 2 then none else average_of (sort_ledgers ledgers)

-- the first ledger of the window
unfoldable pub window_start : ℕ → ℕ
window_start latest = if leb ledger_time_window latest then latest - (ledger_time_window - 1) else 1

-- `cache.duration > 0 && time.Since(cache.measuredAt) < ledgerTimeCacheTTL`, at time `now`
unfoldable pub is_fresh : LedgerTime → ℤ → Bool
is_fresh t now = ltb_ℤ (pos 0) t.duration && ltb_ℤ (now -ℤ t.measured_at) ledger_time_cache_ttl

abbrev pub CloseTime : Type 0
CloseTime = ℤ × CloseTimeNote

abbrev pub fallback : CloseTime
fallback = (ledger_close_time, five_second_target)

abbrev pub settle : {S : Type 0} → Option Error → Exec S CloseTime
settle none = pure fallback
settle (some e) = raise e

module _ {W : Type 0} (p : Prober W) where
  -- After a failed call: the context's error if it has one, and the fallback otherwise.
  unfoldable pub give_up : Exec (Session W) CloseTime
  give_up s = let (e, w) = p.client.ctx_err s.world in settle e (record s { world = w })

  abbrev pub or_give_up :
      {A : Type 0} → Result Error A → (A → Exec (Session W) CloseTime) → Exec (Session W) CloseTime
  or_give_up (ok a) next s = next a s
  or_give_up (err e) next s = give_up s

  -- a call that may fail without ending the measurement
  abbrev pub attempt :
      {A : Type 0}
      → (W → Result Error A × W)
      → (A → Exec (Session W) CloseTime)
      → Exec (Session W) CloseTime
  attempt f next s = let (r, w) = f s.world in or_give_up r next (record s { world = w })

  unfoldable pub keep_measured : Option ℤ → Exec (Session W) CloseTime
  keep_measured none s = (ok fallback, s)
  keep_measured (some measured) s =
      let (now, w) = p.client.now s.world in
      (
        ok (measured, measured_average measured),
        record s { world = w; ledger_time = record { duration = measured; measured_at = now } },
      )

  unfoldable pub measure_close_time : Exec (Session W) CloseTime
  measure_close_time = attempt p.client.get_latest_ledger (λ latest.
      attempt (p.client.get_ledgers (window_start latest) ledger_time_window)
        (λ ledgers. keep_measured (measure ledgers)))

  -- Prober.ledgerCloseTime: the clock is read only if there is a measured duration.
  unfoldable pub close_time : Exec (Session W) CloseTime
  close_time s =
      let (now, w) = p.client.now s.world in
      let s' = record s { world = w } in
      let kept = s.ledger_time.duration in
      if not (ltb_ℤ (pos 0) kept)
      then measure_close_time s
      else if is_fresh s.ledger_time now
      then (ok (kept, measured_average kept), s')
      else measure_close_time s'
