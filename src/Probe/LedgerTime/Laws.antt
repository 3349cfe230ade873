-- ===== src/Probe/LedgerTime/Laws.antt =====
-- What the close time of an inspection can be, and how it can fail.
use soroprobe.Prelude.{
  ◌≡◌, refl, Option, none, some, List, [], ◌∷◌, Result, ok, err, arith, ◌<◌, Bool-cases, inl, inr,
}
use soroprobe.Prelude.Int.{ℤ, pos, pos_part, ltb_ℤ}
use soroprobe.Errors.{Error}
use soroprobe.Stellar.{LedgerInfo}
use soroprobe.Probe.Exec.{Exec}
use soroprobe.Probe.Prober.{Prober, Session}
use soroprobe.Probe.LedgerTime.{
  average_of, sort_ledgers, measure, is_fresh, CloseTime, settle, give_up, or_give_up, window_start,
  ledger_time_window, keep_measured, measure_close_time, close_time,
}

average_of-pos : (l : List LedgerInfo) (d : ℤ) → average_of l ≡ some d → 0 < pos_part d
unfolding average_of
average_of-pos [] d h = cc
average_of-pos (x ∷ xs) d h = ground arith

measure-pos : (l : List LedgerInfo) (d : ℤ) → measure l ≡ some d → 0 < pos_part d
unfolding measure
measure-pos l d h = ground (arith, average_of-pos (sort_ledgers l) d)

module _ {W : Type 0} (p : Prober W) where
  -- A duration that came back is positive; an error is what the context answered when it was asked
  -- last, so the context was canceled.
  abbrev pub Positive : Result Error CloseTime × Session W → Type 0
  Positive (ok (d, note), s) = 0 < pos_part d
  Positive (err e, s) = (w : W) × (p.client.ctx_err w ≡ (some e, s.world))

  settle-Positive :
      (w : W) (o : Option Error) (s : Session W)
      → p.client.ctx_err w ≡ (o, s.world)
      → Positive (settle o s)
  settle-Positive w none s h = omega arith
  settle-Positive w (some e) s h = (w, h)

  or_give_up-Positive :
      {A : Type 0} (r : Result Error A) (next : A → Exec (Session W) CloseTime) (s : Session W)
      → ((a : A) (t : Session W) → Positive (next a t))
      → Positive (or_give_up p r next s)
  unfolding give_up
  or_give_up-Positive (ok a) next s h = h a s
  or_give_up-Positive (err e) next s h =
      let (o, w) = p.client.ctx_err s.world in
      settle-Positive s.world o (record s { world = w }) refl

  keep_measured-Positive :
      (l : List LedgerInfo) (s : Session W) → Positive (keep_measured p (measure l) s)
  keep_measured-Positive l s = go (measure l) refl
    where
      go : (o : Option ℤ) → measure l ≡ o → Positive (keep_measured p o s)
      go none e = unfold keep_measured in omega arith
      go (some d) e = unfold keep_measured in measure-pos l d e

  measure_close_time-Positive : (s : Session W) → Positive (measure_close_time p s)
  unfolding measure_close_time
  measure_close_time-Positive s =
      let (r, w) = p.client.get_latest_ledger s.world in
      or_give_up-Positive r _ (record s { world = w })
        (λ latest t.
          let (q, v) = p.client.get_ledgers (window_start latest) ledger_time_window t.world in
          or_give_up-Positive q _ (record t { world = v }) (λ l u. keep_measured-Positive l u))

  -- Whatever the network answers, and whatever was measured before, the close time that an
  -- inspection works with is positive, or there is an error, and then it is the one with which the
  -- context says that it was canceled, asked last: a failed call alone is no error.
  pub close_time-Positive : (s : Session W) → Positive (close_time p s)
  unfolding close_time
  close_time-Positive s = elim (Bool-cases (ltb_ℤ (pos 0) s.ledger_time.duration)) [
    | inl kept ↦ elim (Bool-cases (is_fresh s.ledger_time (p.client.now s.world).0)) [
      | inl fresh ↦ rw (kept, fresh) (ground arith)
      | inr stale ↦
          rw (kept, stale)
            (measure_close_time-Positive (record s { world = (p.client.now s.world).1 }))
    ]
    | inr unset ↦ rw unset (measure_close_time-Positive s)
  ]
