-- ===== src/Probe/Cache/History.antt =====
-- What the cache gives back for a key that was put.
use soroprobe.Prelude.{◌≡◌, refl, arith, none, some, Text, text_eq_refl, if◌then◌else◌}
use soroprobe.Prelude.Int.{ℤ, ltb_ℤ, ◌+ℤ◌}
use soroprobe.Prelude.Dict.{lookup, lookup-insert}
use soroprobe.Probe.Report.{InspectResult}
use soroprobe.Probe.Prober.{Cache}
use soroprobe.Probe.Cache.{get, get_entry, put}

lookup-put :
    (key : Text) (result : InspectResult) (now : ℤ) (c : Cache)
    → lookup key (put key result now c).entries
      ≡ some (record { result = result; expires = now +ℤ c.ttl })
unfolding put
lookup-put key result now c = rw (lookup-insert, text_eq_refl) refl

-- A report that was put is found under its key, however full the cache was, exactly until the
-- cache's time to live has passed.
pub get-put :
    (key : Text) (result : InspectResult) (now later : ℤ) (c : Cache)
    → (get key later (put key result now c)).0
      ≡ (if ltb_ℤ later (now +ℤ c.ttl) then some result else none)
unfolding get get_entry
get-put key result now later c = rw lookup-put (ground arith)
