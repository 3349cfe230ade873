-- ===== src/Probe/Cache.antt =====
-- internal/probe/inspect_cache.go: the bounded cache of reports, and Prober.Inspect over it.
-- A report is a value here, so a copy of it is the report. A time is in nanoseconds.
pub mod Bound
pub mod History
pub mod Key
use soroprobe.Prelude.{
  ℕ, Bool, true, false, not, ◌||◌, Option, none, some, List, [], ◌∷◌, ◌++◌, ltb, if◌then◌else◌,
  Result, ok, err, Text, text, is_empty, length,
}
use soroprobe.Prelude.Int.{ℤ, pos, ltb_ℤ, leb_ℤ, ◌+ℤ◌}
use soroprobe.Prelude.Dict.{Dict, lookup, insert, delete}
use soroprobe.Health.{Durability}
use soroprobe.Errors.{Error}
use soroprobe.Probe.Exec.{Exec, pure, raise, lift, ◌>>=◌}
use soroprobe.Probe.Report.{InspectRequest, InspectResult}
use soroprobe.Probe.Prober.{Prober, Session, Cache, CacheEntry}
use soroprobe.Probe.Plan.{or_persistent}
use soroprobe.Probe.Inspect.{inspect_uncached}

abbrev pub inspect_cache_max_entries : ℕ
inspect_cache_max_entries = 256

-- newInspectCache; a `max` of zero stands for every limit that is not positive
unfoldable pub new_inspect_cache : ℤ → ℕ → Cache
new_inspect_cache ttl max = record {
  ttl = ttl;
  max_entries = if ltb 0 max then max else inspect_cache_max_entries;
  entries = [];
}

unfoldable pub durability_text : Durability → Text
durability_text Durability.unset = []
durability_text Durability.persistent = text "persistent"
durability_text Durability.temporary = text "temporary"
durability_text (Durability.other s) = s

-- each key behind a zero byte
unfoldable pub zero_joined : List Text → Text
zero_joined [] = []
zero_joined (k ∷ ks) = 0 ∷ (k ++ zero_joined ks)

-- inspectCacheKey
unfoldable pub cache_key : InspectRequest → Text
cache_key req =
    req.contract_id
    ++ zero_joined (durability_text (or_persistent req.data_durability) ∷ req.data_keys)

-- what get does with the entry that it found
unfoldable pub get_entry : Text → ℤ → Cache → Option CacheEntry → Option InspectResult × Cache
get_entry key now c none = (none, c)
get_entry key now c (some entry) =
    if not (ltb_ℤ now entry.expires)
    then (none, record c { entries = delete key c.entries })
    else (some entry.result, c)

-- inspectCache.get at time `now`
unfoldable pub get : Text → ℤ → Cache → Option InspectResult × Cache
get key now c = get_entry key now c (lookup key c.entries)

-- the first loop of evictLocked
unfoldable pub drop_expired : ℤ → Dict CacheEntry → Dict CacheEntry
drop_expired now [] = []
drop_expired now ((k, e) ∷ m) =
    let rest = drop_expired now m in if not (ltb_ℤ now e.expires) then rest else (k, e) ∷ rest

-- the second loop: the key that expires first, the empty key before any entry is seen
unfoldable pub oldest_from : Text → ℤ → Dict CacheEntry → Text
oldest_from oldest_key oldest [] = oldest_key
oldest_from oldest_key oldest ((k, e) ∷ m) =
    let newer = is_empty oldest_key || ltb_ℤ e.expires oldest in
    oldest_from (if newer then k else oldest_key) (if newer then e.expires else oldest) m

unfoldable pub delete_oldest : Dict CacheEntry → Dict CacheEntry
delete_oldest m =
    let key = oldest_from [] (pos 0) m in if not (is_empty key) then delete key m else m

-- evictLocked
unfoldable pub evict : ℤ → ℕ → Dict CacheEntry → Dict CacheEntry
evict now max m =
    if ltb (length m) max
    then m
    else let live = drop_expired now m in if ltb (length live) max then live else delete_oldest live

-- inspectCache.put at time `now`
unfoldable pub put : Text → InspectResult → ℤ → Cache → Cache
put key result now c = record c {
  entries =
      insert key (record { result = result; expires = now +ℤ c.ttl })
        (evict now c.max_entries c.entries);
}

module _ {W : Type 0} (p : Prober W) where
  -- the lookup of Inspect: the clock is read only for a key that is in the cache
  unfoldable pub get_at :
      Cache → Text → Option CacheEntry → Session W → Option InspectResult × Session W
  get_at c key none s = (none, s)
  get_at c key (some e) s =
      let (now, w) = p.client.now s.world in
      let (found, c') = get key now c in (found, record s { world = w; cache = some c' })

  unfoldable pub store : Text → InspectResult → Option Cache → Session W → Session W
  store key result none s = s
  store key result (some c) s =
      let (now, w) = p.client.now s.world in
      record s { world = w; cache = some (put key result now c) }

  unfoldable pub inspect_missed : Text → InspectRequest → Exec (Session W) InspectResult
  inspect_missed key req = do
    result ← inspect_uncached p req
    λ s. (ok result, store key result s.cache s)

  unfoldable pub or_inspect :
      Text → InspectRequest → Option InspectResult → Exec (Session W) InspectResult
  or_inspect key req (some result) = pure result
  or_inspect key req none = inspect_missed key req

  unfoldable pub inspect_with : InspectRequest → Option Cache → Exec (Session W) InspectResult
  inspect_with req none s = inspect_uncached p req s
  inspect_with req (some c) s =
      let key = cache_key req in
      let (found, s') = get_at c key (lookup key c.entries) s in or_inspect key req found s'

  -- Prober.Inspect
  unfoldable pub inspect : InspectRequest → Exec (Session W) InspectResult
  inspect req s = inspect_with req s.cache s
