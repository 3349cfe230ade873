-- ===== src/Probe/Cache/Bound.antt =====
-- The cache never holds more entries than its limit.
use soroprobe.Prelude.{
  ℕ, ◌≤◌, ◌<◌, ◌≡◌, refl, sym, true, false, Option, none, some, [], ◌∷◌, Text, is_empty, length,
  arith, ltb, if◌then◌else◌, All, ◌||◌, ◌++◌, Bool-cases, inl, inr, ◌⊎◌,
}
use soroprobe.Prelude.Int.{ℤ, pos, ltb_ℤ}
use soroprobe.Prelude.Dict.{
  Dict, lookup, insert, delete, HasKey, length-delete-le, length-delete-lt,
}
use soroprobe.Probe.Report.{InspectResult, InspectRequest}
use soroprobe.Probe.Prober.{Cache, CacheEntry}
use soroprobe.Probe.Cache.{
  get, get_entry, drop_expired, oldest_from, delete_oldest, evict, put, zero_joined, cache_key,
}

-- no key is the empty string, as with every key that inspectCacheKey builds
abbrev pub Keyed : Dict CacheEntry → Type 0
Keyed m = All (λ (e : Text × CacheEntry). is_empty e.0 ≡ false) m

pub record IsBounded (c : Cache) : Type 0 where
  pub room : 0 < c.max_entries
  pub within : length c.entries ≤ c.max_entries
  pub keyed : Keyed c.entries

delete-Keyed : (k : Text) (m : Dict CacheEntry) → Keyed m → Keyed (delete k m)
unfolding delete
delete-Keyed k [] h = tt
delete-Keyed k ((j, e) ∷ m) h = ground (arith, delete-Keyed k m h.1)

drop_expired-Keyed : (now : ℤ) (m : Dict CacheEntry) → Keyed m → Keyed (drop_expired now m)
unfolding drop_expired
drop_expired-Keyed now [] h = tt
drop_expired-Keyed now ((k, e) ∷ m) h = ground (arith, drop_expired-Keyed now m h.1)

length-drop_expired : (now : ℤ) (m : Dict CacheEntry) → length (drop_expired now m) ≤ length m
unfolding drop_expired
length-drop_expired now [] = omega arith
length-drop_expired now ((k, e) ∷ m) = ground (arith, length-drop_expired now m)

-- The scan ends on the key that it began with or on a key of the map.
oldest_from-HasKey :
    (k : Text) (t : ℤ) (m : Dict CacheEntry) (x : Text)
    → oldest_from k t m ≡ x
    → (x ≡ k) ⊎ HasKey x m
unfolding oldest_from
oldest_from-HasKey k t [] x h = inl (sym h)
oldest_from-HasKey k t ((j, e) ∷ m) x h = elim (Bool-cases (is_empty k || ltb_ℤ e.expires t)) [
  | inl newer ↦ inr (oldest_from-HasKey j e.expires m x (rw newer at h))
  | inr older ↦ elim (oldest_from-HasKey k t m x (rw older at h)) [
    | inl same ↦ inl same
    | inr found ↦ inr (inr found)
  ]
]

HasKey-Keyed : (k : Text) (m : Dict CacheEntry) → Keyed m → HasKey k m → is_empty k ≡ false
HasKey-Keyed k [] h g = elim g [ ]
HasKey-Keyed k ((j, e) ∷ m) h (inl same) = rw same h.0
HasKey-Keyed k ((j, e) ∷ m) h (inr g) = HasKey-Keyed k m h.1 g

oldest-HasKey :
    (k : Text) (t : ℤ) (j : Text) (e : CacheEntry) (m : Dict CacheEntry)
    → is_empty k ≡ true
    → (x : Text) → oldest_from k t ((j, e) ∷ m) ≡ x
    → HasKey x ((j, e) ∷ m)
unfolding oldest_from
oldest-HasKey k t j e m h x found = oldest_from-HasKey j e.expires m x (rw h at found)

length-delete_oldest :
    (j : Text) (e : CacheEntry) (m : Dict CacheEntry)
    → Keyed ((j, e) ∷ m)
    → length (delete_oldest ((j, e) ∷ m)) ≤ length m
unfolding delete_oldest
length-delete_oldest j e m h =
    let has = oldest-HasKey [] (pos 0) j e m refl _ refl in
    rw (HasKey-Keyed _ ((j, e) ∷ m) h has) (ground (arith, length-delete-lt _ ((j, e) ∷ m) has))

delete_oldest-Keyed : (m : Dict CacheEntry) → Keyed m → Keyed (delete_oldest m)
unfolding delete_oldest
delete_oldest-Keyed m h = ground (arith, delete-Keyed (oldest_from [] (pos 0) m) m h)

evict_live-lt :
    (max : ℕ) (m : Dict CacheEntry)
    → 0 < max
    → length m ≤ max
    → Keyed m
    → length (if ltb (length m) max then m else delete_oldest m) < max
evict_live-lt max [] positive within h = ground arith
evict_live-lt max ((j, e) ∷ m) positive within h = ground (arith, length-delete_oldest j e m h)

length-evict :
    (now : ℤ) (max : ℕ) (m : Dict CacheEntry)
    → 0 < max
    → length m ≤ max
    → Keyed m
    → length (evict now max m) < max
unfolding evict
length-evict now max m positive within h =
    let le = length-drop_expired now m in
    let lt =
      evict_live-lt max (drop_expired now m) positive (omega arith) (drop_expired-Keyed now m h) in
    ground arith

evict-Keyed : (now : ℤ) (max : ℕ) (m : Dict CacheEntry) → Keyed m → Keyed (evict now max m)
unfolding evict
evict-Keyed now max m h =
    let live = drop_expired-Keyed now m h in
    let rest = delete_oldest-Keyed (drop_expired now m) live in ground arith

-- A cache that is within its limit, and has no empty key, stays so whatever is put under a key that
-- is not empty.
pub put-IsBounded :
    (key : Text) (result : InspectResult) (now : ℤ) (c : Cache)
    → is_empty key ≡ false
    → IsBounded c
    → IsBounded (put key result now c)
unfolding put insert
put-IsBounded key result now c nonempty b =
    let lt = length-evict now c.max_entries c.entries b.room b.within b.keyed in
    record {
      room = b.room;
      within = ground (arith, length-delete-le key (evict now c.max_entries c.entries));
      keyed = (nonempty, delete-Keyed key _ (evict-Keyed now c.max_entries c.entries b.keyed));
    }

get_entry-IsBounded :
    (key : Text) (now : ℤ) (c : Cache) (o : Option CacheEntry)
    → IsBounded c
    → IsBounded (get_entry key now c o).1
unfolding get_entry
get_entry-IsBounded key now c none b = b
get_entry-IsBounded key now c (some e) b = elim (Bool-cases (ltb_ℤ now e.expires)) [
  | inl fresh ↦ rw fresh b
  | inr stale ↦ rw stale (record {
    room = b.room;
    within = ground (arith, length-delete-le key c.entries, b.within);
    keyed = delete-Keyed key c.entries b.keyed;
  })
]

-- A lookup leaves the cache within its limit, whether it hits, misses or drops an expired entry.
pub get-IsBounded : (key : Text) (now : ℤ) (c : Cache) → IsBounded c → IsBounded (get key now c).1
unfolding get
get-IsBounded key now c b = get_entry-IsBounded key now c (lookup key c.entries) b

-- No key that is built for a request is empty.
pub cache_key-nonempty : (req : InspectRequest) → is_empty (cache_key req) ≡ false
unfolding cache_key zero_joined
cache_key-nonempty req = append-nonempty req.contract_id 0 _
  where
    append-nonempty : (xs : Text) (y : ℕ) (ys : Text) → is_empty (xs ++ y ∷ ys) ≡ false
    append-nonempty [] y ys = refl
    append-nonempty (x ∷ xs) y ys = refl
