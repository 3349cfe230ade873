-- ===== src/Tests/Batch.antt =====
-- The cache and the batch at concrete inputs.
use soroprobe.Prelude.{
  ◌≤◌, ◌<◌, ◌≡◌, refl, none, some, [], ◌∷◌, length, All, Result, ok, err, Text, text, text_eq,
  arith, if◌then◌else◌,
}
use soroprobe.Prelude.Int.{ℤ, pos, ltb_ℤ, ◌+ℤ◌}
use soroprobe.Prelude.Dict.{lookup, insert, delete}
use soroprobe.Health.{Durability}
use soroprobe.Probe.Report.{InspectRequest}
use soroprobe.Probe.Prober.{Cache, CacheEntry, Session}
use soroprobe.Probe.Cache.{get, put, cache_key, zero_joined, durability_text, inspect}
use soroprobe.Probe.Plan.{or_persistent}
use soroprobe.Probe.Cache.Bound.{IsBounded, put-IsBounded}
use soroprobe.Probe.Cache.History.{get-put}
use soroprobe.Probe.Cache.Key.{IsNulFree, cache_key-inj, inspect-hit}
use soroprobe.Probe.Batch.{
  NamedCheck, BatchRequest, validate_batch, validate_from, validate_check, check_timeout,
  parsed_timeout, validate_durability, validate_name, check_name,
}
use soroprobe.Probe.Batch.Validated.{IsRunnable, Distinct, names, validate_batch_sound}
use soroprobe.Probe.Batch.Fetch.{
  cached_from, cached_key, fetch_from, or_stop, fetch_chunk, add_chunk, set_each,
  fetch_batch_entries, cached_entries,
}
use soroprobe.Probe.Batch.Fetch.Covered.{
  IsCovered, IsRecorded, fetch_batch_entries-covers, cached_entries-error,
}
use soroprobe.Tests.World.{
  World, failure, the_client, the_prober, the_session, the_request, a_check,
}
use soroprobe.Tests.Probe.{the_report, deaf_client}

-- a cache with room for one report, which is full
abbrev full_cache : Cache
full_cache = record {
  ttl = pos 100;
  max_entries = 1;
  entries = (cache_key the_request, record { result = the_report; expires = pos 90 }) ∷ [];
}

full_cache-IsBounded : IsBounded full_cache
unfolding cache_key
full_cache-IsBounded = record { room = omega arith; within = omega arith; keyed = (refl, tt) }

put-IsBounded_example : IsBounded (put (text "k") the_report (pos 50) full_cache)
put-IsBounded_example =
    put-IsBounded (text "k") the_report (pos 50) full_cache refl full_cache-IsBounded

get-put_example :
    (get (text "k") (pos 60) (put (text "k") the_report (pos 50) full_cache)).0
    ≡ (if ltb_ℤ (pos 60) (pos 50 +ℤ full_cache.ttl) then some the_report else none)
get-put_example = get-put (text "k") the_report (pos 50) (pos 60) full_cache

abbrev spelled_out : InspectRequest
spelled_out = record the_request { data_durability = Durability.persistent }

the_request-IsNulFree : IsNulFree the_request
unfolding durability_text or_persistent
the_request-IsNulFree = (ground arith, ground arith, tt)

spelled_out-IsNulFree : IsNulFree spelled_out
unfolding durability_text or_persistent
spelled_out-IsNulFree = (ground arith, ground arith, tt)

same_key : cache_key the_request ≡ cache_key spelled_out
unfolding cache_key zero_joined durability_text or_persistent
same_key = refl

cache_key-inj_example :
    (the_request.contract_id ≡ spelled_out.contract_id)
    × (durability_text (or_persistent the_request.data_durability)
        ≡ durability_text (or_persistent spelled_out.data_durability))
    × (the_request.data_keys ≡ spelled_out.data_keys)
cache_key-inj_example =
    cache_key-inj the_request spelled_out the_request-IsNulFree spelled_out-IsNulFree same_key

abbrev caching : Session World
caching = record the_session { cache = some full_cache }

abbrev the_cached : CacheEntry
the_cached = record { result = the_report; expires = pos 90 }

cached : lookup (cache_key the_request) full_cache.entries ≡ some the_cached
unfolding lookup cache_key text_eq zero_joined durability_text or_persistent
cached = refl

inspect-hit_example :
    inspect the_prober (record the_request { estimate_extend = 1_000 }) caching
    ≡ (ok the_report, record caching { world = tt; cache = some full_cache })
inspect-hit_example =
    inspect-hit the_prober the_request 1_000 caching full_cache the_cached refl cached refl

abbrev seconds : Text → Result Text ℤ
seconds s = ok (pos 45)

abbrev one_check : NamedCheck
one_check = record { name = []; timeout = text "45s"; request = a_check }

abbrev two_checks : BatchRequest
two_checks = record {
  checks = one_check ∷ (record one_check { name = text "token" }) ∷ [];
  concurrency = pos 0;
}

valid : validate_batch seconds two_checks ≡ none
unfolding validate_batch validate_from validate_check check_timeout parsed_timeout
    validate_durability validate_name lookup insert text_eq check_name delete
valid = refl

validate_batch_sound_example :
    (0 < length two_checks.checks)
    × (length two_checks.checks ≤ 100)
    × All (IsRunnable seconds) two_checks.checks
    × Distinct (names two_checks.checks)
validate_batch_sound_example = validate_batch_sound seconds two_checks valid

fetch_batch_entries-covers_example :
    All
      (IsCovered (fetch_batch_entries the_client (text "k" ∷ text "j" ∷ []) tt).0)
      (text "k" ∷ text "j" ∷ [])
fetch_batch_entries-covers_example =
    fetch_batch_entries-covers the_client (text "k" ∷ text "j" ∷ []) tt

deaf :
    cached_entries (fetch_batch_entries deaf_client (text "k" ∷ []) tt).0 (text "k" ∷ [])
    ≡ err failure
unfolding cached_entries fetch_batch_entries cached_from cached_key lookup fetch_from or_stop
    fetch_chunk add_chunk set_each insert text_eq
deaf = refl

cached_entries-error_example :
    IsRecorded (fetch_batch_entries deaf_client (text "k" ∷ []) tt).0 (text "k" ∷ []) failure
cached_entries-error_example = cached_entries-error deaf_client (text "k" ∷ []) tt failure deaf
