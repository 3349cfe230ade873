-- ===== src/Probe/Batch/Fetch.antt =====
-- internal/probe/batch.go: reading the ledger entries of a whole batch, at most 200 keys to a
-- request, and the client that answers from them. The context is read once before each request.
pub mod Covered
use soroprobe.Prelude.{
  ℕ, zero, suc, Bool, true, false, ◌==◌, Option, none, some, List, [], ◌∷◌, ◌++◌, if◌then◌else◌,
  Result, ok, err, Text, length, take, drop,
}
use soroprobe.Prelude.Outcome.{◌>>=◌ as bind_result}
use soroprobe.Prelude.Dict.{Dict, lookup, insert}
use soroprobe.Errors.{Error, not_prefetched}
use soroprobe.Stellar.{LedgerEntry, EntriesResponse, Client}

abbrev pub max_ledger_keys_per_request : ℕ
max_ledger_keys_per_request = 200

-- batchLedgerEntries
pub record Fetched : Type 0 where
  pub entries : Dict LedgerEntry
  pub latest : Dict ℕ
  pub errors : Dict Error

abbrev pub nothing_fetched : Fetched
nothing_fetched = record { entries = []; latest = []; errors = [] }

-- m[k] = v for each of the keys
unfoldable pub set_each : {V : Type 0} → List Text → V → Dict V → Dict V
set_each [] v m = m
set_each (k ∷ ks) v m = set_each ks v (insert k v m)

unfoldable pub add_entries : List LedgerEntry → Dict LedgerEntry → Dict LedgerEntry
add_entries [] m = m
add_entries (e ∷ es) m = add_entries es (insert e.key_xdr e m)

-- what the answer to the request for a chunk adds
unfoldable pub add_chunk : List Text → Result Error EntriesResponse → Fetched → Fetched
add_chunk chunk (err e) r = record r { errors = set_each chunk e r.errors }
add_chunk chunk (ok response) r = record r {
  latest = set_each chunk response.latest_ledger r.latest;
  entries = add_entries response.entries r.entries;
}

-- The rest of the loop, unless the context has an error, which every key that is left gets.
unfoldable pub or_stop :
    {W : Type 0} → Option Error → List Text → Fetched → W → Fetched × W → Fetched × W
or_stop none keys r w rest = rest
or_stop (some e) keys r w rest = (record r { errors = set_each keys e r.errors }, w)

module _ {W : Type 0} (client : Client W) where
  unfoldable pub fetch_chunk : List Text → Fetched → W → Fetched × W
  fetch_chunk chunk r w =
      let (response, w') = client.get_ledger_entries chunk w in (add_chunk chunk response r, w')

  -- The loop of fetchBatchEntries over the keys that are left. Each round takes a key at least, so
  -- the number of keys is fuel enough.
  unfoldable pub fetch_from : ℕ → List Text → Fetched → W → Fetched × W
  fetch_from zero keys r w = (r, w)
  fetch_from (suc n) [] r w = (r, w)
  fetch_from (suc n) (k ∷ ks) r w =
      let keys = k ∷ ks in
      let (e, w') = client.ctx_err w in
      let (r', w'') = fetch_chunk (take max_ledger_keys_per_request keys) r w' in
      let rest = fetch_from n (drop max_ledger_keys_per_request keys) r' w'' in
      or_stop e keys r w' rest

  -- fetchBatchEntries
  unfoldable pub fetch_batch_entries : List Text → W → Fetched × W
  fetch_batch_entries keys w = fetch_from (length keys) keys nothing_fetched w

-- one round of cachedLedgerClient.GetLedgerEntries, by what is known of the key
unfoldable pub cached_key :
    Text
    → Option Error
    → Option ℕ
    → Option LedgerEntry
    → EntriesResponse
    → Result Error EntriesResponse
cached_key key (some e) latest entry response = err e
cached_key key none none entry response = err (not_prefetched key)
cached_key key none (some ledger) none response = ok (record response {
  latest_ledger = if response.latest_ledger == 0 then ledger else response.latest_ledger;
})
cached_key key none (some ledger) (some entry) response = ok (record {
  entries = response.entries ++ (entry ∷ []);
  latest_ledger = if response.latest_ledger == 0 then ledger else response.latest_ledger;
})

unfoldable pub cached_from : Fetched → List Text → EntriesResponse → Result Error EntriesResponse
cached_from f [] response = ok response
cached_from f (key ∷ keys) response =
    bind_result
      (cached_key key (lookup key f.errors) (lookup key f.latest) (lookup key f.entries) response)
      (cached_from f keys)

-- cachedLedgerClient.GetLedgerEntries
unfoldable pub cached_entries : Fetched → List Text → Result Error EntriesResponse
cached_entries f keys = cached_from f keys (record { entries = []; latest_ledger = 0 })

-- cachedLedgerClient: all else goes to the client that it embeds
unfoldable pub cached_client : {W : Type 0} → Client W → Fetched → Client W
cached_client client f = record client { get_ledger_entries = λ keys w. (cached_entries f keys, w) }
