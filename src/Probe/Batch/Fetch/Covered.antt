-- ===== src/Probe/Batch/Fetch/Covered.antt =====
-- Every key that is asked for is answered or has an error, and so never missing from the cache.
use soroprobe.Prelude.{
  ℕ, zero, suc, ◌≤◌, ◌≡◌, refl, Option, none, some, List, [], ◌∷◌, Result, ok, err, Text, length,
  take, drop, arith, All, In, ◌⊎◌, inl, inr, text_eq, text_eq_refl, Bool-cases,
}
use soroprobe.Prelude.Outcome.{◌>>=◌ as bind_result}
use soroprobe.Prelude.Dict.{Dict, lookup, insert, lookup-insert}
use soroprobe.Errors.{Error}
use soroprobe.Stellar.{LedgerEntry, EntriesResponse, Client}
use soroprobe.Probe.Batch.Fetch.{
  Fetched, nothing_fetched, set_each, add_chunk, fetch_chunk, fetch_from, fetch_batch_entries,
  or_stop, cached_key, cached_from, cached_entries,
}

abbrev pub Has : {V : Type 0} → Text → Dict V → Type 0
Has {V} k m = (v : V) × (lookup k m ≡ some v)

-- the ledger at which the key was read, or the error of reading it, is there
abbrev pub IsCovered : Fetched → Text → Type 0
IsCovered r k = Has k r.latest ⊎ Has k r.errors

module _ {V : Type 0} where
  insert-Has : (k j : Text) (v : V) (m : Dict V) → Has j m → Has j (insert k v m)
  insert-Has k j v m (u, h) = elim (Bool-cases (text_eq k j)) [
    | inl same ↦ (v, rw (lookup-insert, same) refl)
    | inr differ ↦ (u, rw (lookup-insert, differ) h)
  ]

  set_each-Has :
      (ks : List Text) (j : Text) (v : V) (m : Dict V) → Has j m → Has j (set_each ks v m)
  unfolding set_each
  set_each-Has [] j v m h = h
  set_each-Has (k ∷ ks) j v m h = set_each-Has ks j v (insert k v m) (insert-Has k j v m h)

  set_each-All : (ks : List Text) (v : V) (m : Dict V) → All (λ k. Has k (set_each ks v m)) ks
  unfolding set_each
  set_each-All [] v m = tt
  set_each-All (k ∷ ks) v m = (
    set_each-Has ks k v _ (v, rw (lookup-insert, text_eq_refl) refl),
    set_each-All ks v (insert k v m),
  )

All-map :
    {A : Type 0} (P Q : A → Type 0) (xs : List A) → ((a : A) → P a → Q a) → All P xs → All Q xs
All-map P Q [] f h = tt
All-map P Q (x ∷ xs) f h = (f x h.0, All-map P Q xs f h.1)

add_chunk-covers :
    (chunk : List Text) (a : Result Error EntriesResponse) (r : Fetched)
    → All (IsCovered (add_chunk chunk a r)) chunk
unfolding add_chunk
add_chunk-covers chunk (ok response) r =
    All-map _ _ chunk (λ k h. inl h) (set_each-All chunk response.latest_ledger r.latest)
add_chunk-covers chunk (err e) r = All-map _ _ chunk (λ k h. inr h) (set_each-All chunk e r.errors)

add_chunk-keeps :
    (chunk : List Text) (a : Result Error EntriesResponse) (r : Fetched) (k : Text)
    → IsCovered r k
    → IsCovered (add_chunk chunk a r) k
unfolding add_chunk
add_chunk-keeps chunk (ok response) r k (inl h) = inl (set_each-Has chunk k _ r.latest h)
add_chunk-keeps chunk (ok response) r k (inr h) = inr h
add_chunk-keeps chunk (err e) r k (inl h) = inl h
add_chunk-keeps chunk (err e) r k (inr h) = inr (set_each-Has chunk k e r.errors h)

module _ {W : Type 0} where
  or_stop-covers :
      (o : Option Error) (keys : List Text) (r : Fetched) (w : W) (rest : Fetched × W)
      → All (IsCovered rest.0) keys
      → All (IsCovered (or_stop o keys r w rest).0) keys
  unfolding or_stop
  or_stop-covers none keys r w rest h = h
  or_stop-covers (some e) keys r w rest h =
      All-map _ _ keys (λ k g. inr g) (set_each-All keys e r.errors)

  or_stop-keeps :
      (o : Option Error) (keys : List Text) (r : Fetched) (w : W) (rest : Fetched × W) (k : Text)
      → IsCovered r k
      → IsCovered rest.0 k
      → IsCovered (or_stop o keys r w rest).0 k
  unfolding or_stop
  or_stop-keeps none keys r w rest k h g = g
  or_stop-keeps (some e) keys r w rest k (inl h) g = inl h
  or_stop-keeps (some e) keys r w rest k (inr h) g = inr (set_each-Has keys k e r.errors h)

module _ {A : Type 0} where
  All-take-drop :
      (P : A → Type 0) (n : ℕ) (xs : List A) → All P (take n xs) → All P (drop n xs) → All P xs
  All-take-drop P zero xs h g = g
  All-take-drop P (suc n) [] h g = tt
  All-take-drop P (suc n) (x ∷ xs) h g = (h.0, All-take-drop P n xs h.1 g)

  length-drop-le : (n : ℕ) (xs : List A) → length (drop n xs) ≤ length xs
  length-drop-le zero xs = omega arith
  length-drop-le (suc n) [] = omega arith
  length-drop-le (suc n) (x ∷ xs) = omega (arith, length-drop-le n xs)

module _ {W : Type 0} (client : Client W) where
  fetch_from-keeps :
      (n : ℕ) (keys : List Text) (r : Fetched) (w : W) (k : Text)
      → IsCovered r k
      → IsCovered (fetch_from client n keys r w).0 k
  unfolding fetch_from fetch_chunk
  fetch_from-keeps zero keys r w k h = h
  fetch_from-keeps (suc n) [] r w k h = h
  fetch_from-keeps (suc n) (j ∷ js) r w k h =
      or_stop-keeps _ (j ∷ js) r _ _ k h
        (fetch_from-keeps n _ _ _ k (add_chunk-keeps (take 200 (j ∷ js)) _ r k h))

  fetch_from-covers :
      (n : ℕ) (keys : List Text) (r : Fetched) (w : W)
      → length keys ≤ n
      → All (IsCovered (fetch_from client n keys r w).0) keys
  unfolding fetch_from fetch_chunk
  fetch_from-covers n [] r w h = tt
  fetch_from-covers zero (k ∷ ks) r w h = absurd (omega arith)
  fetch_from-covers (suc n) (k ∷ ks) r w h =
      let chunk = take 200 (k ∷ ks) in
      or_stop-covers _ (k ∷ ks) r _ _ (
        All-take-drop _ 200 (k ∷ ks)
          (All-map _ _ chunk (λ j g. fetch_from-keeps n _ _ _ j g) (add_chunk-covers chunk _ r))
          (fetch_from-covers n _ _ _ (omega (arith, length-drop-le 199 ks))))

  -- However the requests go, every key of a batch ends with the ledger it was read at or with the
  -- error of reading it, also when the context is canceled in between.
  pub fetch_batch_entries-covers :
      (keys : List Text) (w : W) → All (IsCovered (fetch_batch_entries client keys w).0) keys
  unfolding fetch_batch_entries
  fetch_batch_entries-covers keys w =
      fetch_from-covers (length keys) keys nothing_fetched w (omega arith)

-- the error was met in reading one of the keys
abbrev pub IsRecorded : Fetched → List Text → Error → Type 0
IsRecorded f keys e = (k : Text) × In k keys × (lookup k f.errors ≡ some e)

cached_key-error :
    (k : Text) (x : Option Error) (l : Option ℕ) (y : Option LedgerEntry)
    (response : EntriesResponse) (e : Error)
    → ((v : ℕ) × (l ≡ some v)) ⊎ ((v : Error) × (x ≡ some v))
    → cached_key k x l y response ≡ err e
    → x ≡ some e
unfolding cached_key
cached_key-error k (some x) l y response e h g = cc
cached_key-error k none none y response e (inl (v, h)) g = absurd cc
cached_key-error k none none y response e (inr (v, h)) g = absurd cc
cached_key-error k none (some l) none response e h g = absurd cc
cached_key-error k none (some l) (some y) response e h g = absurd cc

bind-eq-err :
    {A B : Type 0} (m : Result Error A) (f : A → Result Error B) (e : Error)
    → bind_result m f ≡ err e
    → (m ≡ err e) ⊎ ((a : A) × (m ≡ ok a) × (f a ≡ err e))
bind-eq-err (ok a) f e h = inr (a, refl, h)
bind-eq-err (err x) f e h = inl cc

cached_from-error :
    (f : Fetched) (keys : List Text) (response : EntriesResponse) (e : Error)
    → All (IsCovered f) keys
    → cached_from f keys response ≡ err e
    → IsRecorded f keys e
unfolding cached_from
cached_from-error f [] response e h g = absurd cc
cached_from-error f (k ∷ ks) response e h g =
    elim (bind-eq-err (cached_key k _ _ _ response) (cached_from f ks) e g) [
      | inl failed ↦ (k, inl refl, cached_key-error k _ _ _ response e h.0 failed)
      | inr (a, found, rest) ↦
          let (j, among, recorded) = cached_from-error f ks a e h.1 rest in (j, inr among, recorded)
    ]

-- A check that reads a batch's keys through the cached client meets no error but one of those
-- recorded for these keys.
pub cached_entries-error :
    {W : Type 0} (client : Client W) (keys : List Text) (w : W) (e : Error)
    → cached_entries (fetch_batch_entries client keys w).0 keys ≡ err e
    → IsRecorded (fetch_batch_entries client keys w).0 keys e
unfolding cached_entries
cached_entries-error client keys w e h =
    cached_from-error _ keys _ e (fetch_batch_entries-covers client keys w) h
