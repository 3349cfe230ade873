-- ===== src/Api/RateLimit/Bound.antt =====
-- The rate limiter keeps a bucket for 10,000 clients at most.
use soroprobe.Prelude.{
  ◌≤◌, ◌<◌, ◌≡◌, refl, sym, ◌⊎◌, inl, inr, ◌||◌, Option, none, some, [], ◌∷◌, if◌then◌else◌, leb,
  Text, text_eq, text_eq_iff, is_empty, length, Bool-cases, arith,
}
use soroprobe.Prelude.Int.{ℤ, ltb_ℤ}
use soroprobe.Prelude.Dict.{
  Dict, lookup, insert, delete, HasKey, length-delete-le, length-delete-lt,
}
use soroprobe.Probe.Cost.{Float}
use soroprobe.Api.RateLimit.{
  Arithmetic, Bucket, max_clients, Limiter, oldest_client, evict_oldest_client, bucket_from,
  take_tokens,
}

-- The scan ends on the key that it began with or on a key of the map.
oldest_client-HasKey :
    (k : Text) (t : ℤ) (m : Dict Bucket) (x : Text) → oldest_client k t m ≡ x → (x ≡ k) ⊎ HasKey x m
unfolding oldest_client
oldest_client-HasKey k t [] x h = inl (sym h)
oldest_client-HasKey k t ((j, b) ∷ m) x h = elim (Bool-cases (is_empty k || ltb_ℤ b.seen_at t)) [
  | inl older ↦ inr (oldest_client-HasKey j b.seen_at m x (rw older at h))
  | inr newer ↦ elim (oldest_client-HasKey k t m x (rw newer at h)) [
    | inl same ↦ inl same
    | inr found ↦ inr (inr found)
  ]
]

length-evict_oldest_client :
    (j : Text) (b : Bucket) (m : Dict Bucket) → length (evict_oldest_client ((j, b) ∷ m)) ≤ length m
unfolding evict_oldest_client oldest_client
length-evict_oldest_client j b m =
    let has : HasKey (oldest_client j b.seen_at m) ((j, b) ∷ m) =
      oldest_client-HasKey j b.seen_at m _ refl in
    omega (arith, length-delete-lt (oldest_client j b.seen_at m) ((j, b) ∷ m) has)

lookup-HasKey : (k : Text) (m : Dict Bucket) (b : Bucket) → lookup k m ≡ some b → HasKey k m
unfolding lookup
lookup-HasKey k [] b h = absurd cc
lookup-HasKey k ((j, c) ∷ m) b h = elim (Bool-cases (text_eq j k)) [
  | inl same ↦ inl (sym ((text_eq_iff j k).0 same))
  | inr other ↦ inr (lookup-HasKey k m b (rw other at h))
]

-- Room for one more.
length-room :
    (m : Dict Bucket)
    → length m ≤ max_clients
    → length (if leb max_clients (length m) then evict_oldest_client m else m) < max_clients
length-room [] h = ground arith
length-room ((j, b) ∷ m) h = ground (arith, length-evict_oldest_client j b m)

module _ (fl : Arithmetic) where
  length-bucket_from :
      (client : Text) (o : Option Bucket) (now : ℤ) (l : Limiter)
      → lookup client l.clients ≡ o
      → length l.clients ≤ max_clients
      → length (delete client (bucket_from fl o now l).1) < max_clients
  unfolding bucket_from
  length-bucket_from client (some b) now l found h =
      omega (arith, length-delete-lt client l.clients (lookup-HasKey client l.clients b found))
  length-bucket_from client none now l found h = omega (
    arith,
    length-room l.clients h,
    length-delete-le client
        (if leb max_clients (length l.clients) then evict_oldest_client l.clients else l.clients),
  )

  -- However many clients ask, there are at most 10,000 buckets after a request if there were at most
  -- so many before it.
  pub take_tokens_bounded :
      (client : Text) (cost : Float) (now : ℤ) (l : Limiter)
      → length l.clients ≤ max_clients
      → length (take_tokens fl client cost now l).1.clients ≤ max_clients
  unfolding take_tokens insert
  take_tokens_bounded client cost now l h =
      omega (arith, length-bucket_from client (lookup client l.clients) now l refl h)
