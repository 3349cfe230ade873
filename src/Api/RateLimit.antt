-- ===== src/Api/RateLimit.antt =====
-- internal/api/api.go: the rate limit, a bucket of tokens for each client.
-- Floating-point numbers are bit patterns, and the arithmetic on them a parameter; the lock around
-- the buckets is left out, since one request is one step.
pub mod Bound
use soroprobe.Prelude.{
  ℕ, Bool, ◌||◌, Option, none, some, List, [], ◌∷◌, if◌then◌else◌, leb, Text, is_empty, length,
}
use soroprobe.Prelude.Int.{ℤ, pos, ltb_ℤ, ◌-ℤ◌}
use soroprobe.Prelude.Dict.{Dict, lookup, insert, delete}
use soroprobe.Probe.Cost.{Float}

-- The arithmetic of takeTokens: a duration in seconds, and the whole seconds above a number.
pub record Arithmetic : Type 0 where
  pub seconds : ℤ → Float
  pub add : Float → Float → Float
  pub subtract : Float → Float → Float
  pub multiply : Float → Float → Float
  pub divide : Float → Float → Float
  pub min : Float → Float → Float
  pub less : Float → Float → Bool
  pub ceil : Float → ℤ

-- clientBucket; times are in nanoseconds
pub record Bucket : Type 0 where
  pub tokens : Float
  pub capacity : Float
  pub updated_at : ℤ
  pub seen_at : ℤ

abbrev pub max_clients : ℕ
max_clients = 10_000

-- the settings of the server and its buckets
pub record Limiter : Type 0 where
  pub rate_burst : Float
  pub rate_per_second : Float
  pub clients : Dict Bucket

-- the loop of evictOldestClient: the key that was seen first, the empty key before any is seen
unfoldable pub oldest_client : Text → ℤ → Dict Bucket → Text
oldest_client oldest_key oldest [] = oldest_key
oldest_client oldest_key oldest ((k, b) ∷ m) =
    let older = is_empty oldest_key || ltb_ℤ b.seen_at oldest in
    oldest_client (if older then k else oldest_key) (if older then b.seen_at else oldest) m

-- evictOldestClient
unfoldable pub evict_oldest_client : Dict Bucket → Dict Bucket
evict_oldest_client m = delete (oldest_client [] (pos 0) m) m

module _ (fl : Arithmetic) where
  unfoldable pub refill : Float → ℤ → Bucket → Bucket
  refill per_second now b = record b {
    tokens =
        fl.min b.capacity
          (fl.add b.tokens (fl.multiply (fl.seconds (now -ℤ b.updated_at)) per_second));
    updated_at = now;
    seen_at = now;
  }

  unfoldable pub widen : Float → Bucket → Bucket
  widen cost b = if fl.less b.capacity cost then record b { capacity = cost } else b

  -- the whole seconds to wait, and the bucket after the request
  unfoldable pub charge : Float → Float → Bucket → ℤ × Bucket
  charge per_second cost b =
      if fl.less b.tokens cost
      then (fl.ceil (fl.divide (fl.subtract cost b.tokens) per_second), b)
      else (pos 0, record b { tokens = fl.subtract b.tokens cost })

  unfoldable pub new_bucket : Float → ℤ → Bucket
  new_bucket burst now = record {
    tokens = burst;
    capacity = burst;
    updated_at = now;
    seen_at = pos 0;
  }

  -- the client's bucket, or a new one for which room was made
  unfoldable pub bucket_from : Option Bucket → ℤ → Limiter → Bucket × Dict Bucket
  bucket_from (some b) now l = (b, l.clients)
  bucket_from none now l = (
    new_bucket l.rate_burst now,
    if leb max_clients (length l.clients) then evict_oldest_client l.clients else l.clients,
  )

  -- takeTokens: the delay before the request can pass, 0 if it passes now
  unfoldable pub take_tokens : Text → Float → ℤ → Limiter → ℤ × Limiter
  take_tokens client cost now l =
      let (bucket, clients) = bucket_from (lookup client l.clients) now l in
      let (delay, charged) =
        charge l.rate_per_second cost (widen cost (refill l.rate_per_second now bucket)) in
      (delay, record l { clients = insert client charged clients })
