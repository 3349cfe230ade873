-- ===== src/Probe/Cache/Key.antt =====
-- What a cache key tells apart, and what a request finds under its key.
use soroprobe.Prelude.{ℕ, ◌<◌, ◌≡◌, refl, true, some, List, [], ◌∷◌, ◌++◌, arith, ok, Text, All}
use soroprobe.Prelude.Int.{ℤ, ltb_ℤ}
use soroprobe.Prelude.Dict.{lookup}
use soroprobe.Probe.Report.{InspectRequest}
use soroprobe.Probe.Prober.{Prober, Session, Cache, CacheEntry}
use soroprobe.Probe.Plan.{or_persistent}
use soroprobe.Probe.Cache.{
  zero_joined, durability_text, cache_key, get, get_entry, get_at, or_inspect, inspect_with,
  inspect,
}

abbrev pub NulFree : Text → Type 0
NulFree t = All (λ (b : ℕ). 0 < b) t

append_zero_joined-cancel :
    (a b : Text) (ks js : List Text)
    → NulFree a
    → NulFree b
    → a ++ zero_joined ks ≡ b ++ zero_joined js
    → (a ≡ b) × (zero_joined ks ≡ zero_joined js)
unfolding zero_joined
append_zero_joined-cancel [] [] ks js f g h = (refl, h)
append_zero_joined-cancel [] (y ∷ b) [] js f g h = absurd cc
append_zero_joined-cancel [] (y ∷ b) (k ∷ ks) js f g h = ground arith
append_zero_joined-cancel (x ∷ a) [] ks [] f g h = absurd cc
append_zero_joined-cancel (x ∷ a) [] ks (j ∷ js) f g h = ground arith
append_zero_joined-cancel (x ∷ a) (y ∷ b) ks js f g h =
    ground (arith, append_zero_joined-cancel a b ks js f.1 g.1)

zero_joined-inj :
    (ks js : List Text)
    → All NulFree ks
    → All NulFree js
    → zero_joined ks ≡ zero_joined js
    → ks ≡ js
zero_joined-inj [] [] f g h = refl
zero_joined-inj [] (j ∷ js) f g h = absurd (unfold zero_joined in cc)
zero_joined-inj (k ∷ ks) [] f g h = absurd (unfold zero_joined in cc)
zero_joined-inj (k ∷ ks) (j ∷ js) f g h =
    let tails : k ++ zero_joined ks ≡ j ++ zero_joined js = unfold zero_joined in cc in
    let (same, rest) = append_zero_joined-cancel k j ks js f.0 g.0 tails in
    let same_rest = zero_joined-inj ks js f.1 g.1 rest in cc

abbrev pub IsNulFree : InspectRequest → Type 0
IsNulFree req =
    NulFree req.contract_id
    × NulFree (durability_text (or_persistent req.data_durability))
    × All NulFree req.data_keys

-- Two requests whose texts have no zero byte share a cache key only if they name the same
-- contract, the same durability (persistent by default) and the same data keys in the same order.
pub cache_key-inj :
    (a b : InspectRequest)
    → IsNulFree a
    → IsNulFree b
    → cache_key a ≡ cache_key b
    → (a.contract_id ≡ b.contract_id)
      × (durability_text (or_persistent a.data_durability)
          ≡ durability_text (or_persistent b.data_durability))
      × (a.data_keys ≡ b.data_keys)
unfolding cache_key
cache_key-inj a b (f, f', f'') (g, g', g'') h =
    let (same, rest) = append_zero_joined-cancel a.contract_id b.contract_id _ _ f g h in
    let tails = zero_joined-inj (_ ∷ a.data_keys) (_ ∷ b.data_keys) (f', f'') (g', g'') rest in
    (same, cc, cc)

module _ {W : Type 0} (p : Prober W) where
  get-fresh :
      (key : Text) (now : ℤ) (c : Cache) (e : CacheEntry)
      → lookup key c.entries ≡ some e
      → ltb_ℤ now e.expires ≡ true
      → get key now c ≡ (some e.result, c)
  unfolding get get_entry
  get-fresh key now c e found fresh = rw (found, fresh) refl

  -- A request whose contract, durability and data keys are in the cache, under an entry that has
  -- not expired, gets that entry's report at the cost of one reading of the clock, whatever extension
  -- it asks to have estimated.
  pub inspect-hit :
      (req : InspectRequest) (ledgers : ℕ) (s : Session W) (c : Cache) (e : CacheEntry)
      → s.cache ≡ some c
      → lookup (cache_key req) c.entries ≡ some e
      → ltb_ℤ (p.client.now s.world).0 e.expires ≡ true
      → inspect p (record req { estimate_extend = ledgers }) s
        ≡ (ok e.result, record s { world = (p.client.now s.world).1; cache = some c })
  unfolding inspect inspect_with get_at or_inspect cache_key
  inspect-hit req ledgers s c e cached found fresh =
      rw (cached, found, get-fresh (cache_key req) (p.client.now s.world).0 c e found fresh) refl
