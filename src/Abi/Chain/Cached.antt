-- ===== src/Abi/Chain/Cached.antt =====
-- The cache of the chain source: what it holds, and what a call makes of it.
use soroprobe.Prelude.{
  ℕ, ◌≡◌, ◌∙◌, refl, ap, sym, true, Option, none, some, List, Text, text_eq, text_eq_iff, Result,
  ok, err, Bool-cases, inl, inr, if◌then◌else◌,
}
use soroprobe.Prelude.Outcome.{◌>>=◌}
use soroprobe.Prelude.Dict.{Dict, lookup, lookup-insert}
use soroprobe.Prelude.Strings.Hex.{hex_encode}
use soroprobe.Stellar.{Sdk, Client, code_key, encode_key}
use soroprobe.Abi.{Interface, AbiError}
use soroprobe.Abi.Chain.{
  ChainState, FunctionSpec, ask, interface_in, keep, by_cached, by_hash, instance_hash,
  chain_interface,
}

abbrev interface_of : Option Interface → Interface → Interface
interface_of none i = i
interface_of (some j) i = j

module _ {W : Type 0} (decode : List ℕ → Result Text (Option FunctionSpec × List ℕ)) (sdk : Sdk)
    (rpc : Client W) where
  -- An interface was decoded for a cache key: in some state of the world outside, the answer to a
  -- request for the code entry of a hash with that key holds the interface.
  pub record Decoded (key : Text) (i : Interface) : Type 0 where
    pub hash : Text
    pub world : W
    pub names_key : hex_encode hash ≡ key
    pub in_answer :
        ((ask decode sdk rpc (encode_key sdk (code_key hash)) world).0
          >>= interface_in decode sdk hash)
        ≡ ok i

  abbrev pub DecodedIfAny : Text → Option Interface → Type 0
  DecodedIfAny key none = Unit
  DecodedIfAny key (some i) = Decoded key i

  -- every interface in the cache was decoded for the key that it stands at
  abbrev pub IsFaithful : Dict Interface → Type 0
  IsFaithful cache = (key : Text) → DecodedIfAny key (lookup key cache)

  -- What the cache had for the hash is the answer, and then nothing more was asked for.
  abbrev pub Served : Option Interface → Interface → ChainState W → ChainState W → Type 0
  Served none i s t = Unit
  Served (some j) i s t = (i ≡ j) × (t ≡ s)

  -- What is known of an interface found for a hash, by the states before and after: where it comes
  -- from, that the cache has it at the hash, and at every other key what it had.
  pub record Stored (hash : Text) (i : Interface) (s t : ChainState W) : Type 0 where
    pub decoded : Decoded (hex_encode hash) i
    pub served : Served (lookup (hex_encode hash) s.cache) i s t
    pub cached :
        (key : Text)
        → lookup key t.cache
          ≡ (if text_eq (hex_encode hash) key then some i else lookup key s.cache)

  -- What a look for a hash returned and the state after it, by whether it failed.
  abbrev pub Looked : Text → ChainState W → Result AbiError Interface × ChainState W → Type 0
  Looked hash s (ok i, t) = Stored hash i s t
  Looked hash s (err e, t) = t.cache ≡ s.cache

  -- What a call returned and the state after it: an interface is stored for the hash that the
  -- contract's instance names now; a call that fails leaves the cache as it was.
  abbrev pub Answers : Text → ChainState W → Result AbiError Interface × ChainState W → Type 0
  Answers id s (ok i, t) =
      (hash : Text) × ((instance_hash decode sdk rpc id s.world).0 ≡ ok hash)
      × Stored hash i (record s { world = (instance_hash decode sdk rpc id s.world).1 }) t
  Answers id s (err e, t) = t.cache ≡ s.cache

  Decoded-same : (k j : Text) (i : Interface) → text_eq k j ≡ true → Decoded k i → Decoded j i
  Decoded-same k j i same d = record {
    hash = d.hash;
    world = d.world;
    names_key = d.names_key ∙ (text_eq_iff k j).0 same;
    in_answer = d.in_answer;
  }

  Looked-IsFaithful :
      (hash : Text) (s : ChainState W) (r : Result AbiError Interface × ChainState W)
      → IsFaithful s.cache
      → Looked hash s r
      → IsFaithful r.1.cache
  Looked-IsFaithful hash s (err e, t) faithful h key = rw h (faithful key)
  Looked-IsFaithful hash s (ok i, t) faithful h key =
      elim (Bool-cases (text_eq (hex_encode hash) key)) [
        | inl same ↦ rw (h.cached key, same) (Decoded-same (hex_encode hash) key i same h.decoded)
        | inr other ↦ rw (h.cached key, other) (faithful key)
      ]

  kept_at :
      (k j : Text) (i : Interface) (m : Dict Interface)
      → lookup k m ≡ some i
      → lookup j m ≡ (if text_eq k j then some i else lookup j m)
  kept_at k j i m h = elim (Bool-cases (text_eq k j)) [
    | inl same ↦ rw same (ap (λ x. lookup x m) (sym ((text_eq_iff k j).0 same)) ∙ h)
    | inr other ↦ rw other refl
  ]

  keep-Looked :
      (hash : Text) (r : Result AbiError Interface) (s : ChainState W) (w v : W)
      → lookup (hex_encode hash) s.cache ≡ none
      → ((ask decode sdk rpc (encode_key sdk (code_key hash)) w).0 >>= interface_in decode sdk hash)
        ≡ r
      → Looked hash s (keep decode sdk rpc hash r (record s { world = v }))
  unfolding keep
  keep-Looked hash (err e) s w v missing h = refl
  keep-Looked hash (ok i) s w v missing h = record {
    decoded = record { hash = hash; world = w; names_key = refl; in_answer = h };
    served = rw missing tt;
    cached = λ key. lookup-insert (hex_encode hash) key i s.cache;
  }

  by_cached-Looked :
      (hash : Text) (s : ChainState W) (o : Option Interface)
      → IsFaithful s.cache
      → lookup (hex_encode hash) s.cache ≡ o
      → Looked hash s (by_cached decode sdk rpc hash o s)
  unfolding by_cached
  by_cached-Looked hash s none faithful h = keep-Looked hash _ s s.world _ h refl
  by_cached-Looked hash s (some j) faithful h = record {
    decoded = rw h at (faithful (hex_encode hash));
    served = rw h (refl, refl);
    cached = λ key. kept_at (hex_encode hash) key j s.cache h;
  }

  Looked-Answers :
      (id hash : Text) (s : ChainState W) (r : Result AbiError Interface × ChainState W)
      → (instance_hash decode sdk rpc id s.world).0 ≡ ok hash
      → Looked hash (record s { world = (instance_hash decode sdk rpc id s.world).1 }) r
      → Answers id s r
  Looked-Answers id hash s (ok i, t) now h = (hash, now, h)
  Looked-Answers id hash s (err e, t) now h = h

  by_hash-Answers :
      (id : Text) (s : ChainState W) (r : Result AbiError Text)
      → IsFaithful s.cache
      → (instance_hash decode sdk rpc id s.world).0 ≡ r
      → let after =
          by_hash decode sdk rpc r
            (record s { world = (instance_hash decode sdk rpc id s.world).1 }) in
        Answers id s after × IsFaithful after.1.cache
  unfolding by_hash
  by_hash-Answers id s (err e) faithful h = (refl, faithful)
  by_hash-Answers id s (ok hash) faithful h =
      let t = record s { world = (instance_hash decode sdk rpc id s.world).1 } in
      let found = by_cached-Looked hash t (lookup (hex_encode hash) s.cache) faithful refl in
      (Looked-Answers id hash s _ h found, Looked-IsFaithful hash t _ faithful found)

  -- Hashes stand for their hexadecimal form here, and an interface was decoded for a hash if the code
  -- entry of the hash held it in some state of the world. As long as every interface in the cache was
  -- decoded for the hash that it stands at, so it stays, and every interface that is found was decoded
  -- for the hash that the contract's instance names now, not for another, such as that of the code
  -- before an upgrade. It is kept at that hash and the other keys stay as they were; what the cache
  -- had for that hash is answered without asking for the code. A call that fails leaves the cache as
  -- it was.
  pub chain_interface-Answers :
      (id : Text) (s : ChainState W)
      → IsFaithful s.cache
      → Answers id s (chain_interface decode sdk rpc id s)
        × IsFaithful (chain_interface decode sdk rpc id s).1.cache
  unfolding chain_interface
  chain_interface-Answers id s faithful = by_hash-Answers id s _ faithful refl
