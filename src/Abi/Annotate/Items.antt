-- ===== src/Abi/Annotate/Items.antt =====
-- Vecs, maps and their items, by what is known of their parts.
use mathlib.Core.Path.{subst}
use soroprobe.Prelude.{
  ◌≡◌, refl, sym, List, [], ◌∷◌, ◌+◌, ℕ, Text, text, Result, ok, bind-eq-ok, Bool-cases, inl, inr,
}
use soroprobe.Prelude.Strings.{trim_space, has_prefix}
use soroprobe.Abi.{AbiError, at_item, at_key, at_value, not_an_array, not_pairs, json_error}
use soroprobe.Abi.Annotate.{
  Json, wrapped, located, each_item, pair_of, each_pair, annotate_vec, annotate_map, literal_of,
  as_vec,
}
use soroprobe.Abi.Annotate.Rules.{EachOf, PairOf, VecOf, MapOf, StandsFor, Nested}
use soroprobe.Abi.Annotate.Forms.{Gives, ok-inj, err-ne-ok, located_ok, wrapped_ok}

module _ (json : Json) where
  each_item-EachOf :
      (element : Text → Result AbiError Text) (P : Text → Text → Type 0)
      → ((r s : Text) → element r ≡ ok s → P r s)
      → (i : ℕ) (items specs : List Text) → Gives (each_item element i items) specs
      → EachOf P items specs
  unfolding each_item
  each_item-EachOf element P sound i [] specs h = subst (λ l. EachOf P [] l) (ok-inj h) tt
  each_item-EachOf element P sound i (r ∷ rs) specs h =
      let (s, e, h1) = bind-eq-ok (located (at_item i) (element r)) _ h in
      let (ss, each, h2) = bind-eq-ok (each_item element (i + 1) rs) _ h1 in
      subst (λ l. EachOf P (r ∷ rs) l) (ok-inj h2)
        (
          sound r s (located_ok (at_item i) _ e),
          each_item-EachOf element P sound (i + 1) rs ss each,
        )

  pair_of-PairOf :
      (key value : Text → Result AbiError Text) (K V : Text → Text → Type 0)
      → ((r s : Text) → key r ≡ ok s → K r s)
      → ((r s : Text) → value r ≡ ok s → V r s)
      → (i : ℕ) (item : List Text) (q : Text × Text) → Gives (pair_of key value i item) q
      → PairOf K V item q
  unfolding pair_of
  pair_of-PairOf key value K V sk sv i (k ∷ v ∷ []) q h =
      let (a, e, h1) = bind-eq-ok (located (at_key i) (key k)) _ h in
      let (b, e', h2) = bind-eq-ok (located (at_value i) (value v)) _ h1 in
      subst (λ x. PairOf K V (k ∷ v ∷ []) x) (ok-inj h2)
        (sk k a (located_ok (at_key i) _ e), sv v b (located_ok (at_value i) _ e'))
  pair_of-PairOf key value K V sk sv i _ q h = absurd (err-ne-ok h)

  each_pair-EachOf :
      (key value : Text → Result AbiError Text) (K V : Text → Text → Type 0)
      → ((r s : Text) → key r ≡ ok s → K r s)
      → ((r s : Text) → value r ≡ ok s → V r s)
      → (i : ℕ) (items : List (List Text)) (pairs : List (Text × Text))
      → Gives (each_pair key value i items) pairs
      → EachOf (PairOf K V) items pairs
  unfolding each_pair
  each_pair-EachOf key value K V sk sv i [] pairs h =
      subst (λ l. EachOf (PairOf K V) [] l) (ok-inj h) tt
  each_pair-EachOf key value K V sk sv i (p ∷ ps) pairs h =
      let (q, e, h1) = bind-eq-ok (pair_of key value i p) _ h in
      let (qs, each, h2) = bind-eq-ok (each_pair key value (i + 1) ps) _ h1 in
      subst (λ l. EachOf (PairOf K V) (p ∷ ps) l) (ok-inj h2)
        (
          pair_of-PairOf key value K V sk sv i p q e,
          each_pair-EachOf key value K V sk sv (i + 1) ps qs each,
        )

  pub annotate_vec-VecOf :
      (element : Text → Result AbiError Text) (P : Text → Text → Type 0) (shown a s : Text)
      → ((r t : Text) → element r ≡ ok t → P r t)
      → annotate_vec json element shown a ≡ ok s
      → VecOf json P a s
  unfolding annotate_vec
  annotate_vec-VecOf element P shown a s sound h =
      let (items, e, h1) = bind-eq-ok (wrapped (not_an_array shown) (json.items a)) _ h in
      let (specs, each, h2) = bind-eq-ok (each_item element 0 items) _ h1 in
      let (body, e', h3) = bind-eq-ok (wrapped json_error (json.marshal specs)) _ h2 in
      (
        items,
        wrapped_ok (not_an_array shown) _ e,
        specs,
        each_item-EachOf element P sound 0 items specs each,
        body,
        wrapped_ok json_error _ e',
        sym (ok-inj h3),
      )

  pub annotate_map-MapOf :
      (key value : Text → Result AbiError Text) (K V : Text → Text → Type 0) (shown a s : Text)
      → ((r t : Text) → key r ≡ ok t → K r t)
      → ((r t : Text) → value r ≡ ok t → V r t)
      → annotate_map json key value shown a ≡ ok s
      → MapOf json K V a s
  unfolding annotate_map
  annotate_map-MapOf key value K V shown a s sk sv h =
      let (items, e, h1) = bind-eq-ok (wrapped (not_pairs shown) (json.lists a)) _ h in
      let (pairs, each, h2) = bind-eq-ok (each_pair key value 0 items) _ h1 in
      let (body, e', h3) = bind-eq-ok (wrapped json_error (json.marshal_pairs pairs)) _ h2 in
      (
        items,
        wrapped_ok (not_pairs shown) _ e,
        pairs,
        each_pair-EachOf key value K V sk sv 0 items pairs each,
        body,
        wrapped_ok json_error _ e',
        sym (ok-inj h3),
      )

  pub literal_of-StandsFor : (raw a : Text) → Gives (literal_of json raw) a → StandsFor json raw a
  unfolding literal_of
  literal_of-StandsFor raw a h = elim (Bool-cases (has_prefix (trim_space raw) (text "\""))) [
    | inl quoted ↦ rw quoted (wrapped_ok json_error _ (rw quoted at h))
    | inr bare ↦ rw bare (sym (ok-inj (rw bare at h)))
  ]

  pub as_vec-Nested : (s : Text) → Nested json s (as_vec json s)
  unfolding as_vec
  as_vec-Nested s = elim (Bool-cases (has_prefix s (text "["))) [
    | inl array ↦ rw array refl
    | inr plain ↦ rw plain refl
  ]
