-- ===== src/Scval/Registry/Laws.antt =====
-- What Encode does with a spec, and EncodeAll with a list of them.
use soroprobe.Prelude.{
  ℕ, zero, suc, ◌+◌, ◌≡◌, refl, ◌∙◌, ap, ◌⊎◌, true, false, ◌||◌, Option, none, some, List, [], ◌∷◌,
  ok, err, Text, text, text_eq, text_eq_iff, arith, ◌>>=◌, inl, inr, Option-cases,
}
use soroprobe.Prelude.Dict.{lookup}
use soroprobe.Prelude.Strings.{to_lower, cut}
use soroprobe.Scval.Value.{ScVal}
use soroprobe.Scval.Literal.{LiteralError, Parsed, at_arg}
use soroprobe.Scval.Encode.{Strkey}
use soroprobe.Scval.Registry.{
  EncodeFunc, Registry, split_spec, named, infer, in_spec, encode, encode_all_from, encode_all,
  has_type, with_literal, find_encoder, at_index, checked_spec,
}

-- A spec without a type of its own, by HasType, is encoded by inference.
pub encode-infer :
    (k : Strkey) (r : Registry) (spec : Text)
    → has_type r spec ≡ false
    → encode k r spec ≡ in_spec spec (infer k spec)
unfolding encode has_type
encode-infer k r spec h = ground arith

checked_spec-some :
    (b : Text) (a : Option Text) (p l : Text)
    → checked_spec b a ≡ some (p, l)
    → (to_lower b ≡ p) × (a ≡ some l)
unfolding checked_spec
checked_spec-some b none p l h = cc
checked_spec-some b (some c) p l h = ground arith

with_literal-some :
    (l : Text) (o : Option EncodeFunc) (fn : EncodeFunc) (m : Text)
    → with_literal l o ≡ some (fn, m)
    → (o ≡ some fn) × (l ≡ m)
with_literal-some l none fn m h = cc
with_literal-some l (some g) fn m h = (cc, cc)

find_encoder-some :
    (r : Registry) (o : Option (Text × Text)) (fn : EncodeFunc) (l : Text)
    → find_encoder r o ≡ some (fn, l)
    → (p : Text) × (o ≡ some (p, l)) × (lookup p r.encoders ≡ some fn)
unfolding find_encoder
find_encoder-some r none fn l h = cc
find_encoder-some r (some (p, m)) fn l h =
    let (found, same) = with_literal-some m (lookup p r.encoders) fn l h in (p, cc, found)

named-some :
    (r : Registry) (spec : Text) (fn : EncodeFunc) (l : Text)
    → named r spec ≡ some (fn, l)
    → (lookup (to_lower (cut b':' spec).0) r.encoders ≡ some fn) × ((cut b':' spec).1 ≡ some l)
unfolding named split_spec
named-some r spec fn l h =
    let (p, split, found) = find_encoder-some r (split_spec spec) fn l h in
    let (low, behind) = checked_spec-some (cut b':' spec).0 (cut b':' spec).1 p l split in
    (rw low found, behind)

has_type-bare :
    (r : Registry) (spec : Text)
    → named r spec ≡ none
    → has_type r spec ≡ true
    → (text_eq (to_lower spec) (text "void") || text_eq (to_lower spec) (text "null")) ≡ true
unfolding has_type
has_type-bare r spec e h = ground arith

-- A spec that HasType accepts is encoded by the encoder that is registered for the lower case of
-- the text before its first colon, on the text behind that colon, or else it is "void" or "null"
-- in any case.
pub has_type-named :
    (k : Strkey) (r : Registry) (spec : Text)
    → has_type r spec ≡ true
    → ((fn : EncodeFunc) × (literal : Text) × (lookup (to_lower (cut b':' spec).0) r.encoders
          ≡ some fn)
        × ((cut b':' spec).1 ≡ some literal)
        × (encode k r spec ≡ in_spec spec (fn literal)))
      ⊎ ((to_lower spec ≡ text "void") ⊎ (to_lower spec ≡ text "null"))
has_type-named k r spec h = elim (Option-cases (named r spec)) [
  | inl e ↦ inr (
      ground (
        arith,
        text_eq_iff (to_lower spec) (text "void"),
        text_eq_iff (to_lower spec) (text "null"),
        has_type-bare r spec e h,
      ))
  | inr ((fn, l), e) ↦
      let (found, behind) = named-some r spec fn l e in
      inl (fn, l, found, behind, unfold encode in rw (e, encode))
]

-- The values are those of the encoder on each spec, in order.
abbrev pub Encodes : EncodeFunc → List Text → List ScVal → Type 0
Encodes f [] [] = Unit
Encodes f (s ∷ ss) (v ∷ vs) = (f s ≡ ok v) × Encodes f ss vs
Encodes f _ _ = ⊥

-- The spec at index `j` is the first one that the encoder refuses, with error `e`.
abbrev pub FailsAt : EncodeFunc → List Text → ℕ → LiteralError → Type 0
FailsAt f [] j e = ⊥
FailsAt f (s ∷ ss) zero e = f s ≡ err e
FailsAt f (s ∷ ss) (suc j) e = ((v : ScVal) × (f s ≡ ok v)) × FailsAt f ss j e

abbrev Explains : EncodeFunc → ℕ → List Text → Parsed (List ScVal) → Type 0
Explains f i specs (ok vs) = Encodes f specs vs
Explains f i specs (err e) =
    (j : ℕ) × (d : LiteralError) × (e ≡ at_arg (i + j) d) × FailsAt f specs j d

Explains-cons :
    (f : EncodeFunc) (i : ℕ) (s : Text) (ss : List Text) (v : ScVal) (r : Parsed (List ScVal))
    → f s ≡ ok v
    → Explains f (i + 1) ss r
    → Explains f i (s ∷ ss) (r >>= λ vs. ok (v ∷ vs))
Explains-cons f i s ss v (ok vs) h x = (h, x)
Explains-cons f i s ss v (err e) h (j, d, same, fails) =
    (suc j, d, same ∙ ap (λ n. at_arg n d) (omega arith), ((v, h), fails))

encode_all_from-Explains :
    (f : EncodeFunc) (i : ℕ) (specs : List Text) → Explains f i specs (encode_all_from f i specs)
unfolding encode_all_from
encode_all_from-Explains f i [] = tt
encode_all_from-Explains f i (s ∷ ss) = go (f s) refl (encode_all_from-Explains f (i + 1) ss)
  where
    go :
        (r : Parsed ScVal)
        → f s ≡ r
        → Explains f (i + 1) ss (encode_all_from f (i + 1) ss)
        → Explains f i
            (s ∷ ss)
            (at_index i r >>= λ v. encode_all_from f (i + 1) ss >>= λ vs. ok (v ∷ vs))
    go (ok v) e ih = Explains-cons f i s ss v (encode_all_from f (i + 1) ss) e ih
    go (err d) e ih = (0, d, ap (λ n. at_arg n d) (omega arith), e)

-- EncodeAll returns a list only if Encode accepts every spec, and then the list holds the encoded
-- values in order. When it fails, its error names the index of the first spec that Encode refuses, and wraps
-- that spec's error.
pub encode_all-explains :
    (k : Strkey) (r : Registry) (specs : List Text)
    → ((vs : List ScVal) × (encode_all k r specs ≡ ok vs) × Encodes (encode k r) specs vs)
      ⊎ ((j : ℕ) × (d : LiteralError) × (encode_all k r specs ≡ err (at_arg j d))
          × FailsAt (encode k r) specs j d)
unfolding encode_all
encode_all-explains k r specs =
    go (encode_all_from (encode k r) 0 specs) refl (encode_all_from-Explains (encode k r) 0 specs)
  where
    go :
        (o : Parsed (List ScVal))
        → encode_all_from (encode k r) 0 specs ≡ o
        → Explains (encode k r) 0 specs o
        → ((vs : List ScVal) × (encode_all_from (encode k r) 0 specs ≡ ok vs)
            × Encodes (encode k r) specs vs)
          ⊎ ((j : ℕ) × (d : LiteralError) × (encode_all_from (encode k r) 0 specs
                ≡ err (at_arg j d))
              × FailsAt (encode k r) specs j d)
    go (ok vs) e x = inl (vs, e, x)
    go (err x) e (j, d, same, fails) =
        inr (j, d, e ∙ ap err (same ∙ ap (λ n. at_arg n d) (omega arith)), fails)
