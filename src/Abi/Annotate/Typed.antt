-- ===== src/Abi/Annotate/Typed.antt =====
-- What annotated arguments are.
use mathlib.Core.Path.{subst}
use soroprobe.Prelude.{
  ◌≡◌, ◌∙◌, sym, Bool, ◌==◌, ==_iff, List, [], ◌∷◌, Text, ok, bind-eq-ok, length, Bool-cases, inl,
  inr, arith,
}
use soroprobe.Abi.{SpecType, spec_type, MaybeType, no_type, a_type, Param, Function, argument}
use soroprobe.Abi.Annotate.{
  Json, located, literal_of, annotate_spec, annotate_inner, annotate_element, annotate_each,
  annotate,
}
use soroprobe.Abi.Annotate.Rules.{form_of, Nested, TypedAs, InnerAs, ItemAs}
use soroprobe.Abi.Annotate.Forms.{
  Gives, ok-inj, err-ne-ok, located_ok, ByForm-chosen, by_kind-chosen,
}
use soroprobe.Abi.Annotate.Items.{
  annotate_vec-VecOf, annotate_map-MapOf, literal_of-StandsFor, as_vec-Nested,
}

abbrev pub EachTyped : Json → (Text → Bool) → List Param → List Text → List Text → Type 0
EachTyped json has_type [] [] [] = Unit
EachTyped json has_type (p ∷ ps) (a ∷ as_) (s ∷ ss) =
    TypedAs json has_type p.of_type a s × EachTyped json has_type ps as_ ss
EachTyped json has_type _ _ _ = ⊥

module _ (json : Json) (has_type : Text → Bool) where
  mutual
    unfolding annotate_spec TypedAs annotate_inner InnerAs annotate_element ItemAs

    annotate_spec-TypedAs :
        (t : SpecType) (a s : Text)
        → Gives (annotate_spec json has_type t a) s
        → TypedAs json has_type t a s
    annotate_spec-TypedAs (spec_type kind shown inner element key value) a s h =
        elim (Bool-cases (has_type a)) [
          | inl written ↦ rw written (sym (ok-inj (rw written at h)))
          | inr untyped ↦ rw untyped (
              ByForm-chosen (form_of kind) _ _ _ a s (annotate_inner-InnerAs inner a s)
                (annotate_vec-VecOf json _ _ shown a s (λ r t. annotate_element-ItemAs element r t))
                (annotate_map-MapOf json _ _ _ _ shown a s (λ r t. annotate_element-ItemAs key r t)
                  (λ r t. annotate_element-ItemAs value r t))
                (sym (by_kind-chosen json has_type kind shown _ _ _ a) ∙ rw untyped at h))
        ]

    annotate_inner-InnerAs :
        (t : MaybeType) (a s : Text)
        → annotate_inner json has_type t a ≡ ok s
        → InnerAs json has_type t a s
    annotate_inner-InnerAs no_type a s h = sym (ok-inj h)
    annotate_inner-InnerAs (a_type t) a s h = annotate_spec-TypedAs t a s h

    annotate_element-ItemAs :
        (t : MaybeType) (raw s : Text)
        → annotate_element json has_type t raw ≡ ok s
        → ItemAs json has_type t raw s
    annotate_element-ItemAs no_type raw s h =
        let (a, e, h1) = bind-eq-ok (literal_of json raw) _ h in
        (
          a,
          literal_of-StandsFor json raw a e,
          subst (λ x. Nested json a x) (ok-inj h1) (as_vec-Nested json a),
        )
    annotate_element-ItemAs (a_type t) raw s h =
        let (a, e, h1) = bind-eq-ok (literal_of json raw) _ h in
        let (b, e', h2) = bind-eq-ok (annotate_spec json has_type t a) _ h1 in
        (
          a,
          literal_of-StandsFor json raw a e,
          b,
          annotate_spec-TypedAs t a b e',
          subst (λ x. Nested json b x) (ok-inj h2) (as_vec-Nested json b),
        )

  annotate_each-EachTyped :
      (ps : List Param) (args out : List Text)
      → length args ≡ length ps
      → Gives (annotate_each json has_type ps args) out
      → EachTyped json has_type ps args out
  unfolding annotate_each
  annotate_each-EachTyped [] [] out n h = subst (λ l. EachTyped json has_type [] [] l) (ok-inj h) tt
  annotate_each-EachTyped [] (a ∷ args) out n h = absurd (omega arith)
  annotate_each-EachTyped (p ∷ ps) [] out n h = absurd (omega arith)
  annotate_each-EachTyped (p ∷ ps) (a ∷ args) out n h =
      let (s, e, h1) =
        bind-eq-ok (located (argument p.name) (annotate_spec json has_type p.of_type a)) _ h in
      let (ss, each, h2) = bind-eq-ok (annotate_each json has_type ps args) _ h1 in
      subst (λ l. EachTyped json has_type (p ∷ ps) (a ∷ args) l) (ok-inj h2)
        (
          annotate_spec-TypedAs p.of_type a s (located_ok (argument p.name) _ e),
          annotate_each-EachTyped ps args ss (omega arith) each,
        )

  -- If Annotate succeeds, there is an argument for each input, and each becomes itself if it names
  -- its type, and else, by the type of its input: for a scalar type the type's prefix, a colon and
  -- itself; for an option the literal of a void if it is written `void` or `null` and what the inner
  -- type makes of it if not; for a vec or a map that is written as an array, `vec:` or `map:` and the
  -- array of its items, each typed in the same way, with an array among the items marked as a vec;
  -- and in every other case itself.
  pub annotate-EachTyped :
      (f : Function) (args out : List Text)
      → annotate json has_type f args ≡ ok out
      → EachTyped json has_type f.inputs args out
  unfolding annotate
  annotate-EachTyped f args out h = elim (Bool-cases (length args == length f.inputs)) [
    | inl same ↦ annotate_each-EachTyped f.inputs args out ((==_iff _ _).0 same) (rw same at h)
    | inr differ ↦ absurd (err-ne-ok (rw differ at h))
  ]
