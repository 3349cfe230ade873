-- ===== src/Abi/Annotate/Forms.antt =====
-- The switch over the kinds of types, by the form of the type.
use soroprobe.Prelude.{
  ◌≡◌, refl, ap, sym, Bool, none, some, List, [], ◌∷◌, ◌++◌, Text, text, text_eq, text_eq_iff,
  Result, ok, err, map, Bool-cases, inl, inr, arith, if◌then◌else◌,
}
use soroprobe.Prelude.Dict.{Dict, lookup}
use soroprobe.Abi.{AbiError}
use soroprobe.Abi.Annotate.{
  Json, prefix_of, listed, own_prefixes, with_prefix, wrapped, located, by_kind,
}
use soroprobe.Abi.Annotate.Rules.{
  Form, scalar, optional, vector, mapping, opaque, own, form_in, form_of, absent, is_array, ByForm,
}

abbrev pub Gives : {A : Type 0} → Result AbiError A → A → Type 0
Gives r a = r ≡ ok a

pub ok-inj : {A : Type 0} {a b : A} → Gives (ok a) b → a ≡ b
ok-inj h = cc

pub err-ne-ok : {A : Type 0} {e : AbiError} {a : A} → Gives (err e) a → ⊥
err-ne-ok h = cc

pub located_ok :
    {A : Type 0} (f : AbiError → AbiError) (r : Result AbiError A) {a : A}
    → Gives (located f r) a
    → r ≡ ok a
located_ok f (ok b) h = h
located_ok f (err e) h = absurd (err-ne-ok h)

pub wrapped_ok :
    {A : Type 0} (f : Text → AbiError) (r : Result Text A) {a : A}
    → Gives (wrapped f r) a
    → r ≡ ok a
wrapped_ok f (ok b) h = cc
wrapped_ok f (err e) h = absurd (err-ne-ok h)

text_eq_comm : (s t : Text) → text_eq s t ≡ text_eq t s
text_eq_comm s t = ground (arith, text_eq_iff s t, text_eq_iff t s)

-- A kind that is its own prefix is a scalar, and the others in a list are not.
form_of-own :
    (k : Text) (ps : List Text)
    → lookup k (map own ps) ≡ (if listed k ps then some (scalar k) else none)
unfolding lookup listed
form_of-own k [] = refl
form_of-own k (p ∷ ps) = elim (Bool-cases (text_eq k p)) [
  | inl same ↦
      rw (text_eq_comm p k, same) (ap (λ x. some (scalar x)) (sym ((text_eq_iff k p).0 same)))
  | inr other ↦ rw (text_eq_comm p k, other) (form_of-own k ps)
]

form_in_first :
    (k j : Text) (f : Form) (m : Dict Form)
    → form_in (lookup k ((j, f) ∷ m)) ≡ (if text_eq k j then f else form_in (lookup k m))
unfolding lookup
form_in_first k j f m = rw (text_eq_comm k j) (ground arith)

form_in-own :
    (k : Text) (ps : List Text)
    → form_in (lookup k (map own ps)) ≡ (if listed k ps then scalar k else opaque)
form_in-own k ps = rw (form_of-own k ps) (ground arith)

form_of_kind :
    (k : Text)
    → form_of k ≡ (
        if text_eq k (text "option")
        then optional
        else if text_eq k (text "vec")
        then vector
        else if text_eq k (text "map")
        then mapping
        else if text_eq k (text "bytes_n")
        then scalar (text "bytes")
        else if listed k own_prefixes
        then scalar k
        else opaque)
form_of_kind k =
    rw
      (
        form_in_first k (text "option") optional _,
        form_in_first k (text "vec") vector _,
        form_in_first k (text "map") mapping _,
        form_in_first k (text "bytes_n") (scalar (text "bytes")) _,
        form_in-own k own_prefixes,
      )
      refl

-- the switch, by the form of the type
abbrev pub chosen :
    Form
    → Result AbiError Text
    → Result AbiError Text
    → Result AbiError Text
    → Text
    → Result AbiError Text
chosen (scalar prefix) inner vec pairs a = ok (prefix ++ b':' ∷ a)
chosen optional inner vec pairs a = if absent a then ok (text "void:" ++ a) else inner
chosen vector inner vec pairs a = if is_array a then vec else ok a
chosen mapping inner vec pairs a = if is_array a then pairs else ok a
chosen opaque inner vec pairs a = ok a

pub ByForm-chosen :
    (f : Form) (inner vec pairs : Result AbiError Text) (a s : Text) {Inner Vec Map : Type 0}
    → (inner ≡ ok s → Inner)
    → (vec ≡ ok s → Vec)
    → (pairs ≡ ok s → Map)
    → Gives (chosen f inner vec pairs a) s
    → ByForm f Inner Vec Map a s
ByForm-chosen (scalar prefix) inner vec pairs a s i v m h = sym (ok-inj h)
ByForm-chosen optional inner vec pairs a s i v m h = elim (Bool-cases (absent a)) [
  | inl gone ↦ rw gone (sym (ok-inj (rw gone at h)))
  | inr there ↦ rw there (i (rw there at h))
]
ByForm-chosen vector inner vec pairs a s i v m h = elim (Bool-cases (is_array a)) [
  | inl array ↦ rw array (v (rw array at h))
  | inr plain ↦ rw plain (sym (ok-inj (rw plain at h)))
]
ByForm-chosen mapping inner vec pairs a s i v m h = elim (Bool-cases (is_array a)) [
  | inl array ↦ rw array (m (rw array at h))
  | inr plain ↦ rw plain (sym (ok-inj (rw plain at h)))
]
ByForm-chosen opaque inner vec pairs a s i v m h = sym (ok-inj h)

module _ (json : Json) (has_type : Text → Bool) where
  pub by_kind-chosen :
      (k shown : Text) (inner vec pairs : Result AbiError Text) (a : Text)
      → by_kind json has_type k shown inner vec pairs a ≡ chosen (form_of k) inner vec pairs a
  unfolding by_kind with_prefix prefix_of
  by_kind-chosen k shown inner vec pairs a = rw (form_of_kind k) (ground arith)
