-- ===== src/Probe/Batch/Validated.antt =====
-- What a batch that passes validation satisfies.
use soroprobe.Prelude.{
  ℕ, suc, ◌≤◌, ◌<◌, ◌≡◌, refl, Bool, true, false, Option, none, some, List, [], ◌∷◌, map, Result,
  ok, err, Text, is_empty, length, text_eq_iff, arith, All, In, if◌then◌else◌, ◌⊎◌, inl, inr,
  Bool-cases,
}
use soroprobe.Prelude.Int.{ℤ, pos, ltb_ℤ}
use soroprobe.Prelude.Dict.{Dict, lookup, insert, lookup-insert}
use soroprobe.Health.{Durability}
use soroprobe.Errors.{Error}
use soroprobe.Probe.Batch.{
  NamedCheck, BatchRequest, check_name, parsed_timeout, check_timeout, validate_durability,
  validate_name, error_of, or_else, validate_check, validate_from, validate_batch,
}

abbrev pub Distinct : List Text → Type 0
Distinct [] = Unit
Distinct (x ∷ xs) = ¬ (In x xs) × Distinct xs

abbrev pub names : List NamedCheck → List Text
names cs = map check_name cs

abbrev pub IsKnown : Durability → Type 0
IsKnown (Durability.other d) = ⊥
IsKnown _ = Unit

module _ (parse_duration : Text → Result Text ℤ) where
  -- the limit of a check: none is given, or it parses as a duration that is not negative
  abbrev pub HasTimeout : NamedCheck → Type 0
  HasTimeout c =
      (is_empty c.timeout ≡ true)
      ⊎ ((d : ℤ) × (parse_duration c.timeout ≡ ok d) × (ltb_ℤ d (pos 0) ≡ false))

  abbrev pub IsRunnable : NamedCheck → Type 0
  IsRunnable c =
      (is_empty c.request.contract_id ≡ false) × HasTimeout c × IsKnown c.request.data_durability

  parsed_timeout-none :
      (c : NamedCheck) (r : Result Text ℤ)
      → error_of parse_duration (parsed_timeout parse_duration c r) ≡ none
      → (d : ℤ) × (r ≡ ok d) × (ltb_ℤ d (pos 0) ≡ false)
  unfolding parsed_timeout
  parsed_timeout-none c (err e) h = absurd cc
  parsed_timeout-none c (ok d) h = (d, refl, ground arith)

  check_timeout-none :
      (c : NamedCheck)
      → error_of parse_duration (check_timeout parse_duration c) ≡ none
      → HasTimeout c
  unfolding check_timeout
  check_timeout-none c h = elim (Bool-cases (is_empty c.timeout)) [
    | inl empty ↦ inl empty
    | inr given ↦ inr (parsed_timeout-none c _ (rw given at h))
  ]

  durability-none :
      (c : NamedCheck) (d : Durability) → validate_durability parse_duration c d ≡ none → IsKnown d
  unfolding validate_durability
  durability-none c (Durability.other d) h = absurd cc
  durability-none c Durability.unset h = tt
  durability-none c Durability.persistent h = tt
  durability-none c Durability.temporary h = tt

  or_else-none : (a b : Option Error) → or_else parse_duration a b ≡ none → (a ≡ none) × (b ≡ none)
  or_else-none none b h = (refl, h)
  or_else-none (some e) b h = absurd cc

  name-none :
      (i : ℕ) (name : Text) (o : Option ℕ) → validate_name parse_duration i name o ≡ none → o ≡ none
  unfolding validate_name
  name-none i name none h = refl
  name-none i name (some j) h = absurd cc

  given : (b : Bool) (e : Error) → (if b then some e else none) ≡ none → b ≡ false
  given b e h = ground arith

  validate_check-none :
      (i : ℕ) (seen : Dict ℕ) (c : NamedCheck)
      → validate_check parse_duration i seen c ≡ none
      → IsRunnable c × (lookup (check_name c) seen ≡ none)
  unfolding validate_check
  validate_check-none i seen c h =
      let (contract, h') = or_else-none _ _ h in
      let (timeout, h'') = or_else-none _ _ h' in
      let (durability, name) = or_else-none _ _ h'' in
      let contract_given : is_empty c.request.contract_id ≡ false =
        given (is_empty c.request.contract_id) _ contract in
      (
        (
          contract_given,
          check_timeout-none c timeout,
          durability-none c c.request.data_durability durability,
        ),
        name-none _ _ _ name,
      )

  -- none of the names is a key
  abbrev Fresh : Dict ℕ → List Text → Type 0
  Fresh seen ns = All (λ n. lookup n seen ≡ none) ns

  not-inserted :
      (name n : Text) (i : ℕ) (seen : Dict ℕ)
      → lookup n (insert name i seen) ≡ none
      → ¬ (name ≡ n) × (lookup n seen ≡ none)
  not-inserted name n i seen h = let k = rw lookup-insert at h in ground (arith, text_eq_iff name n)

  Fresh-insert :
      (name : Text) (i : ℕ) (seen : Dict ℕ) (ns : List Text)
      → Fresh (insert name i seen) ns
      → ¬ (In name ns) × Fresh seen ns
  Fresh-insert name i seen [] h = (λ x. x, tt)
  Fresh-insert name i seen (n ∷ ns) h =
      let (absent, before) = Fresh-insert name i seen ns h.1 in
      let (differs, fresh) = not-inserted name n i seen h.0 in
      (λ x. elim x [ inl same ↦ differs same | inr later ↦ absent later ], (fresh, before))

  validate_from-none :
      (i : ℕ) (seen : Dict ℕ) (cs : List NamedCheck)
      → validate_from parse_duration i seen cs ≡ none
      → All IsRunnable cs × Distinct (names cs) × Fresh seen (names cs)
  unfolding validate_from
  validate_from-none i seen [] h = (tt, tt, tt)
  validate_from-none i seen (c ∷ cs) h =
      let (this, rest) = or_else-none _ _ h in
      let (runnable, fresh) = validate_check-none i seen c this in
      let (runnables, distinct, others) = validate_from-none (suc i) _ cs rest in
      let (new, before) = Fresh-insert (check_name c) i seen (names cs) others in
      ((runnable, runnables), (new, distinct), (fresh, before))

  -- A batch that passes validation has between one and a hundred checks, each with a contract, a
  -- known durability and a timeout that is absent or parses as a duration that is not negative, and
  -- the names of its checks, which default to the contracts, are all different.
  pub validate_batch_sound :
      (req : BatchRequest)
      → validate_batch parse_duration req ≡ none
      → (0 < length req.checks)
        × (length req.checks ≤ 100)
        × All IsRunnable req.checks
        × Distinct (names req.checks)
  unfolding validate_batch
  validate_batch_sound req h =
      let rest : validate_from parse_duration 0 [] req.checks ≡ none = ground arith in
      let (runnable, distinct, fresh) = validate_from-none 0 [] req.checks rest in
      (ground arith, ground arith, runnable, distinct)
