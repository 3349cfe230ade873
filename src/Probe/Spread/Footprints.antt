-- ===== src/Probe/Spread/Footprints.antt =====
-- Which footprint entries are reported as changing.
use soroprobe.Prelude.{
  ℕ, zero, suc, ◌+◌, ◌*◌, ◌≤◌, ◌<◌, ◌≡◌, ◌≢◌, ◌↔◌, refl, sym, ◌∙◌, ◌⊎◌, inl, inr, false, Option,
  none, some, List, [], ◌∷◌, ◌++◌, In, arith, if◌then◌else◌, ◌==◌, Text, text_eq, text_eq_iff,
  text_eq_refl, length, replicate, length-replicate, Bool-cases,
}
use soroprobe.Prelude.Dict.{Dict, lookup, insert, delete, lookup-insert, lookup-delete}
use soroprobe.Probe.Spread.{
  Footprint, count_from, bump, bump_all, read_prefix, write_prefix, count_footprints, text_lt,
  insert_text, sort_strings, changed, footprint_changes,
}

-- how often a label stands in a list, behind a prefix
unfoldable pub occurs : Text → Text → List Text → ℕ
occurs k prefix [] = 0
occurs k prefix (j ∷ js) = (if text_eq (prefix ++ j) k then 1 else 0) + occurs k prefix js

-- how often a label stands in the footprints
unfoldable pub occurs_in : Text → List Footprint → ℕ
occurs_in k [] = 0
occurs_in k (fp ∷ fps) =
    occurs k read_prefix fp.read_only + occurs k write_prefix fp.read_write + occurs_in k fps

abbrev or_zero : Option ℕ → ℕ
or_zero none = 0
or_zero (some n) = n

count : Text → Dict ℕ → ℕ
count k seen = or_zero (lookup k seen)

count-bump :
    (k j : Text) (seen : Dict ℕ)
    → count k (bump j seen) ≡ (if text_eq j k then 1 else 0) + count k seen
unfolding count bump count_from
count-bump k j seen = rw lookup-insert (go (lookup j seen) refl)
  where
    go :
        (o : Option ℕ)
        → lookup j seen ≡ o
        → or_zero (if text_eq j k then some (count_from o) else lookup k seen)
          ≡ (if text_eq j k then 1 else 0) + or_zero (lookup k seen)
    go none e = ground (arith, text_eq_iff j k)
    go (some n) e = ground (arith, text_eq_iff j k)

count-bump_all :
    (k prefix : Text) (js : List Text) (seen : Dict ℕ)
    → count k (bump_all prefix js seen) ≡ occurs k prefix js + count k seen
unfolding bump_all occurs
count-bump_all k prefix [] seen = omega arith
count-bump_all k prefix (j ∷ js) seen =
    omega
      (arith, count-bump_all k prefix js (bump (prefix ++ j) seen), count-bump k (prefix ++ j) seen)

count-count_footprints :
    (k : Text) (fps : List Footprint) (seen : Dict ℕ)
    → count k (count_footprints fps seen) ≡ occurs_in k fps + count k seen
unfolding count_footprints occurs_in
count-count_footprints k [] seen = omega arith
count-count_footprints k (fp ∷ fps) seen =
    let reads = bump_all read_prefix fp.read_only seen in
    omega (
      arith,
      count-count_footprints k fps (bump_all write_prefix fp.read_write reads),
      count-bump_all k write_prefix fp.read_write reads,
      count-bump_all k read_prefix fp.read_only seen,
    )

-- each key stands once, with a count that is not zero
IsCount : Dict ℕ → Type 0
IsCount [] = Unit
IsCount ((k, n) ∷ seen) = (lookup k seen ≡ none) × (0 < n) × IsCount seen

absent_delete :
    (j k : Text) (seen : Dict ℕ) → lookup j seen ≡ none → lookup j (delete k seen) ≡ none
absent_delete j k seen h = rw lookup-delete (ground (arith, h))

IsCount-delete : (k : Text) (seen : Dict ℕ) → IsCount seen → IsCount (delete k seen)
unfolding IsCount delete
IsCount-delete k [] h = tt
IsCount-delete k ((j, n) ∷ seen) (new, positive, h) = elim (Bool-cases (text_eq j k)) [
  | inl same ↦ rw same (IsCount-delete k seen h)
  | inr differ ↦ rw differ (absent_delete j k seen new, positive, IsCount-delete k seen h)
]

count_from-pos : (o : Option ℕ) → 0 < count_from o
unfolding count_from
count_from-pos none = omega arith
count_from-pos (some n) = omega arith

IsCount-bump : (k : Text) (seen : Dict ℕ) → IsCount seen → IsCount (bump k seen)
unfolding IsCount bump insert
IsCount-bump k seen h = (
  rw lookup-delete (rw text_eq_refl refl),
  count_from-pos (lookup k seen),
  IsCount-delete k seen h,
)

IsCount-bump_all :
    (prefix : Text) (js : List Text) (seen : Dict ℕ)
    → IsCount seen
    → IsCount (bump_all prefix js seen)
unfolding bump_all
IsCount-bump_all prefix [] seen h = h
IsCount-bump_all prefix (j ∷ js) seen h =
    IsCount-bump_all prefix js (bump (prefix ++ j) seen) (IsCount-bump (prefix ++ j) seen h)

IsCount-count_footprints :
    (fps : List Footprint) (seen : Dict ℕ) → IsCount seen → IsCount (count_footprints fps seen)
unfolding count_footprints
IsCount-count_footprints [] seen h = h
IsCount-count_footprints (fp ∷ fps) seen h = IsCount-count_footprints fps _ (
    IsCount-bump_all write_prefix fp.read_write _
      (IsCount-bump_all read_prefix fp.read_only seen h))

-- counted, but not in every run
abbrev pub Varies : ℕ → ℕ → Type 0
Varies runs n = (n ≢ 0) × (n ≢ runs)

count_absent : (k : Text) (seen : Dict ℕ) → lookup k seen ≡ none → count k seen ≡ 0
unfolding count
count_absent k seen h = rw h refl

==_ne : (a b : ℕ) → (a == b) ≡ false → a ≢ b
==_ne a b h e = ground arith

ne-== : (a b : ℕ) → a ≢ b → (a == b) ≡ false
ne-== a b h = ground arith

differs_from_absent :
    (j k : Text) (seen : Dict ℕ) → lookup j seen ≡ none → count k seen ≢ 0 → text_eq j k ≡ false
differs_from_absent j k seen h nonzero = elim (Bool-cases (text_eq j k)) [
  | inl same ↦ absurd (nonzero (rw (← (text_eq_iff j k).0 same) (count_absent j seen h)))
  | inr differ ↦ differ
]

count-cons :
    (k j : Text) (n : ℕ) (seen : Dict ℕ)
    → count k ((j, n) ∷ seen) ≡ (if text_eq j k then n else count k seen)
unfolding count lookup
count-cons k j n seen = elim (Bool-cases (text_eq j k)) [
  | inl same ↦ rw same refl
  | inr differ ↦ rw differ refl
]

-- the entry at the front, or one behind it
In-front :
    (runs : ℕ) (k j : Text) (n : ℕ) (rest : List Text)
    → In k (if n == runs then rest else j ∷ rest)
    → ((k ≡ j) × (n ≢ runs)) ⊎ In k rest
In-front runs k j n rest g = elim (Bool-cases (n == runs)) [
  | inl same ↦ inr (rw same at g)
  | inr differ ↦ elim (rw differ at g) [
    | inl here ↦ inl (here, λ e. omega (arith, ==_ne n runs differ, e))
    | inr later ↦ inr later
  ]
]

In-changed :
    (runs : ℕ) (k : Text) (seen : Dict ℕ)
    → IsCount seen
    → In k (changed runs seen)
    → Varies runs (count k seen)
unfolding changed IsCount count lookup
In-changed runs k [] h g = elim g [ ]
In-changed runs k ((j, n) ∷ seen) (new, positive, h) g =
    rw count-cons (elim (In-front runs k j n (changed runs seen) g) [
      | inl (here, differs) ↦ rw ((text_eq_iff j k).1 (sym here)) ((λ e. omega (arith, e)), differs)
      | inr later ↦
          let (nonzero, differs) = In-changed runs k seen h later in
          rw (differs_from_absent j k seen new nonzero) (nonzero, differs)
    ])

changed-In :
    (runs : ℕ) (k : Text) (seen : Dict ℕ) → Varies runs (count k seen) → In k (changed runs seen)
unfolding changed count lookup
changed-In runs k [] (some_count, differs) = absurd (some_count refl)
changed-In runs k ((j, n) ∷ seen) v = elim (Bool-cases (text_eq j k)) [
  | inl same ↦
      let n_varies = rw (count-cons k j n seen, same) at v in
      rw (ne-== n runs n_varies.1) (inl (sym ((text_eq_iff j k).0 same)))
  | inr differ ↦
      let behind = changed-In runs k seen (rw (count-cons k j n seen, differ) at v) in
      elim (Bool-cases (n == runs)) [ inl e ↦ rw e behind | inr e ↦ rw e (inr behind) ]
]

In-insert_text : (k j : Text) (l : List Text) → In k (insert_text j l) ↔ ((k ≡ j) ⊎ In k l)
unfolding insert_text
In-insert_text k j [] = (λ h. h, λ h. h)
In-insert_text k j (i ∷ l) =
    let (to, from) = In-insert_text k j l in
    elim (Bool-cases (text_lt i j)) [
      | inl before ↦ rw before (
        λ h. elim h [
          | inl e ↦ inr (inl e)
          | inr g ↦ elim (to g) [ inl e ↦ inl e | inr g' ↦ inr (inr g') ]
        ],
        λ h. elim h [
          | inl e ↦ inr (from (inl e))
          | inr g ↦ elim g [ inl e ↦ inl e | inr g' ↦ inr (from (inr g')) ]
        ],
      )
      | inr behind ↦ rw behind (λ h. h, λ h. h)
    ]

In-sort_strings : (k : Text) (l : List Text) → In k (sort_strings l) ↔ In k l
unfolding sort_strings
In-sort_strings k [] = (λ h. h, λ h. h)
In-sort_strings k (j ∷ l) =
    let (to, from) = In-sort_strings k l in
    let (split, join) = In-insert_text k j (sort_strings l) in
    (
      λ h. elim (split h) [ inl e ↦ inl e | inr g ↦ inr (to g) ],
      λ h. join (elim h [ inl e ↦ inl e | inr g ↦ inr (from g) ]),
    )

-- The footprint entries that are reported as changing are just those labels that stand in the
-- footprints a number of times that is neither zero nor the number of runs.
pub In-footprint_changes :
    (k : Text) (fps : List Footprint)
    → In k (footprint_changes fps) ↔ Varies (length fps) (occurs_in k fps)
unfolding footprint_changes
In-footprint_changes k fps =
    let seen = count_footprints fps [] in
    let counted : count k seen ≡ occurs_in k fps =
      count-count_footprints k fps [] ∙ unfold count lookup in omega arith in
    let (to, from) = In-sort_strings k (changed (length fps) seen) in
    (
      λ h. rw counted at (
          In-changed (length fps) k seen (IsCount-count_footprints fps [] (unfold IsCount in tt))
            (to h)),
      λ v. from (changed-In (length fps) k seen (rw counted v)),
    )

occurs_in-replicate :
    (k : Text) (fp : Footprint) (n : ℕ)
    → occurs_in k (replicate n fp)
      ≡ n * (occurs k read_prefix fp.read_only + occurs k write_prefix fp.read_write)
unfolding occurs_in
occurs_in-replicate k fp zero = omega arith
occurs_in-replicate k fp (suc n) = grind (arith, occurs_in-replicate k fp n)

doubled : (n o : ℕ) → 1 < o → n + n ≤ n * o
doubled zero o h = omega arith
doubled (suc n) o h = grind (arith, doubled n o h)

-- A label that stands more than once in a footprint, as it does for two data entries of a contract,
-- is reported as changing by any number of runs with that same footprint.
pub stable-footprint_changes :
    (k : Text) (fp : Footprint) (n : ℕ)
    → 0 < n
    → 1 < occurs k read_prefix fp.read_only + occurs k write_prefix fp.read_write
    → In k (footprint_changes (replicate n fp))
stable-footprint_changes k fp n h g = (In-footprint_changes k (replicate n fp)).1 (
    rw (occurs_in-replicate k fp n, length-replicate n fp)
      ((λ e. omega (arith, doubled n _ g, e)), (λ e. omega (arith, doubled n _ g, e))))
