-- ===== src/Config/Overrides.antt =====
-- What the environment does to the overrides of the thresholds.
use soroprobe.Prelude.{
  ℕ, ◌≡◌, ◌≢◌, ◌∙◌, refl, ap, sym, In, inl, inr, Option, none, some, List, [], ◌∷◌, Text, text,
  Result, ok, err, All, bind-eq-ok, arith,
}
use mathlib.Core.Path.{subst}
use soroprobe.Health.{
  ThresholdOverride, ThresholdOverrides, EntryKind, instance_entry, code_entry, data_entry,
  override_for,
}
use soroprobe.Config.{Parsers, parse_env, lookup_env}
use soroprobe.Config.Apply.{
  apply_threshold_override_env, Side, warn_side, crit_side, override_step, apply_override_fields,
  OverrideField, override_fields, field, set_override, made, set_side,
}
use soroprobe.Config.Layers.{Gives, ok-inj, err-ne-ok}

-- the threshold that the overrides give for a kind of entry
abbrev pub side_of : Side → Option ThresholdOverride → Option ℕ
side_of side none = none
side_of warn_side (some o) = o.warn
side_of crit_side (some o) = o.crit

abbrev pub override_value : EntryKind → Side → ThresholdOverrides → Option ℕ
override_value kind side os = side_of side (override_for kind os)

abbrev pub OverrideSet : (Text → Result Text ℕ) → Option Text → Option ℕ → Option ℕ → Type 0
OverrideSet parse none old new = new ≡ old
OverrideSet parse (some v) old new = (n : ℕ) × (parse v ≡ ok n) × (new ≡ some n)

pub record Overridden (ps : Parsers) (getenv : Text → Option Text) (old new : ThresholdOverrides)
    : Type 0 where
  pub instance_warn :
      OverrideSet ps.parse_uint32
        (lookup_env getenv (text "INSTANCE_WARN_LEDGERS"))
        (override_value instance_entry warn_side old)
        (override_value instance_entry warn_side new)
  pub instance_crit :
      OverrideSet ps.parse_uint32
        (lookup_env getenv (text "INSTANCE_CRITICAL_LEDGERS"))
        (override_value instance_entry crit_side old)
        (override_value instance_entry crit_side new)
  pub code_warn :
      OverrideSet ps.parse_uint32
        (lookup_env getenv (text "CODE_WARN_LEDGERS"))
        (override_value code_entry warn_side old)
        (override_value code_entry warn_side new)
  pub code_crit :
      OverrideSet ps.parse_uint32
        (lookup_env getenv (text "CODE_CRITICAL_LEDGERS"))
        (override_value code_entry crit_side old)
        (override_value code_entry crit_side new)
  pub data_warn :
      OverrideSet ps.parse_uint32
        (lookup_env getenv (text "DATA_WARN_LEDGERS"))
        (override_value data_entry warn_side old)
        (override_value data_entry warn_side new)
  pub data_crit :
      OverrideSet ps.parse_uint32
        (lookup_env getenv (text "DATA_CRITICAL_LEDGERS"))
        (override_value data_entry crit_side old)
        (override_value data_entry crit_side new)

-- The settings of the overrides, told apart by numbers.
abbrev slot : EntryKind → Side → ℕ
slot instance_entry warn_side = 0
slot instance_entry crit_side = 1
slot code_entry warn_side = 2
slot code_entry crit_side = 3
slot _ warn_side = 4
slot _ crit_side = 5

abbrev IsKnown : EntryKind → Type 0
IsKnown (EntryKind.other s) = ⊥
IsKnown _ = Unit

set_override-at :
    (k : EntryKind) (s : Side) (n : ℕ) (os : ThresholdOverrides)
    → IsKnown k
    → override_value k s (set_override k s n os) ≡ some n
unfolding set_override made set_side override_for
set_override-at instance_entry warn_side n os h = refl
set_override-at instance_entry crit_side n os h = refl
set_override-at code_entry warn_side n os h = refl
set_override-at code_entry crit_side n os h = refl
set_override-at data_entry warn_side n os h = refl
set_override-at data_entry crit_side n os h = refl
set_override-at (EntryKind.other t) s n os h = absurd h

set_side-other :
    (s t : Side) (n : ℕ) (o : Option ThresholdOverride)
    → slot instance_entry s ≢ slot instance_entry t
    → side_of t (some (set_side s n (made o))) ≡ side_of t o
unfolding set_side made
set_side-other warn_side warn_side n o h = absurd (h refl)
set_side-other crit_side crit_side n o h = absurd (h refl)
set_side-other warn_side crit_side n none h = refl
set_side-other warn_side crit_side n (some o) h = refl
set_side-other crit_side warn_side n none h = refl
set_side-other crit_side warn_side n (some o) h = refl

sides_apart :
    (k : EntryKind) (s t : Side)
    → slot k s ≢ slot k t
    → slot instance_entry s ≢ slot instance_entry t
sides_apart k warn_side warn_side h = absurd (h refl)
sides_apart k crit_side crit_side h = absurd (h refl)
sides_apart k warn_side crit_side h = omega arith
sides_apart k crit_side warn_side h = omega arith

set_override-other :
    (k j : EntryKind) (s t : Side) (n : ℕ) (os : ThresholdOverrides)
    → slot k s ≢ slot j t
    → override_value j t (set_override k s n os) ≡ override_value j t os
unfolding set_override made set_side override_for
set_override-other instance_entry instance_entry s t n os h =
    set_side-other s t n os.for_instance (sides_apart instance_entry s t h)
set_override-other code_entry code_entry s t n os h =
    set_side-other s t n os.for_code (sides_apart code_entry s t h)
set_override-other data_entry data_entry s t n os h =
    set_side-other s t n os.for_data (sides_apart data_entry s t h)
set_override-other (EntryKind.other u) data_entry s t n os h =
    set_side-other s t n os.for_data (sides_apart data_entry s t h)
set_override-other instance_entry code_entry s t n os h = refl
set_override-other instance_entry data_entry s t n os h = refl
set_override-other code_entry instance_entry s t n os h = refl
set_override-other code_entry data_entry s t n os h = refl
set_override-other data_entry instance_entry s t n os h = refl
set_override-other data_entry code_entry s t n os h = refl
set_override-other (EntryKind.other u) instance_entry s t n os h = refl
set_override-other (EntryKind.other u) code_entry s t n os h = refl
set_override-other instance_entry (EntryKind.other v) s t n os h = refl
set_override-other code_entry (EntryKind.other v) s t n os h = refl
set_override-other data_entry (EntryKind.other v) s t n os h = refl
set_override-other (EntryKind.other u) (EntryKind.other v) s t n os h = refl

abbrev field_slot : OverrideField → ℕ
field_slot f = slot f.kind f.side

abbrev field_value : OverrideField → ThresholdOverrides → Option ℕ
field_value f os = override_value f.kind f.side os

-- The field is another one than those of the list.
abbrev Apart : OverrideField → List OverrideField → Type 0
Apart f gs = All (λ (g : OverrideField). field_slot g ≢ field_slot f) gs

abbrev AllApart : List OverrideField → Type 0
AllApart [] = Unit
AllApart (f ∷ fs) = IsKnown f.kind × Apart f fs × AllApart fs

all_apart : AllApart override_fields
all_apart = omega arith

Apart-In :
    (fs : List OverrideField) (f g : OverrideField)
    → Apart f fs
    → In g fs
    → field_slot f ≢ field_slot g
Apart-In [] f g h i = elim i [ ]
Apart-In (k ∷ fs) f g (here, there) (inl e) = λ s. here (sym (s ∙ ap field_slot e))
Apart-In (k ∷ fs) f g (here, there) (inr i) = Apart-In fs f g there i

module _ (ps : Parsers) (getenv : Text → Option Text) where
  abbrev FieldSet : OverrideField → ThresholdOverrides → ThresholdOverrides → Type 0
  FieldSet f old new =
      OverrideSet ps.parse_uint32 (lookup_env getenv f.key) (field_value f old) (field_value f new)

  parsed_cases :
      (r : Result Text ℕ) (f : OverrideField) (os : ThresholdOverrides) {os' : ThresholdOverrides}
      → Gives
          (elim r [ ok n ↦ ok (set_override f.kind f.side n os) | err e ↦ err (parse_env f.key e) ])
          os'
      → (n : ℕ) × (r ≡ ok n) × (set_override f.kind f.side n os ≡ os')
  parsed_cases (ok n) f os h = (n, refl, ok-inj h)
  parsed_cases (err e) f os h = absurd (err-ne-ok h)

  looked_up :
      (o : Option Text) (f : OverrideField) (os : ThresholdOverrides) {os' : ThresholdOverrides}
      → IsKnown f.kind
      → Gives
          (elim o [
            | none ↦ ok os
            | some v ↦ elim (ps.parse_uint32 v) [
              | ok n ↦ ok (set_override f.kind f.side n os)
              | err e ↦ err (parse_env f.key e)
            ]
          ])
          os'
      → OverrideSet ps.parse_uint32 o (field_value f os) (field_value f os')
        × ((g : OverrideField) → field_slot f ≢ field_slot g → field_value g os' ≡ field_value g os)
  looked_up none f os known h =
      (ap (field_value f) (sym (ok-inj h)), λ g apart. ap (field_value g) (sym (ok-inj h)))
  looked_up (some v) f os known h =
      let (n, p, e) = parsed_cases (ps.parse_uint32 v) f os h in
      (
        (n, p, ap (field_value f) (sym e) ∙ set_override-at f.kind f.side n os known),
        λ g apart.
            ap (field_value g) (sym e) ∙ set_override-other f.kind g.kind f.side g.side n os apart,
      )

  -- Settings that no round is about stay.
  fields-keep :
      (fs : List OverrideField) (os : ThresholdOverrides) {os' : ThresholdOverrides}
      → AllApart fs
      → Gives (apply_override_fields ps getenv fs os) os'
      → (g : OverrideField) → Apart g fs
      → field_value g os' ≡ field_value g os
  unfolding apply_override_fields override_step
  fields-keep [] os known h g apart = ap (field_value g) (sym (ok-inj h))
  fields-keep (f ∷ fs) os (known, others, rest) h g (here, there) =
      let (os1, s, h1) = bind-eq-ok (override_step ps getenv f os) _ h in
      fields-keep fs os1 rest h1 g there
      ∙ (looked_up (lookup_env getenv f.key) f os known s).1 g here

  fields_set :
      (fs : List OverrideField) (os : ThresholdOverrides) {os' : ThresholdOverrides}
      → AllApart fs
      → Gives (apply_override_fields ps getenv fs os) os'
      → (g : OverrideField) → In g fs
      → FieldSet g os os'
  unfolding apply_override_fields override_step
  fields_set [] os known h g i = absurd i
  fields_set (f ∷ fs) os {os'} (known, others, rest) h g i =
      let (os1, s, h1) = bind-eq-ok (override_step ps getenv f os) _ h in
      let (here, elsewhere) = looked_up (lookup_env getenv f.key) f os known s in
      elim i [
        | inl e ↦
            subst (λ k. FieldSet k os os') (sym e)
              (subst
                (λ v. OverrideSet ps.parse_uint32 (lookup_env getenv f.key) (field_value f os) v)
                (sym (fields-keep fs os1 rest h1 f others)) here)
        | inr j ↦
            subst (λ v. OverrideSet ps.parse_uint32 (lookup_env getenv g.key) v (field_value g os'))
              (elsewhere g (Apart-In fs f g others j)) (fields_set fs os1 rest h1 g j)
      ]

  pub apply_threshold_override_env-Overridden :
      (os : ThresholdOverrides) {os' : ThresholdOverrides}
      → Gives (apply_threshold_override_env ps getenv os) os'
      → Overridden ps getenv os os'
  unfolding apply_threshold_override_env
  apply_threshold_override_env-Overridden os h = record {
    instance_warn =
        fields_set override_fields os all_apart h
          (field instance_entry warn_side (text "INSTANCE_WARN_LEDGERS")) (inl refl);
    instance_crit =
        fields_set override_fields os all_apart h
          (field instance_entry crit_side (text "INSTANCE_CRITICAL_LEDGERS")) (inr (inl refl));
    code_warn =
        fields_set override_fields os all_apart h
          (field code_entry warn_side (text "CODE_WARN_LEDGERS")) (inr (inr (inl refl)));
    code_crit =
        fields_set override_fields os all_apart h
          (field code_entry crit_side (text "CODE_CRITICAL_LEDGERS")) (inr (inr (inr (inl refl))));
    data_warn =
        fields_set override_fields os all_apart h
          (field data_entry warn_side (text "DATA_WARN_LEDGERS"))
          (inr (inr (inr (inr (inl refl)))));
    data_crit =
        fields_set override_fields os all_apart h
          (field data_entry crit_side (text "DATA_CRITICAL_LEDGERS"))
          (inr (inr (inr (inr (inr (inl refl))))));
  }
