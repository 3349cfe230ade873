-- ===== src/Probe/Batch/Prefetched/Items.antt =====
-- What the result of a batch says of its checks.
use soroprobe.Prelude.{
  suc, ◌≡◌, refl, sym, ap, ◌∙◌, Bool, true, false, not, ◌&&◌, ◌||◌, Option, none, some, List, [],
  ◌∷◌, ◌++◌, map, Result, ok, Text, arith, length,
}
use soroprobe.Errors.{Error}
use soroprobe.Probe.Exec.{Exec}
use soroprobe.Probe.Exec.Ensures.{Ensures, bind-Ensures, Ensures-ok}
use soroprobe.Probe.Prober.{Prober, Session}
use soroprobe.Probe.Check.{SimulateRequest, SimulateResult, CheckResult}
use soroprobe.Probe.Batch.{NamedCheck, BatchRequest, BatchItem, BatchResult, check_name}
use soroprobe.Probe.Batch.Fetch.{Fetched}
use soroprobe.Probe.Batch.Prefetched.{
  CheckState, passed, is_ok, add_item, go_on, unless_canceled, plan_checks, code_states, fetch,
  initial_keys, code_keys, run_state, run_items, no_items, check_batch_prefetched,
}

abbrev pub all_passed : List BatchItem → Bool
all_passed [] = true
all_passed (i ∷ is) = passed i.result && all_passed is

abbrev pub some_errored : List BatchItem → Bool
some_errored [] = false
some_errored (i ∷ is) = not (is_ok i.result) || some_errored is

abbrev pub item_names : List BatchItem → List Text
item_names is = map (λ (i : BatchItem). i.name) is

-- The flags sum up the items.
pub record IsSummary (out : BatchResult) : Type 0 where
  pub all_ok : out.all_ok ≡ all_passed out.items
  pub errored : out.errored ≡ some_errored out.items

all_passed-append :
    (xs ys : List BatchItem) → all_passed (xs ++ ys) ≡ (all_passed xs && all_passed ys)
all_passed-append [] ys = refl
all_passed-append (x ∷ xs) ys = ground (arith, all_passed-append xs ys)

some_errored-append :
    (xs ys : List BatchItem) → some_errored (xs ++ ys) ≡ (some_errored xs || some_errored ys)
some_errored-append [] ys = refl
some_errored-append (x ∷ xs) ys = ground (arith, some_errored-append xs ys)

add_item-IsSummary :
    (out : BatchResult) (c : NamedCheck) (r : Result Error CheckResult)
    → IsSummary out
    → IsSummary (add_item out c r)
unfolding add_item
add_item-IsSummary out c r h = record {
  all_ok = rw all_passed-append (ground (arith, h.all_ok));
  errored = rw some_errored-append (ground (arith, h.errored));
}

item_names-append :
    (xs ys : List BatchItem) → item_names (xs ++ ys) ≡ item_names xs ++ item_names ys
item_names-append [] ys = refl
item_names-append (x ∷ xs) ys = ap (λ l. x.name ∷ l) (item_names-append xs ys)

append_one : (xs : List Text) (y : Text) (ys : List Text) → (xs ++ (y ∷ [])) ++ ys ≡ xs ++ (y ∷ ys)
append_one [] y ys = refl
append_one (x ∷ xs) y ys = ap (λ l. x ∷ l) (append_one xs y ys)

append_nil : (xs : List Text) → xs ++ [] ≡ xs
append_nil [] = refl
append_nil (x ∷ xs) = ap (λ l. x ∷ l) (append_nil xs)

add_item-names :
    (out : BatchResult) (c : NamedCheck) (r : Result Error CheckResult) (cs : List NamedCheck)
    → item_names (add_item out c r).items ++ map check_name cs
      ≡ item_names out.items ++ map check_name (c ∷ cs)
unfolding add_item
add_item-names out c r cs =
    rw item_names-append (append_one (item_names out.items) (check_name c) (map check_name cs))

-- as many states as checks
abbrev Aligned : List NamedCheck → List CheckState → Type 0
Aligned cs sts = length cs ≡ length sts

module _ {W : Type 0} (p : Prober W) where
  go_on-Ensures :
      {A : Type 0} (P : A → Type 0) (o : Option Error) (next : Exec (Session W) A) (s : Session W)
      → ((t : Session W) → Ensures P (next t).0)
      → Ensures P (go_on p o next s).0
  go_on-Ensures P none next s h = h s
  go_on-Ensures P (some e) next s h = tt

  unless_canceled-Ensures :
      {A : Type 0} (P : A → Type 0) (next : Exec (Session W) A) (s : Session W)
      → ((t : Session W) → Ensures P (next t).0)
      → Ensures P (unless_canceled p next s).0
  unfolding unless_canceled
  unless_canceled-Ensures P next s h = go_on-Ensures P _ next _ h

  plan_checks-Aligned :
      (cs : List NamedCheck) (s : Session W) → Ensures (Aligned cs) (plan_checks p cs s).0
  unfolding plan_checks
  plan_checks-Aligned [] s = refl
  plan_checks-Aligned (c ∷ cs) s = unless_canceled-Ensures (Aligned (c ∷ cs)) _ s (λ t.
      bind-Ensures (Aligned (c ∷ cs)) (plan_checks p cs) _ t
        (λ sts e. ap suc (Ensures-ok (Aligned cs) _ sts (plan_checks-Aligned cs t) e)))

  length-code_states :
      (f : Fetched) (sts : List CheckState) → length (code_states p f sts) ≡ length sts
  unfolding code_states
  length-code_states f [] = refl
  length-code_states f (s ∷ sts) = ap suc (length-code_states f sts)

  module _ (simulate : Prober W → SimulateRequest → Exec (Session W) SimulateResult) where
    -- the items have these names, and the flags sum them up
    abbrev pub Sums : List Text → BatchResult → Type 0
    Sums ns out = IsSummary out × (item_names out.items ≡ ns)

    run_items-Sums :
        (f : Fetched) (out : BatchResult) (cs : List NamedCheck) (sts : List CheckState)
        (s : Session W) (ns : List Text)
        → IsSummary out
        → Aligned cs sts
        → item_names out.items ++ map check_name cs ≡ ns
        → Ensures (Sums ns) (run_items p simulate f out cs sts s).0
    unfolding run_items
    run_items-Sums f out [] sts s ns h a names = (h, sym (append_nil _) ∙ names)
    run_items-Sums f out (c ∷ cs) [] s ns h a names = absurd (omega arith)
    run_items-Sums f out (c ∷ cs) (st ∷ sts) s ns h a names =
        unless_canceled-Ensures (Sums ns) _ s (λ t.
          let (r, t') = run_state p simulate f c st t in
          run_items-Sums f (add_item out c r) cs sts t' ns (add_item-IsSummary out c r h)
            (omega arith) (add_item-names out c r cs ∙ names))

    prefetched-Sums :
        (req : BatchRequest) (s : Session W)
        → Ensures (Sums (map check_name req.checks)) (check_batch_prefetched p simulate req s).0
    unfolding check_batch_prefetched
    prefetched-Sums req s =
        let P = Sums (map check_name req.checks) in
        bind-Ensures P (plan_checks p req.checks) _ s (λ planned e.
          bind-Ensures P (fetch p (initial_keys [] planned)) _ _ (λ initial e'.
            bind-Ensures P (fetch p (code_keys [] (code_states p initial planned))) _ _ (λ code e''.
              let aligned =
                Ensures-ok (Aligned req.checks) _ planned (plan_checks-Aligned req.checks s) e in
              run_items-Sums _ no_items req.checks _ _ _ (record { all_ok = refl; errored = refl })
                (aligned ∙ sym (length-code_states initial planned)) refl)))

    pub check_batch_prefetched-Sums :
        (req : BatchRequest) (s : Session W) (out : BatchResult)
        → (check_batch_prefetched p simulate req s).0 ≡ ok out
        → Sums (map check_name req.checks) out
    check_batch_prefetched-Sums req s out h =
        Ensures-ok (Sums (map check_name req.checks)) _ out (prefetched-Sums req s) h
