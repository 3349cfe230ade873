-- ===== src/Probe/Simulate/Judged.antt =====
-- What a simulation is judged by.
use mathlib.Core.Path.{subst}
use soroprobe.Prelude.{
  ℕ, zero, suc, ◌≡◌, ◌∙◌, refl, sym, ap, true, false, ltb, Option, none, some, List, [], ◌∷◌, Text,
  text_eq_iff, is_empty, Result, ok, err, length, map, Bool-cases, Option-cases, inl, inr, arith,
}
use soroprobe.Prelude.Int.{ℤ, pos, negsuc}
use soroprobe.Errors.{Error}
use soroprobe.Scval.Value.{ScAddress}
use soroprobe.Stellar.{parse_contract_id}
use soroprobe.Probe.Cost.{Cost, compare_cost}
use soroprobe.Probe.Spread.{spread_cost}
use soroprobe.Probe.Spread.Worst.{IsWorst, IsWorst-alone, spread_cost-IsWorst}
use soroprobe.Probe.Simulate.{SimulateError, Baseline, SimulateRequest, SimulateResult}
use soroprobe.Probe.Simulate.Run.{
  Simulator, check_baseline, more_runs, TypedArgs, with_run, after_run, run_all, built, spread_of,
  current_cost, comparison_of, report, last_from, finish, send, unless_mismatch, simulate_typed,
  simulate_parsed, simulate,
}

abbrev Gives : {A : Type 0} → Result SimulateError A → A → Type 0
Gives r a = r ≡ ok a

ok-inj : {A : Type 0} {a b : A} → Gives (ok a) b → a ≡ b
ok-inj h = cc

err-ne-ok : {A : Type 0} {e : SimulateError} {a : A} → Gives (err e) a → ⊥
err-ne-ok h = cc

-- the runs that a request asks for: one if it asks for none
abbrev pub asked : ℤ → ℕ
asked (pos zero) = 1
asked (pos (suc n)) = suc n
asked (negsuc n) = 1

more_runs-asked : (z : ℤ) → suc (more_runs z) ≡ asked z
unfolding more_runs
more_runs-asked (pos zero) = ground arith
more_runs-asked (pos (suc n)) = ground arith
more_runs-asked (negsuc n) = ground arith

abbrev pub costs_of : List SimulateResult → List Cost
costs_of rs = map (λ (r : SimulateResult). r.cost) rs

-- A baseline, if there is one, was taken against the contract and the function that are called.
abbrev pub OfCall : Option Baseline → SimulateRequest → Type 0
OfCall none req = Unit
OfCall (some b) req = (b.contract_id ≡ req.contract_id) × (b.function ≡ req.function)

baseline-OfCall : (req : SimulateRequest) → check_baseline req ≡ none → OfCall req.baseline req
unfolding check_baseline
baseline-OfCall req h = elim (Option-cases req.baseline) [
  | inl unset ↦ rw unset tt
  | inr (b, e) ↦
      let k = rw e at h in
      rw e (
        ground (
          arith,
          k,
          text_eq_iff b.contract_id req.contract_id,
          text_eq_iff b.function req.function,
        ))
]

module _ {W : Type 0} (p : Simulator W) where
  -- The comparison of a result with the baseline: there is none without one, and else it is of the
  -- worst case of the runs, figure by figure.
  abbrev pub ComparedBy :
      Option Baseline
      → SimulateRequest
      → SimulateResult
      → SimulateResult
      → List SimulateResult
      → Type 0
  ComparedBy none req r first rest = r.comparison ≡ none
  ComparedBy (some b) req r first rest =
      (worst : Cost) × (r.comparison
        ≡ some (compare_cost p.floats b.cost worst req.max_increase_percent))
      × IsWorst worst first.cost (costs_of rest)

  -- The runs that were made, and what the result has of them.
  pub record Judged (req : SimulateRequest) (r : SimulateResult) : Type 0 where
    pub envelope : Text
    pub before : W
    pub first : SimulateResult
    pub rest : List SimulateResult
    pub made : (run_all p req envelope (asked req.repeat) before).0 ≡ ok (first ∷ rest)
    pub count : length (first ∷ rest) ≡ asked req.repeat
    pub last_cost : r.cost ≡ (last_from p first rest).cost
    pub compared : ComparedBy req.baseline req r first rest

  Made : SimulateRequest → Text → W → List SimulateResult → Type 0
  Made req envelope w rs = Gives (run_all p req envelope (suc (more_runs req.repeat)) w).0 rs

  Made-asked :
      (req : SimulateRequest) (envelope : Text) (w : W) (rs : List SimulateResult)
      → Made req envelope w rs
      → (run_all p req envelope (asked req.repeat) w).0 ≡ ok rs
  unfolding Made
  Made-asked req envelope w rs h = rw (← more_runs-asked req.repeat) h

  one_run :
      (req : SimulateRequest) (typed : TypedArgs) (envelope : Text) (w : W) (first : SimulateResult)
      → Made req envelope w (first ∷ [])
      → 0 ≡ more_runs req.repeat
      → Judged req (report p req typed (first ∷ []) first)
  unfolding report spread_of comparison_of current_cost last_from Made
  one_run req typed envelope w first made e = record {
    envelope = envelope;
    before = w;
    first = first;
    rest = [];
    made = Made-asked req envelope w _ made;
    count = ap suc e ∙ more_runs-asked req.repeat;
    last_cost = refl;
    compared =
        let single : ltb 0 (more_runs req.repeat) ≡ false = ground (arith, e) in
        elim (Option-cases req.baseline) [
          | inl n ↦ rw n refl
          | inr (b, n) ↦ rw (n, single) (first.cost, refl, IsWorst-alone first.cost)
        ];
  }

  several_runs :
      (req : SimulateRequest) (typed : TypedArgs) (envelope : Text) (w : W)
      (first second : SimulateResult) (rest : List SimulateResult)
      → Made req envelope w (first ∷ second ∷ rest)
      → suc (length rest) ≡ more_runs req.repeat
      → Judged req (report p req typed (first ∷ second ∷ rest) (last_from p first (second ∷ rest)))
  unfolding report spread_of comparison_of current_cost Made
  several_runs req typed envelope w first second rest made e = record {
    envelope = envelope;
    before = w;
    first = first;
    rest = second ∷ rest;
    made = Made-asked req envelope w _ made;
    count = ap suc e ∙ more_runs-asked req.repeat;
    last_cost = refl;
    compared =
        let more : ltb 0 (more_runs req.repeat) ≡ true = ground (arith, e) in
        let runs = first ∷ second ∷ rest in
        let costs = costs_of (second ∷ rest) in
        let footprints = map (λ (r : SimulateResult). r.footprint) runs in
        elim (Option-cases req.baseline) [
          | inl n ↦ rw n refl
          | inr (b, n) ↦
              rw (n, more)
                (
                  (spread_cost p.floats (first.cost ∷ costs) footprints req.max_spread_percent).max,
                  refl,
                  spread_cost-IsWorst p.floats first.cost costs footprints req.max_spread_percent,
                )
        ];
  }

  run_more :
      (n : ℕ) (b : Result SimulateError SimulateResult)
      (rest : Result SimulateError (List SimulateResult) × W) (w : W) (rs : List SimulateResult)
      → ((qs : List SimulateResult) → Gives rest.0 qs → length qs ≡ n)
      → Gives (after_run p b rest w).0 rs
      → length rs ≡ suc n
  unfolding after_run with_run
  run_more n (err e) rest w rs k h = absurd (err-ne-ok h)
  run_more n (ok r) (err e, w') w rs k h = absurd (err-ne-ok h)
  run_more n (ok r) (ok qs, w') w rs k h = ap length (sym (ok-inj h)) ∙ ap suc (k qs refl)

  -- Every way through Simulate that ends in a result.
  run_count :
      (req : SimulateRequest) (envelope : Text) (n : ℕ) (w : W) (rs : List SimulateResult)
      → Gives (run_all p req envelope n w).0 rs
      → length rs ≡ n
  unfolding run_all
  run_count req envelope zero w rs h = ap length (sym (ok-inj h))
  run_count req envelope (suc n) w rs h =
      let (response, w') = p.simulate_transaction envelope w in
      run_more n (built p req response) (run_all p req envelope n w') w' rs
        (run_count req envelope n w') h

  finish-Judged :
      (req : SimulateRequest) (typed : TypedArgs) (envelope : Text) (w : W)
      (runs : Result SimulateError (List SimulateResult) × W) (r : SimulateResult)
      → run_all p req envelope (suc (more_runs req.repeat)) w ≡ runs
      → Gives (finish p req typed runs).0 r
      → Judged req r
  unfolding finish last_from Made
  finish-Judged req typed envelope w (err e, w') r made h = absurd (err-ne-ok h)
  finish-Judged req typed envelope w (ok [], w') r made h = absurd (err-ne-ok h)
  finish-Judged req typed envelope w (ok (s ∷ []), w') r made h =
      let runs = ap (λ (x : Result SimulateError (List SimulateResult) × W). x.0) made in
      subst (λ x. Judged req x) (ok-inj h)
        (one_run req typed envelope w s runs
          (omega (arith, run_count req envelope (suc (more_runs req.repeat)) w (s ∷ []) runs)))
  finish-Judged req typed envelope w (ok (s ∷ t ∷ rest), w') r made h =
      let runs = ap (λ (x : Result SimulateError (List SimulateResult) × W). x.0) made in
      subst (λ x. Judged req x) (ok-inj h)
        (several_runs req typed envelope w s t rest runs (
          omega (arith, run_count req envelope (suc (more_runs req.repeat)) w (s ∷ t ∷ rest) runs)))

  send-Judged :
      (req : SimulateRequest) (typed : TypedArgs) (envelope : Result SimulateError Text) (w : W)
      (r : SimulateResult)
      → Gives (send p req typed envelope w).0 r
      → Judged req r
  unfolding send
  send-Judged req typed (err e) w r h = absurd (err-ne-ok h)
  send-Judged req typed (ok envelope) w r h = finish-Judged req typed envelope w _ r refl h

  typed-Judged :
      (req : SimulateRequest) (address : ScAddress) (t : Result SimulateError TypedArgs × W)
      (r : SimulateResult)
      → Gives (simulate_typed p req address t).0 r
      → Judged req r
  unfolding simulate_typed
  typed-Judged req address (err e, w) r h = absurd (err-ne-ok h)
  typed-Judged req address (ok typed, w) r h = send-Judged req typed _ w r h

  by_mismatch :
      (req : SimulateRequest) (address : ScAddress) (m : Option SimulateError) (w : W)
      (r : SimulateResult)
      → Gives (unless_mismatch p req address m w).0 r
      → (m ≡ none) × Judged req r
  unfolding unless_mismatch
  by_mismatch req address (some e) w r h = absurd (err-ne-ok h)
  by_mismatch req address none w r h = (refl, typed-Judged req address _ r h)

  parsed-Judged :
      (req : SimulateRequest) (c : Result Error ScAddress) (m : Option SimulateError) (w : W)
      (r : SimulateResult)
      → Gives (simulate_parsed p req c m w).0 r
      → (m ≡ none) × Judged req r
  unfolding simulate_parsed
  parsed-Judged req (err e) m w r h = absurd (err-ne-ok h)
  parsed-Judged req (ok address) m w r h = elim (Bool-cases (is_empty req.function)) [
    | inl missing ↦ absurd (err-ne-ok (rw missing at h))
    | inr present ↦ by_mismatch req address m w r (rw present at h)
  ]

  -- A result of Simulate comes from as many runs as were asked for, one at least, and has the cost of
  -- the last. Without a baseline there is no comparison. With one, which is of this contract and
  -- function, its cost is compared with the worst case of the runs: in instructions, read bytes,
  -- written bytes and both resource fees the greatest that a run had, and the first run's estimated
  -- total fee.
  pub simulate-Judged :
      (req : SimulateRequest) (w : W) (r : SimulateResult)
      → (simulate p req w).0 ≡ ok r
      → OfCall req.baseline req × Judged req r
  unfolding simulate
  simulate-Judged req w r h =
      let (matches, judged) =
        parsed-Judged req (parse_contract_id p.stellar req.contract_id) (check_baseline req) w r
          h in
      (baseline-OfCall req matches, judged)
