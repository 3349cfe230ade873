-- ===== src/Probe/Spread/Worst.antt =====
-- The worst case of several runs, figure by figure.
use soroprobe.Prelude.{◌≡◌, ◌∙◌, refl, ◌⊎◌, inl, inr, Option, List, [], ◌∷◌, All, arith}
use soroprobe.Probe.Cost.{Cost, Float, Floats}
use soroprobe.Probe.Spread.{Footprint, raise_max, max_cost, spread_cost}
use soroprobe.Probe.Spread.Range.{NoMore, spread_cost-covers}

-- one of the runs has this value
abbrev pub Reached : {A : Type 0} → (Cost → A) → A → List Cost → Type 0
Reached f v [] = ⊥
Reached f v (c ∷ cs) = (f c ≡ v) ⊎ Reached f v cs

-- The worst case of a run and the runs after it: each of its five figures is the greatest that a
-- run has, and its estimated total fee is the first run's.
pub record IsWorst (m c : Cost) (cs : List Cost) : Type 0 where
  pub covers : All (NoMore m) (c ∷ cs)
  pub instructions : Reached (λ (r : Cost). r.instructions) m.instructions (c ∷ cs)
  pub disk_read_bytes : Reached (λ (r : Cost). r.disk_read_bytes) m.disk_read_bytes (c ∷ cs)
  pub write_bytes : Reached (λ (r : Cost). r.write_bytes) m.write_bytes (c ∷ cs)
  pub resource_fee : Reached (λ (r : Cost). r.resource_fee) m.resource_fee (c ∷ cs)
  pub min_resource_fee : Reached (λ (r : Cost). r.min_resource_fee) m.min_resource_fee (c ∷ cs)
  pub estimated_total_fee : m.estimated_total_fee ≡ c.estimated_total_fee

pub IsWorst-alone : (c : Cost) → IsWorst c c []
IsWorst-alone c = record {
  covers = (omega arith, tt);
  instructions = inl refl;
  disk_read_bytes = inl refl;
  write_bytes = inl refl;
  resource_fee = inl refl;
  min_resource_fee = inl refl;
  estimated_total_fee = refl;
}

-- A figure that is chosen from one of the two costs in each round is reached by one of the runs.
max_cost-Reached :
    {A : Type 0} (f : Cost → A)
    → ((m c : Cost) → (f m ≡ f (raise_max m c)) ⊎ (f c ≡ f (raise_max m c)))
    → (m : Cost) (cs : List Cost) → Reached f (f (max_cost m cs)) (m ∷ cs)
unfolding max_cost
max_cost-Reached f choice m [] = inl refl
max_cost-Reached f choice m (c ∷ cs) = elim (max_cost-Reached f choice (raise_max m c) cs) [
  | inl e ↦ elim (choice m c) [ inl k ↦ inl (k ∙ e) | inr k ↦ inr (inl (k ∙ e)) ]
  | inr later ↦ inr (inr later)
]

module _ (fl : Floats) where
  pub spread_cost-IsWorst :
      (c : Cost) (cs : List Cost) (fps : List Footprint) (t : Option Float)
      → IsWorst (spread_cost fl (c ∷ cs) fps t).max c cs
  unfolding spread_cost raise_max
  spread_cost-IsWorst c cs fps t =
      let (ranges, covers, fee) = spread_cost-covers fl c cs fps t in
      record {
        covers = covers;
        instructions = max_cost-Reached (λ (r : Cost). r.instructions) (λ m c. ground arith) c cs;
        disk_read_bytes =
            max_cost-Reached (λ (r : Cost). r.disk_read_bytes) (λ m c. ground arith) c cs;
        write_bytes = max_cost-Reached (λ (r : Cost). r.write_bytes) (λ m c. ground arith) c cs;
        resource_fee = max_cost-Reached (λ (r : Cost). r.resource_fee) (λ m c. ground arith) c cs;
        min_resource_fee =
            max_cost-Reached (λ (r : Cost). r.min_resource_fee) (λ m c. ground arith) c cs;
        estimated_total_fee = fee;
      }
