-- ===== src/Probe/Spread/Range.antt =====
-- The ranges of the figures, and the worst case.
use soroprobe.Prelude.{ℕ, suc, ◌≤◌, ◌≡◌, refl, Option, List, [], ◌∷◌, All, arith, if◌then◌else◌}
use soroprobe.Prelude.Int.{ℤ, ltb_ℤ, ◌≤ℤ◌}
use soroprobe.Probe.Cost.{Cost, Float, Floats, CostFigure, cost_figures}
use soroprobe.Probe.Spread.{
  Footprint, FigureSpread, value_at, min_from, max_from, raise_max, max_cost, figure_spread,
  figure_spreads, spread_cost,
}

min_from-le : (i : ℕ) (m : ℤ) (cs : List Cost) → min_from i m cs ≤ℤ m
unfolding min_from
min_from-le i m [] = omega arith
min_from-le i m (c ∷ cs) =
    let v = value_at i (cost_figures c) in
    ground (arith, min_from-le i (if ltb_ℤ v m then v else m) cs)

min_from-All :
    (i : ℕ) (m : ℤ) (cs : List Cost) → All (λ c. min_from i m cs ≤ℤ value_at i (cost_figures c)) cs
unfolding min_from
min_from-All i m [] = tt
min_from-All i m (c ∷ cs) =
    let v = value_at i (cost_figures c) in
    let m' = if ltb_ℤ v m then v else m in
    (ground (arith, min_from-le i m' cs), min_from-All i m' cs)

le-max_from : (i : ℕ) (m : ℤ) (cs : List Cost) → m ≤ℤ max_from i m cs
unfolding max_from
le-max_from i m [] = omega arith
le-max_from i m (c ∷ cs) =
    let v = value_at i (cost_figures c) in
    ground (arith, le-max_from i (if ltb_ℤ m v then v else m) cs)

max_from-All :
    (i : ℕ) (m : ℤ) (cs : List Cost) → All (λ c. value_at i (cost_figures c) ≤ℤ max_from i m cs) cs
unfolding max_from
max_from-All i m [] = tt
max_from-All i m (c ∷ cs) =
    let v = value_at i (cost_figures c) in
    let m' = if ltb_ℤ m v then v else m in
    (ground (arith, le-max_from i m' cs), max_from-All i m' cs)

All-zip :
    {A : Type 0} (P Q : A → Type 0) (xs : List A) → All P xs → All Q xs → All (λ x. P x × Q x) xs
All-zip P Q [] h k = tt
All-zip P Q (x ∷ xs) h k = ((h.0, k.0), All-zip P Q xs h.1 k.1)

-- figure `i` of every run lies in the range
abbrev pub InRange : FigureSpread → ℕ → List Cost → Type 0
InRange f i cs =
    All (λ c. (f.min ≤ℤ value_at i (cost_figures c)) × (value_at i (cost_figures c) ≤ℤ f.max)) cs

abbrev pub InRanges : ℕ → List FigureSpread → List Cost → Type 0
InRanges i [] cs = Unit
InRanges i (f ∷ fs) cs = InRange f i cs × InRanges (suc i) fs cs

-- the costs that are compared with a baseline are no more than those of the worst case
pub record NoMore (m c : Cost) : Type 0 where
  pub instructions : c.instructions ≤ m.instructions
  pub disk_read_bytes : c.disk_read_bytes ≤ m.disk_read_bytes
  pub write_bytes : c.write_bytes ≤ m.write_bytes
  pub resource_fee : c.resource_fee ≤ℤ m.resource_fee
  pub min_resource_fee : c.min_resource_fee ≤ℤ m.min_resource_fee

NoMore-raise : (b m c : Cost) → NoMore b (raise_max m c) → NoMore b m × NoMore b c
unfolding raise_max
NoMore-raise b m c h = (
  record {
    instructions = ground (arith, h.instructions);
    disk_read_bytes = ground (arith, h.disk_read_bytes);
    write_bytes = ground (arith, h.write_bytes);
    resource_fee = ground (arith, h.resource_fee);
    min_resource_fee = ground (arith, h.min_resource_fee);
  },
  record {
    instructions = ground (arith, h.instructions);
    disk_read_bytes = ground (arith, h.disk_read_bytes);
    write_bytes = ground (arith, h.write_bytes);
    resource_fee = ground (arith, h.resource_fee);
    min_resource_fee = ground (arith, h.min_resource_fee);
  },
)

max_cost-NoMore : (m : Cost) (cs : List Cost) → NoMore (max_cost m cs) m
unfolding max_cost
max_cost-NoMore m [] = ground arith
max_cost-NoMore m (c ∷ cs) = (NoMore-raise _ m c (max_cost-NoMore (raise_max m c) cs)).0

max_cost-All : (m : Cost) (cs : List Cost) → All (NoMore (max_cost m cs)) cs
unfolding max_cost
max_cost-All m [] = tt
max_cost-All m (c ∷ cs) =
    ((NoMore-raise _ m c (max_cost-NoMore (raise_max m c) cs)).1, max_cost-All (raise_max m c) cs)

max_cost-total_fee :
    (m : Cost) (cs : List Cost) → (max_cost m cs).estimated_total_fee ≡ m.estimated_total_fee
unfolding max_cost raise_max
max_cost-total_fee m [] = refl
max_cost-total_fee m (c ∷ cs) = max_cost-total_fee (raise_max m c) cs

module _ (fl : Floats) where
  figure_spread-InRange :
      (i : ℕ) (f : CostFigure) (c : Cost) (cs : List Cost)
      → f.value ≡ value_at i (cost_figures c)
      → InRange (figure_spread fl i f cs) i (c ∷ cs)
  unfolding figure_spread
  figure_spread-InRange i f c cs e = (
    (rw (← e) (min_from-le i f.value cs), rw (← e) (le-max_from i f.value cs)),
    All-zip _ _ cs (min_from-All i f.value cs) (max_from-All i f.value cs),
  )

  pub spread_cost-covers :
      (c : Cost) (cs : List Cost) (fps : List Footprint) (t : Option Float)
      → InRanges 0 (spread_cost fl (c ∷ cs) fps t).figures (c ∷ cs)
        × All (NoMore (spread_cost fl (c ∷ cs) fps t).max) (c ∷ cs)
        × ((spread_cost fl (c ∷ cs) fps t).max.estimated_total_fee ≡ c.estimated_total_fee)
  unfolding spread_cost figure_spreads cost_figures value_at
  spread_cost-covers c cs fps t = (
    (
      figure_spread-InRange 0 _ c cs refl,
      (
        figure_spread-InRange 1 _ c cs refl,
        (figure_spread-InRange 2 _ c cs refl, (figure_spread-InRange 3 _ c cs refl, tt)),
      ),
    ),
    (max_cost-NoMore c cs, max_cost-All c cs),
    max_cost-total_fee c cs,
  )
