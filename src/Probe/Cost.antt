-- ===== src/Probe/Cost.antt =====
-- internal/probe/probe.go and simulate.go: what a simulated call costs, and how the cost compares
-- with a saved one. A float64 is its bit pattern, and the arithmetic on it a parameter.
pub mod Compare
use soroprobe.Prelude.{
  ℕ, Bool, true, false, ◌&&◌, Option, none, some, List, [], ◌∷◌, if◌then◌else◌, Text, text,
}
use soroprobe.Prelude.Int.{ℤ, pos, leb_ℤ, ◌+ℤ◌, ◌-ℤ◌, wrap_int64}

pub record Cost : Type 0 where
  pub instructions : ℕ
  pub disk_read_bytes : ℕ
  pub write_bytes : ℕ
  pub resource_fee : ℤ
  pub min_resource_fee : ℤ
  pub estimated_total_fee : ℤ

abbrev pub Float : Type 0
Float = ℕ

-- what the program does with a float64
pub record Floats : Type 0 where
  pub of_int64 : ℤ → Float
  pub divide : Float → Float → Float
  pub multiply : Float → Float → Float
  pub hundred : Float
  pub greater : Float → Float → Bool

pub record CostFigure : Type 0 where
  pub name : Text
  pub value : ℤ

unfoldable pub cost_figures : Cost → List CostFigure
cost_figures c =
    (record { name = text "cpu instructions"; value = pos c.instructions })
    ∷ (record { name = text "disk read bytes"; value = pos c.disk_read_bytes })
    ∷ (record { name = text "write bytes"; value = pos c.write_bytes })
    ∷ (record { name = text "resource fee (stroops)"; value = c.resource_fee })
    ∷ []

pub record CostChange : Type 0 where
  pub name : Text
  pub baseline : ℤ
  pub current : ℤ
  pub delta : ℤ
  pub percent : Option Float

pub record CostComparison : Type 0 where
  pub figures : List CostChange
  pub max_increase_percent : Option Float
  pub exceeded : Bool

abbrev pub default_base_fee : ℤ
default_base_fee = pos 100

unfoldable pub estimate_total_fee : ℤ → ℤ → ℤ
estimate_total_fee resource_fee base_fee =
    wrap_int64 (resource_fee +ℤ (if leb_ℤ base_fee (pos 0) then default_base_fee else base_fee))

abbrev pub is_zero : ℤ → Bool
is_zero z = leb_ℤ z (pos 0) && leb_ℤ (pos 0) z

module _ (fl : Floats) where
  -- the percentage of `part` in `whole`, which has none if it is zero
  unfoldable pub percentage : ℤ → ℤ → Option Float
  percentage part whole =
      if is_zero whole
      then none
      else some (fl.multiply (fl.divide (fl.of_int64 part) (fl.of_int64 whole)) fl.hundred)

  unfoldable pub cost_change : CostFigure → CostFigure → CostChange
  cost_change base cur =
      let delta = wrap_int64 (cur.value -ℤ base.value) in
      record {
        name = base.name;
        baseline = base.value;
        current = cur.value;
        delta = delta;
        percent = percentage delta base.value;
      }

  -- the first loop of CompareCost
  unfoldable pub cost_changes : List CostFigure → List CostFigure → List CostChange
  cost_changes (b ∷ bs) (c ∷ cs) = cost_change b c ∷ cost_changes bs cs
  cost_changes _ _ = []

  -- a growth by this percentage is above the threshold; a growth from zero always is
  unfoldable pub above : Float → Option Float → Bool
  above threshold none = true
  above threshold (some p) = fl.greater p threshold

  -- one round of the second loop
  unfoldable pub exceeds : Float → CostChange → Bool → Bool
  exceeds threshold f out =
      if leb_ℤ f.delta (pos 0) then out else if above threshold f.percent then true else out

  unfoldable pub any_exceeds : Float → List CostChange → Bool → Bool
  any_exceeds threshold [] out = out
  any_exceeds threshold (f ∷ fs) out = any_exceeds threshold fs (exceeds threshold f out)

  unfoldable pub exceeded_by : Option Float → List CostChange → Bool
  exceeded_by none figures = false
  exceeded_by (some threshold) figures = any_exceeds threshold figures false

  -- CompareCost
  unfoldable pub compare_cost : Cost → Cost → Option Float → CostComparison
  compare_cost baseline current max_increase_percent =
      let figures = cost_changes (cost_figures baseline) (cost_figures current) in
      record {
        figures = figures;
        max_increase_percent = max_increase_percent;
        exceeded = exceeded_by max_increase_percent figures;
      }
