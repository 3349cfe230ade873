-- ===== src/Probe/Cost/Compare.antt =====
-- When a cost is above the tolerated increase.
use soroprobe.Prelude.{ℕ, ◌^◌, ◌<◌, ◌≡◌, Bool, false, ◌&&◌, ◌||◌, List, ◌∷◌, All}
use soroprobe.Prelude.Int.{ℤ, pos, ltb_ℤ, ◌-ℤ◌}
use soroprobe.Probe.Cost.{Cost, Float, Floats, CostFigure, is_zero}

-- The counts of a cost fit 32 bits; its resource fee is not negative and fits an int64.
pub record IsCost (c : Cost) : Type 0 where
  pub instructions : c.instructions < 2 ^ 32
  pub disk_read_bytes : c.disk_read_bytes < 2 ^ 32
  pub write_bytes : c.write_bytes < 2 ^ 32
  pub resource_fee : (f : ℕ) × (c.resource_fee ≡ pos f) × (f < 2 ^ 63)

-- an amount that is not negative and fits an int64
abbrev IsAmount : ℤ → Type 0
IsAmount z = (n : ℕ) × (z ≡ pos n) × (n < 2 ^ 63)

abbrev Amounts : List CostFigure → Type 0
Amounts fs = All (λ (f : CostFigure). IsAmount f.value) fs

module _ (fl : Floats) where
  -- a figure grew, and by more than the threshold or from nothing
  unfoldable pub grew_above : Float → ℤ → ℤ → Bool
  grew_above threshold base cur =
      ltb_ℤ base cur
      && (is_zero base
          || fl.greater
              (fl.multiply (fl.divide (fl.of_int64 (cur -ℤ base)) (fl.of_int64 base)) fl.hundred)
              threshold)

  -- a figure of the first list grew above the threshold to the figure at its place in the second
  unfoldable pub any_grew : Float → List CostFigure → List CostFigure → Bool
  any_grew t (b ∷ bs) (c ∷ cs) = grew_above t b.value c.value || any_grew t bs cs
  any_grew t _ _ = false
