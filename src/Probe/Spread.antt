-- ===== src/Probe/Spread.antt =====
-- internal/probe/spread.go: how the cost of a call varied across repeated simulations.
pub mod Range
pub mod Worst
pub mod Footprints
use soroprobe.Prelude.{
  ℕ, zero, suc, ◌+◌, Bool, true, false, ◌&&◌, ◌||◌, Option, none, some, List, [], ◌∷◌, ◌++◌, ltb,
  ◌==◌, if◌then◌else◌, Text, text, length,
}
use soroprobe.Prelude.Int.{ℤ, pos, leb_ℤ, ltb_ℤ, ◌-ℤ◌, wrap_int64}
use soroprobe.Prelude.Dict.{Dict, lookup, insert}
use soroprobe.Probe.Cost.{Cost, Float, Floats, CostFigure, cost_figures, percentage, above}

pub record Footprint : Type 0 where
  pub read_only : List Text
  pub read_write : List Text

pub record FigureSpread : Type 0 where
  pub name : Text
  pub min : ℤ
  pub max : ℤ
  pub spread : ℤ
  pub percent : Option Float

pub record SpreadReport : Type 0 where
  pub runs : ℕ
  pub figures : List FigureSpread
  pub max : Cost
  pub footprint_changes : List Text
  pub max_spread_percent : Option Float
  pub noisy : Bool

-- costFigures(c)[i].Value, where every index is in range
unfoldable pub value_at : ℕ → List CostFigure → ℤ
value_at i [] = pos 0
value_at zero (f ∷ fs) = f.value
value_at (suc i) (f ∷ fs) = value_at i fs

-- the inner loop: the least and the greatest value of figure `i`
unfoldable pub min_from : ℕ → ℤ → List Cost → ℤ
min_from i m [] = m
min_from i m (c ∷ cs) =
    let v = value_at i (cost_figures c) in min_from i (if ltb_ℤ v m then v else m) cs

unfoldable pub max_from : ℕ → ℤ → List Cost → ℤ
max_from i m [] = m
max_from i m (c ∷ cs) =
    let v = value_at i (cost_figures c) in max_from i (if ltb_ℤ m v then v else m) cs

-- Go's max
abbrev pub max_ℕ : ℕ → ℕ → ℕ
max_ℕ a b = if ltb a b then b else a

abbrev pub max_ℤ : ℤ → ℤ → ℤ
max_ℤ a b = if ltb_ℤ a b then b else a

-- The loop over out.Max. The estimated total fee stays that of the first run.
unfoldable pub raise_max : Cost → Cost → Cost
raise_max m c = record m {
  instructions = max_ℕ m.instructions c.instructions;
  disk_read_bytes = max_ℕ m.disk_read_bytes c.disk_read_bytes;
  write_bytes = max_ℕ m.write_bytes c.write_bytes;
  resource_fee = max_ℤ m.resource_fee c.resource_fee;
  min_resource_fee = max_ℤ m.min_resource_fee c.min_resource_fee;
}

unfoldable pub max_cost : Cost → List Cost → Cost
max_cost m [] = m
max_cost m (c ∷ cs) = max_cost (raise_max m c) cs

-- seen[k]++
unfoldable pub count_from : Option ℕ → ℕ
count_from none = 1
count_from (some n) = n + 1

unfoldable pub bump : Text → Dict ℕ → Dict ℕ
bump k seen = insert k (count_from (lookup k seen)) seen

unfoldable pub bump_all : Text → List Text → Dict ℕ → Dict ℕ
bump_all prefix [] seen = seen
bump_all prefix (k ∷ ks) seen = bump_all prefix ks (bump (prefix ++ k) seen)

abbrev pub read_prefix : Text
read_prefix = text "read  "

abbrev pub write_prefix : Text
write_prefix = text "write "

unfoldable pub count_footprints : List Footprint → Dict ℕ → Dict ℕ
count_footprints [] seen = seen
count_footprints (fp ∷ fps) seen =
    count_footprints fps
      (bump_all write_prefix fp.read_write (bump_all read_prefix fp.read_only seen))

-- Go's order on strings
unfoldable pub text_lt : Text → Text → Bool
text_lt s [] = false
text_lt [] (b ∷ t) = true
text_lt (a ∷ s) (b ∷ t) = ltb a b || (a == b && text_lt s t)

-- sort.Strings
unfoldable pub insert_text : Text → List Text → List Text
insert_text k [] = k ∷ []
insert_text k (j ∷ js) = let rest = insert_text k js in if text_lt j k then j ∷ rest else k ∷ j ∷ js

unfoldable pub sort_strings : List Text → List Text
sort_strings [] = []
sort_strings (k ∷ ks) = insert_text k (sort_strings ks)

-- the entries that were not counted `runs` times
unfoldable pub changed : ℕ → Dict ℕ → List Text
changed runs [] = []
changed runs ((k, n) ∷ seen) = let rest = changed runs seen in if n == runs then rest else k ∷ rest

unfoldable pub footprint_changes : List Footprint → List Text
footprint_changes fps = sort_strings (changed (length fps) (count_footprints fps []))

module _ (fl : Floats) where
  unfoldable pub figure_spread : ℕ → CostFigure → List Cost → FigureSpread
  figure_spread i f cs =
      let lo = min_from i f.value cs in
      let hi = max_from i f.value cs in
      let spread = wrap_int64 (hi -ℤ lo) in
      record {
        name = f.name;
        min = lo;
        max = hi;
        spread = spread;
        percent = percentage fl spread lo;
      }

  -- the loop over the figures of the first run, from figure `i`
  unfoldable pub figure_spreads : ℕ → List CostFigure → List Cost → List FigureSpread
  figure_spreads i [] cs = []
  figure_spreads i (f ∷ fs) cs = figure_spread i f cs ∷ figure_spreads (suc i) fs cs

  unfoldable pub any_noisy : Float → List FigureSpread → Bool → Bool
  any_noisy threshold [] out = out
  any_noisy threshold (f ∷ fs) out =
      any_noisy threshold fs
        (if leb_ℤ f.spread (pos 0) then out else if above fl threshold f.percent then true else out)

  unfoldable pub noisy_by : Option Float → List FigureSpread → Bool
  noisy_by none figures = false
  noisy_by (some threshold) figures = any_noisy threshold figures false

  abbrev pub no_cost : Cost
  no_cost = record {
    instructions = 0;
    disk_read_bytes = 0;
    write_bytes = 0;
    resource_fee = pos 0;
    min_resource_fee = pos 0;
    estimated_total_fee = pos 0;
  }

  -- SpreadCost
  unfoldable pub spread_cost : List Cost → List Footprint → Option Float → SpreadReport
  spread_cost [] footprints max_spread_percent = record {
    runs = 0;
    figures = [];
    max = no_cost;
    footprint_changes = [];
    max_spread_percent = max_spread_percent;
    noisy = false;
  }
  spread_cost (c ∷ cs) footprints max_spread_percent =
      let figures = figure_spreads 0 (cost_figures c) cs in
      record {
        runs = length (c ∷ cs);
        figures = figures;
        max = max_cost c cs;
        footprint_changes =
            if length footprints == length (c ∷ cs) then footprint_changes footprints else [];
        max_spread_percent = max_spread_percent;
        noisy = noisy_by max_spread_percent figures;
      }
