-- ===== src/Tests/Cost.antt =====
-- Costs at concrete runs. The percentages are whole ones, rounded down.
use soroprobe.Prelude.{
  ◌↔◌, ◌<◌, ◌+◌, ◌++◌, Text, text_eq, [], ◌∷◌, text, replicate, length, In, ◌/◌, ◌*◌, ltb, arith,
}
use soroprobe.Prelude.Int.{pos, pos_part}
use soroprobe.Probe.Cost.{Cost, Floats}
use soroprobe.Probe.Spread.{Footprint, read_prefix, write_prefix, footprint_changes}
use soroprobe.Probe.Spread.Footprints.{
  stable-footprint_changes, occurs, Varies, occurs_in, In-footprint_changes,
}

abbrev pub whole_percents : Floats
whole_percents = record {
  of_int64 = λ z. pos_part z * 100;
  divide = λ a b. a / b;
  multiply = λ a b. a;
  hundred = 100;
  greater = λ a b. ltb b a;
}

abbrev pub small_cost : Cost
small_cost = record {
  instructions = 1_000;
  disk_read_bytes = 0;
  write_bytes = 64;
  resource_fee = pos 500;
  min_resource_fee = pos 480;
  estimated_total_fee = pos 600;
}

abbrev large_cost : Cost
large_cost = record {
  instructions = 1_200;
  disk_read_bytes = 0;
  write_bytes = 64;
  resource_fee = pos 900;
  min_resource_fee = pos 880;
  estimated_total_fee = pos 1_000;
}

-- two data entries of a contract have one label
abbrev two_entries : Footprint
two_entries = record {
  read_only = [];
  read_write = text "contract data C (persistent)" ∷ text "contract data C (persistent)" ∷ [];
}

abbrev the_label : Text
the_label = write_prefix ++ text "contract data C (persistent)"

twice :
    1
    < occurs the_label read_prefix two_entries.read_only
      + occurs the_label write_prefix two_entries.read_write
unfolding occurs text_eq
twice = omega arith

stable-footprint_changes_example : In the_label (footprint_changes (replicate 2 two_entries))
stable-footprint_changes_example =
    stable-footprint_changes the_label two_entries 2 (omega arith) twice

In-footprint_changes_example :
    In the_label (footprint_changes (two_entries ∷ two_entries ∷ []))
    ↔ Varies
        (length (two_entries ∷ two_entries ∷ []))
        (occurs_in the_label (two_entries ∷ two_entries ∷ []))
In-footprint_changes_example = In-footprint_changes the_label (two_entries ∷ two_entries ∷ [])
