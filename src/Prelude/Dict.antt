-- ===== src/Prelude/Dict.antt =====
-- A Go map with string keys: its entries, in the order in which a `range` loop may visit them.
use Prim.Native.Nat.{◌≤◌, ◌<◌}
use mathlib.Core.Logic.{◌⊎◌, inl, inr}
use mathlib.Core.Path.{◌≡◌}
use mathlib.Core.Option.{Option, none, some}
use mathlib.Core.List.{List, [], ◌∷◌}
use native.Mathlib.Omega.{arith}
use soroprobe.Prelude.Tests.{if◌then◌else◌}
use soroprobe.Prelude.Lists.{length}
use soroprobe.Prelude.Strings.{Text, text_eq, text_eq_iff}

abbrev pub Dict : Type 0 → Type 0
Dict V = List (Text × V)

module _ {V : Type 0} where
  -- m[k]
  unfoldable pub lookup : Text → Dict V → Option V
  lookup k [] = none
  lookup k ((j, v) ∷ m) = if text_eq j k then some v else lookup k m

  -- delete(m, k)
  unfoldable pub delete : Text → Dict V → Dict V
  delete k [] = []
  delete k ((j, v) ∷ m) = let rest = delete k m in if text_eq j k then rest else (j, v) ∷ rest

  -- m[k] = v
  unfoldable pub insert : Text → V → Dict V → Dict V
  insert k v m = (k, v) ∷ delete k m

  pub lookup-delete :
      (k j : Text) (m : Dict V) → lookup j (delete k m) ≡ (if text_eq k j then none else lookup j m)
  unfolding lookup delete
  lookup-delete k j [] = ground arith
  lookup-delete k j ((i, v) ∷ m) =
      ground (arith, lookup-delete k j m, text_eq_iff i k, text_eq_iff i j, text_eq_iff k j)

  pub lookup-insert :
      (k j : Text) (v : V) (m : Dict V)
      → lookup j (insert k v m) ≡ (if text_eq k j then some v else lookup j m)
  unfolding lookup insert
  lookup-insert k j v m = ground (arith, lookup-delete k j m)

  pub length-delete-le : (k : Text) (m : Dict V) → length (delete k m) ≤ length m
  unfolding delete
  length-delete-le k [] = omega arith
  length-delete-le k ((j, v) ∷ m) = ground (arith, length-delete-le k m)

  -- the key stands in the map
  abbrev pub HasKey : Text → Dict V → Type 0
  HasKey k [] = ⊥
  HasKey k ((j, v) ∷ m) = (k ≡ j) ⊎ HasKey k m

  pub length-delete-lt : (k : Text) (m : Dict V) → HasKey k m → length (delete k m) < length m
  unfolding delete
  length-delete-lt k [] h = elim h [ ]
  length-delete-lt k ((j, v) ∷ m) (inl same) = ground (arith, text_eq_iff j k, length-delete-le k m)
  length-delete-lt k ((j, v) ∷ m) (inr h) =
      ground (arith, length-delete-lt k m h, length-delete-le k m)
