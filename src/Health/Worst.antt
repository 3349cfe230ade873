-- ===== src/Health/Worst.antt =====
-- Worst picks a status of the set that no other exceeds in severity.
use soroprobe.Prelude.{◌≤◌, ◌≡◌, refl, ◌⊎◌, inl, List, [], ◌∷◌, In, All, ltb, arith, if◌then◌else◌}
use soroprobe.Health.{Status, healthy, severity, worst_from, worst}

abbrev pub NoWorse : Status → Status → Type 0
NoWorse w s = severity s ≤ severity w

pub worst_from-le : (w : Status) (ss : List Status) → severity w ≤ severity (worst_from w ss)
unfolding worst_from
worst_from-le w [] = omega arith
worst_from-le w (s ∷ ss) =
    ground (arith, worst_from-le (if ltb (severity w) (severity s) then s else w) ss)

worst_from-NoWorse : (w : Status) (ss : List Status) → All (NoWorse (worst_from w ss)) ss
unfolding worst_from
worst_from-NoWorse w [] = tt
worst_from-NoWorse w (s ∷ ss) =
    let w' = if ltb (severity w) (severity s) then s else w in
    (ground (arith, worst_from-le w' ss), worst_from-NoWorse w' ss)

worst_from-In : (w : Status) (ss : List Status) → (worst_from w ss ≡ w) ⊎ In (worst_from w ss) ss
unfolding worst_from
worst_from-In w [] = inl refl
worst_from-In w (s ∷ ss) =
    ground (arith, worst_from-In (if ltb (severity w) (severity s) then s else w) ss)

-- The worst status is at least as severe as each status of the set, and it is one of the set
-- or else healthy.
pub worst-greatest :
    (ss : List Status) → All (NoWorse (worst ss)) ss × ((worst ss ≡ healthy) ⊎ In (worst ss) ss)
unfolding worst
worst-greatest ss = (worst_from-NoWorse healthy ss, worst_from-In healthy ss)
