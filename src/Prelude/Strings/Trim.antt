-- ===== src/Prelude/Strings/Trim.antt =====
-- TrimSpace leaves a text without spaces as it is.
use Prim.Native.Nat.{ℕ, ◌≤◌, ◌<◌}
use mathlib.Core.Path.{◌≡◌, refl}
use mathlib.Core.List.{[], ◌∷◌, reverse, reverse-reverse, reverse-cons}
use native.Mathlib.Omega.{arith}
use soroprobe.Prelude.Lists.{All, All-append}
use soroprobe.Prelude.Strings.Bytes.{Text}
use soroprobe.Prelude.Strings.Search.{space_width, last_space_width, trim_from, trim_space}

-- an ASCII byte that is no space
abbrev pub IsPrinted : ℕ → Type 0
IsPrinted c = (33 ≤ c) × (c < 128)

space_width-zero : (c : ℕ) (s : Text) → IsPrinted c → space_width (c ∷ s) ≡ 0
unfolding space_width
space_width-zero c [] h = ground arith
space_width-zero c (b ∷ []) h = ground arith
space_width-zero c (b ∷ d ∷ s) h = ground arith

last_space_width-zero : (c : ℕ) (s : Text) → IsPrinted c → last_space_width (c ∷ s) ≡ 0
unfolding last_space_width
last_space_width-zero c [] h = ground arith
last_space_width-zero c (b ∷ []) h = ground arith
last_space_width-zero c (b ∷ d ∷ s) h = ground arith

trim_from-stop :
    (width : Text → ℕ) (s : Text)
    → ((c : ℕ) (t : Text) → IsPrinted c → width (c ∷ t) ≡ 0)
    → All IsPrinted s
    → trim_from width 0 s ≡ s
unfolding trim_from
trim_from-stop width [] w h = refl
trim_from-stop width (c ∷ s) w h = rw (w c s h.0, trim_from)

All-reverse : (s : Text) → All IsPrinted s → All IsPrinted (reverse s)
All-reverse [] h = tt
All-reverse (c ∷ s) h =
    rw reverse-cons (All-append IsPrinted (reverse s) (c ∷ []) (All-reverse s h.1) (h.0, tt))

pub trim_space-IsPrinted : (s : Text) → All IsPrinted s → trim_space s ≡ s
unfolding trim_space
trim_space-IsPrinted s h =
    rw
      (
        trim_from-stop space_width s space_width-zero h,
        trim_from-stop last_space_width (reverse s) last_space_width-zero (All-reverse s h),
      )
      (reverse-reverse s)
