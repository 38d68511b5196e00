-- ===== src/Device/Spacing.antt =====
-- Times that keep a distance, for the pauses of pkg/bridge/device.go.
use reolinkproxy.Base.{ℕ, ◌+◌, ◌≤◌, List, [], ◌∷◌, arith}

-- The first is not before `from`, the others are `gap` or more after the one before.
abbrev pub Spaced : ℕ → ℕ → List ℕ → Type 0
Spaced gap from [] = Unit {0}
Spaced gap from (t ∷ ts) = (from ≤ t) × Spaced gap (t + gap) ts

pub Spaced-earlier :
    (gap from later : ℕ) (ts : List ℕ) → from ≤ later → Spaced gap later ts → Spaced gap from ts
Spaced-earlier gap from later [] le s = tt
Spaced-earlier gap from later (t ∷ ts) le s = (omega (arith, le, s.0), s.1)
