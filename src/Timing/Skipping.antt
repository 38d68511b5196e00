-- ===== src/Timing/Skipping.antt =====
-- `liveEdge` (pkg/bridge/stream_run.go) over a sequence of frames: what is left can be decoded.
use reolinkproxy.Base.{ℕ, ◌≡◌, List, [], ◌∷◌, Bool, true, false, ◌⊎◌}
use reolinkproxy.Timing.{LiveEdge, behind}

-- A frame as it reaches `behind`: its media time, whether it is a keyframe, and the wall clock.
pub record Frame : Type 0 where
  pub media : ℕ
  pub keyframe : Bool
  pub now : ℕ

-- Whether each frame is dropped, one after another.
abbrev pub verdicts : ℕ → LiveEdge → List Frame → List (Frame × Bool)
verdicts max_lag l [] = []
verdicts max_lag l (f ∷ frames) =
    let (drop, l') = behind max_lag l f.media f.keyframe f.now in
    (f, drop) ∷ verdicts max_lag l' frames

-- No keyframe is dropped, and a frame that is shown is a keyframe or follows one that is shown:
-- `shown` is whether the one before the first is.
abbrev pub Decodable : Bool → List (Frame × Bool) → Type 0
Decodable shown [] = Unit {0}
Decodable shown ((f, true) ∷ later) = (f.keyframe ≡ false) × Decodable false later
Decodable shown ((f, false) ∷ later) = ((f.keyframe ≡ true) ⊎ (shown ≡ true)) × Decodable true later

-- After a dropped frame the edge is catching up.
abbrev Fits : Bool → LiveEdge → Type 0
Fits shown l = (shown ≡ true) ⊎ ((l.catching_up ≡ true) × (l.anchored ≡ true))

abbrev Fair : Bool → Frame → Bool × LiveEdge → Type 0
Fair shown f (true, l) = (f.keyframe ≡ false) × Fits false l
Fair shown f (false, l) = ((f.keyframe ≡ true) ⊎ (shown ≡ true)) × Fits true l
