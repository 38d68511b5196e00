-- ===== src/Timing/Monotone.antt =====
-- `mediaTimeline` (pkg/bridge/stream_run.go) over a sequence of video timestamps.
use reolinkproxy.Base.{ℕ, ◌<◌, ◌≡◌, List, [], ◌∷◌, true, arith}
use reolinkproxy.Timing.{Smoothing, Timeline, video, correct, step_us, unwrap, apply_offset}

module _ (f : Smoothing) where
  -- The published times of a sequence of timestamps, each with the wall clock at its arrival.
  abbrev pub published : Timeline f → List (ℕ × ℕ) → List ℕ
  published t [] = []
  published t ((now, ts32) ∷ later) =
      let (us, raw, t') = video f now t ts32 in us ∷ published t' later

  abbrev pub Above : ℕ → List ℕ → Type 0
  Above last [] = Unit {0}
  Above last (us ∷ later) = (last < us) × Above us later

  correct_above : (t : Timeline f) (us : ℕ) → t.last_video < (correct f t us).0
  unfolding correct step_us
  correct_above t us = ground arith

  video_above :
      (now ts32 : ℕ) (t : Timeline f)
      → t.have_video ≡ true
      → let out = video f now t ts32 in
        (t.last_video < out.0) × (out.2.last_video ≡ out.0) × (out.2.have_video ≡ true)
  unfolding video
  video_above now ts32 t h =
      ground (arith, h, correct_above t (apply_offset t.offset (unwrap now t.unwrapper ts32).0))

  -- Once a video timestamp has been published, each later one is published above the one before,
  -- whatever the camera's clock does: jumps, stops and steps back included.
  pub published-Above :
      (t : Timeline f) (later : List (ℕ × ℕ))
      → t.have_video ≡ true
      → Above t.last_video (published t later)
  published-Above t [] h = tt
  published-Above t ((now, ts32) ∷ later) h =
      let (above, last, have) = video_above now ts32 t h in
      (above, rw last at (published-Above (video f now t ts32).2 later have))
