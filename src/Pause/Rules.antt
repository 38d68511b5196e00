-- ===== src/Pause/Rules.antt =====
-- The pause on motion of pkg/bridge/pause.go, over the reports that the camera made.
use reolinkproxy.Base.{
  ℕ, ◌-◌, ◌≤◌, ◌<◌, ◌≡◌, ◌≢◌, ◌↔◌, refl, List, [], ◌∷◌, Bool, true, false, arith, some,
}
use reolinkproxy.Pause.{
  Motion, PauseConfig, no_motion, no_rtsp_client, set_active, should_pause, motion_pause,
}

-- The reports of a camera in turn, each with its time.
unfoldable pub reports : Motion → List (ℕ × Bool) → Motion
reports m [] = m
reports m ((now, active) ∷ later) = reports (set_active now active m) later

-- The reports all say that there is no motion.
abbrev pub Quiet : List (ℕ × Bool) → Type 0
Quiet [] = Unit {0}
Quiet ((now, active) ∷ later) = (active ≡ false) × Quiet later

repeated :
    (m : Motion) (now : ℕ) (active : Bool)
    → m.known ≡ true
    → m.active ≡ false
    → active ≡ false
    → set_active now active m ≡ m
unfolding set_active
repeated m now active k a e = rw (k, a, e)

reports-Quiet :
    (m : Motion) (later : List (ℕ × Bool))
    → m.known ≡ true
    → m.active ≡ false
    → Quiet later
    → reports m later ≡ m
unfolding reports
reports-Quiet m [] k a q = refl
reports-Quiet m ((now, active) ∷ later) k a q =
    rw (repeated m now active k a q.0) (reports-Quiet m later k a q.1)

ended_motion :
    (m : Motion) (ended : ℕ)
    → m.active ≡ true
    → set_active ended false m ≡ record m { known = true; active = false; changed_at = ended }
unfolding set_active
ended_motion m ended a = ground (arith, a)

-- The motion of a camera that had motion ends at `ended`, and every later report repeats that there
-- is none. A stream with clients that pauses on motion then pauses, with the reason `no_motion`,
-- exactly when the timeout has passed since `ended`: the repeated reports do not start it again.
pub should_pause_after_motion :
    (p : PauseConfig) (m : Motion) (ended now : ℕ) (later : List (ℕ × Bool))
    → p.on_motion ≡ true
    → 0 < p.timeout
    → m.active ≡ true
    → m.unsupported ≡ false
    → Quiet later
    → let paused =
        should_pause p (some (reports (set_active ended false m) later)) now (some true) in
      ((paused ≡ some no_motion) ↔ (p.timeout ≤ now - ended)) × (paused ≢ some no_rtsp_client)
unfolding should_pause motion_pause
should_pause_after_motion p m ended now later on timeout active supported quiet =
    rw
      (
        ended_motion m ended active,
        reports-Quiet (record m { known = true; active = false; changed_at = ended }) later refl
            refl quiet,
      )
      (ground (arith, on, timeout, supported))
