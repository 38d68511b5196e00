-- ===== src/Examples/Bridges.antt =====
-- The theorems on devices and RTSP sessions, applied to concrete runs.
use reolinkproxy.Base.{
  second, ℕ, ◌+◌, ◌*◌, ◌≡◌, refl, List, [], ◌∷◌, ◌++◌, Bool, true, false, Option, none, some, arith,
  ◌⊎◌, inl, ok, err,
}
use reolinkproxy.Device.{
  Device, idle, lost, Login, Call, ensures, resets, closes, run, talk_retry_pause,
}
use reolinkproxy.Device.Reports.{Grounded, last_of, Grounded-run}
use reolinkproxy.Device.Notify.{
  Queue, notify_state, Reach, starts, goes, notifies, takes, Reach-delivered,
}
use reolinkproxy.Device.Spacing.{Spaced}
use reolinkproxy.Device.TalkRetry.{TalkSession, TalkCall, writes, Turn, attempts, unsupported}
use reolinkproxy.Device.TalkRetry.Pacing.{
  begins, asks, EverySecondSpaced, attempts-EverySecondSpaced,
}
use reolinkproxy.Device.Renewing.{renewals, Covered, Settled, end_of, Covered-renewals}
use reolinkproxy.Device.Preview.{Round, refused}
use reolinkproxy.Device.Webhook.{Camera, Visit, watch_low_power, watch_low_power-Rested, Rested}
use reolinkproxy.Rtsp.{
  Server, new_server, Request, sets_up, plays, records, pauses, closes, bridge_ends,
}
use reolinkproxy.Rtsp
use reolinkproxy.Rtsp.Playing.{AllKeep, Counted, run-Counted}
use reolinkproxy.Rtsp.Bridges.{Sound}
use reolinkproxy.Rtsp.Talks.{AllAlone, run-Sound, new_server-Sound}

abbrev device : Device
device = record {
  has_host = true;
  prefer_uid = true;
  prefer_uid_since = 0;
  dual_lens = false;
  client = none;
  notified = [];
}

-- A dial that reaches the camera over its UID only.
abbrev over_uid : ℕ → Bool → Option Login
over_uid client uid_first = some (record { client = client; used_uid = true; dual_lens = false })

abbrev calls : List Call
calls =
    ensures (301 * second) none (over_uid 1)
    ∷ closes (some lost)
    ∷ ensures (302 * second) none (over_uid 2)
    ∷ resets (some idle) 2
    ∷ []

Grounded-run_example :
    Grounded false (run device calls).notified
    × (((run device calls).client ≡ none) ⊎ (last_of false (run device calls).notified ≡ true))
Grounded-run_example = Grounded-run device calls refl refl

abbrev queued : Queue
queued = record {
  state_pending = false ∷ [];
  state_draining = true;
  looping = 0;
  held = true ∷ [];
  delivered = [];
}

Reach-queued : Reach queued (true ∷ false ∷ [])
unfolding notify_state
Reach-queued =
    goes (goes (goes starts (notifies true refl)) (takes true [] 0 refl refl refl))
      (notifies false refl)

Reach-delivered_example :
    (true ∷ false ∷ [] ≡ queued.delivered ++ queued.held ++ queued.state_pending)
    × (queued.state_draining ≡ false → true ∷ false ∷ [] ≡ queued.delivered)
Reach-delivered_example = Reach-delivered queued (true ∷ false ∷ []) Reach-queued

abbrev no_session : TalkSession
no_session = record { session = none; closed = false; retry_at = 0 }

abbrev turn : ℕ → Turn
turn now = record {
  now = now;
  paused_at = now + 1;
  ensured_at = now + second;
  write_fails = λ session. true;
  broken = record { now = now; err = none; dial = over_uid 1 };
  restart = record { now = now + 1; err = none; dial = over_uid 2 };
  drop_err = some lost;
  start_talk = λ client. err unsupported;
}

abbrev talk_calls : List TalkCall
talk_calls = writes (turn second) ∷ writes (turn (2 * second)) ∷ writes (turn (5 * second)) ∷ []

attempts-EverySecondSpaced_example :
    Spaced talk_retry_pause 0 (begins (attempts no_session device talk_calls))
    × EverySecondSpaced talk_retry_pause 0
        (0 + talk_retry_pause)
        (asks (attempts no_session device talk_calls))
attempts-EverySecondSpaced_example = attempts-EverySecondSpaced talk_calls no_session device 0 (
  omega arith,
  omega arith,
  omega arith,
  (omega arith, omega arith, omega arith, (omega arith, omega arith, omega arith, tt)),
)

abbrev ticks : List (ℕ × Bool)
ticks = (45 * second, false) ∷ (61 * second, true) ∷ []

Covered-renewals_example :
    Covered (360 * second) 0 (end_of 0 ticks) (renewals 0 0 ticks)
    × (Settled 0 ticks → Spaced (300 * second) (0 + 300 * second) (renewals 0 0 ticks))
Covered-renewals_example =
    Covered-renewals 0 ticks (omega arith, omega arith, (omega arith, omega arith, tt))

abbrev connected : Device
connected = record device { client = some 7 }

abbrev refusal : Round
refusal = record {
  now = 0;
  wanted = true;
  err = none;
  dial = over_uid 1;
  start = λ client. refused;
  privacy = false;
  still_wanted = true;
  drop_err = none;
}

-- A camera that keeps the address it is given.
abbrev camera : Camera
camera = record {
  Condition = Bool × ℕ;
  get_webhook = λ s. (ok s, s);
  set_webhook = λ enabled url s. (ok tt, (enabled, url));
}

abbrev visit : Visit
visit = record { connected = true; nvr = false; pushed = true; setups = 0 }

-- No push comes in time, so a session is held open until one does.
abbrev late_visit : Visit
late_visit = record { connected = true; nvr = false; pushed = false; setups = 2 }

watch_low_power-Rested_example :
    Rested camera 80 (watch_low_power camera (some 80) false (true, 70) (late_visit ∷ visit ∷ []))
watch_low_power-Rested_example =
    watch_low_power-Rested camera 80 (late_visit ∷ visit ∷ []) false (true, 70)

-- Two sessions on one two-way stream, which feed one talk; one of them leaves.
abbrev requests : List Request
requests =
    sets_up 1 5
    ∷ plays (some 5) (some 9) (some 9) 1
    ∷ sets_up 2 5
    ∷ plays (some 5) (some 9) (some 9) 2
    ∷ pauses 1
    ∷ []

requests-AllKeep : AllKeep new_server requests
unfolding Rtsp.perform Rtsp.attach_session_to_stream Rtsp.on_play
requests-AllKeep = (inl refl, (inl refl, (inl refl, (inl refl, (tt, tt)))))

requests-AllAlone : AllAlone new_server requests
unfolding Rtsp.perform Rtsp.attach_session_to_stream Rtsp.on_play
requests-AllAlone = (tt, (inl refl, (tt, (inl refl, (tt, tt)))))

run-Counted_example : Counted (Rtsp.run new_server requests)
run-Counted_example = run-Counted requests new_server requests-AllKeep (λ i h. refl)

run-Sound_example : Sound (Rtsp.run new_server requests)
run-Sound_example = run-Sound requests new_server requests-AllAlone new_server-Sound
