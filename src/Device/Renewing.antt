-- ===== src/Device/Renewing.antt =====
-- `runEventSession` of pkg/bridge/device.go: when the subscription to events is renewed.
use reolinkproxy.Base.{
  second, ℕ, ◌+◌, ◌-◌, ◌*◌, ◌≤◌, ◌<◌, ◌≡◌, refl, List, [], ◌∷◌, Bool, true, false, ltb, not, ◌&&◌,
  arith, if◌then◌else◌, Bool-cases, inl, inr,
}
use reolinkproxy.Device.Spacing.{Spaced}

abbrev pub alarm_retry_interval : ℕ
alarm_retry_interval = 30 * second

abbrev pub alarm_fast_retry_window : ℕ
alarm_fast_retry_window = 300 * second

abbrev pub alarm_renew_interval : ℕ
alarm_renew_interval = 300 * second

-- The ticker is there at all.
unfoldable pub renews : Bool → Bool → Bool → Bool
renews alarm motion_unsupported let_sleep = alarm && (not motion_unsupported && not let_sleep)

-- A tick of the ticker at `now`: does it ask the camera again? `push_seen` is AlarmPushSeen then.
unfoldable pub due : ℕ → ℕ → ℕ → Bool → Bool
due session_start last_renew now push_seen =
    let fast_retry = not push_seen && ltb (now - session_start) alarm_fast_retry_window in
    not (not fast_retry && ltb (now - last_renew) alarm_renew_interval)

-- The times at which it asks, of the ticks given with their times.
unfoldable pub renewals : ℕ → ℕ → List (ℕ × Bool) → List ℕ
unfolding due
renewals session_start last_renew [] = []
renewals session_start last_renew ((now, push_seen) ∷ ticks) =
    if due session_start last_renew now push_seen
    then now ∷ renewals session_start now ticks
    else renewals session_start last_renew ticks

-- Each tick that the loop reads is not before the one before, which was at `before`, and less than
-- twice `alarm_retry_interval` after it. The ticker ticks every
-- `alarm_retry_interval`; a late tick makes the time to it longer and that to the next one shorter.
abbrev pub Ticking : ℕ → List (ℕ × Bool) → Type 0
Ticking before [] = Unit {0}
Ticking before ((now, seen) ∷ ticks) =
    (before ≤ now) × (now < before + 2 * alarm_retry_interval) × Ticking now ticks

-- The ticks of a session that has seen a push, or is past its first minutes.
abbrev pub Settled : ℕ → List (ℕ × Bool) → Type 0
Settled session_start [] = Unit {0}
Settled session_start ((now, push_seen) ∷ ticks) =
    (push_seen ≡ false → session_start + alarm_fast_retry_window ≤ now)
    × Settled session_start ticks

-- Times from `renewed` to `end` with less than `gap` from each to the next.
abbrev pub Covered : ℕ → ℕ → ℕ → List ℕ → Type 0
Covered gap renewed end [] = end < renewed + gap
Covered gap renewed end (r ∷ rs) = (r < renewed + gap) × Covered gap r end rs

abbrev pub end_of : ℕ → List (ℕ × Bool) → ℕ
end_of before [] = before
end_of before ((now, seen) ∷ ticks) = end_of now ticks

due-false :
    (session_start last_renew now : ℕ) (push_seen : Bool)
    → due session_start last_renew now push_seen ≡ false
    → now - last_renew < alarm_renew_interval
unfolding due
due-false session_start last_renew now push_seen d = ground arith

due-settled :
    (session_start last_renew now : ℕ) (push_seen : Bool)
    → (push_seen ≡ false → session_start + alarm_fast_retry_window ≤ now)
    → due session_start last_renew now push_seen ≡ true
    → alarm_renew_interval ≤ now - last_renew
unfolding due
due-settled session_start last_renew now true h d = ground arith
due-settled session_start last_renew now false h d = let late = h refl in ground (arith, late)

renewals-Covered :
    (session_start last_renew before : ℕ) (ticks : List (ℕ × Bool))
    → before < last_renew + alarm_renew_interval
    → Ticking before ticks
    → Covered
        (alarm_renew_interval + 2 * alarm_retry_interval)
        last_renew
        (end_of before ticks)
        (renewals session_start last_renew ticks)
unfolding renewals
renewals-Covered session_start last_renew before [] b t = omega (arith, b)
renewals-Covered session_start last_renew before ((now, seen) ∷ ticks) b t =
    elim (Bool-cases (due session_start last_renew now seen)) [
      | inl asks ↦
          rw asks
            (omega (arith, b, t.1), renewals-Covered session_start now now ticks (omega arith) t.2)
      | inr quiet ↦ rw quiet (
          renewals-Covered session_start last_renew now ticks
            (omega (arith, due-false session_start last_renew now seen quiet)) t.2)
    ]

renewals-Spaced :
    (session_start last_renew before : ℕ) (ticks : List (ℕ × Bool))
    → last_renew ≤ before
    → Ticking before ticks
    → Settled session_start ticks
    → Spaced alarm_renew_interval
        (last_renew + alarm_renew_interval)
        (renewals session_start last_renew ticks)
unfolding renewals
renewals-Spaced session_start last_renew before [] le t s = tt
renewals-Spaced session_start last_renew before ((now, seen) ∷ ticks) le t s =
    elim (Bool-cases (due session_start last_renew now seen)) [
      | inl asks ↦
          let far = due-settled session_start last_renew now seen s.0 asks in
          rw asks
            (omega (arith, far), renewals-Spaced session_start now now ticks (omega arith) t.2 s.1)
      | inr quiet ↦
          rw quiet
            (renewals-Spaced session_start last_renew now ticks (omega (arith, le, t.0)) t.2 s.1)
    ]

-- Where the times of the ticks that the loop reads do not go back, and the first is less than a minute
-- after the start and each other less than a minute after the one before: from the start of the
-- session to its last tick, less than six minutes pass between the ticks at which the camera is asked
-- again; and where all ticks come once the session has seen a push or is past its first five
-- minutes, those that ask come five minutes or more after one another and after the start.
pub Covered-renewals :
    (session_start : ℕ) (ticks : List (ℕ × Bool))
    → Ticking session_start ticks
    → Covered
        (360 * second)
        session_start
        (end_of session_start ticks)
        (renewals session_start session_start ticks)
      × (Settled session_start ticks
          → Spaced
              (300 * second)
              (session_start + 300 * second)
              (renewals session_start session_start ticks))
Covered-renewals session_start ticks t = (
  renewals-Covered session_start session_start session_start ticks (omega arith) t,
  λ s. renewals-Spaced session_start session_start session_start ticks (omega arith) t s,
)
