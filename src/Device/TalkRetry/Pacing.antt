-- ===== src/Device/TalkRetry/Pacing.antt =====
-- How often a talk of pkg/bridge/device.go asks the camera for a session.
use reolinkproxy.Base.{
  Bool-cases, inl, inr, ◌⊎◌, ℕ, ◌+◌, ◌≤◌, ◌≡◌, refl, List, [], ◌∷◌, Bool, true, false, Option, none,
  some, ltb, arith, if◌then◌else◌, ok, err,
}
use reolinkproxy.Device.Spacing.{Spaced, Spaced-earlier}
use reolinkproxy.Device.{Device, ensure, talk_retry_pause}
use reolinkproxy.Device.TalkRetry.{
  TalkSession, Turn, Attempt, give_up, started, reopen, write_with, break_off, Written,
  session_closed, written, write_block, close, TalkCall, writes, closes, tried, attempts,
}

abbrev pub begins : List Attempt → List ℕ
begins [] = []
begins (a ∷ later) = a.began ∷ begins later

abbrev pub asked_first : Option ℕ → List ℕ → List ℕ
asked_first none later = later
asked_first (some t) later = t ∷ later

-- The times at which StartTalk is called.
abbrev pub asks : List Attempt → List ℕ
asks [] = []
asks (a ∷ later) = asked_first a.asked (asks later)

-- The calls hold the session's lock one after the other, on a clock that does not go back.
abbrev pub InTurn : ℕ → List TalkCall → Type 0
InTurn from [] = Unit {0}
InTurn from (closes ∷ calls) = InTurn from calls
InTurn from (writes t ∷ calls) =
    (from ≤ t.now)
    × (t.now ≤ t.paused_at)
    × (t.paused_at ≤ t.ensured_at)
    × InTurn t.ensured_at calls

-- The first time is not before `one`, the second not before `two`, and each other `gap` or more
-- after the second last before it.
abbrev pub EverySecondSpaced : ℕ → ℕ → ℕ → List ℕ → Type 0
EverySecondSpaced gap one two [] = Unit {0}
EverySecondSpaced gap one two (t ∷ ts) = (one ≤ t) × EverySecondSpaced gap two (t + gap) ts

-- What a write does to `retry_at`.
abbrev Waits : Turn → TalkSession → Option Attempt × TalkSession × Device → Type 0
Waits t s (some a, s', m) =
    (a.began ≡ t.now)
    × ((a.asked ≡ none) ⊎ (a.asked ≡ some t.ensured_at))
    × (s.retry_at ≤ t.now)
    × (s'.retry_at ≡ t.paused_at + talk_retry_pause)
Waits t s (none, s', m) = s'.retry_at ≡ s.retry_at

reopen-Waits : (t : Turn) (s : TalkSession) (m : Device) → Waits t s (reopen t s m)
unfolding reopen started
reopen-Waits t s m = elim (Bool-cases (ltb t.now s.retry_at)) [
  | inl early ↦ rw early refl
  | inr over ↦ rw over (
    refl,
    started_or_not t (ensure t.restart.now t.restart.err t.restart.dial m),
    ground (arith, over),
    refl,
  )
]
  where
    started_or_not :
        (t : Turn) (e : Option ℕ × Option Bool × Device)
        → ((started t e).0 ≡ none) ⊎ ((started t e).0 ≡ some t.ensured_at)
    started_or_not t (none, uid_first, m) = inl refl
    started_or_not t (some client, uid_first, m) =
        elim (t.start_talk client)
          as (λ r.
            ((elim r as (λ x. Option ℕ × Option ℕ × Device) [
              | err e ↦ (some t.ensured_at, none, give_up e t.drop_err client m)
              | ok session ↦ (some t.ensured_at, some session, m)
            ]).0
              ≡ none)
            ⊎ ((elim r as (λ x. Option ℕ × Option ℕ × Device) [
              | err e ↦ (some t.ensured_at, none, give_up e t.drop_err client m)
              | ok session ↦ (some t.ensured_at, some session, m)
            ]).0
                ≡ some t.ensured_at)) [ err e ↦ inr refl | ok session ↦ inr refl ]

write_with-Waits :
    (session : Option ℕ) (t : Turn) (s : TalkSession) (m : Device)
    → Waits t s (write_with session t s m)
unfolding write_with
write_with-Waits none t s m = reopen-Waits t s m
write_with-Waits (some session) t s m = elim (Bool-cases (t.write_fails session)) [
  | inl fails ↦ rw fails (reopen-Waits t s (break_off t m))
  | inr done ↦ rw done refl
]

abbrev BlockWaits : Turn → TalkSession → Written → Type 0
BlockWaits t s session_closed = Unit {0}
BlockWaits t s (written out) = Waits t s out

write_block-Waits : (t : Turn) (s : TalkSession) (m : Device) → BlockWaits t s (write_block t s m)
unfolding write_block
write_block-Waits t s m =
    elim s.closed
      as (λ b.
        BlockWaits t s (if b then session_closed else written (write_with s.session t s m))) [
          | true ↦ tt
          | false ↦ write_with-Waits s.session t s m
        ]

-- What the attempts keep from a state: the pauses, and the requests of every second.
abbrev Paced : TalkSession → ℕ → ℕ → List Attempt → Type 0
Paced s one two later =
    Spaced talk_retry_pause s.retry_at (begins later)
    × EverySecondSpaced talk_retry_pause one two (asks later)

-- The bounds that hold at a state: the next request is not before its `retry_at`, nor the one after it
-- before the end of the last call and the pause.
abbrev Bounds : TalkSession → ℕ → ℕ → ℕ → Type 0
Bounds s from one two = (one ≤ s.retry_at) × (two ≤ from + talk_retry_pause)

tried-Paced :
    (t : Turn) (s : TalkSession) (m : Device) (w : Written)
    (later : TalkSession → Device → List Attempt) (from one two : ℕ)
    → BlockWaits t s w
    → Bounds s from one two
    → (from ≤ t.now) × (t.now ≤ t.paused_at) × (t.paused_at ≤ t.ensured_at)
    → ((s' : TalkSession) (m' : Device) (one' two' : ℕ)
        → Bounds s' t.ensured_at one' two'
        → Paced s' one' two' (later s' m'))
    → Paced s one two (tried s m w later)
unfolding tried
tried-Paced t s m session_closed later from one two w (b, c) (x, y, z) h =
    h s m one two (b, omega (arith, c, x, y, z))
tried-Paced t s m (written (none, s', m')) later from one two w (b, c) (x, y, z) h =
    let (p, q) = h s' m' one two (omega (arith, w, b), omega (arith, c, x, y, z)) in
    (Spaced-earlier _ _ _ _ (omega (arith, w)) p, q)
tried-Paced t s m (written (some a, s', m')) later from one two (began, asked, over, waits) (b, c)
      (x, y, z) h =
    elim asked [
      | inl e ↦
          let (p, q) =
            h s' m' one two (omega (arith, waits, b, over, y), omega (arith, c, x, y, z)) in
          (
            (omega (arith, began, over), Spaced-earlier _ _ _ _ (omega (arith, waits, began, y)) p),
            rw e q,
          )
      | inr e ↦
          let (p, q) =
            h s' m' two (t.ensured_at + talk_retry_pause)
              (omega (arith, waits, c, x, y), omega arith) in
          (
            (omega (arith, began, over), Spaced-earlier _ _ _ _ (omega (arith, waits, began, y)) p),
            rw e (omega (arith, b, over, y, z), q),
          )
    ]

attempts-Paced :
    (calls : List TalkCall) (s : TalkSession) (m : Device) (from one two : ℕ)
    → InTurn from calls
    → Bounds s from one two
    → Paced s one two (attempts s m calls)
unfolding attempts close
attempts-Paced [] s m from one two o b = (tt, tt)
attempts-Paced (closes ∷ calls) s m from one two o b =
    attempts-Paced calls (close s) m from one two o b
attempts-Paced (writes t ∷ calls) s m from one two (x, y, z, o) b =
    tried-Paced t s m (write_block t s m) (λ s' m'. attempts s' m' calls) from one two
      (write_block-Waits t s m) b (x, y, z)
      (λ s' m' one' two' b'. attempts-Paced calls s' m' t.ensured_at one' two' o b')

-- However the camera and the connection answer, for calls from `from` on that take the talk's lock one
-- after the other, on a clock that does not go back: the times at which a talk finds its pause over, and
-- sets out to dial and to ask for a session, are three seconds or more apart, the first not before
-- `retry_at`; and of the requests themselves, which wait for the dial, the first is not before
-- `retry_at`, the second three seconds or more after `from`, and each other three seconds or more after
-- the second last before it.
pub attempts-EverySecondSpaced :
    (calls : List TalkCall) (s : TalkSession) (m : Device) (from : ℕ)
    → InTurn from calls
    → Spaced talk_retry_pause s.retry_at (begins (attempts s m calls))
      × EverySecondSpaced talk_retry_pause s.retry_at
          (from + talk_retry_pause)
          (asks (attempts s m calls))
attempts-EverySecondSpaced calls s m from o =
    attempts-Paced calls s m from s.retry_at (from + talk_retry_pause) o (omega arith, omega arith)
