-- ===== src/Device/TalkRetry.antt =====
-- `resilientTalkSession` of pkg/bridge/device.go: a talk session that is opened again after a failure.
pub mod Pacing
use reolinkproxy.Base.{
  ℕ, ◌+◌, List, [], ◌∷◌, Bool, true, false, Option, none, some, ltb, if◌then◌else◌, Result, ok, err,
}
use reolinkproxy.Device.{Device, ClientError, Login, ensure, reset_if_current, talk_retry_pause}

-- Why StartTalk failed: `talkRefused`, the camera answered with a status or has no talk, or not.
pub data TalkError : Type 0 where
  status unsupported other : TalkError

unfoldable pub talk_refused : TalkError → Bool
talk_refused status = true
talk_refused unsupported = true
talk_refused other = false

-- A session is known by a number of its own.
pub record TalkSession : Type 0 where
  pub session : Option ℕ
  pub closed : Bool
  pub retry_at : ℕ

-- What an `Ensure` meets: the time, the client's error, and what a dial gives.
pub record Link : Type 0 where
  pub now : ℕ
  pub err : Option ClientError
  pub dial : Bool → Option Login

-- What one WriteADPCMBlock meets: the times at which it compares with `retryAt`, at which it sets it, and
-- at which the `Ensure` after that is done, with whatever dial and login that takes; whether writing on
-- a session fails, the connection when the failed session is given up and when a new one is started, the
-- error that the client has when it is dropped, and what StartTalk says.
pub record Turn : Type 0 where
  pub now : ℕ
  pub paused_at : ℕ
  pub ensured_at : ℕ
  pub write_fails : ℕ → Bool
  pub broken : Link
  pub restart : Link
  pub drop_err : Option ClientError
  pub start_talk : ℕ → Result TalkError ℕ

-- A device operation after which StartTalk fails with `e`.
unfoldable pub give_up : TalkError → Option ClientError → ℕ → Device → Device
unfolding talk_refused reset_if_current
give_up e drop_err client m = if talk_refused e then m else reset_if_current drop_err client m

-- That a talk is to be opened: when that begins, and when StartTalk is called, if it is.
pub record Attempt : Type 0 where
  pub began : ℕ
  pub asked : Option ℕ

-- StartTalk on the client that `Ensure` gave, if it gave one: when it is called, and what it gives.
unfoldable pub started : Turn → Option ℕ × Option Bool × Device → Option ℕ × Option ℕ × Device
unfolding give_up
started t (none, uid_first, m) = (none, none, m)
started t (some client, uid_first, m) = elim (t.start_talk client) [
  | err e ↦ (some t.ensured_at, none, give_up e t.drop_err client m)
  | ok session ↦ (some t.ensured_at, some session, m)
]

-- The end of WriteADPCMBlock, without a session: its attempt, if it makes one.
unfoldable pub reopen : Turn → TalkSession → Device → Option Attempt × TalkSession × Device
unfolding started ensure
reopen t s m =
    let (asked, session, m') = started t (ensure t.restart.now t.restart.err t.restart.dial m) in
    if ltb t.now s.retry_at then (none, record s { session = none }, m) else (
      some (record { began = t.now; asked = asked }),
      record s { session = session; retry_at = t.paused_at + talk_retry_pause },
      m',
    )

-- A write on the session failed: the connection is dropped, if `Ensure` gives one.
unfoldable pub break_off : Turn → Device → Device
unfolding ensure reset_if_current
break_off t m =
    let (client, uid_first, m') = ensure t.broken.now t.broken.err t.broken.dial m in
    elim client [ none ↦ m' | some current ↦ reset_if_current t.drop_err current m' ]

-- WriteADPCMBlock on an open talk: its attempt, if it makes one, and the new states.
unfoldable pub write_with :
    Option ℕ → Turn → TalkSession → Device → Option Attempt × TalkSession × Device
unfolding reopen break_off
write_with none t s m = reopen t s m
write_with (some session) t s m =
    if t.write_fails session then reopen t s (break_off t m) else (none, s, m)

-- The error of a closed talk, or what it did.
pub data Written : Type 0 where
  session_closed : Written
  written : Option Attempt × TalkSession × Device → Written

unfoldable pub write_block : Turn → TalkSession → Device → Written
unfolding write_with
write_block t s m = if s.closed then session_closed else written (write_with s.session t s m)

unfoldable pub close : TalkSession → TalkSession
close s = record s { closed = true }

pub data TalkCall : Type 0 where
  writes : Turn → TalkCall
  closes : TalkCall

-- The attempt of a write, if it makes one, before what `later` gives for the states after it.
unfoldable pub tried :
    TalkSession → Device → Written → (TalkSession → Device → List Attempt) → List Attempt
tried s m session_closed later = later s m
tried s m (written (some a, s', m')) later = a ∷ later s' m'
tried s m (written (none, s', m')) later = later s' m'

-- The attempts of the calls on a talk.
unfoldable pub attempts : TalkSession → Device → List TalkCall → List Attempt
unfolding write_block close tried
attempts s m [] = []
attempts s m (closes ∷ calls) = attempts (close s) m calls
attempts s m (writes t ∷ calls) = tried s m (write_block t s m) (λ s' m'. attempts s' m' calls)
