-- ===== src/StreamRun/Legal.antt =====
-- What a stream does with its sessions is legal, and what holds after each stage of a frame
-- (pkg/bridge/stream_run.go).
use reolinkproxy.Base.{ℕ, ◌≡◌, refl, List, [], ◌∷◌, Bool, true, false, if◌then◌else◌, Option, none}
use reolinkproxy.Media.{VideoCodec}
use reolinkproxy.Timing.{Smoothing}
use reolinkproxy.StreamRun.Format.{VideoFormat}
use reolinkproxy.StreamRun.{
  Reason, Output, opens, gives_up, writes_video, sends_audio, audio_known, hints, Run, Flow,
  goes_on, continues, then_do, exposable, mismatches,
}
use reolinkproxy.StreamRun.Whole.{IsWhole, AllKept, Matches}

-- Whether the stream has a session, by what was done, the newest first.
abbrev pub is_open : List Output → Bool
is_open [] = false
is_open (opens audio ∷ log) = true
is_open (gives_up why ∷ log) = false
is_open (writes_video codec format ts ∷ log) = is_open log
is_open (sends_audio sending ∷ log) = is_open log
is_open (audio_known seen ∷ log) = is_open log
is_open (hints h ∷ log) = is_open log

-- A session is opened where there is none, and a frame goes out in a session only, on a whole format
-- of its codec.
abbrev pub IsLegal : List Output → Type 0
IsLegal [] = Unit {0}
IsLegal (opens audio ∷ log) = (is_open log ≡ false) × IsLegal log
IsLegal (gives_up why ∷ log) = IsLegal log
IsLegal (writes_video codec format ts ∷ log) =
    (is_open log ≡ true) × IsWhole codec format × IsLegal log
IsLegal (sends_audio sending ∷ log) = IsLegal log
IsLegal (audio_known seen ∷ log) = IsLegal log
IsLegal (hints h ∷ log) = IsLegal log

-- Of the state: it is known whether there is a session; what was done is legal; no parameter set that
-- is kept is short; and a session has a format that can be exposed.
pub record Held (ready : Bool) (format : Option VideoFormat) (log : List Output) : Type 0 where
  pub shown : is_open log ≡ ready
  pub legal : IsLegal log
  pub kept : AllKept format
  pub whole : ready ≡ true → exposable format ≡ true

pub new_Held : Held false none []
new_Held = record { shown = refl; legal = tt; kept = tt; whole = λ t. cc t }

pub given_up :
    (why : Reason) (format : Option VideoFormat) (log : List Output)
    → IsLegal log
    → AllKept format
    → Held false format (gives_up why ∷ log)
given_up why format log l k = record { shown = refl; legal = l; kept = k; whole = λ e. cc e }

module _ (f : Smoothing) (parse : List ℕ → Option (ℕ × ℕ × ℕ)) (clock_rate : ℕ) where
  abbrev pub Loop : Type 0
  Loop = Run f parse clock_rate

  abbrev pub HeldRun : Loop → Type 0
  HeldRun r = Held r.ready r.format r.log

  abbrev pub Leads : (Loop → Type 0) → (Loop → Type 0) → Flow f parse clock_rate → Type 0
  Leads P Q (goes_on r) = P r
  Leads P Q (continues r) = Q r

  pub Leads-if :
      (P Q : Loop → Type 0) (c : Bool) (x y : Flow f parse clock_rate)
      → (c ≡ true → Leads P Q x)
      → (c ≡ false → Leads P Q y)
      → Leads P Q (if c then x else y)
  Leads-if P Q true x y h k = h refl
  Leads-if P Q false x y h k = k refl

  pub then_do-Leads :
      (P Q R : Loop → Type 0) (m : Flow f parse clock_rate) (stage : Loop → Flow f parse clock_rate)
      → Leads P Q m
      → ((r : Loop) → P r → Leads R Q (stage r))
      → Leads R Q (then_do f parse clock_rate m stage)
  then_do-Leads P Q R (goes_on r) stage h k = k r h
  then_do-Leads P Q R (continues r) stage h k = h

  -- What holds after each stage of a frame.
  abbrev pub AfterCodec : VideoCodec → Loop → Type 0
  AfterCodec codec r = HeldRun r × (mismatches codec r.format ≡ false)

  abbrev pub AfterEncoder : VideoCodec → Loop → Type 0
  AfterEncoder codec r = HeldRun r × Matches codec r.format

  abbrev pub AfterSession : VideoCodec → Loop → Type 0
  AfterSession codec r = HeldRun r × Matches codec r.format × (r.ready ≡ true)

  pub held_if : (c : Bool) (q r : Loop) → HeldRun q → HeldRun r → HeldRun (if c then q else r)
  held_if true q r h k = h
  held_if false q r h k = k
