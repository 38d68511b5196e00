-- ===== src/TalkSession/Playout.antt =====
-- When a talk is stopped (pkg/baichuan/talk.go), against what the camera has still to play.
use reolinkproxy.Base.{
  ℕ, ◌+◌, ◌≤◌, ◌≡◌, refl, List, [], ◌∷◌, ◌++◌, true, false, Option, none, some, max, arith, length,
}
use reolinkproxy.TalkSession.Runs.{talk-keeps}
use reolinkproxy.TalkSession.{
  TalkSession, TalkConfig, Attempt, send_block, close, new_session, talk, talk_playout_margin,
}

-- How long blocks take that are played one behind the other.
abbrev pub ahead : ℕ → List Attempt → ℕ
ahead each [] = 0
ahead each (a ∷ sent) = each + ahead each sent

-- From when each block is sent, it and those behind it are played by `end`.
abbrev pub PlayedBy : ℕ → ℕ → List Attempt → Type 0
PlayedBy each end [] = Unit {0}
PlayedBy each end (a ∷ sent) = a.time + ahead each (a ∷ sent) ≤ end × PlayedBy each end sent

ahead-snoc :
    (each : ℕ) (sent : List Attempt) (a : Attempt)
    → ahead each (sent ++ a ∷ []) ≡ ahead each sent + each
ahead-snoc each [] a = omega arith
ahead-snoc each (x ∷ sent) a = omega (arith, ahead-snoc each sent a)

PlayedBy-snoc :
    (each end later : ℕ) (sent : List Attempt) (a : Attempt)
    → PlayedBy each end sent
    → end + each ≤ later
    → a.time + each ≤ later
    → PlayedBy each later (sent ++ a ∷ [])
PlayedBy-snoc each end later [] a p h k = (omega (arith, k), tt)
PlayedBy-snoc each end later (x ∷ sent) a (first, p) h k =
    (omega (arith, first, h, ahead-snoc each sent a), PlayedBy-snoc each end later sent a p h k)

-- The end that a session keeps is one by which every block of its is played.
IsCovering : ℕ → List Attempt → TalkSession → Type 0
IsCovering each sent s =
    s.block_duration ≡ each × s.stopped ≡ false × PlayedBy each s.playout_end sent

IsCovering-skip :
    (each : ℕ) (sent : List Attempt) (s : TalkSession) (seq : ℕ)
    → IsCovering each sent s
    → IsCovering each sent (record s { seq = seq })
unfolding IsCovering
IsCovering-skip each sent s seq h = h

IsCovering-send_block :
    (each : ℕ) (sent : List Attempt) (s : TalkSession) (a : Attempt)
    → length a.block ≡ s.bytes_per_block
    → IsCovering each sent s
    → IsCovering each (sent ++ a ∷ []) (send_block true a.time a.block s).1
unfolding IsCovering send_block
IsCovering-send_block each sent s a same (d, open_, p) =
    (d, open_, PlayedBy-snoc each s.playout_end _ sent a p (ground (arith, d)) (ground (arith, d)))

-- `Close` after any calls on a new session, with a context that does not end: the camera is told to
-- stop at a time that is not before the call, and not before each block that went out, and those sent
-- behind it, could be played from when it was sent, and the margin passed; and a second `Close`
-- tells it nothing more.
pub close-talk :
    (cfg : TalkConfig) (attempts : List Attempt) (now later : ℕ) (limit : Option ℕ)
    → let run = talk attempts (new_session cfg) in
      let stop = close now none run.1 in
      ((at end : ℕ) × stop.0 ≡ some at
        × now ≤ at
        × end + talk_playout_margin ≤ at
        × PlayedBy (TalkSession.block_duration (new_session cfg)) end run.0)
      × (close later limit stop.1).0 ≡ none
unfolding close IsCovering new_session
close-talk cfg attempts now later limit =
    let s = new_session cfg in
    let each = TalkSession.block_duration s in
    let run = talk attempts s in
    let (d, still, p) : IsCovering each run.0 run.1 =
      talk-keeps (IsCovering each) (IsCovering-skip each) (IsCovering-send_block each) attempts [] s
        (refl, refl, tt) in
    (
      (
        max now (run.1.playout_end + talk_playout_margin),
        run.1.playout_end,
        rw still refl,
        omega arith,
        omega arith,
        p,
      ),
      rw still refl,
    )
