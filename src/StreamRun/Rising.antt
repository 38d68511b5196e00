-- ===== src/StreamRun/Rising.antt =====
-- The timestamps of the frames that a stream sends (pkg/bridge/stream_run.go).
use reolinkproxy.Base.{
  ℕ, ◌≡◌, refl, List, [], ◌∷◌, Bool, true, false, Option, none, some, arith, Bool-cases, inl, inr,
  ltb, subst, ◌∙◌, ◌&&◌,
}
use reolinkproxy.Base.Bytes.{IsU32}
use reolinkproxy.Timing.{
  Smoothing, Guard, next, next_set, rtp_timestamp_after, rtp_timestamp_for_clock,
}
use reolinkproxy.Timing.Serial.{next_set_after, next_when_set}
use reolinkproxy.Codec.Adpcm.{decode}
use reolinkproxy.Rtsp.Audio.{HintCodec, Sending, Publisher}
use reolinkproxy.StreamRun.{
  Output, opens, gives_up, writes_video, sends_audio, audio_known, hints, Event, Run, after_audio,
  drop_track, timed, aac_of, adpcm_of, hear_aac, hear_adpcm, run, start, new_run,
}
use reolinkproxy.StreamRun.Walk.{Keeps, run-kept}

-- The timestamps of the frames, the newest first.
abbrev pub frame_stamps : List Output → List ℕ
frame_stamps [] = []
frame_stamps (opens audio ∷ log) = frame_stamps log
frame_stamps (gives_up why ∷ log) = frame_stamps log
frame_stamps (writes_video codec format ts ∷ log) = ts ∷ frame_stamps log
frame_stamps (sends_audio sending ∷ log) = frame_stamps log
frame_stamps (audio_known seen ∷ log) = frame_stamps log
frame_stamps (hints h ∷ log) = frame_stamps log

-- Each comes after the next of the list.
abbrev pub AllLater : List ℕ → Type 0
AllLater [] = Unit {0}
AllLater (ts ∷ []) = Unit {0}
AllLater (ts ∷ before ∷ stamps) =
    (rtp_timestamp_after ts before ≡ true) × AllLater (before ∷ stamps)

-- The guard holds the newest.
abbrev Newest : Guard → List ℕ → Type 0
Newest g [] = g.set ≡ false
Newest g (ts ∷ stamps) = (g.set ≡ true) × (g.last ≡ ts) × IsU32 ts × AllLater (ts ∷ stamps)

clock-IsU32 : (us rate : ℕ) → IsU32 (rtp_timestamp_for_clock us rate)
unfolding rtp_timestamp_for_clock
clock-IsU32 us rate = omega arith

next_unset :
    (g : Guard) (ts : ℕ) → g.set ≡ false → next g ts ≡ (ts, record g { last = ts; set = true })
unfolding next
next_unset g ts e = rw e refl

next-Newest :
    (g : Guard) (raw : ℕ) (stamps : List ℕ)
    → IsU32 raw
    → Newest g stamps
    → let (ts, g') = next g raw in Newest g' (ts ∷ stamps)
next-Newest g raw [] range h = rw (next_unset g raw h) (refl, refl, range, tt)
next-Newest g raw (ts ∷ stamps) range (set, last, u, later) =
    let (after, same, kept, fits) = next_set_after g raw (rw last u) range in
    rw (next_when_set g raw set) (
      kept ∙ set,
      same,
      fits,
      (subst (λ k. rtp_timestamp_after (next_set g raw).0 k ≡ true) last after, later),
    )

module _ (f : Smoothing) (parse : List ℕ → Option (ℕ × ℕ × ℕ)) (clock_rate : ℕ) where
  abbrev IsNewest : Run f parse clock_rate → Type 0
  IsNewest r = Newest r.video_guard (frame_stamps r.log)

  after_audio-IsNewest :
      (pause : Bool) (out : Sending × Publisher) (r : Run f parse clock_rate)
      → IsNewest r
      → IsNewest (after_audio f parse clock_rate pause out r)
  unfolding after_audio
  after_audio-IsNewest pause (sending, p) r h =
      elim (Bool-cases (ltb r.publisher.late_audio p.late_audio)) [
        | inl late ↦ rw late h
        | inr usual ↦ rw usual h
      ]

  IsNewest-Keeps : Keeps f parse clock_rate IsNewest
  unfolding hear_aac hear_adpcm drop_track
  IsNewest-Keeps = record {
    timed = λ r t v h. h;
    formatted = λ r g h. h;
    changed = λ r h. h;
    waited = λ r d h. h;
    part_opened = λ r h. h;
    all_opened = λ r c h. h;
    silenced = λ r e h. h;
    confirmed = λ r h. h;
    rebuilt = λ r e h. h;
    measured = λ r b l h. h;
    written = λ r codec us h.
        next-Newest r.video_guard (rtp_timestamp_for_clock us clock_rate) (frame_stamps r.log)
          (clock-IsU32 us clock_rate) h;
    heard_aac = λ r payload m h.
        after_audio-IsNewest m.pause (aac_of f parse clock_rate payload m r)
          (record r { timeline = (timed f parse clock_rate m r).1 }) h;
    heard_adpcm = λ r payload m h.
        after_audio-IsNewest m.pause (adpcm_of f parse clock_rate payload m r)
          (record r {
            timeline = (timed f parse clock_rate m r).1;
            decoder = (decode r.decoder payload).1;
          })
          h;
    ticked = λ r b h. h;
  }

  AllLater-of : (g : Guard) (stamps : List ℕ) → Newest g stamps → AllLater stamps
  AllLater-of g [] h = tt
  AllLater-of g (ts ∷ stamps) h = h.3

  start-IsNewest :
      (seen : Option Bool) (known : Option (HintCodec × ℕ × ℕ)) (creates : Bool)
      → IsNewest (start f parse clock_rate seen known creates)
  unfolding start new_run
  start-IsNewest seen none creates = refl
  start-IsNewest seen (some (HintCodec.no_audio, rate, channels)) creates = refl
  start-IsNewest seen (some (HintCodec.pcma, rate, channels)) creates = refl
  start-IsNewest seen (some (HintCodec.aac, rate, channels)) creates =
      elim (Bool-cases (ltb 0 rate && ltb 0 channels)) [ inl e ↦ rw e refl | inr e ↦ rw e refl ]

-- Whatever the camera's clock does, also where sessions are given up and opened again: each frame that
-- a stream sends has a timestamp after that of the frame before it, in the serial order of 32 bits.
pub run-AllLater :
    (f : Smoothing) (parse : List ℕ → Option (ℕ × ℕ × ℕ)) (clock_rate : ℕ) (seen : Option Bool)
    (known : Option (HintCodec × ℕ × ℕ)) (creates : Bool) (events : List Event)
    → AllLater (
        frame_stamps
          (run f parse clock_rate (start f parse clock_rate seen known creates) events).log)
run-AllLater f parse clock_rate seen known creates events =
    let r = run f parse clock_rate (start f parse clock_rate seen known creates) events in
    AllLater-of f parse clock_rate r.video_guard (frame_stamps r.log) (
      run-kept f parse clock_rate (IsNewest f parse clock_rate) (IsNewest-Keeps f parse clock_rate)
        (start f parse clock_rate seen known creates) events
        (start-IsNewest f parse clock_rate seen known creates))
