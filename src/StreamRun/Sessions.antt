-- ===== src/StreamRun/Sessions.antt =====
-- What a stream's sessions carry (pkg/bridge/stream_run.go).
use reolinkproxy.Base.{
  ℕ, List, [], ◌∷◌, Bool, true, false, not, ◌||◌, ltb, Option, none, some, inl, inr, Bool-cases,
  ◌∙◌,
}
use reolinkproxy.Media.{VideoCodec, info_v1, info_v2, iframe, pframe, aac, adpcm}
use reolinkproxy.Timing.{Smoothing, behind}
use reolinkproxy.Rtsp.Audio.{Sending, Publisher, HintCodec}
use reolinkproxy.Codec.Adpcm.{decode}
use reolinkproxy.StreamRun.Format.{units_of}
use reolinkproxy.StreamRun.{
  Moment, Event, packet, ticks, Flow, goes_on, continues, after, publish, frame_with, frame,
  after_audio, timed, aac_of, adpcm_of, hear_aac, hear_adpcm, step, run, start, new_run,
}
use reolinkproxy.StreamRun.Whole.{Matches-IsWhole}
use reolinkproxy.StreamRun.Legal.{
  IsLegal, new_Held, Loop, HeldRun, then_do-Leads, Leads, held_if, AfterSession,
}
use reolinkproxy.StreamRun.Exposing.{
  change_codec-Leads, make_encoder-Leads, learned-Leads, session-Leads,
}

module _ (f : Smoothing) (parse : List ℕ → Option (ℕ × ℕ × ℕ)) (clock_rate : ℕ) where
  publish-Leads :
      (codec : VideoCodec) (keyframe : Bool) (m : Moment) (continuous_us camera_us : ℕ)
      (r : (Loop f parse clock_rate))
      → (AfterSession f parse clock_rate) codec r
      → (Leads f parse clock_rate)
          (HeldRun f parse clock_rate)
          (HeldRun f parse clock_rate)
          (publish f parse clock_rate codec keyframe m continuous_us camera_us r)
  unfolding publish
  publish-Leads codec keyframe m continuous_us camera_us r (h, c, up) =
      elim (Bool-cases (behind m.max_lag r.live camera_us keyframe m.now).0) [
        | inl drops ↦ rw drops h
        | inr shows ↦ rw shows (elim (Bool-cases (m.pause || not m.encodes)) [
          | inl quiet ↦ rw quiet h
          | inr goes ↦ rw goes (record {
            shown = h.shown;
            legal = (h.shown ∙ up, Matches-IsWhole codec r.format c h.kept (h.whole up), h.legal);
            kept = h.kept;
            whole = h.whole;
          })
        ])
      ]

  after_both :
      (m : Flow f parse clock_rate)
      → (Leads f parse clock_rate) (HeldRun f parse clock_rate) (HeldRun f parse clock_rate) m
      → (HeldRun f parse clock_rate) (after f parse clock_rate m)
  after_both (goes_on r) h = h
  after_both (continues r) h = h

  frame_with-Held :
      (codec : VideoCodec) (keyframe : Bool) (nalus : List (List ℕ)) (ts32 : ℕ) (m : Moment)
      (r : (Loop f parse clock_rate))
      → (HeldRun f parse clock_rate) r
      → (HeldRun f parse clock_rate) (frame_with f parse clock_rate codec keyframe nalus ts32 m r)
  unfolding frame_with
  frame_with-Held codec keyframe nalus ts32 m r h = after_both _ (
      (then_do-Leads f parse clock_rate) _ (HeldRun f parse clock_rate) _ _ _
        ((then_do-Leads f parse clock_rate) _ (HeldRun f parse clock_rate) _ _ _
          ((then_do-Leads f parse clock_rate) _ (HeldRun f parse clock_rate) _ _ _
            ((then_do-Leads f parse clock_rate) _ (HeldRun f parse clock_rate) _ _ _
              ((change_codec-Leads f parse clock_rate) codec keyframe _ h)
              ((make_encoder-Leads f parse clock_rate) codec m.creates))
            ((learned-Leads f parse clock_rate) codec nalus))
          ((session-Leads f parse clock_rate) codec m keyframe))
        (publish-Leads codec keyframe m _ _))

  frame-Held :
      (codec : VideoCodec) (keyframe : Bool) (payload : List ℕ) (ts32 : ℕ) (m : Moment)
      (r : (Loop f parse clock_rate))
      → (HeldRun f parse clock_rate) r
      → (HeldRun f parse clock_rate) (frame f parse clock_rate codec keyframe payload ts32 m r)
  unfolding frame
  frame-Held codec keyframe payload ts32 m r h =
      (held_if f parse clock_rate) _ _ r
        (frame_with-Held codec keyframe (units_of codec payload) ts32 m r h) h

  after_audio-Held :
      (pause : Bool) (out : Sending × Publisher) (r : (Loop f parse clock_rate))
      → (HeldRun f parse clock_rate) r
      → (HeldRun f parse clock_rate) (after_audio f parse clock_rate pause out r)
  unfolding after_audio
  after_audio-Held pause (sending, p) r h =
      elim (Bool-cases (ltb r.publisher.late_audio p.late_audio)) [
        | inl late ↦
            rw late (record { shown = h.shown; legal = h.legal; kept = h.kept; whole = h.whole })
        | inr usual ↦
            rw usual (record { shown = h.shown; legal = h.legal; kept = h.kept; whole = h.whole })
      ]

  hear_aac-Held :
      (payload : List ℕ) (m : Moment) (r : (Loop f parse clock_rate))
      → (HeldRun f parse clock_rate) r
      → (HeldRun f parse clock_rate) (hear_aac f parse clock_rate payload m r)
  unfolding hear_aac
  hear_aac-Held payload m r h =
      after_audio-Held m.pause (aac_of f parse clock_rate payload m r)
        (record r { timeline = (timed f parse clock_rate m r).1 }) h

  hear_adpcm-Held :
      (payload : List ℕ) (m : Moment) (r : (Loop f parse clock_rate))
      → (HeldRun f parse clock_rate) r
      → (HeldRun f parse clock_rate) (hear_adpcm f parse clock_rate payload m r)
  unfolding hear_adpcm
  hear_adpcm-Held payload m r h =
      after_audio-Held m.pause (adpcm_of f parse clock_rate payload m r)
        (record r {
          timeline = (timed f parse clock_rate m r).1;
          decoder = (decode r.decoder payload).1;
        })
        h

  step-Held :
      (r : (Loop f parse clock_rate)) (e : Event)
      → (HeldRun f parse clock_rate) r
      → (HeldRun f parse clock_rate) (step f parse clock_rate r e)
  unfolding step
  step-Held r (packet (info_v1 width height fps) m) h = h
  step-Held r (packet (info_v2 width height fps) m) h = h
  step-Held r (packet (iframe codec payload ts32 time) m) h =
      frame-Held codec true payload ts32 m r h
  step-Held r (packet (pframe codec payload ts32) m) h = frame-Held codec false payload ts32 m r h
  step-Held r (packet (aac payload) m) h = hear_aac-Held payload m r h
  step-Held r (packet (adpcm payload) m) h = hear_adpcm-Held payload m r h
  step-Held r (ticks pause) h = h

  run-Held :
      (r : (Loop f parse clock_rate)) (events : List Event)
      → (HeldRun f parse clock_rate) r
      → (HeldRun f parse clock_rate) (run f parse clock_rate r events)
  unfolding run
  run-Held r [] h = h
  run-Held r (e ∷ events) h = run-Held (step f parse clock_rate r e) events (step-Held r e h)

  start-Held :
      (seen : Option Bool) (known : Option (HintCodec × ℕ × ℕ)) (creates : Bool)
      → (HeldRun f parse clock_rate) (start f parse clock_rate seen known creates)
  unfolding start new_run
  start-Held seen none creates = new_Held
  start-Held seen (some (HintCodec.no_audio, rate, channels)) creates = new_Held
  start-Held seen (some (HintCodec.pcma, rate, channels)) creates = new_Held
  start-Held seen (some (HintCodec.aac, rate, channels)) creates =
      (held_if f parse clock_rate) _ _ _ new_Held new_Held

-- Whatever the camera sends, and whatever the encoders, `setReady`, the clock and the pauses do: a
-- stream opens a session only when it has none, and a frame goes out only while it has one, on a
-- format of the frame's codec that has all its parameter sets, none of them shorter than four bytes.
pub run-IsLegal :
    (f : Smoothing) (parse : List ℕ → Option (ℕ × ℕ × ℕ)) (clock_rate : ℕ) (seen : Option Bool)
    (known : Option (HintCodec × ℕ × ℕ)) (creates : Bool) (events : List Event)
    → IsLegal (run f parse clock_rate (start f parse clock_rate seen known creates) events).log
run-IsLegal f parse clock_rate seen known creates events =
    (run-Held f parse clock_rate _ events (start-Held f parse clock_rate seen known creates)).legal
