-- ===== src/StreamRun/Exposing.antt =====
-- The stages of a frame up to its session (pkg/bridge/stream_run.go).
use reolinkproxy.Base.{
  ℕ, ◌+◌, ◌≡◌, refl, List, ◌∷◌, Bool, true, false, not, ◌&&◌, if◌then◌else◌, Option, none, some,
  arith, inl, inr, Bool-cases, ◌∙◌,
}
use reolinkproxy.Media.{VideoCodec, h264, h265}
use reolinkproxy.Translator.{Nal}
use reolinkproxy.Timing.{Smoothing}
use reolinkproxy.Rtsp.Audio.{awaiting_startup_decision}
use reolinkproxy.StreamRun.Format.{VideoFormat, new_format, codec_matches_format}
use reolinkproxy.StreamRun.{
  gives_up, codec_change, silent_track, late_audio, Readied, all_ready, mirror_failed, refused,
  Moment, Flow, goes_on, continues, change_codec, make_encoder, learn_format, exposable, opened,
  expose, drop_track, rebuild_late, in_session, session, mismatches, is_none, set_once, before,
  passed,
}
use reolinkproxy.StreamRun.Whole.{AllKept, Matches, learn_format-Grows}
use reolinkproxy.StreamRun.Legal.{
  given_up, Loop, HeldRun, Leads-if, Leads, held_if, AfterCodec, AfterEncoder, AfterSession,
}

module _ (f : Smoothing) (parse : List ℕ → Option (ℕ × ℕ × ℕ)) (clock_rate : ℕ) where
  pub change_codec-Leads :
      (codec : VideoCodec) (keyframe : Bool) (r : (Loop f parse clock_rate))
      → (HeldRun f parse clock_rate) r
      → (Leads f parse clock_rate)
          ((AfterCodec f parse clock_rate) codec)
          (HeldRun f parse clock_rate)
          (change_codec f parse clock_rate codec keyframe r)
  unfolding change_codec
  change_codec-Leads codec keyframe r h =
      (Leads-if f parse clock_rate) ((AfterCodec f parse clock_rate) codec)
        (HeldRun f parse clock_rate) (mismatches codec r.format) _ _
        (λ e.
          (Leads-if f parse clock_rate) ((AfterCodec f parse clock_rate) codec)
            (HeldRun f parse clock_rate) keyframe _ _
            (λ k. (given_up codec_change none r.log h.legal tt, refl)) (λ k. h))
        (λ e. (h, e))

  pub matched :
      (codec : VideoCodec) (format : Option VideoFormat)
      → mismatches codec format ≡ false
      → is_none format ≡ false
      → Matches codec format
  matched codec none e n = cc n
  matched codec (some format) e n = ground (arith, e)

  pub none_hidden :
      (format : Option VideoFormat) → is_none format ≡ true → exposable format ≡ true → ⊥
  none_hidden none n e = cc e
  none_hidden (some format) n e = cc n

  pub new_matched :
      (codec : VideoCodec)
      → Matches codec (some (new_format codec)) × AllKept (some (new_format codec))
  unfolding codec_matches_format
  new_matched h264 = (refl, (inl refl, inl refl))
  new_matched h265 = (refl, (inl refl, inl refl, inl refl))

  pub make_encoder-Leads :
      (codec : VideoCodec) (creates : Bool) (r : (Loop f parse clock_rate))
      → (AfterCodec f parse clock_rate) codec r
      → (Leads f parse clock_rate)
          ((AfterEncoder f parse clock_rate) codec)
          (HeldRun f parse clock_rate)
          (make_encoder f parse clock_rate codec creates r)
  unfolding make_encoder
  make_encoder-Leads codec creates r (h, e) =
      (Leads-if f parse clock_rate) ((AfterEncoder f parse clock_rate) codec)
        (HeldRun f parse clock_rate) (is_none r.format) _ _
        (λ n.
          (Leads-if f parse clock_rate) ((AfterEncoder f parse clock_rate) codec)
            (HeldRun f parse clock_rate) creates _ _
            (λ k. (
              record {
                shown = h.shown;
                legal = h.legal;
                kept = (new_matched codec).1;
                whole = λ t. absurd (none_hidden r.format n (h.whole t));
              },
              (new_matched codec).0,
            ))
            (λ k. h))
        (λ n. (h, matched codec r.format e n))

  pub learned-Leads :
      (codec : VideoCodec) (nalus : List Nal) (r : (Loop f parse clock_rate))
      → (AfterEncoder f parse clock_rate) codec r
      → (Leads f parse clock_rate)
          ((AfterEncoder f parse clock_rate) codec)
          (HeldRun f parse clock_rate)
          (goes_on (record r { format = learn_format nalus r.format }))
  learned-Leads codec nalus r (h, m) =
      let g = learn_format-Grows codec nalus r.format in
      (
        record {
          shown = h.shown;
          legal = h.legal;
          kept = g.kept h.kept;
          whole = λ t. g.shown (h.whole t);
        },
        g.same m,
      )

  pub opened-Leads :
      (codec : VideoCodec) (m : Moment) (readied : Readied) (r : (Loop f parse clock_rate))
      → (AfterEncoder f parse clock_rate) codec r
      → r.ready ≡ false
      → exposable r.format ≡ true
      → (Leads f parse clock_rate)
          ((AfterSession f parse clock_rate) codec)
          (HeldRun f parse clock_rate)
          (opened f parse clock_rate m readied r)
  unfolding opened
  opened-Leads codec m refused r (h, c) n e = h
  opened-Leads codec m mirror_failed r (h, c) n e = record {
    shown = refl;
    legal = (h.shown ∙ n, h.legal);
    kept = h.kept;
    whole = λ t. e;
  }
  opened-Leads codec m all_ready r (h, c) n e = (
    record { shown = refl; legal = (h.shown ∙ n, h.legal); kept = h.kept; whole = λ t. e },
    c,
    refl,
  )

  pub expose-Leads :
      (codec : VideoCodec) (m : Moment) (r : (Loop f parse clock_rate))
      → (AfterEncoder f parse clock_rate) codec r
      → r.ready ≡ false
      → (Leads f parse clock_rate)
          ((AfterSession f parse clock_rate) codec)
          (HeldRun f parse clock_rate)
          (expose f parse clock_rate m r)
  unfolding expose
  expose-Leads codec m r (h, c) n = elim (Bool-cases (exposable r.format)) [
    | inr hidden ↦ rw hidden h
    | inl shows ↦
        let deadline = set_once r.startup_deadline (m.now + r.audio_window) in
        rw shows (
          (Leads-if f parse clock_rate) ((AfterSession f parse clock_rate) codec)
            (HeldRun f parse clock_rate)
            (awaiting_startup_decision (before deadline m.now) r.publisher)
            (continues (record r { startup_deadline = deadline }))
            (opened f parse clock_rate m m.readied (record r { startup_deadline = deadline }))
            (λ w. h)
            (λ w.
              opened-Leads codec m m.readied (record r { startup_deadline = deadline }) (h, c) n
                shows))
  ]

  pub rebuild_late-Leads :
      (codec : VideoCodec) (keyframe : Bool) (r : (Loop f parse clock_rate))
      → (AfterSession f parse clock_rate) codec r
      → (Leads f parse clock_rate)
          ((AfterSession f parse clock_rate) codec)
          (HeldRun f parse clock_rate)
          (rebuild_late f parse clock_rate keyframe r)
  unfolding rebuild_late
  rebuild_late-Leads codec keyframe r v =
      let rebuilt : (Loop f parse clock_rate) = record r {
        rebuild = false;
        ready = false;
        log = gives_up late_audio ∷ r.log;
      } in
      (Leads-if f parse clock_rate) ((AfterSession f parse clock_rate) codec)
        (HeldRun f parse clock_rate) r.rebuild (continues (if keyframe then rebuilt else r))
        (goes_on r)
        (λ b.
          (held_if f parse clock_rate) keyframe rebuilt r
            (given_up late_audio r.format r.log v.0.legal v.0.kept) v.0)
        (λ b. v)

  pub in_session-Leads :
      (codec : VideoCodec) (m : Moment) (keyframe : Bool) (r : (Loop f parse clock_rate))
      → (AfterSession f parse clock_rate) codec r
      → (Leads f parse clock_rate)
          ((AfterSession f parse clock_rate) codec)
          (HeldRun f parse clock_rate)
          (in_session f parse clock_rate m keyframe r)
  unfolding in_session drop_track
  in_session-Leads codec m keyframe r v =
      let P = (AfterSession f parse clock_rate) codec in
      let dropped = drop_track f parse clock_rate r in
      let unconfirmed =
        r.declared && (not r.publisher.published && passed r.confirm_deadline m.now) in
      let confirms = r.declared && (r.publisher.published && not (is_none r.confirm_deadline)) in
      let confirmed : Flow f parse clock_rate = goes_on (record r { confirm_deadline = none }) in
      let late = rebuild_late f parse clock_rate keyframe r in
      (Leads-if f parse clock_rate) P (HeldRun f parse clock_rate) unconfirmed
        (continues (if keyframe then dropped else r)) (if confirms then confirmed else late)
        (λ t.
          (held_if f parse clock_rate) keyframe dropped r
            (given_up silent_track r.format _ v.0.legal v.0.kept) v.0)
        (λ t.
          (Leads-if f parse clock_rate) P (HeldRun f parse clock_rate) confirms confirmed late
            (λ e. v) (λ e. rebuild_late-Leads codec keyframe r v))

  pub session-Leads :
      (codec : VideoCodec) (m : Moment) (keyframe : Bool) (r : (Loop f parse clock_rate))
      → (AfterEncoder f parse clock_rate) codec r
      → (Leads f parse clock_rate)
          ((AfterSession f parse clock_rate) codec)
          (HeldRun f parse clock_rate)
          (session f parse clock_rate m keyframe r)
  unfolding session
  session-Leads codec m keyframe r (h, c) =
      (Leads-if f parse clock_rate) ((AfterSession f parse clock_rate) codec)
        (HeldRun f parse clock_rate) r.ready (in_session f parse clock_rate m keyframe r)
        (expose f parse clock_rate m r) (λ up. in_session-Leads codec m keyframe r (h, c, up))
        (λ down. expose-Leads codec m r (h, c) down)
