-- ===== src/StreamRun/Walk.antt =====
-- A rule for the loop of pkg/bridge/stream_run.go: what each change of the loop's variables keeps, the
-- loop keeps.
use reolinkproxy.Base.{
  ℕ, ◌+◌, ◌/◌, ◌≡◌, refl, List, [], ◌∷◌, Bool, true, false, not, ◌&&◌, ◌||◌, if◌then◌else◌, Option,
  none, some,
}
use reolinkproxy.Media.{VideoCodec, info_v1, info_v2, iframe, pframe, aac, adpcm}
use reolinkproxy.Timing.{
  Smoothing, Timeline, LiveEdge, next, video, behind, rtp_timestamp_for_clock,
}
use reolinkproxy.Rtsp.Audio.{hint, is_ready, awaiting_startup_decision}
use reolinkproxy.StreamRun.Format.{VideoFormat, new_format, units_of}
use reolinkproxy.StreamRun.{
  opens, gives_up, codec_change, late_audio, writes_video, audio_known, hints, Readied, all_ready,
  mirror_failed, refused, Moment, Event, packet, ticks, Run, Flow, goes_on, continues, then_do,
  after, change_codec, mismatches, is_none, make_encoder, learn_format, exposable, set_once, before,
  passed, opened, expose, drop_track, rebuild_late, in_session, session, write_frame, publish,
  frame_with, frame, hear_aac, hear_adpcm, step, run,
}

module _ (f : Smoothing) (parse : List ℕ → Option (ℕ × ℕ × ℕ)) (clock_rate : ℕ)
    (P : Run f parse clock_rate → Type 0) where
  pub record Keeps : Type 0 where
    pub timed :
        (r : Run f parse clock_rate) (t : Timeline f) (v : Option ℕ)
        → P r
        → P (record r { timeline = t; last_video = v })
    pub formatted :
        (r : Run f parse clock_rate) (g : Option VideoFormat) → P r → P (record r { format = g })
    pub changed :
        (r : Run f parse clock_rate)
        → P r
        → P (record r { format = none; ready = false; log = gives_up codec_change ∷ r.log })
    pub waited :
        (r : Run f parse clock_rate) (d : Option ℕ) → P r → P (record r { startup_deadline = d })
    pub part_opened :
        (r : Run f parse clock_rate)
        → P r
        → P (record r { ready = true; log = opens r.publisher.media ∷ r.log })
    pub all_opened :
        (r : Run f parse clock_rate) (c : Option ℕ)
        → P r
        → P (record r {
          ready = true;
          confirm_deadline = c;
          log =
              hints (hint r.publisher)
              ∷ audio_known (is_ready r.publisher)
              ∷ opens r.publisher.media
              ∷ r.log;
        })
    pub silenced :
        (r : Run f parse clock_rate) → r.declared ≡ true → P r → P (drop_track f parse clock_rate r)
    pub confirmed : (r : Run f parse clock_rate) → P r → P (record r { confirm_deadline = none })
    pub rebuilt :
        (r : Run f parse clock_rate)
        → r.rebuild ≡ true
        → P r
        → P (record r { rebuild = false; ready = false; log = gives_up late_audio ∷ r.log })
    pub measured :
        (r : Run f parse clock_rate) (b : Bool) (l : LiveEdge)
        → P r
        → P (record r { paused = b; live = l })
    pub written :
        (r : Run f parse clock_rate) (codec : VideoCodec) (us : ℕ)
        → P r
        → P (
            let (ts, guard) = next r.video_guard (rtp_timestamp_for_clock us clock_rate) in
            record r { video_guard = guard; log = writes_video codec r.format ts ∷ r.log })
    pub heard_aac :
        (r : Run f parse clock_rate) (payload : List ℕ) (m : Moment)
        → P r
        → P (hear_aac f parse clock_rate payload m r)
    pub heard_adpcm :
        (r : Run f parse clock_rate) (payload : List ℕ) (m : Moment)
        → P r
        → P (hear_adpcm f parse clock_rate payload m r)
    pub ticked : (r : Run f parse clock_rate) (b : Bool) → P r → P (record r { paused = b })

  abbrev Both : Flow f parse clock_rate → Type 0
  Both (goes_on r) = P r
  Both (continues r) = P r

  Both-if :
      (c : Bool) (x y : Flow f parse clock_rate)
      → (c ≡ true → Both x)
      → (c ≡ false → Both y)
      → Both (if c then x else y)
  Both-if true x y h k = h refl
  Both-if false x y h k = k refl

  kept_if : (c : Bool) (q r : Run f parse clock_rate) → P q → P r → P (if c then q else r)
  kept_if true q r h k = h
  kept_if false q r h k = k

  Both-then :
      (m : Flow f parse clock_rate) (stage : Run f parse clock_rate → Flow f parse clock_rate)
      → Both m
      → ((r : Run f parse clock_rate) → P r → Both (stage r))
      → Both (then_do f parse clock_rate m stage)
  Both-then (goes_on r) stage h k = k r h
  Both-then (continues r) stage h k = h

  after-kept : (m : Flow f parse clock_rate) → Both m → P (after f parse clock_rate m)
  after-kept (goes_on r) h = h
  after-kept (continues r) h = h

  module _ (keeps : Keeps) where
    change_codec-kept :
        (codec : VideoCodec) (keyframe : Bool) (r : Run f parse clock_rate)
        → P r
        → Both (change_codec f parse clock_rate codec keyframe r)
    unfolding change_codec
    change_codec-kept codec keyframe r h =
        let given_up : Flow f parse clock_rate =
          goes_on
            (record r { format = none; ready = false; log = gives_up codec_change ∷ r.log }) in
        Both-if (mismatches codec r.format) (if keyframe then given_up else continues r) (goes_on r)
          (λ e. Both-if keyframe given_up (continues r) (λ k. keeps.changed r h) (λ k. h)) (λ e. h)

    make_encoder-kept :
        (codec : VideoCodec) (creates : Bool) (r : Run f parse clock_rate)
        → P r
        → Both (make_encoder f parse clock_rate codec creates r)
    unfolding make_encoder
    make_encoder-kept codec creates r h =
        let made : Flow f parse clock_rate =
          goes_on (record r { format = some (new_format codec) }) in
        Both-if (is_none r.format) (if creates then made else continues r) (goes_on r)
          (λ e. Both-if creates made (continues r) (λ k. keeps.formatted r _ h) (λ k. h)) (λ e. h)

    opened-kept :
        (m : Moment) (readied : Readied) (r : Run f parse clock_rate)
        → P r
        → Both (opened f parse clock_rate m readied r)
    unfolding opened
    opened-kept m refused r h = h
    opened-kept m mirror_failed r h = keeps.part_opened r h
    opened-kept m all_ready r h = keeps.all_opened r _ h

    expose-kept :
        (m : Moment) (r : Run f parse clock_rate) → P r → Both (expose f parse clock_rate m r)
    unfolding expose
    expose-kept m r h =
        let deadline = set_once r.startup_deadline (m.now + r.audio_window) in
        let r' : Run f parse clock_rate = record r { startup_deadline = deadline } in
        let h' : P r' = keeps.waited r deadline h in
        let waits = awaiting_startup_decision (before deadline m.now) r.publisher in
        let readied = opened f parse clock_rate m m.readied r' in
        Both-if (not (exposable r.format)) (continues r) (if waits then continues r' else readied)
          (λ e. h)
          (λ e. Both-if waits (continues r') readied (λ w. h') (λ w. opened-kept m m.readied r' h'))

    rebuild_late-kept :
        (keyframe : Bool) (r : Run f parse clock_rate)
        → P r
        → Both (rebuild_late f parse clock_rate keyframe r)
    unfolding rebuild_late
    rebuild_late-kept keyframe r h =
        let given_up : Run f parse clock_rate = record r {
          rebuild = false;
          ready = false;
          log = gives_up late_audio ∷ r.log;
        } in
        Both-if r.rebuild (continues (if keyframe then given_up else r)) (goes_on r)
          (λ b. kept_if keyframe given_up r (keeps.rebuilt r b h) h) (λ b. h)

    and_left : (a b : Bool) → (a && b) ≡ true → a ≡ true
    and_left true b e = refl
    and_left false b e = cc e

    in_session-kept :
        (m : Moment) (keyframe : Bool) (r : Run f parse clock_rate)
        → P r
        → Both (in_session f parse clock_rate m keyframe r)
    unfolding in_session
    in_session-kept m keyframe r h =
        let dropped = drop_track f parse clock_rate r in
        let late = not r.publisher.published && passed r.confirm_deadline m.now in
        let confirms = r.declared && (r.publisher.published && not (is_none r.confirm_deadline)) in
        let confirmed : Flow f parse clock_rate = goes_on (record r { confirm_deadline = none }) in
        let rebuilds = rebuild_late f parse clock_rate keyframe r in
        Both-if (r.declared && late) (continues (if keyframe then dropped else r))
          (if confirms then confirmed else rebuilds)
          (λ t. kept_if keyframe dropped r (keeps.silenced r (and_left r.declared late t) h) h)
          (λ t.
            Both-if confirms confirmed rebuilds (λ e. keeps.confirmed r h)
              (λ e. rebuild_late-kept keyframe r h))

    session-kept :
        (m : Moment) (keyframe : Bool) (r : Run f parse clock_rate)
        → P r
        → Both (session f parse clock_rate m keyframe r)
    unfolding session
    session-kept m keyframe r h =
        Both-if r.ready (in_session f parse clock_rate m keyframe r) (expose f parse clock_rate m r)
          (λ e. in_session-kept m keyframe r h) (λ e. expose-kept m r h)

    publish-kept :
        (codec : VideoCodec) (keyframe : Bool) (m : Moment) (us camera_us : ℕ)
        (r : Run f parse clock_rate)
        → P r
        → Both (publish f parse clock_rate codec keyframe m us camera_us r)
    unfolding publish
    publish-kept codec keyframe m us camera_us r h =
        let (drops, live) = behind m.max_lag r.live camera_us keyframe m.now in
        let r' : Run f parse clock_rate = record r { paused = m.pause; live = live } in
        let h' : P r' = keeps.measured r m.pause live h in
        Both-if drops (continues r') (goes_on (write_frame f parse clock_rate codec m us r'))
          (λ e. h') (λ e. kept_if (m.pause || not m.encodes) r' _ h' (keeps.written r' codec us h'))

    frame_with-kept :
        (codec : VideoCodec) (keyframe : Bool) (nalus : List (List ℕ)) (ts32 : ℕ) (m : Moment)
        (r : Run f parse clock_rate)
        → P r
        → P (frame_with f parse clock_rate codec keyframe nalus ts32 m r)
    unfolding frame_with
    frame_with-kept codec keyframe nalus ts32 m r h =
        let (us, camera_us, timeline) = video f (m.now / 1000) r.timeline ts32 in
        after-kept _ (
          Both-then _ _
            (Both-then _ _
              (Both-then _ _
                (Both-then _ _
                  (change_codec-kept codec keyframe _ (keeps.timed r timeline (some us) h))
                  (make_encoder-kept codec m.creates))
                (λ q. keeps.formatted q (learn_format nalus q.format)))
              (session-kept m keyframe))
            (publish-kept codec keyframe m us camera_us))

    frame-kept :
        (codec : VideoCodec) (keyframe : Bool) (payload : List ℕ) (ts32 : ℕ) (m : Moment)
        (r : Run f parse clock_rate)
        → P r
        → P (frame f parse clock_rate codec keyframe payload ts32 m r)
    unfolding frame
    frame-kept codec keyframe payload ts32 m r h =
        kept_if _ _ r (frame_with-kept codec keyframe (units_of codec payload) ts32 m r h) h

    step-kept : (r : Run f parse clock_rate) (e : Event) → P r → P (step f parse clock_rate r e)
    unfolding step
    step-kept r (packet (info_v1 width height fps) m) h = h
    step-kept r (packet (info_v2 width height fps) m) h = h
    step-kept r (packet (iframe codec payload ts32 time) m) h =
        frame-kept codec true payload ts32 m r h
    step-kept r (packet (pframe codec payload ts32) m) h = frame-kept codec false payload ts32 m r h
    step-kept r (packet (aac payload) m) h = keeps.heard_aac r payload m h
    step-kept r (packet (adpcm payload) m) h = keeps.heard_adpcm r payload m h
    step-kept r (ticks pause) h = keeps.ticked r pause h

    pub run-kept :
        (r : Run f parse clock_rate) (events : List Event)
        → P r
        → P (run f parse clock_rate r events)
    unfolding run
    run-kept r [] h = h
    run-kept r (e ∷ events) h = run-kept (step f parse clock_rate r e) events (step-kept r e h)
