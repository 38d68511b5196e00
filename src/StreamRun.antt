-- ===== src/StreamRun.antt =====
-- `runStream` of pkg/bridge/stream_run.go: the loop that turns the media packets of a camera into the
-- RTP packets of a stream.
pub mod Format
pub mod Whole
pub mod Legal
pub mod Exposing
pub mod Sessions
pub mod Walk
pub mod Rising
pub mod Rebuilds
use reolinkproxy.Base.{
  second, ℕ, ◌+◌, ◌*◌, ◌/◌, List, [], ◌∷◌, Bool, true, false, not, ◌&&◌, ◌||◌, ltb, if◌then◌else◌,
  length, Option, none, some,
}
use reolinkproxy.Base.Int.{pos}
use reolinkproxy.Codec.Adpcm.{State, decode}
use reolinkproxy.Media.{
  MediaPacket, info_v1, info_v2, iframe, pframe, aac, adpcm, VideoCodec, h264, h265,
}
use reolinkproxy.Timing.{
  Smoothing, Timeline, Guard, new_guard, next, video, audio, LiveEdge, behind,
  rtp_timestamp_for_clock,
}
use reolinkproxy.Rtsp.Audio.{
  Publisher, new_publisher, HintCodec, hint, awaiting_startup_decision, drop_declaration,
  declare_aac, is_ready, MediaTimestamp, Arrival, Sending, process_aac, process_adpcm,
}
use reolinkproxy.StreamRun.Format.{
  VideoFormat, new_format, codec_matches_format, units_of, learn, ready_to_expose,
}

abbrev pub audio_probe_window : ℕ
audio_probe_window = 5 * second

abbrev pub audio_silent_window : ℕ
audio_silent_window = 2 * second

abbrev pub audio_confirm_window : ℕ
audio_confirm_window = 20 * second

-- Why a session is given up.
pub data Reason : Type 0 where
  codec_change silent_track late_audio : Reason

-- What the loop does to the world: the session is opened (with an audio track or without) or given up,
-- the packets of a frame go out with a timestamp, on the format that the video media has then, audio
-- goes out, and what is reported on the audio (`setAudioKnown`, `onHint`).
pub data Output : Type 0 where
  opens : Bool → Output
  gives_up : Reason → Output
  writes_video : VideoCodec → Option VideoFormat → ℕ → Output
  sends_audio : Sending → Output
  audio_known : Bool → Output
  hints : HintCodec × ℕ × ℕ → Output

-- What `setReady` came to; where only a mirror fails, the stream itself has its session.
pub data Readied : Type 0 where
  all_ready mirror_failed refused : Readied

-- What the rest of the world says while a packet is handled: the time in nanoseconds, whether
-- `shouldPause`, the limit of `liveCatchUp`, whether an encoder can be made and encodes, the outcome of
-- `setReady`, and the timestamps of the packets that an audio encoder gives.
pub record Moment : Type 0 where
  pub now : ℕ
  pub pause : Bool
  pub max_lag : ℕ
  pub creates : Bool
  pub encodes : Bool
  pub readied : Readied
  pub stamps : Option (List ℕ)

pub data Event : Type 0 where
  packet : MediaPacket → Moment → Event
  ticks : Bool → Event

abbrev pub is_none : {A : Type 0} → Option A → Bool
is_none none = true
is_none (some a) = false

-- Whether the time has come, where there is one.
abbrev pub passed : Option ℕ → ℕ → Bool
passed none now = false
passed (some t) now = ltb t now

abbrev pub mismatches : VideoCodec → Option VideoFormat → Bool
mismatches codec none = false
mismatches codec (some format) = not (codec_matches_format codec format)

abbrev pub learn_format : List (List ℕ) → Option VideoFormat → Option VideoFormat
learn_format nalus none = none
learn_format nalus (some format) = some (learn nalus format)

abbrev pub exposable : Option VideoFormat → Bool
exposable none = false
exposable (some format) = ready_to_expose format

abbrev pub set_once : Option ℕ → ℕ → Option ℕ
set_once none t = some t
set_once (some old) t = some old

abbrev pub before : Option ℕ → ℕ → Bool
before none now = false
before (some t) now = ltb now t

-- The time to wait for audio, by what the device has seen.
abbrev pub window_for : Option Bool → ℕ
window_for none = audio_probe_window
window_for (some true) = audio_probe_window
window_for (some false) = audio_silent_window

-- `parse` is media.ParseAACAccessUnits: the rate, the channels and the number of the units. The clock
-- rate is that of gortsplib's video formats.
module _ (f : Smoothing) (parse : List ℕ → Option (ℕ × ℕ × ℕ)) (clock_rate : ℕ) where
  -- The variables of the loop, whether the handler is ready, and what it has done, the newest first.
  pub record Run : Type 0 where
    pub format : Option VideoFormat
    pub timeline : Timeline f
    pub video_guard : Guard
    pub last_video : Option ℕ
    pub live : LiveEdge
    pub publisher : Publisher
    pub decoder : State
    pub audio_window : ℕ
    pub rebuild : Bool
    pub declared : Bool
    pub startup_deadline : Option ℕ
    pub confirm_deadline : Option ℕ
    pub paused : Bool
    pub ready : Bool
    pub log : List Output

  abbrev pub new_timeline : Timeline f
  new_timeline = record {
    unwrapper = record { highest = 0; offset = 0; base_set = false };
    offset = pos 0;
    last_video = 0;
    avg_delta_us = f.initial;
    have_video = false;
  }

  -- The variables before the loop, with the window for audio.
  unfoldable pub new_run : ℕ → Publisher → Bool → Run
  new_run audio_window publisher declared = record {
    format = none;
    timeline = new_timeline;
    video_guard = new_guard;
    last_video = none;
    live = record {
      wall_anchor = 0;
      media_anchor = 0;
      anchored = false;
      catching_up = false;
      lag = pos 0;
      skipped = 0;
    };
    publisher = publisher;
    decoder = record { predicted = pos 0; index = 0 };
    audio_window = audio_window;
    rebuild = false;
    declared = declared;
    startup_deadline = none;
    confirm_deadline = none;
    paused = false;
    ready = false;
    log = [];
  }

  -- The start with what is known: whether the device has seen audio on this stream, the hint, and
  -- whether an encoder can be made for it.
  unfoldable pub start : Option Bool → Option (HintCodec × ℕ × ℕ) → Bool → Run
  unfolding new_run declare_aac
  start seen none creates = new_run (window_for seen) new_publisher false
  start seen (some (HintCodec.no_audio, rate, channels)) creates = new_run 0 new_publisher false
  start seen (some (HintCodec.pcma, rate, channels)) creates =
      new_run (window_for seen) new_publisher false
  start seen (some (HintCodec.aac, rate, channels)) creates =
      if ltb 0 rate && ltb 0 channels
      then new_run (window_for seen) (declare_aac rate channels creates new_publisher) creates
      else new_run (window_for seen) new_publisher false

  -- A stage of the loop's body goes on to the next, or the loop continues with the next packet.
  pub data Flow : Type 0 where
    goes_on continues : Run → Flow

  abbrev pub then_do : Flow → (Run → Flow) → Flow
  then_do (goes_on r) stage = stage r
  then_do (continues r) stage = continues r

  abbrev pub after : Flow → Run
  after (goes_on r) = r
  after (continues r) = r

  -- The camera may switch its codec; the session is given up at a keyframe.
  unfoldable pub change_codec : VideoCodec → Bool → Run → Flow
  unfolding codec_matches_format
  change_codec codec keyframe r =
      if mismatches codec r.format
      then (if keyframe
          then goes_on
              (record r { format = none; ready = false; log = gives_up codec_change ∷ r.log })
          else continues r)
      else goes_on r

  unfoldable pub make_encoder : VideoCodec → Bool → Run → Flow
  make_encoder codec creates r =
      if is_none r.format
      then (if creates
          then goes_on (record r { format = some (new_format codec) })
          else continues r)
      else goes_on r

  -- The session, once `setReady` has been called.
  unfoldable pub opened : Moment → Readied → Run → Flow
  opened m refused r = continues r
  opened m mirror_failed r =
      continues (record r { ready = true; log = opens r.publisher.media ∷ r.log })
  opened m all_ready r = goes_on (record r {
    ready = true;
    confirm_deadline =
        if r.declared
        then set_once r.confirm_deadline (m.now + audio_confirm_window)
        else r.confirm_deadline;
    log =
        hints (hint r.publisher)
        ∷ audio_known (is_ready r.publisher)
        ∷ opens r.publisher.media
        ∷ r.log;
  })

  -- The first case of the switch: the handler is not ready.
  unfoldable pub expose : Moment → Run → Flow
  unfolding opened awaiting_startup_decision
  expose m r =
      let deadline = set_once r.startup_deadline (m.now + r.audio_window) in
      let r' = record r { startup_deadline = deadline } in
      if not (exposable r.format)
      then continues r
      else if awaiting_startup_decision (before deadline m.now) r.publisher
      then continues r'
      else opened m m.readied r'

  -- The track carried over from the last run never got a packet.
  unfoldable pub drop_track : Run → Run
  unfolding drop_declaration
  drop_track r = record r {
    declared = false;
    confirm_deadline = none;
    publisher = drop_declaration r.publisher;
    ready = false;
    log = gives_up silent_track ∷ hints (HintCodec.no_audio, 0, 0) ∷ r.log;
  }

  -- Late audio asked for a new session.
  unfoldable pub rebuild_late : Bool → Run → Flow
  rebuild_late keyframe r =
      if r.rebuild
      then continues (
          if keyframe
          then record r { rebuild = false; ready = false; log = gives_up late_audio ∷ r.log }
          else r)
      else goes_on r

  -- The cases of the switch with a session.
  unfoldable pub in_session : Moment → Bool → Run → Flow
  unfolding drop_track rebuild_late
  in_session m keyframe r =
      if r.declared && (not r.publisher.published && passed r.confirm_deadline m.now)
      then continues (if keyframe then drop_track r else r)
      else if r.declared && (r.publisher.published && not (is_none r.confirm_deadline))
      then goes_on (record r { confirm_deadline = none })
      else rebuild_late keyframe r

  -- The switch on the session.
  unfoldable pub session : Moment → Bool → Run → Flow
  unfolding expose in_session
  session m keyframe r = if r.ready then in_session m keyframe r else expose m r

  -- The frame goes out, unless the stream pauses.
  unfoldable pub write_frame : VideoCodec → Moment → ℕ → Run → Run
  unfolding rtp_timestamp_for_clock
  write_frame codec m continuous_us r =
      let (ts, guard) = next r.video_guard (rtp_timestamp_for_clock continuous_us clock_rate) in
      if m.pause || not m.encodes
      then r
      else record r { video_guard = guard; log = writes_video codec r.format ts ∷ r.log }

  unfoldable pub publish : VideoCodec → Bool → Moment → ℕ → ℕ → Run → Flow
  unfolding write_frame
  publish codec keyframe m continuous_us camera_us r =
      let (drops, live) = behind m.max_lag r.live camera_us keyframe m.now in
      let r' = record r { paused = m.pause; live = live } in
      if drops then continues r' else goes_on (write_frame codec m continuous_us r')

  -- A frame that has units.
  unfoldable pub frame_with : VideoCodec → Bool → List (List ℕ) → ℕ → Moment → Run → Run
  unfolding change_codec make_encoder session publish
  frame_with codec keyframe nalus ts32 m r =
      let (continuous_us, camera_us, timeline) = video f (m.now / 1000) r.timeline ts32 in
      let r1 = record r { timeline = timeline; last_video = some continuous_us } in
      let learned = λ (q : Run). goes_on (record q { format = learn_format nalus q.format }) in
      after (
        then_do
          (then_do
            (then_do (then_do (change_codec codec keyframe r1) (make_encoder codec m.creates))
              learned)
            (session m keyframe))
          (publish codec keyframe m continuous_us camera_us))

  unfoldable pub frame : VideoCodec → Bool → List ℕ → ℕ → Moment → Run → Run
  unfolding frame_with units_of
  frame codec keyframe payload ts32 m r =
      let nalus = units_of codec payload in
      if ltb 0 (length nalus) then frame_with codec keyframe nalus ts32 m r else r

  -- `audioTimestampForPacket`: the time, and the timeline after it.
  unfoldable pub audio_timestamp_for_packet :
      ℕ → Option ℕ → Timeline f → Option ℕ → MediaTimestamp × Timeline f
  unfolding audio
  audio_timestamp_for_packet now (some ts32) timeline last_video =
      let (us, timeline') = audio f now timeline ts32 in
      (record { microseconds = us; valid = true; authoritative = true }, timeline')
  audio_timestamp_for_packet now none timeline (some us) =
      (record { microseconds = us; valid = true; authoritative = false }, timeline)
  audio_timestamp_for_packet now none timeline none =
      (record { microseconds = 0; valid = false; authoritative = false }, timeline)

  abbrev pub arrival : Moment → MediaTimestamp → Run → Arrival
  arrival m time r = record {
    time = time;
    stamps = m.stamps;
    creates = m.creates;
    handler_ready = r.ready;
    publish = not m.pause && not r.live.catching_up;
  }

  -- What an audio packet leaves: late audio asks for a rebuild, by the publisher's callback.
  unfoldable pub after_audio : Bool → Sending × Publisher → Run → Run
  after_audio pause (sending, p) r =
      let late = ltb r.publisher.late_audio p.late_audio in
      let log = sends_audio sending ∷ r.log in
      record r {
        paused = pause;
        publisher = p;
        rebuild = late || r.rebuild;
        log = if late then audio_known true ∷ log else log;
      }

  -- The media parser gives no timestamp with audio packets.
  abbrev pub timed : Moment → Run → MediaTimestamp × Timeline f
  timed m r = audio_timestamp_for_packet (m.now / 1000) none r.timeline r.last_video

  abbrev pub aac_of : List ℕ → Moment → Run → Sending × Publisher
  aac_of payload m r = process_aac (parse payload) (arrival m (timed m r).0 r) r.publisher

  unfoldable pub hear_aac : List ℕ → Moment → Run → Run
  unfolding audio_timestamp_for_packet after_audio process_aac
  hear_aac payload m r =
      after_audio m.pause (aac_of payload m r) (record r { timeline = (timed m r).1 })

  abbrev pub adpcm_of : List ℕ → Moment → Run → Sending × Publisher
  adpcm_of payload m r =
      process_adpcm (length (decode r.decoder payload).0) (arrival m (timed m r).0 r) r.publisher

  unfoldable pub hear_adpcm : List ℕ → Moment → Run → Run
  unfolding audio_timestamp_for_packet after_audio process_adpcm
  hear_adpcm payload m r =
      after_audio m.pause (adpcm_of payload m r)
        (record r { timeline = (timed m r).1; decoder = (decode r.decoder payload).1 })

  -- The body of the loop.
  unfoldable pub step : Run → Event → Run
  unfolding frame hear_aac hear_adpcm
  step r (packet (info_v1 width height fps) m) = r
  step r (packet (info_v2 width height fps) m) = r
  step r (packet (iframe codec payload ts32 time) m) = frame codec true payload ts32 m r
  step r (packet (pframe codec payload ts32) m) = frame codec false payload ts32 m r
  step r (packet (aac payload) m) = hear_aac payload m r
  step r (packet (adpcm payload) m) = hear_adpcm payload m r
  step r (ticks pause) = record r { paused = pause }

  unfoldable pub run : Run → List Event → Run
  unfolding step
  run r [] = r
  run r (e ∷ events) = run (step r e) events
