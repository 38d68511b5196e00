-- ===== src/Examples/Loop.antt =====
-- Examples on the loop of a stream and on the reader of a preview.
use reolinkproxy.Base.{ℕ, ◌≡◌, ◌≤◌, refl, List, [], ◌∷◌, true, false, Option, none, some, ◌==◌}
use reolinkproxy.Base.Int.{pos}
use reolinkproxy.Base.Bytes.{word16, word32}
use reolinkproxy.Timing.{Smoothing, behind}
use reolinkproxy.Translator.{
  reorder_h264_nals_for_access_unit, split_annex_b, h264_is_slice_nal, h264_nal_unit_type,
  extract_h264_params,
}
use reolinkproxy.StreamRun.Format.{learn, ready_to_expose}
use reolinkproxy.Media.{
  h264, iframe, pframe, aac, adpcm, append, append_loop, parse_media_packet, parse_adpcm, pad_len,
}
use reolinkproxy.Rtsp.Audio.{HintCodec}
use reolinkproxy.StreamRun.{
  Event, packet, Moment, all_ready, run, start, Output, opens, gives_up, writes_video, sends_audio,
  audio_known, hints, late_audio, silent_track, Run,
}
use reolinkproxy.StreamRun.Legal.{IsLegal}
use reolinkproxy.StreamRun.Sessions.{run-IsLegal}
use reolinkproxy.StreamRun.Rising.{AllLater, frame_stamps, run-AllLater}
use reolinkproxy.StreamRun.Rebuilds.{times_for, run-times_for}
use reolinkproxy.Message.{Message}
use reolinkproxy.Client.Preview.{
  Reader, Preview, PreviewEvent, arrives, reads, preview_run, new_preview,
}

abbrev plain : Smoothing
plain = record {
  Average = ℕ;
  initial = 0;
  is_zero = λ avg. avg == 0;
  of_delta = λ delta. delta;
  blend = λ avg delta. avg;
  truncate = λ avg. pos avg;
}

abbrev one_unit : List ℕ → Option (ℕ × ℕ × ℕ)
one_unit payload = some (16_000, 1, 1)

abbrev moment : ℕ → Moment
moment now = record {
  now = now;
  pause = false;
  max_lag = 0;
  creates = true;
  encodes = true;
  readied = all_ready;
  stamps = some [];
}

-- The parameter sets and a slice of a keyframe.
abbrev keyframe : List ℕ
keyframe =
    0 ∷ 0 ∷ 0 ∷ 1 ∷ 103 ∷ 66 ∷ 0 ∷ 30 ∷ 0 ∷ 0 ∷ 0 ∷ 1 ∷ 104 ∷ 206 ∷ 60 ∷ 128 ∷ 0 ∷ 0 ∷ 0 ∷ 1 ∷ 101
    ∷ 136 ∷ 132 ∷ 1 ∷ []

-- A frame that refers to the keyframe.
abbrev follower : List ℕ
follower = 0 ∷ 0 ∷ 0 ∷ 1 ∷ 65 ∷ 154 ∷ 1 ∷ 2 ∷ []

-- A profile without audio as far as is known: the session opens with the first keyframe; then audio
-- comes, so the session is given up at the next keyframe, which does not go out, and the frame behind it
-- opens the new one.
abbrev watching : List Event
watching =
    packet (iframe h264 keyframe 40_000 none) (moment 1_000_000_000)
    ∷ packet (pframe h264 follower 80_000) (moment 1_040_000_000)
    ∷ packet (aac (1 ∷ [])) (moment 1_050_000_000)
    ∷ packet (iframe h264 keyframe 120_000 none) (moment 1_080_000_000)
    ∷ packet (pframe h264 follower 160_000) (moment 1_120_000_000)
    ∷ []

abbrev silent : Option (HintCodec × ℕ × ℕ)
silent = some (HintCodec.no_audio, 0, 0)

-- What the loop did, by kind.
abbrev tags : List Output → List ℕ
tags [] = []
tags (o ∷ os) =
    elim o [
      | opens b ↦ 1
      | gives_up r ↦ 2
      | writes_video c f t ↦ 3
      | sends_audio x ↦ 4
      | audio_known b ↦ 5
      | hints h ↦ 6
    ]
    ∷ tags os

-- The new session is opened, and its first frame sent, by the frame that refers to the lost keyframe.
watched :
    tags
      (Run.log (run plain one_unit 90_000 (start plain one_unit 90_000 none silent true) watching))
    ≡ 3 ∷ 6 ∷ 5 ∷ 1 ∷ 2 ∷ 5 ∷ 4 ∷ 3 ∷ 3 ∷ 6 ∷ 5 ∷ 1 ∷ []
unfolding run start reorder_h264_nals_for_access_unit split_annex_b h264_is_slice_nal
    h264_nal_unit_type ready_to_expose learn extract_h264_params behind
watched = refl

run-IsLegal_example :
    IsLegal
      (Run.log (run plain one_unit 90_000 (start plain one_unit 90_000 none silent true) watching))
run-IsLegal_example = run-IsLegal plain one_unit 90_000 none silent true watching

run-AllLater_example : AllLater (
    frame_stamps
      (Run.log (run plain one_unit 90_000 (start plain one_unit 90_000 none silent true) watching)))
run-AllLater_example = run-AllLater plain one_unit 90_000 none silent true watching

run-times_for_example :
    let log =
      Run.log (run plain one_unit 90_000 (start plain one_unit 90_000 none silent true) watching) in
    (times_for late_audio log ≤ 1) × (times_for silent_track log ≤ 1)
run-times_for_example = run-times_for plain one_unit 90_000 none silent true watching

-- A message of a preview with an ADPCM packet in it.
abbrev part : List ℕ → Message
part bytes = record {
  header = record {
    msg_id = 3;
    body_len = 0;
    channel_id = 0;
    stream_type = 1;
    msg_num = 0;
    response_code = 200;
    class = 0x6414;
    payload_offset = 0;
  };
  extension = [];
  payload = bytes;
  xml = [];
  binary = true;
  extension_meta = none;
}

abbrev halves : List PreviewEvent
halves =
    arrives (part (48 ∷ 49 ∷ 119 ∷ 98 ∷ 8 ∷ 0 ∷ 8 ∷ 0 ∷ 0 ∷ 1 ∷ []))
    ∷ reads
    ∷ arrives (part (2 ∷ 0 ∷ 7 ∷ 7 ∷ 7 ∷ 7 ∷ []))
    ∷ reads
    ∷ []

-- The packet is handed on once its second half is read.
two_halves :
    Reader.packets (Preview.reader (preview_run 1 (new_preview 3) halves))
    ≡ adpcm (7 ∷ 7 ∷ 7 ∷ 7 ∷ []) ∷ []
unfolding preview_run append append_loop parse_media_packet parse_adpcm word32 word16 pad_len
two_halves = refl
