-- ===== src/Media/Stable.antt =====
-- More bytes do not change what `parseMediaPacket` found: it looks only at the packet in front.
use reolinkproxy.Base.{
  ℕ, ◌+◌, ◌-◌, ◌≤◌, ◌≡◌, ◌≢◌, List, ◌++◌, Bool, true, false, arith, length, length-append,
  length-drop, take, drop, take-append, drop-append, get_or-append,
}
use reolinkproxy.Base.Bytes.{uint16_at, uint32_at}
use reolinkproxy.Media.{
  incomplete, VideoCodec, h264, h265, codec_of, frame_of, parse_video_frame, parse_info, parse_aac,
  parse_adpcm, parse_media_packet,
}

uint32_at-append :
    (i : ℕ) (buf more : List ℕ) → i + 4 ≤ length buf → uint32_at i (buf ++ more) ≡ uint32_at i buf
uint32_at-append i buf more h =
    let room : 4 ≤ length (drop i buf) = omega (arith, length-drop i buf) in
    rw (
      drop-append i buf more (omega arith),
      get_or-append 0 (drop i buf) more 0 (omega arith),
      get_or-append 1 (drop i buf) more 0 (omega arith),
      get_or-append 2 (drop i buf) more 0 (omega arith),
      get_or-append 3 (drop i buf) more 0 (omega arith),
    )

uint16_at-append :
    (i : ℕ) (buf more : List ℕ) → i + 2 ≤ length buf → uint16_at i (buf ++ more) ≡ uint16_at i buf
uint16_at-append i buf more h =
    let room : 2 ≤ length (drop i buf) = omega (arith, length-drop i buf) in
    rw (
      drop-append i buf more (omega arith),
      get_or-append 0 (drop i buf) more 0 (omega arith),
      get_or-append 1 (drop i buf) more 0 (omega arith),
    )

slice-append :
    (from n : ℕ) (buf more : List ℕ)
    → from + n ≤ length buf
    → take n (drop from (buf ++ more)) ≡ take n (drop from buf)
slice-append from n buf more h =
    rw (drop-append from buf more (omega arith))
      (take-append n (drop from buf) more (omega (arith, length-drop from buf)))

parse_info_stable :
    (buf more : List ℕ) (magic : ℕ)
    → parse_info buf magic ≢ incomplete
    → parse_info (buf ++ more) magic ≡ parse_info buf magic
unfolding parse_info
parse_info_stable buf more magic h = ground (
  arith,
  uint32_at-append 4 buf more,
  uint32_at-append 8 buf more,
  uint32_at-append 12 buf more,
  get_or-append 17 buf more 0,
  length-append buf more,
)

parse_aac_stable :
    (buf more : List ℕ) → parse_aac buf ≢ incomplete → parse_aac (buf ++ more) ≡ parse_aac buf
unfolding parse_aac
parse_aac_stable buf more h = ground (
  arith,
  uint16_at-append 4 buf more,
  slice-append 8 (uint16_at 4 buf) buf more,
  length-append buf more,
)

parse_adpcm_stable :
    (buf more : List ℕ) → parse_adpcm buf ≢ incomplete → parse_adpcm (buf ++ more) ≡ parse_adpcm buf
unfolding parse_adpcm
parse_adpcm_stable buf more h = ground (
  arith,
  uint16_at-append 4 buf more,
  uint16_at-append 8 buf more,
  slice-append 12 (uint16_at 4 buf - 4) buf more,
  length-append buf more,
)

frame_of_stable :
    (buf more : List ℕ) (is_iframe : Bool) (c : VideoCodec)
    → 24 ≤ length buf
    → frame_of buf is_iframe c ≢ incomplete
    → frame_of (buf ++ more) is_iframe c ≡ frame_of buf is_iframe c
unfolding frame_of
frame_of_stable buf more is_iframe c room h = ground (
  arith,
  uint32_at-append 8 buf more,
  uint32_at-append 12 buf more,
  uint32_at-append 16 buf more,
  uint32_at-append 24 buf more,
  slice-append (24 + uint32_at 12 buf) (uint32_at 8 buf) buf more,
  length-append buf more,
)

parse_video_frame_stable :
    (buf more : List ℕ) (is_iframe : Bool)
    → parse_video_frame buf is_iframe ≢ incomplete
    → parse_video_frame (buf ++ more) is_iframe ≡ parse_video_frame buf is_iframe
unfolding parse_video_frame codec_of
parse_video_frame_stable buf more is_iframe h = ground (
  arith,
  uint32_at-append 4 buf more,
  frame_of_stable buf more is_iframe h264,
  frame_of_stable buf more is_iframe h265,
  length-append buf more,
)

-- Once the parser has seen enough for an answer, be it a packet, an error or a panic, no bytes that
-- follow change that answer.
pub parse_media_packet_stable :
    (buf more : List ℕ)
    → parse_media_packet buf ≢ incomplete
    → parse_media_packet (buf ++ more) ≡ parse_media_packet buf
unfolding parse_media_packet
parse_media_packet_stable buf more h = ground (
  arith,
  uint32_at-append 0 buf more,
  parse_info_stable buf more (uint32_at 0 buf),
  parse_video_frame_stable buf more true,
  parse_video_frame_stable buf more false,
  parse_aac_stable buf more,
  parse_adpcm_stable buf more,
  length-append buf more,
)
