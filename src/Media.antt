-- ===== src/Media.antt =====
-- The incremental parser of the camera's media stream, pkg/baichuan/media.go.
pub mod Bounds
pub mod Stable
pub mod Chunks
use reolinkproxy.Base.{
  ℕ, zero, suc, ◌+◌, ◌-◌, ◌*◌, ◌%◌, List, [], ◌∷◌, ◌++◌, Bool, true, false, not, ◌&&◌, ◌||◌, ltb,
  leb, ◌==◌, if◌then◌else◌, length, take, drop, get_or, Option, none, some,
}
use reolinkproxy.Base.Bytes.{uint16_at, uint32_at}

abbrev pub info_v1_magic : ℕ
info_v1_magic = 0x31303031

abbrev pub info_v2_magic : ℕ
info_v2_magic = 0x32303031

abbrev pub iframe_min : ℕ
iframe_min = 0x63643030

abbrev pub iframe_max : ℕ
iframe_max = 0x63643039

abbrev pub pframe_min : ℕ
pframe_min = 0x63643130

abbrev pub pframe_max : ℕ
pframe_max = 0x63643139

abbrev pub aac_magic : ℕ
aac_magic = 0x62773530

abbrev pub aac_v2_magic : ℕ
aac_v2_magic = 0x62773531

abbrev pub adpcm_magic : ℕ
adpcm_magic = 0x62773130

abbrev pub adpcm_header : ℕ
adpcm_header = 0x0100

abbrev pub pad_size : ℕ
pad_size = 8

-- "H264" and "H265", read as a little-endian word.
abbrev pub h264_tag : ℕ
h264_tag = 0x34363248

abbrev pub h265_tag : ℕ
h265_tag = 0x35363248

pub data VideoCodec : Type 0 where
  h264 h265 : VideoCodec

-- `MediaPacket`, with the fields that each kind sets.
pub data MediaPacket : Type 0 where
  info_v1 info_v2 : ℕ → ℕ → ℕ → MediaPacket
  iframe : VideoCodec → List ℕ → ℕ → Option ℕ → MediaPacket
  pframe : VideoCodec → List ℕ → ℕ → MediaPacket
  aac adpcm : List ℕ → MediaPacket

pub data MediaError : Type 0 where
  info_header_size adpcm_marker unknown_magic unsupported_codec : ℕ → MediaError
  implausible_sizes : ℕ → ℕ → MediaError

-- What `parseMediaPacket` says of a buffer: too short as yet, a packet with the bytes it takes, or
-- an error. `panic` is Go's run-time panic on a slice whose end is below its start.
pub data Parsed : Type 0 where
  incomplete : Parsed
  packet : MediaPacket → ℕ → Parsed
  failed : MediaError → Parsed
  panic : Parsed

unfoldable pub pad_len : ℕ → ℕ
pad_len size = if size % pad_size == 0 then 0 else pad_size - size % pad_size

pub codec_of : ℕ → Option VideoCodec
codec_of tag = if tag == h264_tag then some h264 else if tag == h265_tag then some h265 else none

-- The packet of a frame: `is_iframe` is the parameter `iframe` of the source.
pub frame_packet : Bool → VideoCodec → List ℕ → ℕ → Option ℕ → MediaPacket
frame_packet is_iframe codec payload microseconds unix_time =
    if is_iframe
    then iframe codec payload microseconds unix_time
    else pframe codec payload microseconds

pub frame_of : List ℕ → Bool → VideoCodec → Parsed
frame_of buf is_iframe codec =
    let payload_size = uint32_at 8 buf in
    let additional = uint32_at 12 buf in
    let total = 24 + additional + payload_size + pad_len payload_size in
    let unix_time = if is_iframe && leb 4 additional then some (uint32_at 24 buf) else none in
    let payload = take payload_size (drop (24 + additional) buf) in
    if ltb (50 * 1024 * 1024) payload_size || ltb (1024 * 1024) additional
    then failed (implausible_sizes payload_size additional)
    else if ltb (length buf) total
    then incomplete
    else packet (frame_packet is_iframe codec payload (uint32_at 16 buf) unix_time) total

pub parse_video_frame : List ℕ → Bool → Parsed
parse_video_frame buf is_iframe =
    if ltb (length buf) 24 then incomplete else elim (codec_of (uint32_at 4 buf)) [
      | none ↦ failed (unsupported_codec (uint32_at 4 buf))
      | some codec ↦ frame_of buf is_iframe codec
    ]

pub parse_info : List ℕ → ℕ → Parsed
parse_info buf magic =
    let width = uint32_at 8 buf in
    let height = uint32_at 12 buf in
    let fps = get_or buf 17 0 in
    if ltb (length buf) 32
    then incomplete
    else if not (uint32_at 4 buf == 32)
    then failed (info_header_size (uint32_at 4 buf))
    else if magic == info_v2_magic
    then packet (info_v2 width height fps) 32
    else packet (info_v1 width height fps) 32

unfoldable pub parse_aac : List ℕ → Parsed
parse_aac buf =
    let payload_size = uint16_at 4 buf in
    let total = 8 + payload_size + pad_len payload_size in
    if ltb (length buf) 8
    then incomplete
    else if ltb (length buf) total
    then incomplete
    else packet (aac (take payload_size (drop 8 buf))) total

-- `buf[12:12+blockSize]` with `blockSize := payloadSize - 4`, which is negative for a payload below
-- four bytes.
unfoldable pub parse_adpcm : List ℕ → Parsed
parse_adpcm buf =
    let payload_size = uint16_at 4 buf in
    let total = 8 + payload_size + pad_len payload_size in
    if ltb (length buf) 12
    then incomplete
    else if ltb (length buf) total
    then incomplete
    else if not (uint16_at 8 buf == adpcm_header)
    then failed (adpcm_marker (uint16_at 8 buf))
    else if ltb payload_size 4
    then panic
    else packet (adpcm (take (payload_size - 4) (drop 12 buf))) total

unfoldable pub parse_media_packet : List ℕ → Parsed
parse_media_packet buf =
    let magic = uint32_at 0 buf in
    if ltb (length buf) 4
    then incomplete
    else if magic == info_v1_magic || magic == info_v2_magic
    then parse_info buf magic
    else if leb iframe_min magic && leb magic iframe_max
    then parse_video_frame buf true
    else if leb pframe_min magic && leb magic pframe_max
    then parse_video_frame buf false
    else if magic == aac_magic || magic == aac_v2_magic
    then parse_aac buf
    else if magic == adpcm_magic
    then parse_adpcm buf
    else failed (unknown_magic magic)

-- How a call of `Append` ends: waiting for more, with an error, or in a panic. `out_of_fuel` is no
-- outcome of the source.
pub data Status : Type 0 where
  waiting : Status
  broken : MediaError → Status
  panicked : Status
  out_of_fuel : Status

-- What a call returns, with the parser's buffer after it.
pub record Appended : Type 0 where
  pub packets : List MediaPacket
  pub rest : List ℕ
  pub status : Status

abbrev pub stop : List ℕ → Status → Appended
stop buf status = record { packets = []; rest = buf; status = status }

abbrev pub also : MediaPacket → Appended → Appended
also p a = record { packets = p ∷ a.packets; rest = a.rest; status = a.status }

-- The loop of `Append` over the parser's buffer. Every packet takes eight bytes or more.
unfoldable pub append_loop : ℕ → List ℕ → Appended
append_loop zero buf = stop buf out_of_fuel
append_loop (suc fuel) buf = elim (parse_media_packet buf) [
  | incomplete ↦ stop buf waiting
  | packet p consumed ↦ also p (append_loop fuel (drop consumed buf))
  | failed e ↦ stop buf (broken e)
  | panic ↦ stop buf panicked
]

-- `Append` on a parser that holds `buf`.
unfoldable pub append : List ℕ → List ℕ → Appended
append buf chunk = append_loop (length (buf ++ chunk) + 1) (buf ++ chunk)
