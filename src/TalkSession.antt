-- ===== src/TalkSession.antt =====
-- The talk session of a camera, pkg/baichuan/talk.go: its negotiation, once encoding/xml has decoded the
-- answers, and the ADPCM blocks that are sent on it.
pub mod Blocks
pub mod Runs
pub mod Playout
pub mod Profile
use reolinkproxy.Base.{
  second, ℕ, ◌+◌, ◌-◌, ◌*◌, ◌/◌, ◌%◌, ◌^◌, List, [], ◌∷◌, ◌++◌, Bool, true, false, not, ◌&&◌, ◌||◌,
  ltb, leb, ◌==◌, if◌then◌else◌, Option, none, some, length, replicate, max, Result, ok, err,
}
use reolinkproxy.Base.Bytes.{put_uint16, put_uint32}
use reolinkproxy.Media.{adpcm_magic, adpcm_header, pad_len}
use reolinkproxy.Motion.Texts.{Text, text_eq}

-- `talkPlayoutMargin`, in nanoseconds.
abbrev pub talk_playout_margin : ℕ
talk_playout_margin = 1_500_000_000

-- `serializeTalkADPCMBlock`; the size is cut to 16 bits.
unfoldable pub serialize_talk_adpcm_block : List ℕ → ℕ → List ℕ
unfolding pad_len
serialize_talk_adpcm_block block seq =
    let payload_size = length block + 4 in
    put_uint32 adpcm_magic (
      put_uint16 payload_size (
        put_uint16 payload_size
          (put_uint16 adpcm_header (put_uint16 seq (block ++ replicate (pad_len payload_size) 0)))))

-- `TalkSession`, with the blocks that were sent on it; times are in nanoseconds, and 0 is the zero
-- time, which is long past.
pub record TalkSession : Type 0 where
  pub sample_rate : ℕ
  pub samples_per_block : ℕ
  pub bytes_per_block : ℕ
  pub block_duration : ℕ
  pub closed : Bool
  pub stopped : Bool
  pub seq : ℕ
  pub playout_end : ℕ
  pub written : List (List ℕ)

pub data WriteError : Type 0 where
  canceled block_size not_written : WriteError

-- A block is sent at `now`; `takes` is whether the connection takes it.
unfoldable pub send_block : Bool → ℕ → List ℕ → TalkSession → Option WriteError × TalkSession
unfolding serialize_talk_adpcm_block
send_block takes now block s =
    let seq = (s.seq + 1) % 2 ^ 16 in
    let payload = serialize_talk_adpcm_block block seq in
    if takes
    then (
      none,
      record s {
        seq = seq;
        written = s.written ++ payload ∷ [];
        playout_end = (if ltb s.playout_end now then now else s.playout_end) + s.block_duration;
      },
    )
    else (some not_written, record s { seq = seq })

-- `WriteADPCMBlock`
unfoldable pub write_adpcm_block : Bool → ℕ → List ℕ → TalkSession → Option WriteError × TalkSession
unfolding send_block
write_adpcm_block takes now block s =
    if s.closed
    then (some canceled, s)
    else if not (length block == s.bytes_per_block)
    then (some block_size, s)
    else send_block takes now block s

-- `Close` at `now`, with a context that ends at `limit`: when `stopTalk` is called, if it is.
unfoldable pub close : ℕ → Option ℕ → TalkSession → Option ℕ × TalkSession
close now limit s =
    let due = max now (s.playout_end + talk_playout_margin) in
    let at : ℕ = elim limit [
      | none ↦ due
      | some t ↦ if ltb (max now t) due then max now t else due
    ] in
    if s.stopped then (none, s) else (some at, record s { closed = true; stopped = true })

-- `TalkAudioConfig`
pub record TalkAudioConfig : Type 0 where
  pub priority : Option ℕ
  pub audio_type : Text
  pub sample_rate : ℕ
  pub sample_precision : ℕ
  pub length_per_encode : ℕ
  pub sound_track : Text

-- `TalkAbility`
pub record TalkAbility : Type 0 where
  pub version : Text
  pub duplex_list : List Text
  pub audio_stream_mode_list : List Text
  pub audio_config_list : List TalkAudioConfig

-- `TalkConfig`
pub record TalkConfig : Type 0 where
  pub version : Text
  pub channel_id : ℕ
  pub duplex : Text
  pub audio_stream_mode : Text
  pub audio_config : TalkAudioConfig

-- The reason of an `UnsupportedTalkError`.
pub data Unsupported : Type 0 where
  no_ability no_profiles no_adpcm : Unsupported
  ability_status config_status : ℕ → Unsupported

abbrev pub adpcm_name : Text
adpcm_name = b'a' ∷ b'd' ∷ b'p' ∷ b'c' ∷ b'm' ∷ []

abbrev pub fdx_name : Text
fdx_name = b'F' ∷ b'D' ∷ b'X' ∷ []

abbrev pub follow_video_stream_name : Text
follow_video_stream_name =
    b'f' ∷ b'o' ∷ b'l' ∷ b'l' ∷ b'o' ∷ b'w' ∷ b'V' ∷ b'i' ∷ b'd' ∷ b'e' ∷ b'o' ∷ b'S' ∷ b't' ∷ b'r'
    ∷ b'e' ∷ b'a' ∷ b'm' ∷ []

abbrev pub default_version : Text
default_version = b'1' ∷ b'.' ∷ b'1' ∷ []

-- The wanted name if it is offered, and else the first.
unfoldable pub prefer : Text → Text → List Text → Text
prefer wanted first [] = first
prefer wanted first (name ∷ names) =
    let rest = prefer wanted first names in if text_eq name wanted then name else rest

abbrev pub is_usable : TalkAudioConfig → Bool
is_usable cfg =
    text_eq cfg.audio_type adpcm_name
    && (not (cfg.sample_rate == 0) && not (cfg.length_per_encode == 0))

-- The first usable profile.
unfoldable pub find_usable : List TalkAudioConfig → Option TalkAudioConfig
find_usable [] = none
find_usable (cfg ∷ configs) =
    let rest = find_usable configs in if is_usable cfg then some cfg else rest

-- The configuration with a profile.
unfoldable pub config_with :
    ℕ → Text → List Text → List Text → Text → Text → TalkAudioConfig → TalkConfig
unfolding prefer
config_with channel version duplexes modes duplex mode cfg = record {
  version = if text_eq version [] then default_version else version;
  channel_id = channel;
  duplex = prefer fdx_name duplex duplexes;
  audio_stream_mode = prefer follow_video_stream_name mode modes;
  audio_config = record cfg { priority = none };
}

abbrev pub with_profile :
    Option TalkAudioConfig → (TalkAudioConfig → TalkConfig) → Result Unsupported TalkConfig
with_profile none config = err no_adpcm
with_profile (some cfg) config = ok (config cfg)

unfoldable pub from_lists :
    ℕ → Text → List Text → List Text → List TalkAudioConfig → Result Unsupported TalkConfig
unfolding config_with find_usable
from_lists channel version (duplex ∷ duplexes) (mode ∷ modes) (cfg ∷ configs) =
    with_profile (find_usable (cfg ∷ configs))
      (config_with channel version (duplex ∷ duplexes) (mode ∷ modes) duplex mode)
from_lists channel version [] modes configs = err no_profiles
from_lists channel version (duplex ∷ duplexes) [] configs = err no_profiles
from_lists channel version (duplex ∷ duplexes) (mode ∷ modes) [] = err no_profiles

-- `defaultTalkConfig`
unfoldable pub default_talk_config : ℕ → Option TalkAbility → Result Unsupported TalkConfig
unfolding from_lists
default_talk_config channel none = err no_ability
default_talk_config channel (some a) =
    from_lists channel a.version a.duplex_list a.audio_stream_mode_list a.audio_config_list

-- The session of a configuration that the camera took.
unfoldable pub new_session : TalkConfig → TalkSession
new_session cfg =
    let samples = cfg.audio_config.length_per_encode in
    record {
      sample_rate = cfg.audio_config.sample_rate;
      samples_per_block = samples;
      bytes_per_block = samples / 2 + 4;
      block_duration = samples * second / cfg.audio_config.sample_rate;
      closed = false;
      stopped = false;
      seq = 0;
      playout_end = 0;
      written = [];
    }

-- A call of `WriteADPCMBlock`: whether the connection takes the message, when, and the block.
pub record Attempt : Type 0 where
  pub takes : Bool
  pub time : ℕ
  pub block : List ℕ

-- The calls that returned no error, in order, and the session after all of them.
unfoldable pub talk : List Attempt → TalkSession → List Attempt × TalkSession
talk [] s = ([], s)
talk (a ∷ attempts) s =
    let now = write_adpcm_block a.takes a.time a.block s in
    let later = talk attempts now.1 in
    (elim now.0 [ none ↦ a ∷ later.0 | some e ↦ later.0 ], later.1)
