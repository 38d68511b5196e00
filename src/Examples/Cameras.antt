-- ===== src/Examples/Cameras.antt =====
-- Examples on a camera's talk and on the cameras of a bridge.
use reolinkproxy.Base.{
  ℕ, ◌+◌, ◌≡◌, ◌≤◌, refl, List, [], ◌∷◌, Bool, true, false, none, some, ok, err, ◌⊎◌, All, arith,
  if◌then◌else◌,
}
use reolinkproxy.Motion.Texts.{Text, elem}
use reolinkproxy.Media.{append, waiting}
use reolinkproxy.TalkSession.{
  TalkSession, TalkConfig, TalkAbility, TalkAudioConfig, Attempt, Unsupported, new_session, talk,
  close, default_talk_config, adpcm_name, fdx_name, follow_video_stream_name, is_usable,
  talk_playout_margin,
}
use reolinkproxy.TalkSession.Blocks.{joined, blocks_of, append-talk}
use reolinkproxy.TalkSession.Playout.{PlayedBy, close-talk}
use reolinkproxy.TalkSession.Profile.{IsFirstUsable, IsChoice, default_talk_config_lem}
use reolinkproxy.Bridge.Config.{
  CameraConfig, main_name, apply_defaults, validate, has_stream, normalized,
}
use reolinkproxy.Bridge.Paths.{
  normalize_profile_name, trim_right, trim_left, is_space, is_empty, talk_path_for_camera,
}
use reolinkproxy.Bridge.Served.{Registry, lookup}
use reolinkproxy.Bridge.Stores.{keys_of}
use reolinkproxy.Bridge.{
  Bridge, Camera, add_camera, add_checked, path_for_profile, remove_camera, new_bridge, start,
  runs_of_others, entries_of_others,
}
use reolinkproxy.Bridge.Urls.{IsServed, IsTalkPath, add_camera-IsServed}
use reolinkproxy.Bridge.Removal.{remove_camera-add_camera}

abbrev half_duplex : Text
half_duplex = b'H' ∷ b'D' ∷ b'X' ∷ []

abbrev profile : Text → ℕ → TalkAudioConfig
profile kind samples = record {
  priority = some 1;
  audio_type = kind;
  sample_rate = 8000;
  sample_precision = 16;
  length_per_encode = samples;
  sound_track = [];
}

-- A camera whose first ADPCM profile has no block length.
abbrev ability : TalkAbility
ability = record {
  version = [];
  duplex_list = half_duplex ∷ fdx_name ∷ [];
  audio_stream_mode_list = main_name ∷ [];
  audio_config_list = profile main_name 8 ∷ profile adpcm_name 0 ∷ profile adpcm_name 4 ∷ [];
}

default_talk_config_lem_example :
    ((t : TalkConfig) × (cfg : TalkAudioConfig) × (default_talk_config 2 (some ability) ≡ ok t)
      × IsFirstUsable (TalkAbility.audio_config_list ability) cfg
      × (t.audio_config ≡ record cfg { priority = none })
      × (t.channel_id ≡ 2)
      × IsChoice fdx_name (TalkAbility.duplex_list ability) t.duplex
      × IsChoice follow_video_stream_name
          (TalkAbility.audio_stream_mode_list ability)
          t.audio_stream_mode)
    ⊎ ((e : Unsupported) × (default_talk_config 2 (some ability) ≡ err e)
        × (All (λ c. is_usable c ≡ false) (TalkAbility.audio_config_list ability)
            ⊎ ((TalkAbility.duplex_list ability ≡ [])
                ⊎ (TalkAbility.audio_stream_mode_list ability ≡ []))))
default_talk_config_lem_example = default_talk_config_lem 2 ability

abbrev asked : TalkConfig
asked = record {
  version = [];
  channel_id = 2;
  duplex = fdx_name;
  audio_stream_mode = main_name;
  audio_config = profile adpcm_name 4;
}

abbrev attempt : Bool → ℕ → List ℕ → Attempt
attempt takes time block = record { takes = takes; time = time; block = block }

-- A block that goes out, one of the wrong size, one that the connection does not take, and one more.
abbrev attempts : List Attempt
attempts =
    attempt true 5_000 (1 ∷ 2 ∷ 3 ∷ 4 ∷ 5 ∷ 6 ∷ [])
    ∷ attempt true 6_000 (1 ∷ [])
    ∷ attempt false 7_000 (1 ∷ 2 ∷ 3 ∷ 4 ∷ 5 ∷ 7 ∷ [])
    ∷ attempt true 8_000 (1 ∷ 2 ∷ 3 ∷ 4 ∷ 5 ∷ 8 ∷ [])
    ∷ []

append-talk_example :
    append [] (joined (TalkSession.written (talk attempts (new_session asked)).1)) ≡ record {
      packets = blocks_of (talk attempts (new_session asked)).0;
      rest = [];
      status = waiting;
    }
append-talk_example = append-talk asked attempts (omega arith)

close-talk_example :
    let run = talk attempts (new_session asked) in
    let stop = close 9_000 none run.1 in
    ((at end : ℕ) × stop.0 ≡ some at
      × 9_000 ≤ at
      × end + talk_playout_margin ≤ at
      × PlayedBy (TalkSession.block_duration (new_session asked)) end run.0)
    × (close 9_001 none stop.1).0 ≡ none
close-talk_example = close-talk asked attempts 9_000 9_001 none

abbrev same_letter : ℕ → ℕ
same_letter c = c

abbrev front_name : Text
front_name = b'f' ∷ b'r' ∷ b'o' ∷ b'n' ∷ b't' ∷ []

abbrev sub_name : Text
sub_name = b's' ∷ b'u' ∷ b'b' ∷ []

-- A battery camera with two streams, the second of which has the base path too.
abbrev front : CameraConfig
front = record {
  name = front_name;
  host = front_name;
  port = 0;
  uid = [];
  timeout = 0;
  streams = main_name ∷ sub_name ∷ [];
  channel = 0;
  rtsp_path = front_name;
  talk_profile = sub_name;
  talk_volume = 0;
  pause_on_motion = false;
  pause_on_client = false;
  pause_timeout = 0;
  live_catch_up = none;
  idle_disconnect = false;
  idle_timeout = 0;
  battery_camera = true;
  mains_powered = false;
}

abbrev bridge : Bridge
unfolding start new_bridge
bridge = (start true (new_bridge true)).1

abbrev added : Camera × Bridge
added = add_checked same_letter true (apply_defaults same_letter front) bridge

is_added : add_camera same_letter true front bridge ≡ ok added
unfolding add_camera apply_defaults validate normalize_profile_name trim_right trim_left is_space
    has_stream normalized bridge lookup
is_added = refl

has_sub :
    elem
      (normalize_profile_name same_letter sub_name)
      (CameraConfig.streams (apply_defaults same_letter front))
    ≡ true
unfolding apply_defaults normalized normalize_profile_name trim_right trim_left is_space
has_sub = refl

sub_named : is_empty (normalize_profile_name same_letter sub_name) ≡ false
unfolding normalize_profile_name trim_right trim_left is_space
sub_named = refl

remove_camera-add_camera_example :
    let gone = remove_camera front_name added.1 in
    gone.0 ≡ none
    × Bridge.cameras gone.1 ≡ Bridge.cameras bridge
    × Bridge.runs gone.1 ≡ runs_of_others front_name (Bridge.runs bridge)
    × Bridge.webhook gone.1 ≡ entries_of_others front_name (Bridge.webhook bridge)
    × lookup front_name (Registry.streams (Bridge.registry gone.1)) ≡ (
        if elem front_name (keys_of (Camera.paths added.0))
        then none
        else lookup front_name (Registry.streams (Bridge.registry bridge)))
    × lookup front_name (Registry.talks (Bridge.registry gone.1)) ≡ (
        if elem front_name (keys_of (Camera.paths added.0))
        then none
        else lookup front_name (Registry.talks (Bridge.registry bridge)))
    × lookup front_name (Registry.talk_sdp (Bridge.registry gone.1)) ≡ (
        if elem front_name (keys_of (Camera.paths added.0))
        then none
        else lookup front_name (Registry.talk_sdp (Bridge.registry bridge)))
remove_camera-add_camera_example =
    remove_camera-add_camera same_letter true front bridge added.1 added.0 front_name is_added

add_camera-IsServed_example :
    IsServed (path_for_profile same_letter (Camera.cfg added.0) sub_name) (Bridge.registry added.1)
    × IsTalkPath
        (talk_path_for_camera (CameraConfig.rtsp_path (Camera.cfg added.0)))
        (Bridge.registry added.1)
add_camera-IsServed_example =
    add_camera-IsServed same_letter true front bridge added.1 added.0 sub_name is_added has_sub
      sub_named
