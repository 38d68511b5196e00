-- ===== src/Examples/Clients.antt =====
-- The client's routes and keepalive, the capability report and the abilities, and the pauses and talk
-- volume of the bridge, on concrete inputs.
use reolinkproxy.Base.{
  second, ◌*◌, ◌↔◌, arith, ◌≡◌, refl, List, [], ◌∷◌, ◌++◌, true, false, none, some,
}
use reolinkproxy.Base.Int.{pos, negsuc, ◌-ℤ◌}
use reolinkproxy.Support.{
  Item, RawSupport, people, parcel, non_motor_vehicle, decode_channel_capabilities,
}
use reolinkproxy.Talk.{apply_talk_volume, scaled, limited}
use reolinkproxy.Message.{Message, class_modern_with_offset, has_payload_offset}
use reolinkproxy.Client.{
  Routes, Beat, hears, ticks, answered, late, missed, keep_alive, success, reserve_message_number,
}
use reolinkproxy.Client.KeepAlive.{three_missed, pings_of, FallsSilent, keep_alive_lem}
use reolinkproxy.Pause.{Motion, PauseConfig, should_pause, new_camera_motion_state}
use reolinkproxy.Motion.Texts.{Text}
use reolinkproxy.Ability.{
  SubModule, AbilityInfo, info, require, require_ability_rw, tokens_of, read_only, missing_ability,
}
use reolinkproxy.Ability.Granting.{allowed, token_grants, require_ability_rw-allowed}

abbrev reply : Message
reply = record {
  header = record {
    msg_id = 3;
    body_len = 0;
    channel_id = 0;
    stream_type = 0;
    msg_num = 5;
    response_code = 400;
    class = class_modern_with_offset;
    payload_offset = 0;
  };
  extension = [];
  payload = [];
  xml = [];
  binary = false;
  extension_meta = none;
}

abbrev routes : Routes
routes = record {
  pending =
      record { msg_id = 3; msg_num = 5; slot = none }
      ∷ record { msg_id = 3; msg_num = 6; slot = none }
      ∷ [];
  subs = record { msg_id = 3; queue = []; dropped = 0 } ∷ [];
}

refused : success reply.header ≡ some 400
unfolding success has_payload_offset
refused = refl

numbers_wrap : reserve_message_number 65535 ≡ (65535, 0)
unfolding reserve_message_number
numbers_wrap = refl

-- A datagram, then misses on TCP and silence on UDP.
abbrev beats : List Beat
beats =
    hears (2 * second)
    ∷ ticks (3 * second) missed
    ∷ ticks (4 * second) late
    ∷ ticks (5 * second) missed
    ∷ ticks (6 * second) missed
    ∷ ticks (18 * second) missed
    ∷ ticks (19 * second) answered
    ∷ []

keep_alive_lem_example :
    (keep_alive false second second 0 beats ≡ three_missed (pings_of beats))
    × ((keep_alive true second second 0 beats ≡ true) ↔ FallsSilent second second beats)
keep_alive_lem_example = keep_alive_lem second second beats (omega arith, tt)

abbrev on_motion : PauseConfig
on_motion = record { on_motion = true; on_client = true; timeout = 10 }

abbrev moving : Motion
moving = record { known = true; active = true; unsupported = false; changed_at = 2 }

unknown_goes_on : should_pause on_motion (some (new_camera_motion_state 0)) 99 (some true) ≡ none
unfolding should_pause new_camera_motion_state
unknown_goes_on = refl

-- A doorbell with a speaker of its own behind an NVR, which finds people and packages.
abbrev item : Item
item = record {
  chn_id = pos 2;
  channel_type = b'D' ∷ b'o' ∷ b'o' ∷ b'r' ∷ b'b' ∷ b'e' ∷ b'l' ∷ b'l' ∷ [];
  ptz_type = pos 3;
  battery = pos 0;
  doorbell_version = pos 0;
  audio_version = pos 4;
  led_ctrl = pos 2;
  ipc_audio_talk = some (pos 1);
  motion = pos 1;
  ai_type = pos 8519682;
}

abbrev report : RawSupport
report = record {
  channel_num = pos 1;
  audio_talk = pos 1;
  no_extern_stream = pos 0;
  items = item ∷ [];
}

what_it_can : decode_channel_capabilities item false ≡ record {
  channel = pos 2;
  ptz = true;
  pan = true;
  tilt = true;
  zoom = false;
  battery = false;
  doorbell = true;
  siren = true;
  floodlight = false;
  talk = true;
  motion = true;
  ai_types = people ∷ parcel ∷ non_motor_vehicle ∷ [];
}
unfolding decode_channel_capabilities
what_it_can = refl

halved : apply_talk_volume (pos 101 ∷ negsuc 20 ∷ []) (pos 50) ≡ pos 50 ∷ negsuc 9 ∷ []
unfolding apply_talk_volume scaled limited ◌-ℤ◌
halved = refl

abbrev control_name : Text
control_name = b'p' ∷ b't' ∷ b'z' ∷ []

-- Of `ptz_ro,x,ptz_rw` and `ptz_ro`, the first is for another channel than 0.
abbrev modules : List SubModule
modules =
    record {
      channel_id = some 1;
      ability_value =
          control_name
          ++ b'_' ∷ b'r' ∷ b'o' ∷ b',' ∷ b'x' ∷ b',' ∷ control_name
          ++ b'_' ∷ b'r' ∷ b'w' ∷ [];
    }
    ∷ record { channel_id = none; ability_value = control_name ++ b'_' ∷ b'r' ∷ b'o' ∷ [] }
    ∷ []

abbrev abilities : AbilityInfo
abilities = record {
  system = none;
  network = none;
  alarm = none;
  image = none;
  video = none;
  security = none;
  replay = none;
  ptz = some modules;
  io = none;
  streaming = none;
}

-- The texts have no spaces and no capitals.
abbrev unchanged : Text → Text
unchanged t = t

require_ability_rw-allowed_example :
    require_ability_rw unchanged unchanged 0 control_name (info abilities)
    ≡ require control_name
        (allowed control_name (token_grants unchanged unchanged 0 (tokens_of abilities)))
require_ability_rw-allowed_example =
    require_ability_rw-allowed unchanged unchanged 0 control_name abilities

read_is_not_enough :
    require_ability_rw unchanged unchanged 0 control_name (info abilities)
    ≡ some (missing_ability control_name read_only)
unfolding require_ability_rw
read_is_not_enough = refl
