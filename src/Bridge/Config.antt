-- ===== src/Bridge/Config.antt =====
-- The configuration of a camera, pkg/bridge/config.go. Times are in nanoseconds; a negative number is as
-- any that is not 0.
use reolinkproxy.Base.{
  second, ℕ, List, [], ◌∷◌, Bool, not, ◌&&◌, ◌==◌, if◌then◌else◌, Option, none, some, ◌++◌,
}
use reolinkproxy.Motion.Texts.{Text, elem}
use reolinkproxy.Bridge.Paths.{normalize_profile_name, is_empty}

-- `CameraConfig`, less its logger, its credentials and its audio hints.
pub record CameraConfig : Type 0 where
  pub name : Text
  pub host : Text
  pub port : ℕ
  pub uid : Text
  pub timeout : ℕ
  pub streams : List Text
  pub channel : ℕ
  pub rtsp_path : Text
  pub talk_profile : Text
  pub talk_volume : ℕ
  pub pause_on_motion : Bool
  pub pause_on_client : Bool
  pub pause_timeout : ℕ
  pub live_catch_up : Option ℕ
  pub idle_disconnect : Bool
  pub idle_timeout : ℕ
  pub battery_camera : Bool
  pub mains_powered : Bool

-- `defaultLiveCatchUp`
abbrev pub default_live_catch_up : ℕ
default_live_catch_up = 3_000_000_000

abbrev pub main_name : Text
main_name = b'm' ∷ b'a' ∷ b'i' ∷ b'n' ∷ []

abbrev pub stream_suffix : Text
stream_suffix = b'/' ∷ b's' ∷ b't' ∷ b'r' ∷ b'e' ∷ b'a' ∷ b'm' ∷ []

-- The names that are not blank, normalised.
unfoldable pub normalized : (ℕ → ℕ) → List Text → List Text
normalized lower [] = []
normalized lower (s ∷ names) =
    let name = normalize_profile_name lower s in
    let rest = normalized lower names in if is_empty name then rest else name ∷ rest

abbrev pub or_default : ℕ → ℕ → ℕ
or_default n value = if n == 0 then value else n

abbrev pub or_main : List Text → List Text
or_main [] = main_name ∷ []
or_main (s ∷ names) = s ∷ names

-- `ApplyDefaults`
unfoldable pub apply_defaults : (ℕ → ℕ) → CameraConfig → CameraConfig
apply_defaults lower c = record c {
  port = or_default c.port 9000;
  streams = normalized lower (or_main c.streams);
  rtsp_path = if is_empty c.rtsp_path then c.name ++ stream_suffix else c.rtsp_path;
  timeout = or_default c.timeout 10_000_000_000;
  talk_profile = normalize_profile_name lower c.talk_profile;
  talk_volume = or_default c.talk_volume 100;
  live_catch_up = elim c.live_catch_up [ none ↦ some default_live_catch_up | some d ↦ some d ];
  pause_timeout = or_default c.pause_timeout second;
  idle_timeout = or_default c.idle_timeout 30_000_000_000;
}

pub data ConfigError : Type 0 where
  name_required host_required unknown_talk_profile : ConfigError

-- `hasStream`
unfoldable pub has_stream : (ℕ → ℕ) → CameraConfig → Text → Bool
has_stream lower c name = elem (normalize_profile_name lower name) c.streams

-- `Validate`
unfoldable pub validate : (ℕ → ℕ) → CameraConfig → Option ConfigError
validate lower c =
    if is_empty c.name
    then some name_required
    else if is_empty c.host && is_empty c.uid
    then some host_required
    else if not (is_empty c.talk_profile) && not (has_stream lower c c.talk_profile)
    then some unknown_talk_profile
    else none

-- `preferredTalkProfile`
unfoldable pub preferred_talk_profile : (ℕ → ℕ) → CameraConfig → Text
preferred_talk_profile lower c = if has_stream lower c c.talk_profile then c.talk_profile else []
