-- ===== src/Bridge.antt =====
-- The bridge and its cameras, pkg/bridge/bridge.go: which cameras there are, which paths they serve, and
-- which stream runs and webhook entries are theirs. The texts and paths are in Paths, the configuration
-- is in Config and the maps of the RTSP server are in Served.
pub mod Paths
pub mod Config
pub mod Served
pub mod Stores
pub mod Removal
pub mod Urls
use reolinkproxy.Base.{
  second, ℕ, ◌+◌, ◌*◌, ◌==◌, List, [], ◌∷◌, ◌++◌, Bool, true, false, not, ◌&&◌, ltb, if◌then◌else◌,
  Option, none, some, length, Result, ok, err,
}
use reolinkproxy.Motion.Texts.{Text, text_eq}
use reolinkproxy.Bridge.Paths.{
  is_empty, trim_prefix, talk_path_for_camera, two_way_path_for_stream, normalize_profile_name,
}
use reolinkproxy.Bridge.Config.{
  CameraConfig, ConfigError, apply_defaults, validate, preferred_talk_profile,
}
use reolinkproxy.Bridge.Served.{
  Store, lookup, insert, delete, Registry, new_registry, add_stream, add_talk, add_talk_alias,
  remove_paths,
}

-- `streamMetadata`, without what is learned of the stream.
pub record Metadata : Type 0 where
  pub name : Text
  pub path : Text

-- A stream run that was started: for which camera, on which handler, with which profile.
pub record RunningStream : Type 0 where
  pub camera : Text
  pub handler : ℕ
  pub profile : Text

-- `Camera`: its configuration and what it registered, and what its device was given.
pub record Camera : Type 0 where
  pub cfg : CameraConfig
  pub paths : List Text
  pub streams : List Metadata
  pub reconnect_backoff : ℕ
  pub low_power : Bool

-- `Bridge`, with the RTSP server's maps, the webhook server's cameras by name, if there is one, the stream runs that
-- are not cancelled, the mirrors of stream handlers, and the number of handlers and publishers made.
pub record Bridge : Type 0 where
  pub started : Bool
  pub closed : Bool
  pub cameras : Store Camera
  pub registry : Registry
  pub webhook : Option (Store Text)
  pub runs : List RunningStream
  pub mirrors : List (ℕ × ℕ)
  pub made : ℕ

-- `New`, given whether there is a webhook address.
unfoldable pub new_bridge : Bool → Bridge
new_bridge has_webhook = record {
  started = false;
  closed = false;
  cameras = [];
  registry = new_registry;
  webhook = if has_webhook then some [] else none;
  runs = [];
  mirrors = [];
  made = 0;
}

pub data BridgeError : Type 0 where
  invalid : ConfigError → BridgeError
  bridge_closed not_started already_exists not_found start_failed : BridgeError

-- `Start`; `listens` is whether the RTSP server can start.
unfoldable pub start : Bool → Bridge → Option BridgeError × Bridge
start listens b =
    if b.closed
    then (some bridge_closed, b)
    else if b.started
    then (none, b)
    else if listens
    then (none, record b { started = true })
    else (some start_failed, b)

-- The local variables of `setupCameraStreams`.
pub record Setup : Type 0 where
  pub metas : List Metadata
  pub paths : List Text
  pub preferred_meta : Option Metadata
  pub preferred_handlers : Option (ℕ × ℕ)
  pub registry : Registry
  pub runs : List RunningStream
  pub mirrors : List (ℕ × ℕ)
  pub made : ℕ

abbrev pub profile_path : Text → Bool → Text → Text
profile_path base multi s = if multi then base ++ b'_' ∷ s else base

abbrev is_preferred : Bool → Text → Text → Bool
is_preferred multi preferred s = multi && (not (is_empty preferred) && text_eq s preferred)

-- A turn of the loop over the streams.
unfoldable pub setup_stream : Text → Bool → Text → Text → ℕ → Text → Setup → Setup
setup_stream camera multi base preferred publisher s st =
    let path = profile_path base multi s in
    let two_way = two_way_path_for_stream path in
    let chosen = is_preferred multi preferred s in
    let meta : Metadata = record { name = s; path = if chosen then base else path } in
    let handler = st.made in
    let two_way_handler = st.made + 1 in
    record {
      metas = if chosen then st.metas else st.metas ++ meta ∷ [];
      paths = (st.paths ++ path ∷ []) ++ two_way ∷ [];
      preferred_meta = if chosen then some meta else st.preferred_meta;
      preferred_handlers =
          if chosen then some (handler, two_way_handler) else st.preferred_handlers;
      registry =
          add_talk_alias two_way publisher
            (add_stream two_way two_way_handler (add_stream path handler st.registry));
      runs = st.runs ++ record { camera = camera; handler = handler; profile = s } ∷ [];
      mirrors = st.mirrors ++ (handler, two_way_handler) ∷ [];
      made = st.made + 2;
    }

unfoldable pub setup_all : Text → Bool → Text → Text → ℕ → List Text → Setup → Setup
setup_all camera multi base preferred publisher [] st = st
setup_all camera multi base preferred publisher (s ∷ names) st =
    setup_all camera multi base preferred publisher names
      (setup_stream camera multi base preferred publisher s st)

-- The base path's aliases, if there is a preferred stream.
unfoldable pub setup_alias : Text → ℕ → Option (ℕ × ℕ) → Setup → Setup
setup_alias base publisher none st = st
setup_alias base publisher (some (handler, two_way_handler)) st =
    let two_way = two_way_path_for_stream base in
    record st {
      paths = (st.paths ++ base ∷ []) ++ two_way ∷ [];
      registry =
          add_talk_alias two_way publisher
            (add_stream two_way two_way_handler (add_stream base handler st.registry));
    }

-- `setupCameraStreams`
unfoldable pub setup_camera_streams : (ℕ → ℕ) → CameraConfig → ℕ → Setup → Setup
setup_camera_streams lower cfg publisher st =
    let base = trim_prefix cfg.rtsp_path in
    let multi = ltb 1 (length cfg.streams) in
    let all =
      setup_all cfg.name multi base (preferred_talk_profile lower cfg) publisher cfg.streams st in
    let metas : List Metadata = elim all.preferred_meta [
      | none ↦ all.metas
      | some m ↦ m ∷ all.metas
    ] in
    setup_alias base publisher all.preferred_handlers (record all { metas = metas })

abbrev lets_sleep : CameraConfig → Bool
lets_sleep cfg = cfg.battery_camera && not cfg.mains_powered

-- The webhook entry of a camera that may sleep; `listens` is whether the webhook server could be started.
abbrev pub register : Bool → CameraConfig → Option (Store Text) → Option (Store Text)
register listens cfg none = none
register listens cfg (some entries) =
    some (if lets_sleep cfg && listens then insert cfg.name cfg.name entries else entries)

abbrev listening : Bool → Option (Store Text) → Bool
listening listens none = false
listening listens (some entries) = listens

-- What `AddCamera` does once the checks are passed.
unfoldable pub add_checked : (ℕ → ℕ) → Bool → CameraConfig → Bridge → Camera × Bridge
add_checked lower listens cfg b =
    let talk_path = talk_path_for_camera cfg.rtsp_path in
    let publisher = b.made in
    let st = setup_camera_streams lower cfg publisher (record {
      metas = [];
      paths = [];
      preferred_meta = none;
      preferred_handlers = none;
      registry = add_talk talk_path publisher b.registry;
      runs = b.runs;
      mirrors = b.mirrors;
      made = b.made + 1;
    }) in
    let cam : Camera = record {
      cfg = cfg;
      paths = talk_path ∷ st.paths;
      streams = st.metas;
      reconnect_backoff = if lets_sleep cfg then 30 * second else 2 * second;
      low_power = lets_sleep cfg && listening listens b.webhook;
    } in
    (
      cam,
      record b {
        cameras = insert cfg.name cam b.cameras;
        registry = st.registry;
        webhook = register listens cfg b.webhook;
        runs = st.runs;
        mirrors = st.mirrors;
        made = st.made;
      },
    )

-- `AddCamera`
unfoldable pub add_camera :
    (ℕ → ℕ) → Bool → CameraConfig → Bridge → Result BridgeError (Camera × Bridge)
add_camera lower listens raw b =
    let cfg = apply_defaults lower raw in
    elim (validate lower cfg) [
      | some e ↦ err (invalid e)
      | none ↦
          if b.closed
          then err bridge_closed
          else if not b.started
          then err not_started
          else elim (lookup cfg.name b.cameras) [
            | some cam ↦ err already_exists
            | none ↦ ok (add_checked lower listens cfg b)
          ]
    ]

abbrev pub runs_of_others : Text → List RunningStream → List RunningStream
runs_of_others camera [] = []
runs_of_others camera (r ∷ runs) =
    let rest = runs_of_others camera runs in if text_eq r.camera camera then rest else r ∷ rest

abbrev pub entries_of_others : Text → Option (Store Text) → Option (Store Text)
entries_of_others camera none = none
entries_of_others camera (some entries) = some (delete camera entries)

-- `stop` of a `Camera`: its context is cancelled, and its paths and its webhook entry are removed.
unfoldable pub stop : Camera → Bridge → Bridge
stop cam b = record b {
  runs = runs_of_others (CameraConfig.name (Camera.cfg cam)) b.runs;
  registry = remove_paths (Camera.paths cam) b.registry;
  webhook = entries_of_others (CameraConfig.name (Camera.cfg cam)) b.webhook;
}

-- `RemoveCamera` as far as the bridge's lock is held.
unfoldable pub forget_camera : Text → Bridge → Option Camera × Bridge
forget_camera name b = (lookup name b.cameras, record b { cameras = delete name b.cameras })

-- `RemoveCamera`, when nothing else happens once the lock is released.
unfoldable pub remove_camera : Text → Bridge → Option BridgeError × Bridge
remove_camera name b = elim (forget_camera name b).0 [
  | none ↦ (some not_found, (forget_camera name b).1)
  | some cam ↦ (none, stop cam (forget_camera name b).1)
]

abbrev stop_all : Store Camera → Bridge → Bridge
stop_all [] b = b
stop_all ((name, cam) ∷ cameras) b = stop_all cameras (stop cam b)

-- `Close`
unfoldable pub close : Bridge → Bridge
close b = if b.closed then b else stop_all b.cameras (record b { closed = true; cameras = [] })

-- `pathForProfile`
unfoldable pub path_for_profile : (ℕ → ℕ) → CameraConfig → Text → Text
path_for_profile lower cfg raw =
    let base = trim_prefix cfg.rtsp_path in
    let profile = normalize_profile_name lower raw in
    if is_empty profile
    then base
    else if length cfg.streams == 1
    then base
    else base ++ b'_' ∷ profile
