-- ===== src/Pause.antt =====
-- When a stream pauses, pkg/bridge/pause.go. Times are nanoseconds since some start.
pub mod Rules
use reolinkproxy.Base.{
  second, ℕ, ◌-◌, Bool, true, false, not, ◌&&◌, ◌||◌, ltb, leb, ◌==◌, if◌then◌else◌, Option, none,
  some,
}

-- `cameraMotionSnapshot`, behind the lock of `cameraMotionState`.
pub record Motion : Type 0 where
  pub known : Bool
  pub active : Bool
  pub unsupported : Bool
  pub changed_at : ℕ

unfoldable pub new_camera_motion_state : ℕ → Motion
new_camera_motion_state now = record {
  known = false;
  active = false;
  unsupported = false;
  changed_at = now;
}

abbrev pub same : Bool → Bool → Bool
same true b = b
same false b = not b

unfoldable pub set_active : ℕ → Bool → Motion → Motion
set_active now active m =
    if m.known && same m.active active
    then m
    else record m { known = true; active = active; changed_at = now }

unfoldable pub mark_unsupported : Motion → Motion
mark_unsupported m = record m { unsupported = true }

-- `streamPauseConfig`; a `Motion` of nil is `none`. A timeout of 0 stands for any that is not
-- positive.
pub record PauseConfig : Type 0 where
  pub on_motion : Bool
  pub on_client : Bool
  pub timeout : ℕ

pub data Reason : Type 0 where
  no_rtsp_client no_motion : Reason

pub motion_pause : PauseConfig → ℕ → Motion → Option Reason
motion_pause p now m =
    let timeout = if p.timeout == 0 then second else p.timeout in
    if m.unsupported || (not m.known || m.active)
    then none
    else if leb timeout (now - m.changed_at)
    then some no_motion
    else none

-- `shouldPause`: `clients` is whether the handler has clients, `none` for no handler.
unfoldable pub should_pause : PauseConfig → Option Motion → ℕ → Option Bool → Option Reason
unfolding motion_pause
should_pause p motion now clients =
    let idle = elim clients as (λ o. Bool) [ none ↦ false | some has ↦ not has ] in
    let by_motion = elim motion as (λ o. Option Reason) [
      | none ↦ none
      | some m ↦ motion_pause p now m
    ] in
    if p.on_client && idle then some no_rtsp_client else if not p.on_motion then none else by_motion
