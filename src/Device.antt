-- ===== src/Device.antt =====
-- The shared connection of a camera, pkg/bridge/device.go: opening and dropping it, the choice of the
-- transport, and the states it reports. Times are nanoseconds since some start.
pub mod Reports
pub mod Notify
pub mod TalkRetry
pub mod Renewing
pub mod Probing
pub mod Preview
pub mod Webhook
pub mod Spacing
use reolinkproxy.Base.{
  second, ℕ, zero, suc, ◌+◌, ◌-◌, ◌*◌, max, min, List, [], ◌∷◌, ◌++◌, Bool, true, false, not, ◌&&◌,
  ◌||◌, ltb, leb, ◌==◌, if◌then◌else◌, Option, none, some,
}

abbrev pub uid_reprobe_interval : ℕ
uid_reprobe_interval = 300 * second

abbrev pub talk_retry_pause : ℕ
talk_retry_pause = 3 * second

abbrev pub preview_rejected_pause_min : ℕ
preview_rejected_pause_min = 2 * second

abbrev pub preview_rejected_pause_max : ℕ
preview_rejected_pause_max = 60 * second

-- Why a client is no longer usable: `ErrIdle`, or anything else.
pub data ClientError : Type 0 where
  idle lost : ClientError

-- The part of `cameraDevice` that `mu` guards. A client is known by a number of its own, `notified`
-- is what `notifyState` was given, in order.
pub record Device : Type 0 where
  pub has_host : Bool
  pub prefer_uid : Bool
  pub prefer_uid_since : ℕ
  pub dual_lens : Bool
  pub client : Option ℕ
  pub notified : List Bool

-- `closeLocked` for the client that the device has; `err` is what `client.Err()` says of it.
unfoldable pub drop_client : Option ClientError → Option ℕ → Device → Device
drop_client err none m = m
drop_client (some idle) (some client) m = record m { client = none }
drop_client (some lost) (some client) m = record m {
  client = none;
  notified = m.notified ++ false ∷ [];
}
drop_client none (some client) m = record m { client = none; notified = m.notified ++ false ∷ [] }

unfoldable pub close_locked : Option ClientError → Device → Device
unfolding drop_client
close_locked err m = drop_client err m.client m

unfoldable pub is_current : ℕ → Option ℕ → Bool
is_current client none = false
is_current client (some current) = current == client

unfoldable pub reset_if_current : Option ClientError → ℕ → Device → Device
unfolding is_current close_locked
reset_if_current err client m = if is_current client m.client then close_locked err m else m

unfoldable pub should_reprobe_tcp : ℕ → Device → Bool
should_reprobe_tcp now m =
    m.has_host && (m.prefer_uid && leb uid_reprobe_interval (now - m.prefer_uid_since))

unfoldable pub note_transport : ℕ → Bool → Device → Device
note_transport now true m =
    if m.prefer_uid then m else record m { prefer_uid = true; prefer_uid_since = now }
note_transport now false m = if m.prefer_uid then record m { prefer_uid = false } else m

-- What dialling and the login gave, if they did not fail.
pub record Login : Type 0 where
  pub client : ℕ
  pub used_uid : Bool
  pub dual_lens : Bool

-- The end of `Ensure`, after Dial and Login.
unfoldable pub logged_in : ℕ → Option Login → Device → Option ℕ × Device
unfolding note_transport
logged_in now none m = (none, m)
logged_in now (some login) m = (
  some login.client,
  record (note_transport now login.used_uid m) {
    client = some login.client;
    dual_lens = login.dual_lens;
    notified = m.notified ++ true ∷ [];
  },
)

-- `Ensure` from the dial on: the client, if there is one, the `PreferUID` that was dialled with, and
-- the device. `dial` is Dial and Login for that `PreferUID`; a failed login closes its own client.
unfoldable pub connect : ℕ → (Bool → Option Login) → Device → Option ℕ × Option Bool × Device
unfolding should_reprobe_tcp logged_in
connect now dial m =
    let probe = should_reprobe_tcp now m in
    let uid_first = not probe && m.prefer_uid in
    let dialled : Device = record m {
      prefer_uid_since = if probe then now else m.prefer_uid_since;
    } in
    let (client, m') = logged_in now (dial uid_first) dialled in (client, some uid_first, m')

-- The client that `Ensure` returns at once.
unfoldable pub usable : Option ClientError → Option ℕ → Option ℕ
usable none client = client
usable (some err) client = none

unfoldable pub ensure_with :
    Option ℕ
    → ℕ
    → Option ClientError
    → (Bool → Option Login)
    → Device
    → Option ℕ × Option Bool × Device
unfolding connect close_locked
ensure_with (some client) now err dial m = (some client, none, m)
ensure_with none now err dial m = connect now dial (close_locked err m)

-- `Ensure`: the client, the `PreferUID` that it dialled with, if it dialled, and the device.
unfoldable pub ensure :
    ℕ → Option ClientError → (Bool → Option Login) → Device → Option ℕ × Option Bool × Device
unfolding usable ensure_with
ensure now err dial m = ensure_with (usable err m.client) now err dial m

-- The pause of `StreamPackets` after a preview that the camera refused.
unfoldable pub next_rejected_pause : ℕ → ℕ
next_rejected_pause pause =
    min (max (2 * pause) preview_rejected_pause_min) preview_rejected_pause_max

-- The calls that a device gets, at their times and with what the client and the network answer.
pub data Call : Type 0 where
  ensures : ℕ → Option ClientError → (Bool → Option Login) → Call
  resets : Option ClientError → ℕ → Call
  closes : Option ClientError → Call

unfoldable pub perform : Device → Call → Device
unfolding ensure
perform m (ensures now err dial) = (ensure now err dial m).2
perform m (resets err client) = reset_if_current err client m
perform m (closes err) = close_locked err m

unfoldable pub run : Device → List Call → Device
run m [] = m
run m (c ∷ calls) = run (perform m c) calls
