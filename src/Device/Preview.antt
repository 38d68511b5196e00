-- ===== src/Device/Preview.antt =====
-- `StreamPackets` and `pumpPreview` of pkg/bridge/device.go: the rounds in which a stream is asked for,
-- and what becomes of one preview.
use reolinkproxy.Base.{
  second, ℕ, zero, suc, ◌*◌, ◌^◌, ◌≡◌, List, [], ◌∷◌, Bool, true, false, Option, none, some, min,
  if◌then◌else◌,
}
use reolinkproxy.Device.{Device, ClientError, Login, ensure, reset_if_current, next_rejected_pause}

-- `previewOutcome`.
pub data Outcome : Type 0 where
  context_done restart reset_client : Outcome

-- What a preview meets, in order: a packet, the end of the packets (with an error of the reader or
-- not), the stall timer (is there an end of privacy to wait for), the ticker (is the stream wanted, and
-- does StopPreview fail).
pub data Event : Type 0 where
  cancelled : Event
  packet : ℕ → Event
  packets_end : Bool → Event
  stall_timer : Bool → Event
  idle_ticker : Bool → Bool → Event

-- What a preview did: the packets it passed on, StopPreview, a drop of the client, and its outcome.
pub record Pumped : Type 0 where
  pub out : List ℕ
  pub stops : Bool
  pub drops : Bool
  pub outcome : Option Outcome

abbrev pub ends : Bool → Bool → Outcome → Pumped
ends stops drops outcome = record { out = []; stops = stops; drops = drops; outcome = some outcome }

-- `pumpPreview`; no outcome as long as it runs.
unfoldable pub pump_preview : List Event → Pumped
pump_preview [] = record { out = []; stops = false; drops = false; outcome = none }
pump_preview (cancelled ∷ events) = ends false false context_done
pump_preview (packet p ∷ events) =
    let later = pump_preview events in record later { out = p ∷ later.out }
pump_preview (packets_end true ∷ events) = ends true false restart
pump_preview (packets_end false ∷ events) = ends false false reset_client
pump_preview (stall_timer true ∷ events) = pump_preview events
pump_preview (stall_timer false ∷ events) = ends true false restart
pump_preview (idle_ticker true fails ∷ events) = pump_preview events
pump_preview (idle_ticker false fails ∷ events) = ends true fails restart

-- What StartPreview says: a status of the camera, another error, or a preview and what it meets.
pub data Started : Type 0 where
  refused : Started
  failed : Started
  previews : List Event → Started

-- What one round meets. `privacy` says that there is an end of privacy mode to wait for; `wanted` and
-- `still_wanted` are what `wantStream` says before and after, `true` where there is none.
pub record Round : Type 0 where
  pub now : ℕ
  pub wanted : Bool
  pub err : Option ClientError
  pub dial : Bool → Option Login
  pub start : ℕ → Started
  pub privacy : Bool
  pub still_wanted : Bool
  pub drop_err : Option ClientError

-- What it waits for before the next round.
pub data Wait : Type 0 where
  wanted_again reconnect_backoff privacy_end brief : Wait
  rejected : ℕ → Wait
  leaves : Wait

-- A round after a preview of the client `client` has ended; no outcome: it still runs.
unfoldable pub after_preview : Round → ℕ → Pumped → Device → Wait × ℕ × Device
unfolding reset_if_current
after_preview r client pumped m =
    let dropped : Device = if pumped.drops then reset_if_current r.drop_err client m else m in
    elim pumped.outcome [
      | none ↦ (leaves, 0, dropped)
      | some outcome ↦ elim outcome [
        | context_done ↦ (leaves, 0, dropped)
        | restart ↦ (brief, 0, dropped)
        | reset_client ↦ (
          brief,
          0,
          if r.still_wanted then reset_if_current r.drop_err client dropped else dropped,
        )
      ]
    ]

-- A round with the client that `Ensure` gave: what it waits for, `rejectedPause`, the device.
unfoldable pub preview : Round → ℕ → ℕ → Started → Device → Wait × ℕ × Device
unfolding reset_if_current pump_preview after_preview next_rejected_pause
preview r client pause refused m =
    if r.privacy
    then (privacy_end, 0, m)
    else (rejected (next_rejected_pause pause), next_rejected_pause pause, m)
preview r client pause failed m = (reconnect_backoff, pause, reset_if_current r.drop_err client m)
preview r client pause (previews events) m = after_preview r client (pump_preview events) m

unfoldable pub with_client : Round → ℕ → Option ℕ → Device → Wait × ℕ × Device
unfolding preview
with_client r pause none m = (reconnect_backoff, pause, m)
with_client r pause (some client) m = preview r client pause (r.start client) m

-- A round of `StreamPackets`.
unfoldable pub round : Round → ℕ → Device → Wait × ℕ × Device
unfolding with_client ensure
round r pause m =
    let (client, uid_first, m') = ensure r.now r.err r.dial m in
    if r.wanted then with_client r pause client m' else (wanted_again, pause, m)

abbrev pub goes_on : Wait → Bool
goes_on leaves = false
goes_on wanted_again = true
goes_on reconnect_backoff = true
goes_on privacy_end = true
goes_on brief = true
goes_on (rejected pause) = true

-- What the rounds wait for, and the device in the end.
unfoldable pub stream_packets : ℕ → Device → List Round → List Wait × Device
unfolding round
stream_packets pause m [] = ([], m)
stream_packets pause m (r ∷ rounds) =
    let (wait, pause', m') = round r pause m in
    let (waits, last) = stream_packets pause' m' rounds in
    if goes_on wait then (wait ∷ waits, last) else (wait ∷ [], m')

-- Rounds in which the stream is wanted, the client is alive and the camera refuses outside privacy mode.
abbrev pub AllRefused : ℕ → List Round → Type 0
AllRefused client [] = Unit {0}
AllRefused client (r ∷ rounds) =
    (r.wanted ≡ true)
    × (r.err ≡ none)
    × (r.start client ≡ refused)
    × (r.privacy ≡ false)
    × AllRefused client rounds

-- The pause after k refusals.
abbrev pub pause_after : ℕ → ℕ
pause_after zero = 0
pause_after (suc k) = min (2 ^ suc k * second) (60 * second)

abbrev pub doubling : ℕ → List Round → List Wait
doubling k [] = []
doubling k (r ∷ rounds) = rejected (pause_after (suc k)) ∷ doubling (suc k) rounds
