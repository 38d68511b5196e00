-- ===== src/Rtsp/Audio.antt =====
-- `audioPublisher` of pkg/bridge/rtsp.go: the audio track of a stream, and the times of its packets.
use reolinkproxy.Base.{
  ℕ, ◌+◌, ◌*◌, List, Bool, true, false, not, ◌&&◌, ◌||◌, leb, ◌==◌, if◌then◌else◌, Option, none,
  some,
}
use reolinkproxy.Timing.{Guard, new_guard, wrap32, apply_base_to_packets, rtp_timestamp_for_clock}

-- `media`, `aac_encoder` and `g711_encoder` are whether these are set; `late_audio` counts the calls
-- of `onLateAudio`.
pub record Publisher : Type 0 where
  pub media : Bool
  pub aac_encoder : Bool
  pub g711_encoder : Bool
  pub late_audio : ℕ
  pub next_timestamp : ℕ
  pub anchored : Bool
  pub declared_rate : ℕ
  pub declared_chans : ℕ
  pub published : Bool
  pub timestamp_guard : Guard
  pub unsupported : Bool
  pub rebuild_asked : Bool

abbrev pub new_publisher : Publisher
new_publisher = record {
  media = false;
  aac_encoder = false;
  g711_encoder = false;
  late_audio = 0;
  next_timestamp = 0;
  anchored = false;
  declared_rate = 0;
  declared_chans = 0;
  published = false;
  timestamp_guard = new_guard;
  unsupported = false;
  rebuild_asked = false;
}

-- `aacChannelConfig`, for a count that is not negative.
unfoldable pub aac_channel_config : ℕ → ℕ
aac_channel_config channels =
    if channels == 8 then 7 else if leb 1 channels && leb channels 6 then channels else 0

-- `declareAAC`; `creates` is whether gortsplib gives an encoder.
unfoldable pub declare_aac : ℕ → ℕ → Bool → Publisher → Publisher
declare_aac sample_rate channels creates p =
    if creates
    then record p {
      media = true;
      aac_encoder = true;
      declared_rate = sample_rate;
      declared_chans = channels;
    }
    else p

unfoldable pub mismatches_declared : ℕ → ℕ → Publisher → Bool
mismatches_declared sample_rate channels p =
    not (p.declared_rate == 0)
    && (not (p.declared_rate == sample_rate) || not (p.declared_chans == channels))

unfoldable pub drop_declaration : Publisher → Publisher
drop_declaration p = record p {
  media = false;
  aac_encoder = false;
  g711_encoder = false;
  declared_rate = 0;
  declared_chans = 0;
}

unfoldable pub is_ready : Publisher → Bool
is_ready p = p.media && (p.aac_encoder || p.g711_encoder)

pub data HintCodec : Type 0 where
  no_audio aac pcma : HintCodec

-- `hint`: the codec, and the rate and the channels.
unfoldable pub hint : Publisher → HintCodec × ℕ × ℕ
unfolding is_ready
hint p =
    if not (is_ready p)
    then (no_audio, 0, 0)
    else ((if p.aac_encoder then aac else pcma), p.declared_rate, p.declared_chans)

unfoldable pub awaiting_startup_decision : Bool → Publisher → Bool
unfolding is_ready
awaiting_startup_decision before_deadline p =
    not (is_ready p) && (not p.unsupported && before_deadline)

unfoldable pub request_rebuild_if_late : Bool → Publisher → Publisher
request_rebuild_if_late handler_ready p =
    if not handler_ready || p.rebuild_asked
    then p
    else record p { rebuild_asked = true; late_audio = p.late_audio + 1 }

pub record MediaTimestamp : Type 0 where
  pub microseconds : ℕ
  pub valid : Bool
  pub authoritative : Bool

-- `rtpTimestampForMediaTime`
unfoldable pub rtp_timestamp_for_media_time : MediaTimestamp → ℕ → Option ℕ
unfolding rtp_timestamp_for_clock
rtp_timestamp_for_media_time t clock_rate =
    if t.valid then some (rtp_timestamp_for_clock t.microseconds clock_rate) else none

abbrev pub or_else : Option ℕ → ℕ → ℕ
or_else none k = k
or_else (some t) k = t

-- `baseTimestamp`, and `anchored` after it.
unfoldable pub base_timestamp : Option ℕ → Bool → Publisher → ℕ × Bool
base_timestamp none authoritative p = (p.next_timestamp, p.anchored)
base_timestamp (some expected) authoritative p =
    if authoritative || not p.anchored then (expected, true) else (p.next_timestamp, p.anchored)

-- The end of both handlers: the base that the packets go out on.
unfoldable pub emit : Option ℕ → Bool → List ℕ → ℕ → Publisher → ℕ × Publisher
unfolding base_timestamp apply_base_to_packets
emit expected authoritative stamps duration p =
    let (proposed, anchored) = base_timestamp expected authoritative p in
    let (base, guard) = apply_base_to_packets p.timestamp_guard stamps proposed duration in
    (
      base,
      record p {
        anchored = anchored;
        timestamp_guard = guard;
        published = true;
        next_timestamp = wrap32 (base + duration);
      },
    )

-- What a packet of audio came to: nothing is sent, it is sent on a base, or there is no encoder of its
-- kind to call.
pub data Sending : Type 0 where
  silent : Sending
  sent : ℕ → Sending
  no_encoder : Sending

-- What happens once the track is configured. `stamps` are the timestamps of the packets that the
-- encoder gives, if it gives any.
unfoldable pub send :
    Bool → Bool → Bool → Option ℕ → Bool → Option (List ℕ) → ℕ → Publisher → Sending × Publisher
unfolding emit
send encoder handler_ready publish expected authoritative none duration p =
    if handler_ready && (publish && not encoder) then (no_encoder, p) else (silent, p)
send encoder handler_ready publish expected authoritative (some stamps) duration p =
    let (base, p') = emit expected authoritative stamps duration p in
    if handler_ready && publish
    then (if encoder then (sent base, p') else (no_encoder, p))
    else (silent, p)

-- A packet of AAC: the rate, the channels and the number of its units, if it can be parsed; for both
-- kinds the clock, the packets' timestamps, whether an encoder can be made, whether the session is up
-- and whether to publish.
pub record Arrival : Type 0 where
  pub time : MediaTimestamp
  pub stamps : Option (List ℕ)
  pub creates : Bool
  pub handler_ready : Bool
  pub publish : Bool

unfoldable pub configure_aac : ℕ → ℕ → Arrival → Publisher → Publisher
unfolding request_rebuild_if_late rtp_timestamp_for_media_time
configure_aac sample_rate channels a p = request_rebuild_if_late a.handler_ready (record p {
  media = true;
  aac_encoder = true;
  declared_rate = sample_rate;
  declared_chans = channels;
  next_timestamp = or_else (rtp_timestamp_for_media_time a.time sample_rate) 0;
})

unfoldable pub with_aac : ℕ → ℕ → ℕ → Arrival → Publisher → Sending × Publisher
unfolding send configure_aac is_ready
with_aac sample_rate channels units a p =
    let expected = rtp_timestamp_for_media_time a.time sample_rate in
    let q = if is_ready p then p else configure_aac sample_rate channels a p in
    if not (is_ready p) && not a.creates
    then (silent, p)
    else send q.aac_encoder a.handler_ready a.publish expected a.time.authoritative a.stamps
        (wrap32 (units * 1024)) q

-- `processAAC`
unfoldable pub process_aac : Option (ℕ × ℕ × ℕ) → Arrival → Publisher → Sending × Publisher
unfolding with_aac mismatches_declared drop_declaration
process_aac none a p = (silent, record p { unsupported = true })
process_aac (some (sample_rate, channels, units)) a p =
    with_aac sample_rate channels units a
      (if mismatches_declared sample_rate channels p then drop_declaration p else p)

unfoldable pub configure_g711 : Arrival → Publisher → Publisher
unfolding request_rebuild_if_late rtp_timestamp_for_media_time
configure_g711 a p = request_rebuild_if_late a.handler_ready (record p {
  media = true;
  g711_encoder = true;
  declared_rate = 8000;
  declared_chans = 1;
  next_timestamp = or_else (rtp_timestamp_for_media_time a.time 8000) 0;
})

-- `processADPCM`, for the number of samples in the packet.
unfoldable pub process_adpcm : ℕ → Arrival → Publisher → Sending × Publisher
unfolding send configure_g711 is_ready
process_adpcm samples a p =
    let expected = rtp_timestamp_for_media_time a.time 8000 in
    let q = if is_ready p then p else configure_g711 a p in
    if not (is_ready p) && not a.creates
    then (silent, p)
    else send q.g711_encoder a.handler_ready a.publish expected a.time.authoritative a.stamps
        (wrap32 samples) q
