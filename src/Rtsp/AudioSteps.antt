-- ===== src/Rtsp/AudioSteps.antt =====
-- One packet through the guard of an audio publisher (pkg/bridge/rtsp.go).
use reolinkproxy.Base.{
  ℕ, ◌+◌, ◌*◌, ◌≡◌, refl, List, [], ◌∷◌, ◌++◌, Bool, true, false, Option, none, some, All, arith,
  ◌⊎◌,
}
use reolinkproxy.Base.Bytes.{IsU32}
use reolinkproxy.Timing.{
  Guard, wrap32, rtp_timestamp_before, apply_base_to_packets, rtp_timestamp_for_clock,
}
use reolinkproxy.Timing.Serial.{Block, one_block}
use reolinkproxy.Rtsp.Audio.{
  Publisher, MediaTimestamp, Arrival, Sending, silent, sent, no_encoder, or_else,
  rtp_timestamp_for_media_time, base_timestamp, emit, send, process_aac, process_adpcm,
}

-- A packet from the camera, AAC (what was parsed of it) or ADPCM (its samples).
pub data Packet : Type 0 where
  aac_packet : Option (ℕ × ℕ × ℕ) → Arrival → Packet
  adpcm_packet : ℕ → Arrival → Packet

abbrev pub process : Packet → Publisher → Sending × Publisher
process (aac_packet parsed a) p = process_aac parsed a p
process (adpcm_packet samples a) p = process_adpcm samples a p

abbrev pub arrival : Packet → Arrival
arrival (aac_packet parsed a) = a
arrival (adpcm_packet samples a) = a

abbrev pub duration : Packet → ℕ
duration (aac_packet none a) = 0
duration (aac_packet (some (sample_rate, channels, units)) a) = wrap32 (units * 1024)
duration (adpcm_packet samples a) = wrap32 samples

-- Where the first RTP packet begins, and where the audio ends, if it is sent.
abbrev pub span : Sending → Option (List ℕ) → ℕ → List (ℕ × ℕ)
span silent stamps length = []
span no_encoder stamps length = []
span (sent base) none length = []
span (sent base) (some []) length = []
span (sent base) (some (stamp ∷ stamps)) length =
    (wrap32 (base + stamp), wrap32 (wrap32 (base + stamp) + length)) ∷ []

abbrev pub audio_spans : Publisher → List Packet → List (ℕ × ℕ)
audio_spans p [] = []
audio_spans p (x ∷ packets) =
    let (sending, p') = process x p in
    span sending (arrival x).stamps (duration x) ++ audio_spans p' packets

-- The encoder's timestamps are 32 bits wide.
abbrev pub AreU32 : Option (List ℕ) → Type 0
AreU32 none = Unit {0}
AreU32 (some stamps) = All IsU32 stamps

abbrev pub Sized : Packet → Type 0
Sized x = AreU32 (arrival x).stamps

-- From one guard to the next, with the span that was sent in between, if any.
abbrev pub Moves : Guard → List (ℕ × ℕ) → Guard → Type 0
Moves g [] g' = g' ≡ g
Moves g ((begin, end) ∷ []) g' =
    ((g.set ≡ false) ⊎ (rtp_timestamp_before begin g.last ≡ false))
    × (g'.last ≡ end)
    × (g'.set ≡ true)
Moves g (x ∷ y ∷ more) g' = ⊥

abbrev pub Bounded : Publisher → Type 0
Bounded p = IsU32 p.next_timestamp × IsU32 p.timestamp_guard.last

pub expected-IsU32 :
    (t : MediaTimestamp) (rate k : ℕ)
    → IsU32 k
    → IsU32 (or_else (rtp_timestamp_for_media_time t rate) k)
unfolding rtp_timestamp_for_media_time rtp_timestamp_for_clock
expected-IsU32 t rate k h = ground (arith, h)

base_timestamp-IsU32 :
    (t : MediaTimestamp) (rate : ℕ) (authoritative : Bool) (p : Publisher)
    → Bounded p
    → IsU32 (base_timestamp (rtp_timestamp_for_media_time t rate) authoritative p).0
unfolding base_timestamp rtp_timestamp_for_media_time rtp_timestamp_for_clock
base_timestamp-IsU32 t rate authoritative p b = ground (arith, b)

emit-Moves :
    (t : MediaTimestamp) (rate : ℕ) (authoritative : Bool) (stamps : List ℕ) (length : ℕ)
    (p : Publisher)
    → Bounded p
    → IsU32 length
    → All IsU32 stamps
    → let (base, p') = emit (rtp_timestamp_for_media_time t rate) authoritative stamps length p in
      Moves p.timestamp_guard (span (sent base) (some stamps) length) p'.timestamp_guard
      × Bounded p'
unfolding emit
emit-Moves t rate authoritative [] length p b l s = (
  unfold apply_base_to_packets in refl,
  (unfold apply_base_to_packets in omega arith, unfold apply_base_to_packets in b.1),
)
emit-Moves t rate authoritative (stamp ∷ stamps) length p b l s =
    let proposed = (base_timestamp (rtp_timestamp_for_media_time t rate) authoritative p).0 in
    let block : Block = record {
      base = proposed;
      first = stamp;
      others = stamps;
      duration = length;
    } in
    let (after, last, set) =
      one_block p.timestamp_guard block b.1
        (base_timestamp-IsU32 t rate authoritative p b, s.0, l) in
    ((after, last, set), (omega arith, rw last (omega arith)))

pub send-Moves :
    (t : MediaTimestamp) (rate : ℕ) (encoder handler_ready publish authoritative : Bool)
    (stamps : Option (List ℕ)) (length : ℕ) (p : Publisher)
    → Bounded p
    → IsU32 length
    → AreU32 stamps
    → let (sending, p') =
        send encoder handler_ready publish
          (rtp_timestamp_for_media_time t rate)
          authoritative
          stamps
          length
          p in
      Moves p.timestamp_guard (span sending stamps length) p'.timestamp_guard × Bounded p'
unfolding send
send-Moves t rate true true true authoritative none length p b l s = (refl, b)
send-Moves t rate false true true authoritative none length p b l s = (refl, b)
send-Moves t rate encoder true false authoritative none length p b l s = (refl, b)
send-Moves t rate encoder false publish authoritative none length p b l s = (refl, b)
send-Moves t rate true true true authoritative (some stamps) length p b l s =
    emit-Moves t rate authoritative stamps length p b l s
send-Moves t rate false true true authoritative (some stamps) length p b l s = (refl, b)
send-Moves t rate encoder true false authoritative (some stamps) length p b l s = (refl, b)
send-Moves t rate encoder false publish authoritative (some stamps) length p b l s = (refl, b)
