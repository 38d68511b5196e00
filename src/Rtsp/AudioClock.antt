-- ===== src/Rtsp/AudioClock.antt =====
-- The times of the audio that a publisher sends (pkg/bridge/rtsp.go).
use reolinkproxy.Base.{
  ℕ, ◌+◌, ◌*◌, ◌≡◌, refl, List, [], ◌∷◌, ◌++◌, Bool, true, false, not, ◌&&◌, ◌||◌, if◌then◌else◌,
  Option, none, some, All, arith, subst, ◌∙◌,
}
use reolinkproxy.Base.Bytes.{IsU32}
use reolinkproxy.Timing.{Guard, wrap32}
use reolinkproxy.Timing.Serial.{Follow, AllFollow}
use reolinkproxy.Rtsp.Audio.{
  Publisher, new_publisher, Arrival, Sending, silent, or_else, rtp_timestamp_for_media_time, send,
  is_ready, request_rebuild_if_late, configure_aac, with_aac, process_aac, configure_g711,
  process_adpcm, mismatches_declared, drop_declaration,
}
use reolinkproxy.Rtsp.AudioSteps.{
  Packet, aac_packet, adpcm_packet, process, arrival, duration, span, audio_spans, AreU32, Sized,
  Moves, Bounded, expected-IsU32, send-Moves,
}

-- A step that leaves the guard alone, and keeps the publisher's clock within 32 bits.
abbrev Quiet : Publisher → Publisher → Type 0
Quiet p q = (q.timestamp_guard ≡ p.timestamp_guard) × Bounded q

if_Quiet : (c : Bool) (p q r : Publisher) → Quiet p q → Quiet p r → Quiet p (if c then q else r)
if_Quiet true p q r hq hr = hq
if_Quiet false p q r hq hr = hr

late-Quiet : (up : Bool) (p q : Publisher) → Quiet p q → Quiet p (request_rebuild_if_late up q)
unfolding request_rebuild_if_late
late-Quiet up p q h =
    if_Quiet (not up || q.rebuild_asked) p q
      (record q { rebuild_asked = true; late_audio = q.late_audio + 1 }) h h

configure_aac-Quiet :
    (rate channels : ℕ) (a : Arrival) (p : Publisher)
    → Bounded p
    → Quiet p (configure_aac rate channels a p)
unfolding configure_aac
configure_aac-Quiet rate channels a p b =
    late-Quiet a.handler_ready p
      (record p {
        media = true;
        aac_encoder = true;
        declared_rate = rate;
        declared_chans = channels;
        next_timestamp = or_else (rtp_timestamp_for_media_time a.time rate) 0;
      })
      (refl, (expected-IsU32 a.time rate 0 (omega arith), b.1))

configure_g711-Quiet : (a : Arrival) (p : Publisher) → Bounded p → Quiet p (configure_g711 a p)
unfolding configure_g711
configure_g711-Quiet a p b =
    late-Quiet a.handler_ready p
      (record p {
        media = true;
        g711_encoder = true;
        declared_rate = 8000;
        declared_chans = 1;
        next_timestamp = or_else (rtp_timestamp_for_media_time a.time 8000) 0;
      })
      (refl, (expected-IsU32 a.time 8000 0 (omega arith), b.1))

-- A publisher after a packet, as one sent from a guard.
abbrev SendsFrom : Guard → Option (List ℕ) → ℕ → Sending × Publisher → Type 0
SendsFrom g stamps length r = Moves g (span r.0 stamps length) r.1.timestamp_guard × Bounded r.1

abbrev Sends : Publisher → Option (List ℕ) → ℕ → Sending × Publisher → Type 0
Sends p = SendsFrom p.timestamp_guard

if_Sends :
    (c : Bool) (p : Publisher) (stamps : Option (List ℕ)) (length : ℕ) (q r : Sending × Publisher)
    → Sends p stamps length q
    → Sends p stamps length r
    → Sends p stamps length (if c then q else r)
if_Sends true p stamps length q r hq hr = hq
if_Sends false p stamps length q r hq hr = hr

-- A packet that is sent after a quiet step is sent from the guard before that step.
send_after_Quiet :
    (rate : ℕ) (encoder : Bool) (a : Arrival) (length : ℕ) (p q : Publisher)
    → Quiet p q
    → IsU32 length
    → AreU32 a.stamps
    → Sends p a.stamps length (
        send encoder a.handler_ready a.publish
          (rtp_timestamp_for_media_time a.time rate)
          a.time.authoritative
          a.stamps
          length
          q)
send_after_Quiet rate encoder a length p q (same, b) l s =
    let r =
      send encoder a.handler_ready a.publish (rtp_timestamp_for_media_time a.time rate)
        a.time.authoritative a.stamps length q in
    subst (λ g. SendsFrom g a.stamps length r) same
      (send-Moves a.time rate encoder a.handler_ready a.publish a.time.authoritative a.stamps length
        q b l s)

process_adpcm-Sends :
    (samples : ℕ) (a : Arrival) (p : Publisher)
    → Bounded p
    → AreU32 a.stamps
    → Sends p a.stamps (wrap32 samples) (process_adpcm samples a p)
unfolding process_adpcm
process_adpcm-Sends samples a p b s =
    let q = if is_ready p then p else configure_g711 a p in
    if_Sends (not (is_ready p) && not a.creates) p a.stamps (wrap32 samples) (silent, p) _ (refl, b)
      (send_after_Quiet 8000 q.g711_encoder a (wrap32 samples) p q
        (if_Quiet (is_ready p) p p (configure_g711 a p) (refl, b) (configure_g711-Quiet a p b))
        (omega arith) s)

with_aac-Sends :
    (rate channels units : ℕ) (a : Arrival) (p q : Publisher)
    → Quiet p q
    → AreU32 a.stamps
    → Sends p a.stamps (wrap32 (units * 1024)) (with_aac rate channels units a q)
unfolding with_aac
with_aac-Sends rate channels units a p q (same, b) s =
    let length = wrap32 (units * 1024) in
    let ready = if is_ready q then q else configure_aac rate channels a q in
    let quiet : Quiet q ready =
      if_Quiet (is_ready q) q q (configure_aac rate channels a q) (refl, b)
        (configure_aac-Quiet rate channels a q b) in
    if_Sends (not (is_ready q) && not a.creates) p a.stamps length (silent, q) _ (same, b)
      (send_after_Quiet rate ready.aac_encoder a length p ready (quiet.0 ∙ same, quiet.1)
        (omega arith) s)

process-Sends :
    (x : Packet) (p : Publisher)
    → Bounded p
    → Sized x
    → Sends p (arrival x).stamps (duration x) (process x p)
unfolding process_aac drop_declaration
process-Sends (aac_packet none a) p b s = (refl, b)
process-Sends (aac_packet (some (rate, channels, units)) a) p b s =
    with_aac-Sends rate channels units a p
      (if mismatches_declared rate channels p then drop_declaration p else p)
      (if_Quiet (mismatches_declared rate channels p) p (drop_declaration p) p (refl, b) (refl, b))
      s
process-Sends (adpcm_packet samples a) p b s = process_adpcm-Sends samples a p b s

-- What the spans of the later packets are, after a guard that is set or not.
abbrev AfterGuard : Guard → List (ℕ × ℕ) → Type 0
AfterGuard g spans = AllFollow spans × (g.set ≡ true → Follow g.last spans)

add-AfterGuard :
    (g g' : Guard) (one spans : List (ℕ × ℕ))
    → Moves g one g'
    → AfterGuard g' spans
    → AfterGuard g (one ++ spans)
add-AfterGuard g g' [] spans same h = subst (λ k. AfterGuard k spans) same h
add-AfterGuard g g' ((begin, end) ∷ []) spans (after, last, set) (all, follow) =
    let later : Follow end spans = subst (λ k. Follow k spans) last (follow set) in
    (later, λ was. (ground (arith, after, was), later))
add-AfterGuard g g' (x ∷ y ∷ more) spans wrong h = elim wrong [ ]

AfterGuard-audio_spans :
    (p : Publisher) (packets : List Packet)
    → Bounded p
    → All Sized packets
    → AfterGuard p.timestamp_guard (audio_spans p packets)
AfterGuard-audio_spans p [] b h = (tt, λ set. tt)
AfterGuard-audio_spans p (x ∷ packets) b (size, h) =
    let (moves, b') = process-Sends x p b size in
    let (sending, p') = process x p in
    add-AfterGuard p.timestamp_guard p'.timestamp_guard
      (span sending (arrival x).stamps (duration x)) (audio_spans p' packets) moves
      (AfterGuard-audio_spans p' packets b' h)

-- Whatever packets of AAC and ADPCM come, and whatever clocks, encoders and rebuilds there are: where
-- the encoders' timestamps are 32 bits wide, the audio that a publisher sends for a packet begins no
-- earlier than the audio that it sent before ends.
pub AllFollow-audio_spans :
    (packets : List Packet) → All Sized packets → AllFollow (audio_spans new_publisher packets)
AllFollow-audio_spans packets h =
    (AfterGuard-audio_spans new_publisher packets (omega arith, omega arith) h).0
