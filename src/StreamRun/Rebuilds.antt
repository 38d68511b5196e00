-- ===== src/StreamRun/Rebuilds.antt =====
-- How often a stream gives up its session for its audio (pkg/bridge/stream_run.go).
use reolinkproxy.Base.{
  ℕ, ◌+◌, ◌*◌, ◌≤◌, ◌≡◌, refl, List, [], ◌∷◌, Bool, true, false, not, Option, none, some, arith,
  Bool-cases, inl, inr, ltb, if◌then◌else◌, ◌||◌, ◌&&◌, length,
}
use reolinkproxy.Timing.{Smoothing, wrap32}
use reolinkproxy.Codec.Adpcm.{decode}
use reolinkproxy.Rtsp.Audio.{
  HintCodec, Sending, silent, sent, no_encoder, Publisher, Arrival, new_publisher, declare_aac,
  request_rebuild_if_late, emit, send, configure_aac, with_aac, process_aac, configure_g711,
  process_adpcm, mismatches_declared, drop_declaration, is_ready, rtp_timestamp_for_media_time,
}
use reolinkproxy.StreamRun.{
  Output, Reason, codec_change, silent_track, late_audio, opens, gives_up, writes_video,
  sends_audio, audio_known, hints, Event, Run, after_audio, hear_aac, hear_adpcm, run, start,
  new_run, window_for, timed, aac_of, adpcm_of, arrival, drop_track,
}
use reolinkproxy.StreamRun.Walk.{Keeps, run-kept}

abbrev pub one_for : Reason → Reason → ℕ
one_for codec_change codec_change = 1
one_for silent_track silent_track = 1
one_for late_audio late_audio = 1
one_for _ _ = 0

-- How often the session was given up for a reason.
abbrev pub times_for : Reason → List Output → ℕ
times_for why [] = 0
times_for why (opens audio ∷ log) = times_for why log
times_for why (gives_up other ∷ log) = one_for why other + times_for why log
times_for why (writes_video codec format ts ∷ log) = times_for why log
times_for why (sends_audio sending ∷ log) = times_for why log
times_for why (audio_known seen ∷ log) = times_for why log
times_for why (hints h ∷ log) = times_for why log

-- A publisher asks for a rebuild once.
record AsksOnce (p : Publisher) : Type 0 where
  pub few : p.late_audio ≤ 1
  pub unasked : p.rebuild_asked ≡ false → p.late_audio ≡ 0

-- What a publisher becomes, and it has not taken back what it asked for.
abbrev Onward : Publisher → Publisher → Type 0
Onward p q = AsksOnce q × (p.late_audio ≤ q.late_audio)

request-Onward :
    (up : Bool) (p q : Publisher) → Onward p q → Onward p (request_rebuild_if_late up q)
unfolding request_rebuild_if_late
request-Onward up p q (a, le) = elim (Bool-cases (not up || q.rebuild_asked)) [
  | inl never ↦ rw never (a, le)
  | inr asks ↦
      let fresh : q.late_audio ≡ 0 = a.unasked (ground (arith, asks)) in
      rw asks (record { few = omega (arith, fresh); unasked = λ e. cc e }, omega (arith, le))
]

emit-Onward :
    (expected : Option ℕ) (authoritative : Bool) (stamps : List ℕ) (duration : ℕ) (p q : Publisher)
    → Onward p q
    → Onward p (emit expected authoritative stamps duration q).1
unfolding emit
emit-Onward expected authoritative stamps duration p q h =
    (record { few = h.0.few; unasked = h.0.unasked }, h.1)

if_Onward :
    (c : Bool) (p : Publisher) (x y : Sending × Publisher)
    → Onward p x.1
    → Onward p y.1
    → Onward p (if c then x else y).1
if_Onward true p x y h k = h
if_Onward false p x y h k = k

send-Onward :
    (encoder up publish : Bool) (expected : Option ℕ) (authoritative : Bool)
    (stamps : Option (List ℕ)) (duration : ℕ) (p q : Publisher)
    → Onward p q
    → Onward p (send encoder up publish expected authoritative stamps duration q).1
unfolding send
send-Onward encoder up publish expected authoritative none duration p q h =
    if_Onward (up && (publish && not encoder)) p (no_encoder, q) (silent, q) h h
send-Onward encoder up publish expected authoritative (some stamps) duration p q h =
    let (base, q') = emit expected authoritative stamps duration q in
    let inner : Sending × Publisher = if encoder then (sent base, q') else (no_encoder, q) in
    if_Onward (up && publish) p inner (silent, q)
      (if_Onward encoder p (sent base, q') (no_encoder, q)
        (emit-Onward expected authoritative stamps duration p q h) h)
      h

choose_Onward :
    (c : Bool) (p q r : Publisher) → Onward p q → Onward p r → Onward p (if c then q else r)
choose_Onward true p q r h k = h
choose_Onward false p q r h k = k

with_aac-Onward :
    (rate channels units : ℕ) (a : Arrival) (p q : Publisher)
    → Onward p q
    → Onward p (with_aac rate channels units a q).1
unfolding with_aac configure_aac
with_aac-Onward rate channels units a p q h =
    let ready = if is_ready q then q else configure_aac rate channels a q in
    let rest =
      send ready.aac_encoder a.handler_ready a.publish (rtp_timestamp_for_media_time a.time rate)
        a.time.authoritative a.stamps (wrap32 (units * 1024)) ready in
    if_Onward (not (is_ready q) && not a.creates) p (silent, q) rest h
      (send-Onward ready.aac_encoder a.handler_ready a.publish _ a.time.authoritative a.stamps _ p
        ready
        (choose_Onward (is_ready q) p q (configure_aac rate channels a q) h (
          request-Onward a.handler_ready p _
            (record { few = h.0.few; unasked = h.0.unasked }, h.1))))

process_aac-Onward :
    (parsed : Option (ℕ × ℕ × ℕ)) (a : Arrival) (p : Publisher)
    → AsksOnce p
    → Onward p (process_aac parsed a p).1
unfolding process_aac drop_declaration
process_aac-Onward none a p h = (record { few = h.few; unasked = h.unasked }, omega arith)
process_aac-Onward (some (rate, channels, units)) a p h =
    with_aac-Onward rate channels units a p
      (if mismatches_declared rate channels p then drop_declaration p else p)
      (choose_Onward (mismatches_declared rate channels p) p (drop_declaration p) p
        (record { few = h.few; unasked = h.unasked }, omega arith) (h, omega arith))

process_adpcm-Onward :
    (samples : ℕ) (a : Arrival) (p : Publisher)
    → AsksOnce p
    → Onward p (process_adpcm samples a p).1
unfolding process_adpcm configure_g711
process_adpcm-Onward samples a p h =
    let ready = if is_ready p then p else configure_g711 a p in
    let rest =
      send ready.g711_encoder a.handler_ready a.publish (rtp_timestamp_for_media_time a.time 8000)
        a.time.authoritative a.stamps (wrap32 samples) ready in
    if_Onward (not (is_ready p) && not a.creates) p (silent, p) rest (h, omega arith)
      (send-Onward ready.g711_encoder a.handler_ready a.publish _ a.time.authoritative a.stamps _ p
        ready
        (choose_Onward (is_ready p) p p (configure_g711 a p) (h, omega arith)
          (request-Onward a.handler_ready p _
            (record { few = h.few; unasked = h.unasked }, omega arith))))

abbrev bit : Bool → ℕ
bit true = 1
bit false = 0

-- What is left: the declared track can be dropped once, and the publisher asks once.
record Spent (p : Publisher) (declared rebuild : Bool) (silences lates : ℕ) : Type 0 where
  pub asks : AsksOnce p
  pub silence : silences + bit declared ≤ 1
  pub late : lates + bit rebuild ≤ p.late_audio

module _ (f : Smoothing) (parse : List ℕ → Option (ℕ × ℕ × ℕ)) (clock_rate : ℕ) where
  abbrev IsSpent : Run f parse clock_rate → Type 0
  IsSpent r =
      Spent r.publisher r.declared r.rebuild (times_for silent_track r.log)
        (times_for late_audio r.log)

  after_audio-IsSpent :
      (pause : Bool) (out : Sending × Publisher) (r : Run f parse clock_rate)
      → IsSpent r
      → Onward r.publisher out.1
      → IsSpent (after_audio f parse clock_rate pause out r)
  unfolding after_audio
  after_audio-IsSpent pause (sending, p) r h (asks, le) =
      elim (Bool-cases (ltb r.publisher.late_audio p.late_audio)) [
        | inl more ↦
            rw more
              (record { asks = asks; silence = h.silence; late = ground (arith, h.late, more) })
        | inr usual ↦
            rw usual (record { asks = asks; silence = h.silence; late = omega (arith, h.late, le) })
      ]

  IsSpent-Keeps : Keeps f parse clock_rate IsSpent
  unfolding hear_aac hear_adpcm drop_track drop_declaration
  IsSpent-Keeps = record {
    timed = λ r t v h. h;
    formatted = λ r g h. h;
    changed = λ r h. record {
      asks = h.asks;
      silence = omega (arith, h.silence);
      late = omega (arith, h.late);
    };
    waited = λ r d h. h;
    part_opened = λ r h. h;
    all_opened = λ r c h. h;
    silenced = λ r e h. record {
      asks = record { few = h.asks.few; unasked = h.asks.unasked };
      silence = ground (arith, h.silence, e);
      late = omega (arith, h.late);
    };
    confirmed = λ r h. h;
    rebuilt = λ r e h. record {
      asks = h.asks;
      silence = omega (arith, h.silence);
      late = ground (arith, h.late, e);
    };
    measured = λ r b l h. h;
    written = λ r codec us h. h;
    heard_aac = λ r payload m h.
        after_audio-IsSpent m.pause (aac_of f parse clock_rate payload m r)
          (record r { timeline = (timed f parse clock_rate m r).1 }) h
          (process_aac-Onward (parse payload)
            (arrival f parse clock_rate m (timed f parse clock_rate m r).0 r) r.publisher h.asks);
    heard_adpcm = λ r payload m h.
        after_audio-IsSpent m.pause (adpcm_of f parse clock_rate payload m r)
          (record r {
            timeline = (timed f parse clock_rate m r).1;
            decoder = (decode r.decoder payload).1;
          })
          h
          (process_adpcm-Onward (length (decode r.decoder payload).0)
            (arrival f parse clock_rate m (timed f parse clock_rate m r).0 r) r.publisher h.asks);
    ticked = λ r b h. h;
  }

  new_run-IsSpent :
      (window : ℕ) (p : Publisher) (declared : Bool)
      → p.late_audio ≡ 0
      → IsSpent (new_run f parse clock_rate window p declared)
  unfolding new_run
  new_run-IsSpent window p declared fresh = record {
    asks = record { few = omega (arith, fresh); unasked = λ e. fresh };
    silence = ground arith;
    late = omega arith;
  }

  start-IsSpent :
      (seen : Option Bool) (known : Option (HintCodec × ℕ × ℕ)) (creates : Bool)
      → IsSpent (start f parse clock_rate seen known creates)
  unfolding start declare_aac
  start-IsSpent seen none creates = new_run-IsSpent (window_for seen) new_publisher false refl
  start-IsSpent seen (some (HintCodec.no_audio, rate, channels)) creates =
      new_run-IsSpent 0 new_publisher false refl
  start-IsSpent seen (some (HintCodec.pcma, rate, channels)) creates =
      new_run-IsSpent (window_for seen) new_publisher false refl
  start-IsSpent seen (some (HintCodec.aac, rate, channels)) creates =
      elim (Bool-cases (ltb 0 rate && ltb 0 channels)) [
        | inl e ↦ rw e (
            new_run-IsSpent (window_for seen) (declare_aac rate channels creates new_publisher)
              creates (declared creates))
        | inr e ↦ rw e (new_run-IsSpent (window_for seen) new_publisher false refl)
      ]
    where
      declared : (c : Bool) → (declare_aac rate channels c new_publisher).late_audio ≡ 0
      declared true = refl
      declared false = refl

-- Whatever the camera sends, a stream gives up its session for late audio once at most, and once at
-- most to drop a declared track that stays silent.
pub run-times_for :
    (f : Smoothing) (parse : List ℕ → Option (ℕ × ℕ × ℕ)) (clock_rate : ℕ) (seen : Option Bool)
    (known : Option (HintCodec × ℕ × ℕ)) (creates : Bool) (events : List Event)
    → let log = (run f parse clock_rate (start f parse clock_rate seen known creates) events).log in
      (times_for late_audio log ≤ 1) × (times_for silent_track log ≤ 1)
run-times_for f parse clock_rate seen known creates events =
    let spent =
      run-kept f parse clock_rate (IsSpent f parse clock_rate) (IsSpent-Keeps f parse clock_rate)
        (start f parse clock_rate seen known creates) events
        (start-IsSpent f parse clock_rate seen known creates) in
    (omega (arith, spent.late, spent.asks.few), omega (arith, spent.silence))
