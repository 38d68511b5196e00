-- ===== src/Media/Chunks.antt =====
-- How the transport cuts the stream into messages makes no difference to the packets.
use reolinkproxy.Base.{
  ℕ, zero, suc, ◌+◌, ◌<◌, ◌≡◌, ◌≢◌, ◌∙◌, ap, List, ◌++◌, arith, length, length-drop, drop,
  drop-append, append_assoc, inl, inr, ◌⊎◌,
}
use native.Mathlib.Numerals.{add-one}
use reolinkproxy.Media.{
  packet, incomplete, failed, panic, MediaPacket, MediaError, adpcm_marker, parse_media_packet,
  append_loop, append, waiting, stop, also, Appended,
}
use reolinkproxy.Media.Bounds.{parse_media_packet-Takes, Parsed-cases}
use reolinkproxy.Media.Stable.{parse_media_packet_stable}

-- Fuel above the length is as good as any other.
append_loop_fuel :
    (fuel more : ℕ) (buf : List ℕ)
    → length buf < fuel
    → length buf < more
    → append_loop fuel buf ≡ append_loop more buf
unfolding append_loop
append_loop_fuel zero more buf h k = absurd (omega arith)
append_loop_fuel (suc fuel) zero buf h k = absurd (omega arith)
append_loop_fuel (suc fuel) (suc more) buf h k = elim (Parsed-cases (parse_media_packet buf)) [
  | inl e ↦ rw (e, append_loop)
  | inr (inl (p, n, e)) ↦
      let takes = parse_media_packet-Takes buf e in
      rw (e, append_loop)
        (ap (also p) (
          append_loop_fuel fuel more (drop n buf) (omega (arith, length-drop n buf, takes))
            (omega (arith, length-drop n buf, takes))))
  | inr (inr (inl (x, e))) ↦ rw (e, append_loop)
  | inr (inr (inr e)) ↦ rw (e, append_loop)
]

-- The packets of two calls, one after the other.
abbrev pub after : List MediaPacket → Appended → Appended
after ps a = record { packets = ps ++ a.packets; rest = a.rest; status = a.status }

-- The loop of `Append` on a parser whose buffer is `buf`.
abbrev pub run : List ℕ → Appended
run buf = append_loop (length buf + 1) buf

pub run_packet :
    (buf : List ℕ) {p : MediaPacket} {n : ℕ}
    → parse_media_packet buf ≡ packet p n
    → run buf ≡ also p (run (drop n buf))
unfolding append_loop
run_packet buf {p} {n} e =
    let shorter : length (drop n buf) < length buf =
      omega (arith, length-drop n buf, parse_media_packet-Takes buf e) in
    rw (add-one, e, append_loop)
      (ap (also p) (
        append_loop_fuel (length buf) (length (drop n buf) + 1) (drop n buf) shorter (omega arith)))

pub run_waits : (buf : List ℕ) → parse_media_packet buf ≡ incomplete → run buf ≡ stop buf waiting
unfolding append_loop
run_waits buf e = rw (add-one, e, append_loop)

run_fails :
    (buf : List ℕ) {x : MediaError}
    → (parse_media_packet buf ≡ failed x) ⊎ (parse_media_packet buf ≡ panic)
    → Appended.status (run buf) ≢ waiting
unfolding append_loop
run_fails buf (inl e) = rw (add-one, e, append_loop) (λ q. cc)
run_fails buf (inr e) = rw (add-one, e, append_loop) (λ q. cc)

run-append :
    (fuel : ℕ) (buf more : List ℕ)
    → length buf < fuel
    → Appended.status (run buf) ≡ waiting
    → run (buf ++ more) ≡ after (run buf).packets (run ((run buf).rest ++ more))
run-append zero buf more h w = absurd (omega arith)
run-append (suc fuel) buf more h w = elim (Parsed-cases (parse_media_packet buf)) [
  | inl e ↦ rw (run_waits buf e)
  | inr (inl (p, n, e)) ↦
      let takes = parse_media_packet-Takes buf e in
      let same : parse_media_packet (buf ++ more) ≡ packet p n =
        parse_media_packet_stable buf more (rw e (λ q. cc)) ∙ e in
      let cut = drop-append n buf more takes.1 in
      let later =
        run-append fuel (drop n buf) more (omega (arith, length-drop n buf, takes))
          (rw (run_packet buf e) at w) in
      rw (run_packet (buf ++ more) same, cut, run_packet buf e) (ap (also p) later)
  | inr (inr (inl (x, e))) ↦ absurd (run_fails buf (inl e) w)
  | inr (inr (inr e)) ↦ absurd (run_fails buf {x = adpcm_marker 0} (inr e) w)
]

-- Two chunks given one after the other, the first of which leaves the parser waiting, give the
-- packets that both together give in one call, in the same order, and leave the parser in the same
-- state: the message boundaries of the transport do not show.
pub append-append :
    (buf first second : List ℕ)
    → Appended.status (append buf first) ≡ waiting
    → append buf (first ++ second)
      ≡ after (append buf first).packets (append (append buf first).rest second)
unfolding append
append-append buf first second w =
    rw (← append_assoc)
      (run-append (length (buf ++ first) + 1) (buf ++ first) second (omega arith) w)
