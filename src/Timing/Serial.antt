-- ===== src/Timing/Serial.antt =====
-- RTP timestamps after `rtpTimestampGuard` (pkg/bridge/stream_run.go), in the serial order of 32 bits.
use reolinkproxy.Base.{ℕ, ◌+◌, ◌≡◌, refl, List, [], ◌∷◌, true, false, arith, All, ◌∙◌, ◌⊎◌}
use reolinkproxy.Base.Bytes.{IsU32}
use reolinkproxy.Timing.{
  Guard, new_guard, next, next_set, rtp_timestamp_after, rtp_timestamp_before, settle,
  apply_base_to_packets, wrap32, sub32,
}

-- The timestamps of a sequence of video frames, one after another through the guard.
abbrev pub stamps : Guard → List ℕ → List ℕ
stamps g [] = []
stamps g (ts ∷ later) = let (out, g') = next g ts in out ∷ stamps g' later

-- Each timestamp comes after the one before it.
abbrev pub Rising : ℕ → List ℕ → Type 0
Rising prev [] = Unit {0}
Rising prev (ts ∷ later) = (rtp_timestamp_after ts prev ≡ true) × Rising ts later

abbrev pub AllRising : List ℕ → Type 0
AllRising [] = Unit {0}
AllRising (ts ∷ later) = Rising ts later

pub next_set_after :
    (g : Guard) (ts : ℕ)
    → IsU32 g.last
    → IsU32 ts
    → let (out, g') = next_set g ts in
      (rtp_timestamp_after out g.last ≡ true) × (g'.last ≡ out) × (g'.set ≡ g.set) × IsU32 out
unfolding next_set rtp_timestamp_after
next_set_after g ts hl ht = ground arith

pub next_when_set : (g : Guard) (ts : ℕ) → g.set ≡ true → next g ts ≡ next_set g ts
unfolding next
next_when_set g ts s = ground arith

Rising-stamps :
    (g : Guard) (later : List ℕ)
    → g.set ≡ true
    → IsU32 g.last
    → All IsU32 later
    → Rising g.last (stamps g later)
Rising-stamps g [] s hl h = tt
Rising-stamps g (ts ∷ later) s hl h =
    let (after, last, set, range) = next_set_after g ts hl h.0 in
    rw (next_when_set g ts s)
      (after, rw last at (Rising-stamps (next_set g ts).1 later (set ∙ s) (rw last range) h.1))

-- Whatever timestamps the camera's clock gives, those that go out come each after the one before.
pub AllRising-stamps : (ts : List ℕ) → All IsU32 ts → AllRising (stamps new_guard ts)
unfolding next
AllRising-stamps [] h = tt
AllRising-stamps (ts ∷ later) h =
    Rising-stamps (record { offset = 0; last = ts; set = true }) later refl h.0 h.1

settle_after :
    (g : Guard) (sum : ℕ)
    → IsU32 g.last
    → IsU32 sum
    → ((g.set ≡ false) ⊎ (rtp_timestamp_before (settle g sum).1 g.last ≡ false))
      × IsU32 (settle g sum).1
unfolding settle rtp_timestamp_before
settle_after g sum hl hs = ground arith

-- The audio packets of one call: the base that the audio clock proposes, the timestamps that the
-- encoder gave them, and how long they last.
pub record Block : Type 0 where
  pub base : ℕ
  pub first : ℕ
  pub others : List ℕ
  pub duration : ℕ

abbrev pub IsBlock : Block → Type 0
IsBlock b = IsU32 b.base × IsU32 b.first × IsU32 b.duration

-- The timestamp that the first packet of each call goes out with, and where its audio ends.
abbrev pub spans : Guard → List Block → List (ℕ × ℕ)
spans g [] = []
spans g (b ∷ blocks) =
    let (base, g') = apply_base_to_packets g (b.first ∷ b.others) b.base b.duration in
    let begin = wrap32 (base + b.first) in (begin, wrap32 (begin + b.duration)) ∷ spans g' blocks

-- No span begins before the one before it ends.
abbrev pub Follow : ℕ → List (ℕ × ℕ) → Type 0
Follow end [] = Unit {0}
Follow end ((begin, next_end) ∷ later) =
    (rtp_timestamp_before begin end ≡ false) × Follow next_end later

abbrev pub AllFollow : List (ℕ × ℕ) → Type 0
AllFollow [] = Unit {0}
AllFollow ((begin, end) ∷ later) = Follow end later

pub one_block :
    (g : Guard) (b : Block)
    → IsU32 g.last
    → IsBlock b
    → let (base, g') = apply_base_to_packets g (b.first ∷ b.others) b.base b.duration in
      let begin = wrap32 (base + b.first) in
      ((g.set ≡ false) ⊎ (rtp_timestamp_before begin g.last ≡ false))
      × (g'.last ≡ wrap32 (begin + b.duration))
      × (g'.set ≡ true)
unfolding apply_base_to_packets
one_block g b hl h =
    let sum = wrap32 (b.base + b.first) in
    let (after, range) = settle_after g sum hl (omega arith) in
    let back : wrap32 (sub32 (settle g sum).1 b.first + b.first) ≡ (settle g sum).1 =
      omega (arith, range, h.1) in
    rw back (after, refl, refl)

Follow-spans :
    (g : Guard) (blocks : List Block)
    → g.set ≡ true
    → IsU32 g.last
    → All IsBlock blocks
    → Follow g.last (spans g blocks)
Follow-spans g [] s hl h = tt
Follow-spans g (b ∷ blocks) s hl h =
    let (after, last, set) = one_block g b hl h.0 in
    let g' = (apply_base_to_packets g (b.first ∷ b.others) b.base b.duration).1 in
    (ground (arith, after), rw last at (Follow-spans g' blocks set (rw last (omega arith)) h.1))

-- Whatever bases the audio clock proposes, the audio of each call begins no earlier than that of the
-- call before it ends.
pub AllFollow-spans :
    (blocks : List Block) → All IsBlock blocks → AllFollow (spans new_guard blocks)
AllFollow-spans [] h = tt
AllFollow-spans (b ∷ blocks) h =
    let (after, last, set) = one_block new_guard b (omega arith) h.0 in
    let g' = (apply_base_to_packets new_guard (b.first ∷ b.others) b.base b.duration).1 in
    rw last at (Follow-spans g' blocks set (rw last (omega arith)) h.1)
