-- ===== src/Codec/G711/Scale.antt =====
-- The encoder of pkg/codec/pcma.go on every sample of int16.
use reolinkproxy.Base.{◌+◌, ◌*◌, ◌<◌, ◌≤◌, ◌≡◌, refl, Bool, true, ltb, leb, ◌&&◌, arith}
use reolinkproxy.Base.Bits.{every_below, every_below-at}
use reolinkproxy.Base.Int.{ℤ, pos, negsuc, ◌-ℤ◌, ◌≤ℤ◌, magnitude}
use reolinkproxy.Codec.G711.{linear_to_alaw, alaw_to_linear}

-- What comes back of a sample: a byte in between, and an error of at most 8 or a 32nd of the sample.
close : ℤ → Bool
close p =
    let v = linear_to_alaw p in
    let off = magnitude (alaw_to_linear v -ℤ p) in ltb v 256 && leb (off * 32) (magnitude p + 256)

close_positive : every_below 32768 (λ n. close (pos n)) ≡ true
unfolding every_below close linear_to_alaw alaw_to_linear ◌-ℤ◌
close_positive = refl

close_negative : every_below 32768 (λ n. close (negsuc n)) ≡ true
unfolding every_below close linear_to_alaw alaw_to_linear ◌-ℤ◌
close_negative = refl

-- Every sample of int16 is encoded as a byte, and decodes to within a 32nd of it, and 8, of itself.
pub alaw_error :
    (p : ℤ)
    → negsuc 32767 ≤ℤ p
    → p ≤ℤ pos 32767
    → (linear_to_alaw p < 256)
      × (magnitude (alaw_to_linear (linear_to_alaw p) -ℤ p) * 32 ≤ magnitude p + 256)
unfolding close
alaw_error (pos n) lo hi =
    ground (arith, every_below-at 32768 (λ k. close (pos k)) n close_positive)
alaw_error (negsuc n) lo hi =
    ground (arith, every_below-at 32768 (λ k. close (negsuc k)) n close_negative)
