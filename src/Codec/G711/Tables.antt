-- ===== src/Codec/G711/Tables.antt =====
-- The decoders of pkg/codec/pcma.go, checked at each of the 256 bytes.
use reolinkproxy.Base.{
  ℕ, ◌+◌, ◌-◌, ◌*◌, ◌/◌, ◌%◌, ◌^◌, ◌≡◌, refl, List, [], ◌∷◌, Bool, true, ltb, ◌==◌, ==_iff, ◌&&◌,
  arith, ap₂, if◌then◌else◌,
}
use reolinkproxy.Base.Bytes.{IsByte, IsBytes}
use reolinkproxy.Base.Bits.{every_below, every_below-at}
use reolinkproxy.Base.Int.{ℤ, pos, negsuc, ◌-ℤ◌, pos_part, neg_part}
use reolinkproxy.Codec.G711.{
  linear_to_alaw, alaw_to_linear, mulaw_to_linear, negate, encode_pcma, decode_pcma,
}

alaw_table : every_below 256 (λ v. linear_to_alaw (alaw_to_linear v) == v) ≡ true
unfolding every_below linear_to_alaw alaw_to_linear ◌-ℤ◌
alaw_table = refl

linear_to_alaw-alaw_to_linear : (v : ℕ) → IsByte v → linear_to_alaw (alaw_to_linear v) ≡ v
linear_to_alaw-alaw_to_linear v h = (==_iff _ v).0 (every_below-at 256 _ v alaw_table h)

-- Encoding what was decoded from A-law bytes gives those bytes back.
pub encode_pcma-decode_pcma : (buf : List ℕ) → IsBytes buf → encode_pcma (decode_pcma buf) ≡ buf
unfolding encode_pcma decode_pcma
encode_pcma-decode_pcma [] h = refl
encode_pcma-decode_pcma (v ∷ buf) h =
    ap₂ ◌∷◌ (linear_to_alaw-alaw_to_linear v h.0) (encode_pcma-decode_pcma buf h.1)

-- The value that ITU-T G.711 gives a mu-law byte: the complement's low seven bits give the size,
-- and the byte itself has its top bit set for a value that is not negative.
abbrev pub mulaw_size : ℕ → ℕ
mulaw_size byte = ((255 - byte) % 16 * 8 + 132) * 2 ^ ((255 - byte) / 16 % 8) - 132

eq_ℤ : ℤ → ℤ → Bool
eq_ℤ a b = pos_part a == pos_part b && neg_part a == neg_part b

eq_ℤ-sound : (a b : ℤ) → eq_ℤ a b ≡ true → a ≡ b
unfolding eq_ℤ
eq_ℤ-sound (pos a) (pos b) h = ground arith
eq_ℤ-sound (pos a) (negsuc b) h = ground arith
eq_ℤ-sound (negsuc a) (pos b) h = ground arith
eq_ℤ-sound (negsuc a) (negsuc b) h = ground arith

-- The value with the other sign than G.711's.
abbrev pub mulaw_negated : ℕ → ℤ
mulaw_negated v = if ltb v 128 then pos (mulaw_size v) else negate (pos (mulaw_size v))

mulaw_table : every_below 256 (λ v. eq_ℤ (mulaw_to_linear v) (mulaw_negated v)) ≡ true
unfolding every_below eq_ℤ mulaw_to_linear ◌-ℤ◌
mulaw_table = refl

-- Every mu-law byte decodes to a value of the size that G.711 gives it, but with the other sign: a
-- byte with its top bit set, which stands for a value that is not negative, comes out negated.
pub mulaw_to_linear_negated : (v : ℕ) → IsByte v → mulaw_to_linear v ≡ mulaw_negated v
mulaw_to_linear_negated v h = eq_ℤ-sound _ _ (every_below-at 256 _ v mulaw_table h)
