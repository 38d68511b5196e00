-- ===== src/Codec/Adpcm/Block.antt =====
-- A block that the encoder writes, as the decoder reads it.
use reolinkproxy.Base.{
  ℕ, ◌+◌, ◌*◌, ◌/◌, ◌%◌, ◌≤◌, ◌<◌, ◌≡◌, refl, bit_and, bit_or, List, [], ◌∷◌, false, arith, ltb,
  ◌∙◌, length, get_or, min, ok,
}
use reolinkproxy.Base.Bytes.{IsU16, word16_bytes, uint16_at, put_uint16}
use reolinkproxy.Base.Bits.{low_nibble, pack_nibbles}
use reolinkproxy.Base.Int.{ℤ, pos, negsuc, ◌≤ℤ◌}
use reolinkproxy.Codec.Adpcm.{
  State, encode_nibble, decode_bytes, encode_pairs, decode, encode_block, to_uint16, to_int16,
}
use reolinkproxy.Codec.Adpcm.Lockstep.{IsState, encode_nibble_lockstep}

-- What the encoder takes each sample for: its own prediction once the sample is coded.
abbrev pub predictions : State → List ℤ → List ℤ
predictions e [] = []
predictions e (a ∷ pcm) =
    let after = (encode_nibble e a).1 in after.predicted ∷ predictions after pcm

high_of : (f s : ℕ) → f < 16 → s < 16 → bit_and (bit_or (f * 16) s / 16) 0x0F ≡ f
high_of f s p q =
    let whole = pack_nibbles f s p q in
    rw whole (low_nibble ((f * 16 + s) / 16) (omega arith) ∙ omega arith)

low_of : (f s : ℕ) → f < 16 → s < 16 → bit_and (bit_or (f * 16) s) 0x0F ≡ s
low_of f s p q = rw (pack_nibbles f s p q) (low_nibble (f * 16 + s) (omega arith) ∙ omega arith)

decode_bytes-encode_pairs :
    (e : State) (pcm : List ℤ)
    → length pcm % 2 ≡ 0
    → decode_bytes e (encode_pairs e pcm).0 ≡ (predictions e pcm, (encode_pairs e pcm).1)
unfolding decode_bytes encode_pairs
decode_bytes-encode_pairs e [] h = refl
decode_bytes-encode_pairs e (a ∷ []) h = absurd (omega arith)
decode_bytes-encode_pairs e (a ∷ b ∷ pcm) h =
    let out = encode_nibble e a in
    let next = encode_nibble out.1 b in
    let (same, small) = encode_nibble_lockstep e a in
    let (same', small') = encode_nibble_lockstep out.1 b in
    rw (
      high_of out.0 next.0 small small',
      low_of out.0 next.0 small small',
      ← same,
      ← same',
      decode_bytes-encode_pairs next.1 pcm (omega arith),
    )

length-encode_pairs : (e : State) (pcm : List ℤ) → length (encode_pairs e pcm).0 ≡ length pcm / 2
unfolding encode_pairs
length-encode_pairs e [] = refl
length-encode_pairs e (a ∷ []) = refl
length-encode_pairs e (a ∷ b ∷ pcm) =
    let next = encode_nibble (encode_nibble e a).1 b in
    omega (arith, length-encode_pairs next.1 pcm)

to_int16-to_uint16 : (p : ℤ) → negsuc 32767 ≤ℤ p → p ≤ℤ pos 32767 → to_int16 (to_uint16 p) ≡ p
unfolding to_int16 to_uint16
to_int16-to_uint16 (pos n) lo hi = ground arith
to_int16-to_uint16 (negsuc n) lo hi = ground arith

to_uint16-IsU16 : (p : ℤ) → negsuc 32767 ≤ℤ p → p ≤ℤ pos 32767 → IsU16 (to_uint16 p)
unfolding to_uint16
to_uint16-IsU16 (pos n) lo hi = omega arith
to_uint16-IsU16 (negsuc n) lo hi = omega arith

-- The state that a decoder takes from the header of a block.
from_header : State → List ℕ → State
from_header e bytes =
    let block : List ℕ = put_uint16 (to_uint16 e.predicted) (e.index ∷ 0 ∷ bytes) in
    record { predicted = to_int16 (uint16_at 0 block); index = min (get_or block 2 0) 88 }

from_header_same : (e : State) (bytes : List ℕ) → IsState e → from_header e bytes ≡ e
unfolding from_header
from_header_same e bytes v =
    let same : to_int16 (to_uint16 e.predicted) ≡ e.predicted =
      to_int16-to_uint16 e.predicted v.low v.high in
    let within : min e.index 88 ≡ e.index = omega (arith, v.index_range) in
    simp (
      word16_bytes (to_uint16 e.predicted) (to_uint16-IsU16 e.predicted v.low v.high),
      same,
      within,
    )

-- An even number of samples, two or more, is one block of four bytes and a byte for two samples. A
-- decoder in any state that reads the block gives a sample for each one, namely the encoder's
-- predictions, and ends in the state in which the encoder goes on.
pub decode-encode_block :
    (e d : State) (pcm : List ℤ)
    → IsState e
    → 2 ≤ length pcm
    → length pcm % 2 ≡ 0
    → (block : List ℕ) × (last : State) × (encode_block e pcm ≡ ok (block, last))
      × (length block ≡ 4 + length pcm / 2)
      × (decode d block ≡ (predictions e pcm, last))
unfolding encode_block decode from_header
decode-encode_block e d pcm v two even =
    let (bytes, last) = encode_pairs e pcm in
    let long : ltb (length bytes + 4) 4 ≡ false = ground arith in
    (
      put_uint16 (to_uint16 e.predicted) (e.index ∷ 0 ∷ bytes),
      last,
      ground (arith, two, even),
      omega (arith, length-encode_pairs e pcm),
      ground (arith, from_header_same e bytes v, decode_bytes-encode_pairs e pcm even),
    )
