-- ===== src/Udp/Crc.antt =====
-- The checksum of pkg/baichuan/udp.go: it is a uint32, and no change within one byte goes unseen.
use reolinkproxy.Base.{
  ℕ, zero, suc, ◌/◌, ◌^◌, ◌≤◌, ◌<◌, ◌≡◌, ◌≢◌, bit_xor, List, [], ◌∷◌, ◌++◌, arith,
}
use reolinkproxy.Base.Bytes.{IsByte, IsBytes, IsU32}
use reolinkproxy.Base.Bits.{
  bit_and_lowest, bit_xor-lt, bit_xor_injective, bit_xor_cancel, bit_xor_comm,
}
use reolinkproxy.Udp.{crc_poly, crc_bit, crc_bits, crc_from, udp_crc32}

crc_bit-IsU32 : (c : ℕ) → IsU32 c → IsU32 (crc_bit c)
unfolding crc_bit
crc_bit-IsU32 c h = ground (arith, bit_xor-lt 32 (c / 2) crc_poly (omega arith) (omega arith))

crc_bits-IsU32 : (n c : ℕ) → IsU32 c → IsU32 (crc_bits n c)
unfolding crc_bits
crc_bits-IsU32 zero c h = h
crc_bits-IsU32 (suc n) c h = crc_bits-IsU32 n (crc_bit c) (crc_bit-IsU32 c h)

mixed-IsU32 : (c b : ℕ) → IsU32 c → IsByte b → IsU32 (bit_xor c b)
mixed-IsU32 c b h hb = bit_xor-lt 32 c b h (omega arith)

crc_from-IsU32 : (c : ℕ) (buf : List ℕ) → IsU32 c → IsBytes buf → IsU32 (crc_from c buf)
unfolding crc_from
crc_from-IsU32 c [] h bs = h
crc_from-IsU32 c (b ∷ buf) h bs =
    crc_from-IsU32 (crc_bits 8 (bit_xor c b)) buf
      (crc_bits-IsU32 8 (bit_xor c b) (mixed-IsU32 c b h bs.0)) bs.1

pub udp_crc32-IsU32 : (buf : List ℕ) → IsBytes buf → IsU32 (udp_crc32 buf)
unfolding udp_crc32
udp_crc32-IsU32 buf bs = crc_from-IsU32 0 buf (omega arith) bs

-- The polynomial has its top bit set, so an odd step leaves the upper half, an even one the lower.
upper_half : (x : ℕ) → x < 2 ^ 31 → 2 ^ 31 ≤ bit_xor x crc_poly
upper_half x h = grind (
  arith,
  bit_xor_cancel crc_poly x,
  bit_xor_comm x crc_poly,
  λ (p : bit_xor x crc_poly < 2 ^ 31). bit_xor-lt 31 (bit_xor x crc_poly) x p h,
)

crc_bit_injective : (c d : ℕ) → IsU32 c → IsU32 d → crc_bit c ≡ crc_bit d → c ≡ d
unfolding crc_bit
crc_bit_injective c d hc hd e = ground (
  arith,
  bit_and_lowest c,
  bit_and_lowest d,
  upper_half (c / 2) (omega arith),
  upper_half (d / 2) (omega arith),
  bit_xor_injective (c / 2) (d / 2) crc_poly,
)

crc_bits_injective : (n c d : ℕ) → IsU32 c → IsU32 d → crc_bits n c ≡ crc_bits n d → c ≡ d
unfolding crc_bits
crc_bits_injective zero c d hc hd e = e
crc_bits_injective (suc n) c d hc hd e =
    crc_bit_injective c d hc hd
      (crc_bits_injective n (crc_bit c) (crc_bit d) (crc_bit-IsU32 c hc) (crc_bit-IsU32 d hd) e)

crc_from_injective :
    (c d : ℕ) (buf : List ℕ)
    → IsU32 c
    → IsU32 d
    → IsBytes buf
    → crc_from c buf ≡ crc_from d buf
    → c ≡ d
unfolding crc_from
crc_from_injective c d [] hc hd bs e = e
crc_from_injective c d (b ∷ buf) hc hd bs e =
    let pc = mixed-IsU32 c b hc bs.0 in
    let pd = mixed-IsU32 d b hd bs.0 in
    bit_xor_injective c d b (
      crc_bits_injective 8 (bit_xor c b) (bit_xor d b) pc pd (
        crc_from_injective (crc_bits 8 (bit_xor c b)) (crc_bits 8 (bit_xor d b)) buf
          (crc_bits-IsU32 8 _ pc) (crc_bits-IsU32 8 _ pd) bs.1 e))

crc_from_other :
    (c a b : ℕ) (front back : List ℕ)
    → IsU32 c
    → IsBytes (front ++ a ∷ back)
    → IsByte b
    → crc_from c (front ++ a ∷ back) ≡ crc_from c (front ++ b ∷ back)
    → a ≡ b
unfolding crc_from
crc_from_other c a b (x ∷ front) back hc bs hb e =
    crc_from_other (crc_bits 8 (bit_xor c x)) a b front back
      (crc_bits-IsU32 8 _ (mixed-IsU32 c x hc bs.0)) bs.1 hb e
crc_from_other c a b [] back hc bs hb e =
    let pa = mixed-IsU32 c a hc bs.0 in
    let pb = mixed-IsU32 c b hc hb in
    bit_xor_injective a b c (
      rw (bit_xor_comm a c, bit_xor_comm b c)
        (crc_bits_injective 8 (bit_xor c a) (bit_xor c b) pa pb (
          crc_from_injective (crc_bits 8 (bit_xor c a)) (crc_bits 8 (bit_xor c b)) back
            (crc_bits-IsU32 8 _ pa) (crc_bits-IsU32 8 _ pb) bs.1 e)))

-- Two buffers of bytes that differ in one byte, anywhere, have different checksums.
pub udp_crc32_detects :
    (front back : List ℕ) (a b : ℕ)
    → IsBytes (front ++ a ∷ back)
    → IsByte b
    → a ≢ b
    → udp_crc32 (front ++ a ∷ back) ≢ udp_crc32 (front ++ b ∷ back)
unfolding udp_crc32
udp_crc32_detects front back a b bs hb ne e =
    ne (crc_from_other 0 a b front back (omega arith) bs hb e)
