-- ===== src/Codec/G711.antt =====
-- The companded formats of pkg/codec/pcma.go.
pub mod Tables
pub mod Scale
use reolinkproxy.Base.{
  ℕ, zero, suc, ◌+◌, ◌-◌, ◌*◌, ◌/◌, ◌%◌, ◌^◌, bit_and, bit_or, bit_xor, List, [], ◌∷◌, Bool, true,
  false, not, ltb, leb, ◌==◌, if◌then◌else◌, map, Option, none, some,
}
use reolinkproxy.Base.Int.{ℤ, pos, negsuc, ◌-ℤ◌}

-- `for (pcm & 0x4000) == 0 { pcm <<= 1; exponent-- }`; `none` when the fuel runs out.
pub normalize : ℕ → ℕ → ℕ → Option (ℕ × ℕ)
normalize zero pcm exponent = none
normalize (suc fuel) pcm exponent =
    let more = normalize fuel (pcm * 2 % 2 ^ 16) (exponent - 1) in
    if bit_and pcm 0x4000 == 0 then more else some (pcm, exponent)

-- The byte before the last xor, from the sign and the value that is left once it is taken away.
pub companded : ℕ → ℕ → ℕ
companded sign pcm =
    let long = elim (normalize 8 pcm 7) as (λ o. ℕ) [
      | none ↦ 0
      | some (shifted, exponent) ↦
          bit_or (bit_or sign (exponent * 16)) (bit_and (shifted / 1024) 0x0F)
    ] in
    if leb 256 pcm then long else bit_or sign (bit_and (pcm / 16) 0x0F)

-- `-pcm - 1` of the negative sample -(n + 1) is n.
unfoldable pub linear_to_alaw : ℤ → ℕ
unfolding normalize companded
linear_to_alaw (pos n) = bit_xor (companded 0x80 n) 0x55
linear_to_alaw (negsuc n) = bit_xor (companded 0x00 n) 0x55

abbrev pub negate : ℤ → ℤ
negate z = pos 0 -ℤ z

unfoldable pub alaw_to_linear : ℕ → ℤ
alaw_to_linear byte =
    let v = bit_xor byte 0x55 in
    let t0 = bit_and v 0x0F * 16 in
    let seg = bit_and v 0x70 / 16 in
    let t =
      if seg == 0 then t0 + 8 else if seg == 1 then t0 + 0x108 else (t0 + 0x108) * 2 ^ (seg - 1) in
    if bit_and v 0x80 == 0 then negate (pos t) else pos t

unfoldable pub mulaw_to_linear : ℕ → ℤ
mulaw_to_linear byte =
    let v = 255 - byte in
    let t = (bit_and v 0x0F * 8 + 0x84) * 2 ^ (bit_and v 0x70 / 16) in
    if not (bit_and v 0x80 == 0) then pos t -ℤ pos 0x84 else pos 0x84 -ℤ pos t

unfoldable pub encode_pcma : List ℤ → List ℕ
encode_pcma pcm = map linear_to_alaw pcm

unfoldable pub decode_pcma : List ℕ → List ℤ
decode_pcma buf = map alaw_to_linear buf

unfoldable pub decode_pcmu : List ℕ → List ℤ
decode_pcmu buf = map mulaw_to_linear buf
