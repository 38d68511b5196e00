-- ===== src/Codec/Adpcm/Lockstep.antt =====
-- The encoder tracks the decoder: both are in the same state after each nibble.
use reolinkproxy.Base.{
  ℕ, ◌+◌, ◌-◌, ◌/◌, ◌≤◌, ◌<◌, ◌≡◌, bit_or, Bool, arith, leb, if◌then◌else◌, sym,
}
use reolinkproxy.Base.Int.{ℤ, pos, negsuc, ◌-ℤ◌, ◌≤ℤ◌, ltb_ℤ, magnitude}
use reolinkproxy.Codec.Adpcm.{
  State, step_of, clamp_sample, move_index, advance, decode_nibble, encode_nibble,
}

-- The ranges that both coders keep.
pub record IsState (s : State) : Type 0 where
  pub index_range : s.index ≤ 88
  pub low : negsuc 32767 ≤ℤ s.predicted
  pub high : s.predicted ≤ℤ pos 32767

advance-IsState : (s : State) (nibble delta : ℕ) → IsState (advance s nibble delta)
unfolding advance clamp_sample move_index
advance-IsState s nibble delta = ground arith

-- Whatever the nibble and the state before it, decoding it leaves a sample of int16 and an index
-- into the step table.
pub decode_nibble-IsState : (s : State) (nibble : ℕ) → IsState (decode_nibble s nibble)
unfolding decode_nibble
decode_nibble-IsState s nibble = advance-IsState s nibble _

-- A nibble from its four flags, and the difference that the decoder reads off it.
nibble_of : Bool → Bool → Bool → Bool → ℕ
nibble_of sign four two one =
    bit_or (bit_or (bit_or (if sign then 8 else 0) (if four then 4 else 0)) (if two then 2 else 0))
      (if one then 1 else 0)

decode_nibble_of :
    (s : State) (sign four two one : Bool)
    → let step = step_of s.index in
      decode_nibble s (nibble_of sign four two one)
      ≡ advance s (nibble_of sign four two one) (
          step / 8
          + (if four then step else 0)
          + (if two then step / 2 else 0)
          + (if one then step / 4 else 0))
unfolding decode_nibble nibble_of
decode_nibble_of s sign four two one = ground arith

nibble_of-lt : (sign four two one : Bool) → nibble_of sign four two one < 16
unfolding nibble_of
nibble_of-lt sign four two one = ground arith

-- The state of the encoder after a sample is the state of a decoder that was in the same state
-- before and decodes the nibble that the encoder gave.
pub encode_nibble_lockstep :
    (s : State) (sample : ℤ)
    → let out = encode_nibble s sample in (out.1 ≡ decode_nibble s out.0) × (out.0 < 16)
unfolding encode_nibble nibble_of
encode_nibble_lockstep s sample =
    let step = step_of s.index in
    let diff = sample -ℤ s.predicted in
    let diff0 = magnitude diff in
    let sign = ltb_ℤ diff (pos 0) in
    let four = leb step diff0 in
    let diff1 = if four then diff0 - step else diff0 in
    let two = leb (step / 2) diff1 in
    let one = leb (step / 4) (if two then diff1 - step / 2 else diff1) in
    (sym (decode_nibble_of s sign four two one), nibble_of-lt sign four two one)
