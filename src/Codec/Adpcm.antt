-- ===== src/Codec/Adpcm.antt =====
-- The IMA ADPCM coder of pkg/codec/adpcm.go.
pub mod Lockstep
pub mod Block
use reolinkproxy.Base.{
  ℕ, zero, suc, ◌+◌, ◌-◌, ◌*◌, ◌/◌, ◌%◌, ◌^◌, max, min, bit_and, bit_or, List, [], ◌∷◌, ◌++◌, Bool,
  true, false, not, ltb, leb, ◌==◌, if◌then◌else◌, length, drop, get_or, Result, ok, err,
}
use reolinkproxy.Base.Bytes.{put_uint16, uint16_at}
use reolinkproxy.Base.Int.{ℤ, pos, negsuc, pos_part, neg_part, ◌+ℤ◌, ◌-ℤ◌, ltb_ℤ, magnitude}

abbrev pub ima_index_table : List ℤ
ima_index_table =
    negsuc 0
    ∷ negsuc 0
    ∷ negsuc 0
    ∷ negsuc 0
    ∷ pos 2
    ∷ pos 4
    ∷ pos 6
    ∷ pos 8
    ∷ negsuc 0
    ∷ negsuc 0
    ∷ negsuc 0
    ∷ negsuc 0
    ∷ pos 2
    ∷ pos 4
    ∷ pos 6
    ∷ pos 8
    ∷ []

pub ima_step_table : List ℕ
ima_step_table =
    7 ∷ 8 ∷ 9 ∷ 10 ∷ 11 ∷ 12 ∷ 13 ∷ 14 ∷ 16 ∷ 17 ∷ 19 ∷ 21 ∷ 23 ∷ 25 ∷ 28 ∷ 31 ∷ 34 ∷ 37 ∷ 41 ∷ 45
    ∷ 50 ∷ 55 ∷ 60 ∷ 66 ∷ 73 ∷ 80 ∷ 88 ∷ 97 ∷ 107 ∷ 118 ∷ 130 ∷ 143 ∷ 157 ∷ 173 ∷ 190 ∷ 209 ∷ 230
    ∷ 253 ∷ 279 ∷ 307 ∷ 337 ∷ 371 ∷ 408 ∷ 449 ∷ 494 ∷ 544 ∷ 598 ∷ 658 ∷ 724 ∷ 796 ∷ 876 ∷ 963 ∷ 1060
    ∷ 1166 ∷ 1282 ∷ 1411 ∷ 1552 ∷ 1707 ∷ 1878 ∷ 2066 ∷ 2272 ∷ 2499 ∷ 2749 ∷ 3024 ∷ 3327 ∷ 3660
    ∷ 4026 ∷ 4428 ∷ 4871 ∷ 5358 ∷ 5894 ∷ 6484 ∷ 7132 ∷ 7845 ∷ 8630 ∷ 9493 ∷ 10442 ∷ 11487 ∷ 12635
    ∷ 13899 ∷ 15289 ∷ 16818 ∷ 18500 ∷ 20350 ∷ 22385 ∷ 24623 ∷ 27086 ∷ 29794 ∷ 32767 ∷ []

-- The two fields of `ADPCMDecoder`, and of `ADPCMEncoder`.
pub record State : Type 0 where
  pub predicted : ℤ
  pub index : ℕ

unfoldable pub step_of : ℕ → ℕ
unfolding ima_step_table
step_of index = get_or ima_step_table index 0

-- The two tests that keep a sample within int16.
pub clamp_sample : ℤ → ℤ
clamp_sample p =
    if ltb_ℤ (pos 32767) p then pos 32767 else if ltb_ℤ p (negsuc 32767) then negsuc 32767 else p

-- `index += imaIndexTable[nibble]`, and the two tests that keep it within the step table.
pub move_index : ℕ → ℕ → ℕ
move_index index nibble =
    let moved = pos index +ℤ get_or ima_index_table nibble (pos 0) in
    if ltb_ℤ moved (pos 0) then 0 else if ltb_ℤ (pos 88) moved then 88 else pos_part moved

-- What coder and decoder both do once the difference is known.
pub advance : State → ℕ → ℕ → State
advance s nibble delta = record {
  predicted =
      clamp_sample (
        if not (bit_and nibble 8 == 0) then s.predicted -ℤ pos delta else s.predicted +ℤ pos delta);
  index = move_index s.index nibble;
}

-- The body of the decoder's inner loop.
pub decode_nibble : State → ℕ → State
decode_nibble s nibble =
    let step = step_of s.index in
    let one = if not (bit_and nibble 1 == 0) then step / 4 else 0 in
    let two = if not (bit_and nibble 2 == 0) then step / 2 else 0 in
    let four = if not (bit_and nibble 4 == 0) then step else 0 in
    advance s nibble (step / 8 + one + two + four)

pub encode_nibble : State → ℤ → ℕ × State
encode_nibble s sample =
    let step = step_of s.index in
    let diff = sample -ℤ s.predicted in
    let sign : ℕ = if ltb_ℤ diff (pos 0) then 8 else 0 in
    let diff0 = magnitude diff in
    let four = leb step diff0 in
    let diff1 = if four then diff0 - step else diff0 in
    let two = leb (step / 2) diff1 in
    let diff2 = if two then diff1 - step / 2 else diff1 in
    let one = leb (step / 4) diff2 in
    let nibble =
      bit_or (bit_or (bit_or sign (if four then 4 else 0)) (if two then 2 else 0))
        (if one then 1 else 0) in
    let delta =
      step / 8
      + (if four then step else 0)
      + (if two then step / 2 else 0)
      + (if one then step / 4 else 0) in
    (nibble, advance s nibble delta)

-- uint16(int16(p)) for a value of int16, and int16(w).
pub to_uint16 : ℤ → ℕ
to_uint16 (pos n) = n
to_uint16 (negsuc n) = 2 ^ 16 - 1 - n

pub to_int16 : ℕ → ℤ
to_int16 w = if ltb w (2 ^ 15) then pos w else negsuc (2 ^ 16 - 1 - w)

-- The loop of `Decode` over the payload, high nibble first.
pub decode_bytes : State → List ℕ → List ℤ × State
decode_bytes s [] = ([], s)
decode_bytes s (b ∷ payload) =
    let first = decode_nibble s (bit_and (b / 16) 0x0F) in
    let second = decode_nibble first (bit_and b 0x0F) in
    let (samples, last) = decode_bytes second payload in
    (first.predicted ∷ second.predicted ∷ samples, last)

-- `Decode`: the samples, and the decoder after them.
unfoldable pub decode : State → List ℕ → List ℤ × State
decode s buf =
    let start : State = record {
      predicted = to_int16 (uint16_at 0 buf);
      index = min (get_or buf 2 0) 88;
    } in
    let decoded = decode_bytes start (drop 4 buf) in if ltb (length buf) 4 then ([], s) else decoded

-- The loop of `EncodeBlock` over pairs of samples; the caller has checked that their number is even.
pub encode_pairs : State → List ℤ → List ℕ × State
encode_pairs e [] = ([], e)
encode_pairs e (a ∷ []) = ([], e)
encode_pairs e (a ∷ b ∷ pcm) =
    let (first, middle) = encode_nibble e a in
    let (second, after) = encode_nibble middle b in
    let (bytes, last) = encode_pairs after pcm in (bit_or (first * 16) second ∷ bytes, last)

pub data BlockError : Type 0 where
  too_few odd_count : ℕ → BlockError

-- `EncodeBlock`: the block, and the encoder after it.
unfoldable pub encode_block : State → List ℤ → Result BlockError (List ℕ × State)
encode_block e pcm =
    let (bytes, last) = encode_pairs e pcm in
    if length pcm == 0
    then ok ([], e)
    else if ltb (length pcm) 2
    then err (too_few (length pcm))
    else if not (length pcm % 2 == 0)
    then err (odd_count (length pcm))
    else ok (put_uint16 (to_uint16 e.predicted) (e.index ∷ 0 ∷ bytes), last)
