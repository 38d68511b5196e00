-- ===== src/Examples/Codecs.antt =====
-- The coders of pkg/codec and the bitstream functions of pkg/media, on concrete samples and units.
use reolinkproxy.Base.{ℕ, ◌+◌, ◌*◌, ◌/◌, ◌≤◌, ◌<◌, ◌≡◌, refl, List, [], ◌∷◌, length, arith, ok}
use reolinkproxy.Base.Int.{ℤ, pos, negsuc, ◌-ℤ◌, magnitude}
use reolinkproxy.Codec.Adpcm.{State, encode_block, decode, step_of}
use reolinkproxy.Codec.Adpcm.Lockstep.{IsState}
use reolinkproxy.Codec.Adpcm.Block.{predictions, decode-encode_block}
use reolinkproxy.Codec.G711.{linear_to_alaw, alaw_to_linear, mulaw_to_linear, decode_pcmu}
use reolinkproxy.Codec.G711.Scale.{alaw_error}
use reolinkproxy.Codec.G711.Tables.{mulaw_negated, mulaw_to_linear_negated}
use reolinkproxy.Translator.{
  Nal, reorder_h265_nals_for_access_unit, h265_is_slice_nal, h265_nal_unit_type, h264_nal_unit_type,
  split_annex_b, filter_h265_decodable_nals, h265_layer_id, extract_h264_params,
}

abbrev start : State
start = record { predicted = negsuc 3; index = 20 }

start-IsState : IsState start
start-IsState = record { index_range = omega arith; low = omega arith; high = omega arith }

first_step : step_of 20 ≡ 50
unfolding step_of
first_step = refl

abbrev samples : List ℤ
samples = pos 90 ∷ negsuc 400 ∷ []

decode-encode_block_example :
    (block : List ℕ) × (last : State) × (encode_block start samples ≡ ok (block, last))
    × (length block ≡ 4 + length samples / 2)
    × (decode start block ≡ (predictions start samples, last))
decode-encode_block_example =
    decode-encode_block start start samples start-IsState (omega arith) (omega arith)

alaw_error_example :
    (linear_to_alaw (negsuc 999) < 256)
    × (magnitude (alaw_to_linear (linear_to_alaw (negsuc 999)) -ℤ negsuc 999) * 32
        ≤ magnitude (negsuc 999) + 256)
alaw_error_example = alaw_error (negsuc 999) (omega arith) (omega arith)

mulaw_to_linear_negated_example : mulaw_to_linear 0x80 ≡ mulaw_negated 0x80
mulaw_to_linear_negated_example = mulaw_to_linear_negated 0x80 (omega arith)

-- G.711 gives the byte 0x80 the largest positive value.
loudest : decode_pcmu (0x80 ∷ []) ≡ negsuc 32123 ∷ []
unfolding decode_pcmu mulaw_to_linear ◌-ℤ◌
loudest = refl

-- A slice, a parameter set and a unit of one byte.
abbrev units : List Nal
units = (2 ∷ 1 ∷ []) ∷ (64 ∷ 1 ∷ []) ∷ (9 ∷ []) ∷ []

parameters_first : reorder_h265_nals_for_access_unit units ≡ (64 ∷ 1 ∷ []) ∷ (2 ∷ 1 ∷ []) ∷ []
unfolding reorder_h265_nals_for_access_unit h265_is_slice_nal h265_nal_unit_type
parameters_first = refl

two_units :
    split_annex_b (0 ∷ 0 ∷ 0 ∷ 1 ∷ 103 ∷ 7 ∷ 0 ∷ 0 ∷ 1 ∷ 104 ∷ 8 ∷ 9 ∷ [])
    ≡ (103 ∷ 7 ∷ []) ∷ (104 ∷ 8 ∷ 9 ∷ []) ∷ []
unfolding split_annex_b
two_units = refl

parameters_found :
    extract_h264_params ((103 ∷ 7 ∷ []) ∷ (104 ∷ 8 ∷ []) ∷ []) ≡ (103 ∷ 7 ∷ [], 104 ∷ 8 ∷ [])
unfolding extract_h264_params h264_nal_unit_type
parameters_found = refl

base_layer_kept :
    filter_h265_decodable_nals ((2 ∷ 1 ∷ []) ∷ (2 ∷ 9 ∷ []) ∷ (98 ∷ 1 ∷ []) ∷ [])
    ≡ (2 ∷ 1 ∷ []) ∷ []
unfolding filter_h265_decodable_nals h265_nal_unit_type h265_layer_id
base_layer_kept = refl
