-- ===== src/Translator.antt =====
-- The video bitstream functions of pkg/media/translator.go.
pub mod Reorder
use reolinkproxy.Base.{
  ℕ, zero, suc, ◌+◌, ◌-◌, ◌*◌, ◌/◌, ◌%◌, ◌^◌, bit_and, bit_or, List, [], ◌∷◌, ◌++◌, Bool, true,
  false, not, ◌&&◌, ◌||◌, ltb, leb, ◌==◌, if◌then◌else◌, length, drop, get_or,
}

abbrev pub Nal : Type 0
Nal = List ℕ

-- `startCodeLen`: the start code at the front of the bytes, by its length, or 0.
pub start_code_len : List ℕ → ℕ
start_code_len buf =
    let zeros = get_or buf 0 0 == 0 && get_or buf 1 0 == 0 in
    if leb 4 (length buf) && (zeros && (get_or buf 2 0 == 0 && get_or buf 3 0 == 1))
    then 4
    else if leb 3 (length buf) && (zeros && get_or buf 2 0 == 1)
    then 3
    else 0

-- The loop of `SplitAnnexB`, from some index on: `rest` is buf[i:], `current` is buf[start:i], and
-- `found` is whether a start code was met. The loop ends when three bytes or fewer are left. Each
-- round passes a byte at least, so the buffer's length is fuel enough.
pub split_from : ℕ → List ℕ → Nal → Bool → List Nal
split_from zero rest current found =
    if found && ltb 0 (length (current ++ rest)) then (current ++ rest) ∷ [] else []
split_from (suc fuel) rest current found =
    let prefix = start_code_len rest in
    let later = split_from fuel (drop prefix rest) [] true in
    let on = split_from fuel (drop 1 rest) (current ++ (get_or rest 0 0 ∷ [])) found in
    let last = if found && ltb 0 (length (current ++ rest)) then (current ++ rest) ∷ [] else [] in
    if leb (length rest) 3
    then last
    else if prefix == 0
    then on
    else if found && ltb 0 (length current)
    then current ∷ later
    else later

-- `if len(out) == 0 && len(buf) > 0`
pub whole_if_none : List ℕ → List Nal → List Nal
whole_if_none [] out = out
whole_if_none (b ∷ buf) [] = (b ∷ buf) ∷ []
whole_if_none (b ∷ buf) (nalu ∷ out) = nalu ∷ out

pub drop_empty : List Nal → List Nal
drop_empty [] = []
drop_empty ([] ∷ out) = drop_empty out
drop_empty ((b ∷ nalu) ∷ out) = (b ∷ nalu) ∷ drop_empty out

unfoldable pub split_annex_b : List ℕ → List Nal
unfolding start_code_len split_from whole_if_none drop_empty
split_annex_b buf = drop_empty (whole_if_none buf (split_from (length buf) buf [] false))

-- `(header0 >> 1) & 0x3F`
unfoldable pub h265_nal_unit_type : ℕ → ℕ
h265_nal_unit_type header0 = bit_and (header0 / 2) 0x3F

-- `((n[0] & 1) << 5) | (n[1] >> 3)`
unfoldable pub h265_layer_id : ℕ → ℕ → ℕ
h265_layer_id header0 header1 = bit_or (bit_and header0 1 * 32) (header1 / 8)

unfoldable pub filter_h265_decodable_nals : List Nal → List Nal
filter_h265_decodable_nals [] = []
filter_h265_decodable_nals (n ∷ nalus) =
    let out = filter_h265_decodable_nals nalus in
    if ltb (length n) 2
    then out
    else if leb 48 (h265_nal_unit_type (get_or n 0 0))
    then out
    else if not (h265_layer_id (get_or n 0 0) (get_or n 1 0) == 0)
    then out
    else n ∷ out

unfoldable pub h265_is_slice_nal : ℕ → Bool
h265_is_slice_nal typ = leb typ 9 || leb 16 typ && leb typ 21

unfoldable pub h264_nal_unit_type : ℕ → ℕ
h264_nal_unit_type header0 = bit_and header0 0x1F

unfoldable pub h264_is_slice_nal : ℕ → Bool
h264_is_slice_nal typ = leb 1 typ && leb typ 5

-- The loop that both `Reorder…ForAccessUnit` functions share but for the least length and the test
-- for a slice: the two lists it fills.
pub partition_nals : ℕ → (ℕ → Bool) → List Nal → List Nal × List Nal
partition_nals least is_slice [] = ([], [])
partition_nals least is_slice (n ∷ nalus) =
    let (non_slice, slice) = partition_nals least is_slice nalus in
    if ltb (length n) least
    then (non_slice, slice)
    else if is_slice (get_or n 0 0)
    then (non_slice, n ∷ slice)
    else (n ∷ non_slice, slice)

pub reorder_nals : ℕ → (ℕ → Bool) → List Nal → List Nal
reorder_nals least is_slice nalus =
    let (non_slice, slice) = partition_nals least is_slice nalus in non_slice ++ slice

unfoldable pub reorder_h265_nals_for_access_unit : List Nal → List Nal
unfolding partition_nals reorder_nals
reorder_h265_nals_for_access_unit nalus =
    reorder_nals 2 (λ header0. h265_is_slice_nal (h265_nal_unit_type header0)) nalus

unfoldable pub reorder_h264_nals_for_access_unit : List Nal → List Nal
unfolding partition_nals reorder_nals
reorder_h264_nals_for_access_unit nalus =
    reorder_nals 1 (λ header0. h264_is_slice_nal (h264_nal_unit_type header0)) nalus

-- The loops of `ExtractH264Params` and `ExtractH265Params` keep the last unit of a type.
pub last_of_type : ℕ → (ℕ → ℕ) → ℕ → List Nal → Nal → Nal
last_of_type least type_of wanted [] kept = kept
last_of_type least type_of wanted (n ∷ nalus) kept =
    last_of_type least type_of wanted nalus
      (if ltb (length n) least then kept else if type_of (get_or n 0 0) == wanted then n else kept)

unfoldable pub extract_h264_params : List Nal → Nal × Nal
unfolding last_of_type
extract_h264_params nalus =
    (last_of_type 1 h264_nal_unit_type 7 nalus [], last_of_type 1 h264_nal_unit_type 8 nalus [])

unfoldable pub extract_h265_params : List Nal → Nal × Nal × Nal
unfolding last_of_type
extract_h265_params nalus = (
  last_of_type 2 h265_nal_unit_type 32 nalus [],
  last_of_type 2 h265_nal_unit_type 33 nalus [],
  last_of_type 2 h265_nal_unit_type 34 nalus [],
)
