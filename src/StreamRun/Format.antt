-- ===== src/StreamRun/Format.antt =====
-- The video format of a stream with its parameter sets, and the units of a frame (pkg/bridge/stream_run.go,
-- `coalesce` of pkg/bridge/rtsp.go).
use reolinkproxy.Base.{ℕ, List, [], ◌∷◌, Bool, true, false, ◌&&◌, ◌||◌, leb, if◌then◌else◌, length}
use reolinkproxy.Media.{VideoCodec, h264, h265}
use reolinkproxy.Translator.{
  Nal, split_annex_b, filter_h265_decodable_nals, reorder_h265_nals_for_access_unit,
  reorder_h264_nals_for_access_unit, extract_h264_params, extract_h265_params,
}

-- `format.H265` with VPS, SPS and PPS, and `format.H264` with SPS and PPS; a set that is nil is empty.
pub data VideoFormat : Type 0 where
  h265_format : Nal → Nal → Nal → VideoFormat
  h264_format : Nal → Nal → VideoFormat

abbrev pub new_format : VideoCodec → VideoFormat
new_format h265 = h265_format [] [] []
new_format h264 = h264_format [] []

-- `codecMatchesFormat`
unfoldable pub codec_matches_format : VideoCodec → VideoFormat → Bool
codec_matches_format h265 (h265_format vps sps pps) = true
codec_matches_format h265 (h264_format sps pps) = false
codec_matches_format h264 (h265_format vps sps pps) = false
codec_matches_format h264 (h264_format sps pps) = true

-- `coalesce`
unfoldable pub coalesce : Nal → Nal → Nal
coalesce next fallback = if leb 4 (length next) then next else fallback

-- The units of a frame as the encoder takes them.
unfoldable pub units_of : VideoCodec → List ℕ → List Nal
units_of h265 payload =
    reorder_h265_nals_for_access_unit (filter_h265_decodable_nals (split_annex_b payload))
units_of h264 payload = reorder_h264_nals_for_access_unit (split_annex_b payload)

abbrev pub is_set : Nal → Bool
is_set [] = false
is_set (b ∷ bs) = true

-- The parameter sets with those of a frame; one that is short or missing leaves the old one.
unfoldable pub learn_h265 : Nal → Nal → Nal → Nal → Nal → Nal → VideoFormat
unfolding coalesce
learn_h265 v s p vps sps pps =
    if is_set v || (is_set s || is_set p)
    then h265_format (coalesce v vps) (coalesce s sps) (coalesce p pps)
    else h265_format vps sps pps

unfoldable pub learn_h264 : Nal → Nal → Nal → Nal → VideoFormat
unfolding coalesce
learn_h264 s p sps pps =
    if is_set s || is_set p
    then h264_format (coalesce s sps) (coalesce p pps)
    else h264_format sps pps

unfoldable pub learn : List Nal → VideoFormat → VideoFormat
unfolding learn_h265 learn_h264
learn nalus (h265_format vps sps pps) =
    let (v, s, p) = extract_h265_params nalus in learn_h265 v s p vps sps pps
learn nalus (h264_format sps pps) = let (s, p) = extract_h264_params nalus in learn_h264 s p sps pps

-- `readyToExpose`
unfoldable pub ready_to_expose : VideoFormat → Bool
ready_to_expose (h265_format vps sps pps) = is_set vps && (is_set sps && is_set pps)
ready_to_expose (h264_format sps pps) = is_set sps && is_set pps
