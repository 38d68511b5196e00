-- ===== src/Media/Bounds.antt =====
-- What a parsed packet takes from the buffer, and that the loop of `Append` ends.
use reolinkproxy.Base.{
  ℕ, zero, suc, ◌+◌, ◌%◌, ◌≤◌, ◌<◌, ◌≡◌, ◌≢◌, refl, List, ◌++◌, Bool, true, false, arith, length,
  length-drop, drop, ◌⊎◌, inl, inr,
}
use reolinkproxy.Base.Bytes.{uint32_at}
use reolinkproxy.Media.{
  Parsed, packet, incomplete, failed, panic, MediaPacket, MediaError, VideoCodec, h264, h265,
  pad_len, codec_of, frame_of, parse_video_frame, parse_info, parse_aac, parse_adpcm,
  parse_media_packet, append_loop, append, out_of_fuel, Appended,
}

-- The padding brings a payload up to a multiple of eight, and is no longer than needed.
pub pad_len_aligns : (size : ℕ) → ((size + pad_len size) % 8 ≡ 0) × (pad_len size < 8)
unfolding pad_len
pad_len_aligns size = ground arith

-- Eight bytes or more are taken, all of them in the buffer.
abbrev pub Takes : List ℕ → ℕ → Type 0
Takes buf n = (8 ≤ n) × (n ≤ length buf)

frame_of-Takes :
    (buf : List ℕ) (is_iframe : Bool) (c : VideoCodec) {p : MediaPacket} {n : ℕ}
    → frame_of buf is_iframe c ≡ packet p n
    → Takes buf n
unfolding frame_of
frame_of-Takes buf is_iframe c e = ground arith

parse_video_frame-Takes :
    (buf : List ℕ) (is_iframe : Bool) {p : MediaPacket} {n : ℕ}
    → parse_video_frame buf is_iframe ≡ packet p n
    → Takes buf n
unfolding parse_video_frame codec_of
parse_video_frame-Takes buf is_iframe {p} {n} e = ground (
  arith,
  frame_of-Takes buf is_iframe h264 {p = p} {n = n},
  frame_of-Takes buf is_iframe h265 {p = p} {n = n},
)

parse_info-Takes :
    (buf : List ℕ) (magic : ℕ) {p : MediaPacket} {n : ℕ}
    → parse_info buf magic ≡ packet p n
    → Takes buf n
unfolding parse_info
parse_info-Takes buf magic e = ground arith

parse_aac-Takes :
    (buf : List ℕ) {p : MediaPacket} {n : ℕ} → parse_aac buf ≡ packet p n → Takes buf n
unfolding parse_aac
parse_aac-Takes buf e = ground arith

parse_adpcm-Takes :
    (buf : List ℕ) {p : MediaPacket} {n : ℕ} → parse_adpcm buf ≡ packet p n → Takes buf n
unfolding parse_adpcm
parse_adpcm-Takes buf e = ground arith

-- A packet that was parsed takes eight bytes or more, and no more than the buffer holds.
pub parse_media_packet-Takes :
    (buf : List ℕ) {p : MediaPacket} {n : ℕ} → parse_media_packet buf ≡ packet p n → Takes buf n
unfolding parse_media_packet
parse_media_packet-Takes buf {p} {n} e = ground (
  arith,
  parse_info-Takes buf (uint32_at 0 buf) {p = p} {n = n},
  parse_video_frame-Takes buf true {p = p} {n = n},
  parse_video_frame-Takes buf false {p = p} {n = n},
  parse_aac-Takes buf {p = p} {n = n},
  parse_adpcm-Takes buf {p = p} {n = n},
)

pub Parsed-cases :
    (r : Parsed)
    → (r ≡ incomplete)
      ⊎ (((p : MediaPacket) × (n : ℕ) × (r ≡ packet p n))
          ⊎ (((e : MediaError) × (r ≡ failed e)) ⊎ (r ≡ panic)))
Parsed-cases incomplete = inl refl
Parsed-cases (packet p n) = inr (inl (p, n, refl))
Parsed-cases (failed e) = inr (inr (inl (e, refl)))
Parsed-cases panic = inr (inr (inr refl))

append_loop_ends :
    (fuel : ℕ) (buf : List ℕ)
    → length buf < fuel
    → Appended.status (append_loop fuel buf) ≢ out_of_fuel
unfolding append_loop
append_loop_ends zero buf h = absurd (omega arith)
append_loop_ends (suc fuel) buf h = elim (Parsed-cases (parse_media_packet buf)) [
  | inl e ↦ rw (e, append_loop) (λ q. cc)
  | inr (inl (p, n, e)) ↦
      rw (e, append_loop)
        (append_loop_ends fuel (drop n buf)
          (omega (arith, length-drop n buf, parse_media_packet-Takes buf e)))
  | inr (inr (inl (x, e))) ↦ rw (e, append_loop) (λ q. cc)
  | inr (inr (inr e)) ↦ rw (e, append_loop) (λ q. cc)
]

-- `Append` always ends: with all it could parse taken, with an error or with a panic.
pub append_ends : (buf chunk : List ℕ) → Appended.status (append buf chunk) ≢ out_of_fuel
unfolding append
append_ends buf chunk = append_loop_ends _ (buf ++ chunk) (omega arith)
