-- ===== src/Message/Frame.antt =====
-- The header of pkg/baichuan/message.go, written and read back.
use reolinkproxy.Base.{
  ℕ, ◌≤◌, ◌≡◌, List, ◌++◌, true, arith, length, length-append, take-append_length,
  drop-append_length, ok, ◌⊎◌,
}
use reolinkproxy.Base.Bytes.{IsByte, IsU16, IsU32, word16_bytes, word32_bytes}
use reolinkproxy.Message.{
  Header, magic_header, max_body_len, has_payload_offset, read_frame, read_offset, read_body,
  parse_header,
}
use reolinkproxy.Message.Encode.{frame}

-- The ranges of the header's Go types; a layout with no offset field has offset 0.
pub record IsHeader (h : Header) : Type 0 where
  pub msg_id_range : IsU32 h.msg_id
  pub body_range : h.body_len ≤ max_body_len
  pub channel_range : IsByte h.channel_id
  pub stream_range : IsByte h.stream_type
  pub msg_num_range : IsU16 h.msg_num
  pub code_range : IsU16 h.response_code
  pub class_range : IsU16 h.class
  pub offset_range : IsU32 h.payload_offset
  pub offset_needed : (has_payload_offset h.class ≡ true) ⊎ (h.payload_offset ≡ 0)

-- A frame is read back: its header, the bytes of its body and what follows.
pub read_frame-frame :
    (h : Header) (body rest : List ℕ)
    → IsHeader h
    → length body ≡ h.body_len
    → read_frame (frame h (body ++ rest)) ≡ ok (h, body, rest)
unfolding read_frame frame read_offset read_body parse_header
read_frame-frame h body rest v len = ground (
  arith,
  word32_bytes magic_header (omega arith),
  word32_bytes h.msg_id v.msg_id_range,
  word32_bytes h.body_len (omega (arith, v.body_range)),
  word16_bytes h.msg_num v.msg_num_range,
  word16_bytes h.response_code v.code_range,
  word16_bytes h.class v.class_range,
  word32_bytes h.payload_offset v.offset_range,
  v.offset_needed,
  v.body_range,
  len,
  take-append_length body rest,
  drop-append_length body rest,
  length-append body rest,
)
