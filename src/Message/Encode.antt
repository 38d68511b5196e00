-- ===== src/Message/Encode.antt =====
-- `encodeRequest` of pkg/baichuan/message.go.
use reolinkproxy.Base.{
  ℕ, ◌+◌, ◌%◌, List, ◌∷◌, ◌++◌, not, ◌&&◌, ltb, ◌==◌, if◌then◌else◌, length, ◌^◌,
}
use reolinkproxy.Base.Bytes.{put_uint16, put_uint32}
use reolinkproxy.Crypto.{encryption_bc, Cipher, AesCfb, encrypt_xml}
use reolinkproxy.Message.{
  Header, Request, Wire, magic_header, class_legacy, msg_id_login, has_payload_offset,
  snapshot_cipher,
}

unfoldable pub request_cipher : Wire → Request → Cipher
request_cipher w req =
    if req.force_bc then record (snapshot_cipher w) { mode = encryption_bc } else snapshot_cipher w

-- A legacy login with no body asks for the nonce, and carries a marker of its own.
unfoldable pub request_code : Request → ℕ
request_code req =
    if req.class == class_legacy && (req.msg_id == msg_id_login && length req.body == 0)
    then 0xDC12
    else req.response_code

module _ (aes : AesCfb) where
  -- The two blocks of a request as they go out.
  unfoldable pub sealed_extension : Wire → Request → List ℕ
  sealed_extension w req =
      if not (req.class == class_legacy) && ltb 0 (length req.extension)
      then encrypt_xml aes req.channel_id req.extension (request_cipher w req)
      else req.extension

  unfoldable pub sealed_body : Wire → Request → List ℕ
  sealed_body w req =
      if not (req.class == class_legacy) && (not req.binary && ltb 0 (length req.body))
      then encrypt_xml aes req.channel_id req.body (request_cipher w req)
      else req.body

-- The header as `encodeRequest` lays it out, in front of the two blocks.
unfoldable pub frame : Header → List ℕ → List ℕ
frame h rest = put_uint32 magic_header (
    put_uint32 h.msg_id (
      put_uint32 h.body_len (
        h.channel_id
        ∷ h.stream_type
        ∷ put_uint16 h.msg_num (
            put_uint16 h.response_code (
              put_uint16 h.class
                (if has_payload_offset h.class then put_uint32 h.payload_offset rest else rest))))))

module _ (aes : AesCfb) where
  -- The header that a request goes out with.
  unfoldable pub request_header : Wire → Request → Header
  request_header w req = record {
    msg_id = req.msg_id;
    body_len = (length (sealed_extension aes w req) + length (sealed_body aes w req)) % 2 ^ 32;
    channel_id = req.channel_id;
    stream_type = req.stream_type;
    msg_num = req.msg_num;
    response_code = request_code req;
    class = req.class;
    payload_offset =
        if has_payload_offset req.class then length (sealed_extension aes w req) % 2 ^ 32 else 0;
  }

  unfoldable pub encode_request : Wire → Request → List ℕ
  encode_request w req =
      frame (request_header w req) (sealed_extension aes w req ++ sealed_body aes w req)
