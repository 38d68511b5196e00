-- ===== src/Message/RoundTrip.antt =====
-- `readMessage` against `encodeRequest` (pkg/baichuan/message.go).
use reolinkproxy.Base.{
  ℕ, ◌+◌, ◌/◌, ◌≤◌, ◌≡◌, ◌≢◌, sym, List, ◌++◌, true, false, arith, length, length-append,
  take-append_length, drop-append_length, none, ok, ltb,
}
use reolinkproxy.Base.Store.{lookup}
use reolinkproxy.Base.Bytes.{IsByte, IsU16, IsU32}
use reolinkproxy.Crypto.{AesCfb}
use reolinkproxy.Message.{
  Header, Message, Request, Wire, Xml, max_body_len, has_payload_offset, read_message, decode_body,
  class_legacy, class_modern_with_offset, flags_binary, parse_extension, is_binary_msg_num,
  is_modern, snapshot_cipher, decode_extension, decode_payload, after_answer, extension_len,
  note_binary,
}
use reolinkproxy.Message.Encode.{
  frame, encode_request, request_header, sealed_body, sealed_extension, request_code,
}
use reolinkproxy.Message.Frame.{IsHeader, read_frame-frame}
use reolinkproxy.Message.Blocks.{
  IsBlock, text_of, open_extension, open_body, length-sealed_extension, length-sealed_body,
}

-- A request with two XML blocks, or without, in the modern layout with an offset field.
pub record IsXmlRequest (w : Wire) (xml : Xml) (r : Request) : Type 0 where
  pub msg_id_range : IsU32 r.msg_id
  pub channel_range : IsByte r.channel_id
  pub stream_range : IsByte r.stream_type
  pub msg_num_range : IsU16 r.msg_num
  pub code_range : IsU16 r.response_code
  pub layout : r.class ≡ class_modern_with_offset
  pub own_cipher : r.force_bc ≡ false
  pub plain : r.binary ≡ false
  pub extension_block : IsBlock r.extension
  pub body_block : IsBlock r.body
  pub size : length r.extension + length r.body ≤ max_body_len
  pub no_answer : r.response_code / 256 ≢ 0xDD
  pub not_flagged : flags_binary (parse_extension xml r.extension) ≡ false
  pub not_binary : lookup r.msg_num w.binary_msg_nums ≡ none

module _ (aes : AesCfb) (xml : Xml) (w : Wire) (r : Request) (v : IsXmlRequest w xml r) where
  modern : r.class ≢ class_legacy
  modern e = ground (arith, v.layout, e)

  has_offset : has_payload_offset r.class ≡ true
  unfolding has_payload_offset
  has_offset = rw (v.layout)

  request_header-IsHeader :
      IsHeader (request_header aes w r)
      × ((request_header aes w r).payload_offset ≡ length (sealed_extension aes w r))
      × ((request_header aes w r).body_len
          ≡ length (sealed_extension aes w r ++ sealed_body aes w r))
  unfolding request_header request_code
  request_header-IsHeader = ground (
    arith,
    has_offset,
    v,
    modern,
    length-sealed_extension aes xml w r modern v.own_cipher,
    length-sealed_body aes xml w r modern v.own_cipher v.plain,
    length-append (sealed_extension aes w r) (sealed_body aes w r),
  )

  header_fields :
      ((request_header aes w r).class ≡ r.class)
      × ((request_header aes w r).response_code ≡ r.response_code)
  unfolding request_header request_code
  header_fields = ground (arith, modern)

-- The second half of `readMessage` on two sealed blocks, given what each opens to.
decode_blocks :
    (aes : AesCfb) (xml : Xml) (now : ℕ) (w : Wire) (h : Header)
    (sealed_ext sealed_pay extension text payload payload_text : List ℕ)
    → extension_len h ≡ length sealed_ext
    → h.body_len ≡ length (sealed_ext ++ sealed_pay)
    → after_answer w h ≡ w
    → decode_extension aes xml (snapshot_cipher w) h.channel_id sealed_ext ≡ (extension, text)
    → note_binary now h.msg_num (parse_extension xml extension) w.binary_msg_nums
      ≡ (false, w.binary_msg_nums)
    → decode_payload aes xml
        (snapshot_cipher w)
        h.channel_id
        false
        (parse_extension xml extension)
        text
        sealed_pay
      ≡ (payload, payload_text)
    → decode_body aes xml now w h (sealed_ext ++ sealed_pay)
      ≡ ok (
        record {
          header = h;
          extension = extension;
          payload = payload;
          xml = payload_text;
          binary = false;
          extension_meta = parse_extension xml extension;
        },
        w,
      )
unfolding decode_body
decode_blocks aes xml now w h se sp extension text payload pt off len same opens num pays =
    let fits : ltb h.body_len (length se) ≡ false = ground (arith, len, length-append se sp) in
    rw (same, off, take-append_length, drop-append_length, opens, num, pays, fits)

frame-append : (h : Header) (body rest : List ℕ) → frame h body ++ rest ≡ frame h (body ++ rest)
unfolding frame
frame-append h body rest = ground arith

module _ (aes : AesCfb) (xml : Xml) (now : ℕ) (w : Wire) (r : Request)
    (v : IsXmlRequest w xml r) where
  header_facts :
      (extension_len (request_header aes w r) ≡ length (sealed_extension aes w r))
      × (after_answer w (request_header aes w r) ≡ w)
      × (note_binary now r.msg_num (parse_extension xml r.extension) w.binary_msg_nums
          ≡ (false, w.binary_msg_nums))
  unfolding extension_len after_answer note_binary is_binary_msg_num is_modern
  header_facts =
      let facts = request_header-IsHeader aes xml w r v in
      let (class, code) = header_fields aes xml w r v in
      (
        ground (arith, facts.1, has_offset aes xml w r v, class),
        ground (arith, v.no_answer, code),
        ground (arith, v.not_flagged, v.not_binary),
      )

  -- The message that the request is read back as.
  abbrev pub message_of : Message
  message_of = record {
    header = request_header aes w r;
    extension = r.extension;
    payload = r.body;
    xml = text_of xml r.body;
    binary = false;
    extension_meta = parse_extension xml r.extension;
  }

  -- What `encodeRequest` writes of an XML request, `readMessage` reads with the same cipher state as
  -- that request: its header fields, and both blocks in the clear. The state stays as it was, and
  -- the bytes that follow are left for the next message.
  pub read_message-encode_request :
      (rest : List ℕ)
      → read_message aes xml now w (encode_request aes w r ++ rest) ≡ ok (message_of, w, rest)
  unfolding read_message encode_request request_header
  read_message-encode_request rest =
      let h = request_header aes w r in
      let (good, at, len) = request_header-IsHeader aes xml w r v in
      let (ext_len, same, num) = header_facts in
      let opened =
        open_extension aes xml w r (modern aes xml w r v) v.own_cipher v.extension_block in
      let body =
        open_body aes xml w r (modern aes xml w r v) v.own_cipher (text_of xml r.extension)
          (parse_extension xml r.extension) v.body_block v.plain in
      rw (frame-append h, read_frame-frame h _ rest good (sym len))
        (rw (decode_blocks aes xml now w h _ _ _ _ _ _ ext_len len same opened num body))
