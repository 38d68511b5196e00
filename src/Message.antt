-- ===== src/Message.antt =====
-- The framing of the Baichuan protocol: pkg/baichuan/message.go, with the header types of types.go
-- and the cipher state of client.go. The XML decoder and the clock are parameters.
pub mod Encode
pub mod Frame
pub mod Blocks
pub mod RoundTrip
use reolinkproxy.Base.{
  ℕ, zero, suc, ◌+◌, ◌-◌, ◌*◌, ◌/◌, ◌%◌, ◌≤◌, List, [], ◌∷◌, ◌++◌, Bool, true, false, not, ◌&&◌,
  ◌||◌, ltb, leb, ◌==◌, if◌then◌else◌, length, take, drop, get_or, Option, none, some, Result, ok,
  err, ◌>>=◌, ◌^◌,
}
use reolinkproxy.Base.Bytes.{put_uint16, put_uint32, uint16_at, uint32_at}
use reolinkproxy.Base.Store.{Store, lookup, insert, delete}
use reolinkproxy.Crypto.{
  EncryptionMode, encryption_none, encryption_bc, encryption_aes, Cipher, AesCfb, encrypt_xml,
  decrypt_xml_auto,
}

abbrev pub magic_header : ℕ
magic_header = 0x0ABCDEF0

abbrev pub class_legacy : ℕ
class_legacy = 0x6514

abbrev pub class_modern_with_offset : ℕ
class_modern_with_offset = 0x6414

abbrev pub class_modern_alt : ℕ
class_modern_alt = 0x0000

abbrev pub msg_id_login : ℕ
msg_id_login = 1

pub record Header : Type 0 where
  pub msg_id : ℕ
  pub body_len : ℕ
  pub channel_id : ℕ
  pub stream_type : ℕ
  pub msg_num : ℕ
  pub response_code : ℕ
  pub class : ℕ
  pub payload_offset : ℕ

unfoldable pub has_payload_offset : ℕ → Bool
has_payload_offset class = class == class_modern_with_offset || class == class_modern_alt

unfoldable pub is_modern : Header → Bool
is_modern h = not (h.class == class_legacy)

-- The fields of `Extension` that the framing reads, as decoded.
pub record Extension : Type 0 where
  pub binary_data : Option ℕ
  pub encrypt_len : Option ℕ

pub record Message : Type 0 where
  pub header : Header
  pub extension : List ℕ
  pub payload : List ℕ
  pub xml : List ℕ
  pub binary : Bool
  pub extension_meta : Option Extension

pub record Request : Type 0 where
  pub msg_id : ℕ
  pub channel_id : ℕ
  pub stream_type : ℕ
  pub class : ℕ
  pub msg_num : ℕ
  pub response_code : ℕ
  pub extension : List ℕ
  pub body : List ℕ
  pub binary : Bool
  pub force_bc : Bool

-- The errors of `readMessage`. A short read is the transport's end.
pub data ReadError : Type 0 where
  end_of_stream : ReadError
  unexpected_magic body_too_large : ℕ → ReadError
  invalid_payload_offset : ℕ → ℕ → ReadError

-- The part of `Client` that framing reads and writes.
pub record Wire : Type 0 where
  pub mode : EncryptionMode
  pub negotiated : Bool
  pub aes_key : List ℕ
  pub has_aes_key : Bool
  pub binary_msg_nums : Store ℕ

abbrev pub snapshot_cipher : Wire → Cipher
snapshot_cipher w = record { mode = w.mode; aes_key = w.aes_key; has_aes_key = w.has_aes_key }

-- `setNegotiatedEncryption`: the low byte of the code selects the mode, if it is a known one.
abbrev pub negotiated_mode : ℕ → Option EncryptionMode
negotiated_mode code =
    if code % 256 == 0x00
    then some encryption_none
    else if code % 256 == 0x01
    then some encryption_bc
    else if code % 256 == 0x02 || code % 256 == 0x03 || code % 256 == 0x12
    then some encryption_aes
    else none

unfoldable pub set_negotiated_encryption : ℕ → Wire → Wire
set_negotiated_encryption code w = elim (negotiated_mode code) [
  | none ↦ w
  | some mode ↦ record w { mode = mode; negotiated = true }
]

-- Five minutes in nanoseconds.
abbrev pub binary_msg_num_ttl : ℕ
binary_msg_num_ttl = 300000000000

-- The sweep of `markBinaryMsgNum` over its map.
pub sweep : ℕ → Store ℕ → Store ℕ
sweep now [] = []
sweep now ((num, last_seen) ∷ m) =
    let rest = sweep now m in
    if ltb binary_msg_num_ttl (now - last_seen) then rest else (num, last_seen) ∷ rest

unfoldable pub mark_binary_msg_num : ℕ → ℕ → Store ℕ → Store ℕ
unfolding sweep
mark_binary_msg_num now msg_num m = sweep now (insert msg_num now m)

unfoldable pub is_binary_msg_num : ℕ → ℕ → Store ℕ → Bool × Store ℕ
is_binary_msg_num now msg_num m = elim (lookup msg_num m) [
  | none ↦ (false, m)
  | some last_seen ↦
      if ltb binary_msg_num_ttl (now - last_seen)
      then (false, delete msg_num m)
      else (true, insert msg_num now m)
]

-- `io.ReadFull` of `n` bytes on the bytes that the transport still delivers.
abbrev pub read_full : ℕ → List ℕ → Result ReadError (List ℕ × List ℕ)
read_full n stream =
    if ltb (length stream) n then err end_of_stream else ok (take n stream, drop n stream)

unfoldable pub parse_header : List ℕ → ℕ → Header
parse_header buf payload_offset = record {
  msg_id = uint32_at 4 buf;
  body_len = uint32_at 8 buf;
  channel_id = get_or buf 12 0;
  stream_type = get_or buf 13 0;
  msg_num = uint16_at 14 buf;
  response_code = uint16_at 16 buf;
  class = uint16_at 18 buf;
  payload_offset = payload_offset;
}

-- The decoders that the source takes from encoding/xml and strings: an extension block, an
-- `encryptLen` element above 0, and `strings.TrimSpace`.
pub record Xml : Type 0 where
  pub unmarshal_extension : List ℕ → Option Extension
  pub parse_encrypt_len : List ℕ → Option ℕ
  pub trim_space : List ℕ → List ℕ

-- Which bytes of a binary payload are encrypted.
pub encrypted_len : Xml → Option Extension → List ℕ → ℕ
encrypted_len xml meta text =
    let from_text = elim (xml.parse_encrypt_len text) as (λ o. ℕ) [ none ↦ 0 | some v ↦ v ] in
    elim meta [ none ↦ from_text | some e ↦ elim e.encrypt_len [ none ↦ from_text | some v ↦ v ] ]

abbrev pub flags_binary : Option Extension → Bool
flags_binary none = false
flags_binary (some e) = elim e.binary_data [ none ↦ false | some v ↦ v == 1 ]

abbrev pub max_body_len : ℕ
max_body_len = 50 * 1024 * 1024

-- The four bytes that follow the header in the layouts that have them.
unfoldable pub read_offset : ℕ → List ℕ → Result ReadError (ℕ × List ℕ)
read_offset class stream =
    if has_payload_offset class
    then (if ltb (length stream) 4
        then err end_of_stream
        else ok (uint32_at 0 stream, drop 4 stream))
    else ok (0, stream)

unfoldable pub read_body : Header → List ℕ → Result ReadError (Header × List ℕ × List ℕ)
read_body header stream =
    if ltb max_body_len header.body_len
    then err (body_too_large header.body_len)
    else if ltb (length stream) header.body_len
    then err end_of_stream
    else ok (header, take header.body_len stream, drop header.body_len stream)

-- The first half of `readMessage`: the header, the body as it came, and what is left to read.
unfoldable pub read_frame : List ℕ → Result ReadError (Header × List ℕ × List ℕ)
read_frame stream =
    if ltb (length stream) 20
    then err end_of_stream
    else if not (uint32_at 0 stream == magic_header)
    then err (unexpected_magic (uint32_at 0 stream))
    else (read_offset (uint16_at 18 stream) (drop 20 stream) >>= λ after.
        read_body (parse_header stream after.0) after.1)

-- A reply to the login that carries the marker 0xDD sets the mode, before the body is decoded.
unfoldable pub after_answer : Wire → Header → Wire
after_answer w h =
    if h.msg_id == msg_id_login && (is_modern h && h.response_code / 256 == 0xDD)
    then set_negotiated_encryption h.response_code w
    else w

unfoldable pub extension_len : Header → ℕ
extension_len h =
    if has_payload_offset h.class && ltb 0 h.payload_offset then h.payload_offset else 0

-- Whether the message is binary: its extension says so, or an earlier one of its number did.
unfoldable pub note_binary : ℕ → ℕ → Option Extension → Store ℕ → Bool × Store ℕ
note_binary now msg_num meta nums =
    if flags_binary meta
    then (true, mark_binary_msg_num now msg_num nums)
    else is_binary_msg_num now msg_num nums

module _ (xml : Xml) where
  unfoldable pub parse_extension : List ℕ → Option Extension
  parse_extension [] = none
  parse_extension (b ∷ buf) = xml.unmarshal_extension (b ∷ buf)

module _ (aes : AesCfb) (xml : Xml) where
  unfoldable pub decode_payload :
      Cipher → ℕ → Bool → Option Extension → List ℕ → List ℕ → List ℕ × List ℕ
  decode_payload c channel_id binary meta text [] = ([], [])
  decode_payload c channel_id binary meta text (b ∷ encrypted) =
      let buf : List ℕ = b ∷ encrypted in
      let n = encrypted_len xml meta text in
      let payload = decrypt_xml_auto aes channel_id buf c in
      let opened =
        if ltb 0 n && c.has_aes_key && leb n (length buf)
        then aes.decrypt c.aes_key (take n buf) ++ drop n buf
        else buf in
      if binary then (opened, text) else (payload, xml.trim_space payload)

  unfoldable pub decode_extension : Cipher → ℕ → List ℕ → List ℕ × List ℕ
  decode_extension c channel_id [] = ([], [])
  decode_extension c channel_id (b ∷ encrypted) =
      let extension = decrypt_xml_auto aes channel_id (b ∷ encrypted) c in
      (extension, xml.trim_space extension)

  -- The second half of `readMessage`, at the time `now`.
  unfoldable pub decode_body : ℕ → Wire → Header → List ℕ → Result ReadError (Message × Wire)
  decode_body now old h body =
      let w = after_answer old h in
      let c = snapshot_cipher w in
      let (extension, text) = decode_extension c h.channel_id (take (extension_len h) body) in
      let meta = parse_extension xml extension in
      let (binary, nums) = note_binary now h.msg_num meta w.binary_msg_nums in
      let (payload, xml_text) =
        decode_payload c h.channel_id binary meta text (drop (extension_len h) body) in
      if ltb h.body_len (extension_len h)
      then err (invalid_payload_offset (extension_len h) h.body_len)
      else ok (
        record {
          header = h;
          extension = extension;
          payload = payload;
          xml = xml_text;
          binary = binary;
          extension_meta = meta;
        },
        record w { binary_msg_nums = nums },
      )

  -- The message, the client's state after it, and what is left to read.
  unfoldable pub read_message : ℕ → Wire → List ℕ → Result ReadError (Message × Wire × List ℕ)
  read_message now w stream = read_frame stream >>= λ frame.
      decode_body now w frame.0 frame.1 >>= λ decoded. ok (decoded.0, decoded.1, frame.2)
