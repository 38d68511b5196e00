-- ===== src/Examples/Framing.antt =====
-- The ciphers, messages and media packets of pkg/baichuan, on concrete bytes.
use reolinkproxy.Base.{
  ℕ, ◌≡◌, ◌≢◌, refl, inl, inr, List, [], ◌∷◌, ◌++◌, true, false, none, arith, ok,
}
use reolinkproxy.Base.Store.{lookup}
use reolinkproxy.Base.Bytes.{word16, word32}
use reolinkproxy.Crypto.{
  AesCfb, Cipher, encryption_aes, bcxor, encrypt_xml, decrypt_xml, is_xml_prefix,
}
use reolinkproxy.Crypto.Stream.{bcxor-bcxor, length-bcxor, decrypt_xml-encrypt_xml}
use reolinkproxy.Message.{
  Header, Request, Wire, Xml, class_modern_with_offset, has_payload_offset, read_message,
  parse_extension,
}
use reolinkproxy.Message.Encode.{encode_request}
use reolinkproxy.Message.Frame.{IsHeader}
use reolinkproxy.Message.RoundTrip.{IsXmlRequest, message_of, read_message-encode_request}
use reolinkproxy.Media.{
  incomplete, packet, panic, aac, append, append_loop, parse_media_packet, parse_aac, parse_adpcm,
  waiting, out_of_fuel, Appended, pad_len,
}
use reolinkproxy.Media.Bounds.{append_ends}
use reolinkproxy.Media.Stable.{parse_media_packet_stable}
use reolinkproxy.Media.Chunks.{after, append-append}

-- A cipher in place of AES that keeps what the model asks of it.
abbrev stand_in : AesCfb
stand_in = record {
  encrypt = λ key buf. bcxor 5 buf;
  decrypt = λ key buf. bcxor 5 buf;
  decrypt-encrypt = λ key buf. bcxor-bcxor 5 buf;
  length-encrypt = λ key buf. length-bcxor 5 buf;
}

abbrev keyed : Cipher
keyed = record { mode = encryption_aes; aes_key = 1 ∷ []; has_aes_key = true }

abbrev document : List ℕ
document = b'<' ∷ b'?' ∷ b'x' ∷ b'm' ∷ b'l' ∷ b'>' ∷ []

document_is_xml : is_xml_prefix document ≡ true
unfolding is_xml_prefix
document_is_xml = refl

decrypt_xml-encrypt_xml_example :
    decrypt_xml stand_in 2 (encrypt_xml stand_in 2 document keyed) keyed ≡ document
decrypt_xml-encrypt_xml_example = decrypt_xml-encrypt_xml stand_in 2 document keyed

not_taken_for_xml :
    (is_xml_prefix (decrypt_xml stand_in 2 (bcxor 2 document) keyed) ≡ false)
    × (is_xml_prefix (bcxor 2 document) ≡ false)
unfolding is_xml_prefix decrypt_xml bcxor
not_taken_for_xml = (refl, refl)

-- A hash in place of MD5: sixteen bytes for every input.
abbrev flat : List ℕ → List ℕ
flat input = 1 ∷ 2 ∷ 3 ∷ 4 ∷ 5 ∷ 6 ∷ 7 ∷ 8 ∷ 9 ∷ 10 ∷ 11 ∷ 12 ∷ 13 ∷ 14 ∷ 15 ∷ 171 ∷ []

abbrev header : Header
header = record {
  msg_id = 3;
  body_len = 2;
  channel_id = 1;
  stream_type = 0;
  msg_num = 300;
  response_code = 200;
  class = class_modern_with_offset;
  payload_offset = 1;
}

header-IsHeader : IsHeader header
unfolding has_payload_offset
header-IsHeader = record {
  msg_id_range = omega arith;
  body_range = omega arith;
  channel_range = omega arith;
  stream_range = omega arith;
  msg_num_range = omega arith;
  code_range = omega arith;
  class_range = omega arith;
  offset_range = omega arith;
  offset_needed = inl refl;
}

-- An XML decoder that finds nothing, and trims nothing.
abbrev blind : Xml
blind = record {
  unmarshal_extension = λ buf. none;
  parse_encrypt_len = λ text. none;
  trim_space = λ text. text;
}

abbrev wire : Wire
wire = record {
  mode = encryption_aes;
  negotiated = true;
  aes_key = 1 ∷ [];
  has_aes_key = true;
  binary_msg_nums = (4, 0) ∷ [];
}

abbrev request : Request
request = record {
  msg_id = 3;
  channel_id = 1;
  stream_type = 0;
  class = class_modern_with_offset;
  msg_num = 5;
  response_code = 0;
  extension = document;
  body = document ++ document;
  binary = false;
  force_bc = false;
}

request-IsXmlRequest : IsXmlRequest wire blind request
unfolding is_xml_prefix parse_extension lookup
request-IsXmlRequest = record {
  msg_id_range = omega arith;
  channel_range = omega arith;
  stream_range = omega arith;
  msg_num_range = omega arith;
  code_range = omega arith;
  layout = refl;
  own_cipher = refl;
  plain = refl;
  extension_block = inr refl;
  body_block = inr refl;
  size = omega arith;
  no_answer = omega arith;
  not_flagged = refl;
  not_binary = refl;
}

read_message-encode_request_example :
    read_message stand_in blind 0 wire (encode_request stand_in wire request ++ 1 ∷ 2 ∷ [])
    ≡ ok (message_of stand_in blind 0 wire request request-IsXmlRequest, wire, 1 ∷ 2 ∷ [])
read_message-encode_request_example =
    read_message-encode_request stand_in blind 0 wire request request-IsXmlRequest (1 ∷ 2 ∷ [])

-- An AAC packet with a payload of eight bytes, in two parts.
abbrev front : List ℕ
front = 0x30 ∷ 0x35 ∷ 0x77 ∷ 0x62 ∷ 8 ∷ 0 ∷ []

abbrev back : List ℕ
back = 8 ∷ 0 ∷ 1 ∷ 2 ∷ 3 ∷ 4 ∷ 5 ∷ 6 ∷ 7 ∷ 8 ∷ []

front_waits : Appended.status (append [] front) ≡ waiting
unfolding append append_loop parse_media_packet parse_aac word32 word16
front_waits = refl

whole_packet :
    parse_media_packet (front ++ back) ≡ packet (aac (1 ∷ 2 ∷ 3 ∷ 4 ∷ 5 ∷ 6 ∷ 7 ∷ 8 ∷ [])) 16
unfolding parse_media_packet parse_aac word32 word16 pad_len
whole_packet = refl

complete : parse_media_packet (front ++ back) ≢ incomplete
complete e = cc (whole_packet, e)

append-append_example :
    append [] (front ++ back) ≡ after (append [] front).packets (append (append [] front).rest back)
append-append_example = append-append [] front back front_waits

append_ends_example : Appended.status (append front back) ≢ out_of_fuel
append_ends_example = append_ends front back

parse_media_packet_stable_example :
    parse_media_packet ((front ++ back) ++ 9 ∷ []) ≡ parse_media_packet (front ++ back)
parse_media_packet_stable_example = parse_media_packet_stable (front ++ back) (9 ∷ []) complete

-- An ADPCM packet whose payload is shorter than its own header: the slice's end is below its start.
short_adpcm_panics :
    parse_media_packet (0x30 ∷ 0x31 ∷ 0x77 ∷ 0x62 ∷ 0 ∷ 0 ∷ 0 ∷ 0 ∷ 0 ∷ 1 ∷ 0 ∷ 0 ∷ []) ≡ panic
unfolding parse_media_packet parse_adpcm word32 word16 pad_len
short_adpcm_panics = refl
