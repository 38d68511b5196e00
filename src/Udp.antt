-- ===== src/Udp.antt =====
-- The datagrams of the UID transport, pkg/baichuan/udp.go: their layout and checksum.
pub mod Crc
pub mod RoundTrip
pub mod Corrupt
use reolinkproxy.Base.{
  ℕ, zero, suc, ◌+◌, ◌/◌, ◌^◌, bit_and, bit_xor, List, [], ◌∷◌, ◌++◌, Bool, true, false, not, ltb,
  ◌==◌, if◌then◌else◌, length, take, drop, Result, ok, err,
}
use reolinkproxy.Base.Bytes.{put_uint32, uint32_at}

abbrev pub udp_magic_discovery : ℕ
udp_magic_discovery = 0x2A87CF3A

abbrev pub udp_magic_ack : ℕ
udp_magic_ack = 0x2A87CF20

abbrev pub udp_magic_data : ℕ
udp_magic_data = 0x2A87CF10

-- The three types behind the `udpPacket` interface. An int32 connection id is kept as the uint32
-- with the same bits, which is what goes over the wire; the code only compares ids for equality.
pub data UdpPacket : Type 0 where
  discovery : ℕ → List ℕ → UdpPacket
  ack : ℕ → ℕ → List ℕ → UdpPacket
  datagram : ℕ → ℕ → List ℕ → UdpPacket

-- One constructor for each error that `parseUDPPacket` returns.
pub data UdpError : Type 0 where
  short_packet short_discovery_packet short_discovery_payload checksum_mismatch : UdpError
  short_ack_packet short_ack_payload short_data_packet short_data_payload : UdpError
  unknown_magic : ℕ → UdpError

abbrev pub crc_poly : ℕ
crc_poly = 0xEDB88320

-- One round of the inner loop of `udpCRC32`.
pub crc_bit : ℕ → ℕ
crc_bit crc = if not (bit_and crc 1 == 0) then bit_xor (crc / 2) crc_poly else crc / 2

pub crc_bits : ℕ → ℕ → ℕ
crc_bits zero crc = crc
crc_bits (suc n) crc = crc_bits n (crc_bit crc)

-- The outer loop, from the checksum of what came before.
pub crc_from : ℕ → List ℕ → ℕ
crc_from crc [] = crc
crc_from crc (b ∷ buf) = crc_from (crc_bits 8 (bit_xor crc b)) buf

unfoldable pub udp_crc32 : List ℕ → ℕ
unfolding crc_from crc_bits crc_bit
udp_crc32 buf = crc_from 0 buf

-- The first 20 bytes of a discovery packet, for a payload of that length and checksum.
abbrev pub discovery_header : ℕ → ℕ → ℕ → List ℕ → List ℕ
discovery_header len tid checksum rest =
    put_uint32 udp_magic_discovery
      (put_uint32 len (put_uint32 1 (put_uint32 tid (put_uint32 checksum rest))))

unfoldable pub marshal_udp_packet : UdpPacket → List ℕ
marshal_udp_packet (discovery tid payload) =
    discovery_header (length payload) tid (udp_crc32 payload) payload
marshal_udp_packet (ack connection_id packet_id payload) = put_uint32 udp_magic_ack (
    put_uint32 connection_id (
      put_uint32 0
        (put_uint32 0 (put_uint32 packet_id (put_uint32 0 (put_uint32 (length payload) payload))))))
marshal_udp_packet (datagram connection_id packet_id payload) = put_uint32 udp_magic_data (
    put_uint32 connection_id
      (put_uint32 0 (put_uint32 packet_id (put_uint32 (length payload) payload))))

pub parse_discovery : List ℕ → Result UdpError UdpPacket
parse_discovery buf =
    let payload_len = uint32_at 4 buf in
    let payload = take payload_len (drop 20 buf) in
    if ltb (length buf) 20
    then err short_discovery_packet
    else if ltb (length buf) (20 + payload_len)
    then err short_discovery_payload
    else if not (udp_crc32 payload == uint32_at 16 buf)
    then err checksum_mismatch
    else ok (discovery (uint32_at 12 buf) payload)

pub parse_ack : List ℕ → Result UdpError UdpPacket
parse_ack buf =
    let payload_len = uint32_at 24 buf in
    if ltb (length buf) 28
    then err short_ack_packet
    else if ltb (length buf) (28 + payload_len)
    then err short_ack_payload
    else ok (ack (uint32_at 4 buf) (uint32_at 16 buf) (take payload_len (drop 28 buf)))

pub parse_data : List ℕ → Result UdpError UdpPacket
parse_data buf =
    let payload_len = uint32_at 16 buf in
    if ltb (length buf) 20
    then err short_data_packet
    else if ltb (length buf) (20 + payload_len)
    then err short_data_payload
    else ok (datagram (uint32_at 4 buf) (uint32_at 12 buf) (take payload_len (drop 20 buf)))

-- The slice ends `20+payloadLen` and `28+payloadLen` are uint32 sums in the source; the length
-- test before them keeps them from wrapping in any buffer below 4 GiB.
unfoldable pub parse_udp_packet : List ℕ → Result UdpError UdpPacket
unfolding parse_discovery parse_ack parse_data
parse_udp_packet buf =
    let magic = uint32_at 0 buf in
    if ltb (length buf) 4
    then err short_packet
    else if magic == udp_magic_discovery
    then parse_discovery buf
    else if magic == udp_magic_ack
    then parse_ack buf
    else if magic == udp_magic_data
    then parse_data buf
    else err (unknown_magic magic)
