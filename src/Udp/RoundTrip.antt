-- ===== src/Udp/RoundTrip.antt =====
-- `parseUDPPacket` against `marshalUDPPacket`.
use reolinkproxy.Base.{ℕ, ◌≡◌, List, ◌++◌, arith, length, length-append, take-append_length, ok}
use reolinkproxy.Base.Bytes.{IsBytes, IsU32, word32_bytes}
use reolinkproxy.Udp.{
  UdpPacket, discovery, ack, datagram, marshal_udp_packet, parse_udp_packet, udp_crc32,
  udp_magic_discovery, udp_magic_ack, udp_magic_data,
}
use reolinkproxy.Udp.Crc.{udp_crc32-IsU32}

-- What the Go types say of a packet: its fields are uint32, its payload is bytes and has a length
-- that the header's uint32 can hold.
abbrev pub IsPacket : UdpPacket → Type 0
IsPacket (discovery tid payload) = IsU32 tid × IsBytes payload × IsU32 (length payload)
IsPacket (ack connection_id packet_id payload) =
    IsU32 connection_id × IsU32 packet_id × IsU32 (length payload)
IsPacket (datagram connection_id packet_id payload) =
    IsU32 connection_id × IsU32 packet_id × IsU32 (length payload)

-- Parsing what was marshalled gives the packet back, whatever bytes follow it in the buffer.
pub parse_udp_packet-marshal_udp_packet :
    (p : UdpPacket) (rest : List ℕ)
    → IsPacket p
    → parse_udp_packet (marshal_udp_packet p ++ rest) ≡ ok p
unfolding parse_udp_packet marshal_udp_packet
parse_udp_packet-marshal_udp_packet (discovery tid payload) rest h = ground (
  arith,
  word32_bytes udp_magic_discovery (omega arith),
  word32_bytes (length payload) h.2,
  word32_bytes tid h.0,
  word32_bytes (udp_crc32 payload) (udp_crc32-IsU32 payload h.1),
  take-append_length payload rest,
  length-append payload rest,
)
parse_udp_packet-marshal_udp_packet (ack connection_id packet_id payload) rest h = ground (
  arith,
  word32_bytes udp_magic_ack (omega arith),
  word32_bytes (length payload) h.2,
  word32_bytes connection_id h.0,
  word32_bytes packet_id h.1,
  take-append_length payload rest,
  length-append payload rest,
)
parse_udp_packet-marshal_udp_packet (datagram connection_id packet_id payload) rest h = ground (
  arith,
  word32_bytes udp_magic_data (omega arith),
  word32_bytes (length payload) h.2,
  word32_bytes connection_id h.0,
  word32_bytes packet_id h.1,
  take-append_length payload rest,
  length-append payload rest,
)
