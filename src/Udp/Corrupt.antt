-- ===== src/Udp/Corrupt.antt =====
-- What `parseUDPPacket` refuses, and what it reads.
use reolinkproxy.Base.{
  ℕ, ◌+◌, ◌≤◌, ◌≡◌, ◌≢◌, ◌⊎◌, inl, inr, List, ◌∷◌, ◌++◌, arith, length, length-append, take, drop,
  take_all, ok, err,
}
use reolinkproxy.Base.Bytes.{IsByte, IsBytes, IsU32, word32_bytes, uint32_at}
use reolinkproxy.Udp.{
  UdpPacket, discovery, ack, datagram, checksum_mismatch, parse_udp_packet, parse_discovery,
  parse_ack, parse_data, udp_crc32, udp_magic_discovery, discovery_header,
}
use reolinkproxy.Udp.Crc.{udp_crc32-IsU32, udp_crc32_detects}

same_length :
    (front back : List ℕ) (a b : ℕ) → length (front ++ b ∷ back) ≡ length (front ++ a ∷ back)
same_length front back a b =
    omega (arith, length-append front (b ∷ back), length-append front (a ∷ back))

-- A discovery packet in which one byte of the payload was changed on the way is refused with the
-- checksum error, whichever byte it was and whatever it became.
pub parse_udp_packet_corrupt :
    (tid : ℕ) (front back : List ℕ) (a b : ℕ)
    → IsU32 tid
    → IsBytes (front ++ a ∷ back)
    → IsU32 (length (front ++ a ∷ back))
    → IsByte b
    → a ≢ b
    → parse_udp_packet (
        discovery_header
          (length (front ++ a ∷ back))
          tid
          (udp_crc32 (front ++ a ∷ back))
          (front ++ b ∷ back))
      ≡ err checksum_mismatch
unfolding parse_udp_packet
parse_udp_packet_corrupt tid front back a b ht hp hl hb ne = ground (
  arith,
  word32_bytes udp_magic_discovery (omega arith),
  word32_bytes (length (front ++ a ∷ back)) hl,
  word32_bytes (udp_crc32 (front ++ a ∷ back)) (udp_crc32-IsU32 (front ++ a ∷ back) hp),
  same_length front back a b,
  take_all (front ++ b ∷ back),
  udp_crc32_detects front back a b hp hb ne,
)

-- Where the payload of each kind of packet starts.
abbrev pub header_len : UdpPacket → ℕ
header_len (discovery tid payload) = 20
header_len (ack connection_id packet_id payload) = 28
header_len (datagram connection_id packet_id payload) = 20

abbrev pub payload_of : UdpPacket → List ℕ
payload_of (discovery tid payload) = payload
payload_of (ack connection_id packet_id payload) = payload
payload_of (datagram connection_id packet_id payload) = payload

-- The field that carries the payload's length.
abbrev pub length_field : UdpPacket → ℕ
length_field (discovery tid payload) = 4
length_field (ack connection_id packet_id payload) = 24
length_field (datagram connection_id packet_id payload) = 16

-- The slice that a successful parse took lies inside the buffer.
pub record Sliced (buf : List ℕ) (p : UdpPacket) : Type 0 where
  pub fits : header_len p + uint32_at (length_field p) buf ≤ length buf
  pub slice : payload_of p ≡ take (uint32_at (length_field p) buf) (drop (header_len p) buf)

discovery_Sliced : (buf : List ℕ) {p : UdpPacket} → parse_discovery buf ≡ ok p → Sliced buf p
unfolding parse_discovery
discovery_Sliced buf {p = discovery tid payload} e = ground arith
discovery_Sliced buf {p = ack c i payload} e = ground arith
discovery_Sliced buf {p = datagram c i payload} e = ground arith

ack_Sliced : (buf : List ℕ) {p : UdpPacket} → parse_ack buf ≡ ok p → Sliced buf p
unfolding parse_ack
ack_Sliced buf {p = discovery tid payload} e = ground arith
ack_Sliced buf {p = ack c i payload} e = ground arith
ack_Sliced buf {p = datagram c i payload} e = ground arith

data_Sliced : (buf : List ℕ) {p : UdpPacket} → parse_data buf ≡ ok p → Sliced buf p
unfolding parse_data
data_Sliced buf {p = discovery tid payload} e = ground arith
data_Sliced buf {p = ack c i payload} e = ground arith
data_Sliced buf {p = datagram c i payload} e = ground arith

parse_branches :
    (buf : List ℕ) {p : UdpPacket}
    → parse_udp_packet buf ≡ ok p
    → (parse_discovery buf ≡ ok p) ⊎ ((parse_ack buf ≡ ok p) ⊎ (parse_data buf ≡ ok p))
unfolding parse_udp_packet
parse_branches buf e = ground arith

-- On any buffer, a parse that succeeds took its payload from a range that lies within the buffer,
-- at the place and of the length that the packet's kind and its length field say.
pub parse_udp_packet-Sliced :
    (buf : List ℕ) {p : UdpPacket} → parse_udp_packet buf ≡ ok p → Sliced buf p
parse_udp_packet-Sliced buf {p} e = elim (parse_branches buf e) [
  | inl d ↦ discovery_Sliced buf d
  | inr (inl a) ↦ ack_Sliced buf a
  | inr (inr d) ↦ data_Sliced buf d
]
