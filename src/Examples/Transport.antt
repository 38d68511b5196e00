-- ===== src/Examples/Transport.antt =====
-- The datagrams and the session of pkg/baichuan/udp.go and uid.go, on concrete packets.
use reolinkproxy.Base.{
  ℕ, ◌≤◌, ◌≡◌, ◌≢◌, refl, ◌⊎◌, inr, List, [], ◌∷◌, ◌++◌, true, Option, none, some, All, arith, ok,
  err,
}
use reolinkproxy.Base.Store.{Store, lookup, insert, delete}
use reolinkproxy.Udp.{
  UdpPacket, discovery, ack, datagram, udp_crc32, discovery_header, parse_udp_packet,
  marshal_udp_packet, checksum_mismatch,
}
use reolinkproxy.Udp.Corrupt.{parse_udp_packet_corrupt}
use reolinkproxy.Udp.RoundTrip.{IsPacket, parse_udp_packet-marshal_udp_packet}
use reolinkproxy.Session.{
  Session, Reassembly, receive, read_loop, ack_window, window, max_key, write, contiguous_payloads,
  keep_first,
}
use reolinkproxy.Session.Delivery.{in_order}
use reolinkproxy.Session.InOrder.{IsNot, fresh, read_loop-in_order}
use reolinkproxy.Session.Link.{Waits, after_ack, after_ack_safe, after_ack_done}
use reolinkproxy.Session.Read.{Pipe, fill, read}

abbrev no_disconnect : List ℕ → Option (ℕ × ℕ)
no_disconnect payload = none

abbrev echo : ℕ → List ℕ
echo id = id ∷ []

-- Out of order, one of them twice.
abbrev arrivals : List UdpPacket
arrivals =
    datagram 7 1 (1 ∷ [])
    ∷ datagram 7 0 (0 ∷ [])
    ∷ ack 7 0 []
    ∷ datagram 7 1 (1 ∷ [])
    ∷ datagram 7 3 (3 ∷ [])
    ∷ []

arrivals_in_order : (read_loop no_disconnect (fresh 7 9) arrivals).1 ≡ (0 ∷ []) ∷ (1 ∷ []) ∷ []
unfolding read_loop receive contiguous_payloads keep_first lookup insert delete
arrivals_in_order = refl

read_loop-in_order_example :
    let out = read_loop no_disconnect (fresh 7 9) arrivals in
    (n : ℕ) × (out.1 ≡ in_order echo 0 n) × ((out.0.closed ≢ none) ⊎ All (IsNot 7 n) arrivals)
read_loop-in_order_example = read_loop-in_order no_disconnect echo 7 9 arrivals (
  inr (refl, omega arith),
  (inr (refl, omega arith), (tt, (inr (refl, omega arith), (inr (refl, omega arith), tt)))),
)

-- A receiver that consumed the packets 0 and 1 and holds the packet 3.
abbrev waiting_receiver : Reassembly
waiting_receiver = record { packets = (3, 3 ∷ []) ∷ []; consumed = 1; has_consumed = true }

abbrev unacknowledged : Store (List ℕ)
unacknowledged = (0, 0 ∷ []) ∷ (1, 1 ∷ []) ∷ (2, 2 ∷ []) ∷ (3, 3 ∷ []) ∷ []

waiting_receiver-Waits : Waits waiting_receiver
unfolding lookup max_key
waiting_receiver-Waits = record {
  has = refl;
  missing = refl;
  room = omega arith;
  below = omega arith;
}

acknowledged : ack_window waiting_receiver ≡ window 1 (0 ∷ 1 ∷ [])
unfolding ack_window lookup
acknowledged = refl

after_ack_safe_example :
    (lookup 3 (after_ack (ack_window waiting_receiver) unacknowledged) ≡ lookup 3 unacknowledged)
    ⊎ ((3 ≤ 1) ⊎ (lookup 3 waiting_receiver.packets ≢ none))
after_ack_safe_example = after_ack_safe waiting_receiver unacknowledged 3 waiting_receiver-Waits

three_waits : lookup 3 waiting_receiver.packets ≢ none
unfolding lookup
three_waits e = ground arith

after_ack_done_example : lookup 3 (after_ack (ack_window waiting_receiver) unacknowledged) ≡ none
after_ack_done_example =
    after_ack_done waiting_receiver unacknowledged 3 waiting_receiver-Waits
      (inr (omega arith, three_waits))

abbrev waiting_session : Session
waiting_session = record (fresh 7 9) { reassembly = waiting_receiver }

not_there : (lookup 2 waiting_receiver.packets ≡ none) × (lookup 0 waiting_receiver.packets ≡ none)
unfolding lookup
not_there = (refl, refl)

one_chunk_each : write 22 (1 ∷ 2 ∷ 3 ∷ []) ≡ some ((1 ∷ 2 ∷ []) ∷ (3 ∷ []) ∷ [])
unfolding write
one_chunk_each = refl

crc_of_one : udp_crc32 (1 ∷ []) ≡ 0x77073096
unfolding udp_crc32
crc_of_one = refl

parse_udp_packet_corrupt_example :
    parse_udp_packet (discovery_header 3 5 (udp_crc32 (1 ∷ 2 ∷ 3 ∷ [])) (1 ∷ 9 ∷ 3 ∷ []))
    ≡ err checksum_mismatch
parse_udp_packet_corrupt_example =
    parse_udp_packet_corrupt 5 (1 ∷ []) (3 ∷ []) 2 9 (omega arith)
      (omega arith, (omega arith, (omega arith, tt))) (omega arith) (omega arith) (omega arith)

abbrev hello : UdpPacket
hello = discovery 5 (0x68 ∷ 0x69 ∷ [])

hello-IsPacket : IsPacket hello
hello-IsPacket = (omega arith, (omega arith, (omega arith, tt)), omega arith)

parse_udp_packet-marshal_udp_packet_example :
    parse_udp_packet (marshal_udp_packet hello ++ 1 ∷ []) ≡ ok hello
parse_udp_packet-marshal_udp_packet_example =
    parse_udp_packet-marshal_udp_packet hello (1 ∷ []) hello-IsPacket

-- An empty chunk is passed over, and a short read leaves the rest of a chunk.
abbrev pipe : Pipe
pipe = record { read_buf = []; read_queue = [] ∷ (1 ∷ 2 ∷ 3 ∷ []) ∷ (4 ∷ []) ∷ [] }

two_bytes :
    read 2 pipe ≡ some (1 ∷ 2 ∷ [], record { read_buf = 3 ∷ []; read_queue = (4 ∷ []) ∷ [] })
unfolding read fill
two_bytes = refl
