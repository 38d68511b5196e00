-- ===== src/Session.antt =====
-- The reliable session over datagrams, pkg/baichuan/uid.go with the window functions of udp.go:
-- reassembly of what arrives, retransmission of what was sent, and the acknowledgements between.
pub mod Delivery
pub mod Receive
pub mod InOrder
pub mod Stale
pub mod Bitmap
pub mod Link
pub mod Write
pub mod Read
use reolinkproxy.Base.{
  ℕ, zero, suc, ◌+◌, ◌-◌, ◌%◌, ◌^◌, max, min, List, [], ◌∷◌, ◌++◌, Bool, true, false, not, ◌&&◌,
  ltb, leb, ◌==◌, if◌then◌else◌, length, take, drop, Option, none, some, Result, ok, err,
}
use reolinkproxy.Base.Store.{Store, lookup, insert, delete}
use reolinkproxy.Crypto.{udpxor}
use reolinkproxy.Udp.{UdpPacket, discovery, ack, datagram, marshal_udp_packet}

abbrev pub u32 : ℕ → ℕ
u32 v = v % 2 ^ 32

-- `recvPackets`, `consumedID` and `hasConsumed`.
pub record Reassembly : Type 0 where
  pub packets : Store (List ℕ)
  pub consumed : ℕ
  pub has_consumed : Bool

-- The id that `contiguousPayloads` starts to look for.
abbrev pub next_id : Reassembly → ℕ
next_id r = if r.has_consumed then u32 (r.consumed + 1) else 0

-- The loop of `contiguousPayloads`. A round takes a packet out of the map, so the map's size at
-- the start is fuel enough.
pub contiguous_from : ℕ → ℕ → Reassembly → List (List ℕ) × Reassembly
contiguous_from zero next r = ([], r)
contiguous_from (suc fuel) next r = elim (lookup next r.packets) [
  | none ↦ ([], r)
  | some payload ↦
      let taken : Reassembly = record {
        packets = delete next r.packets;
        consumed = next;
        has_consumed = true;
      } in
      let (results, after) = contiguous_from fuel (u32 (next + 1)) taken in
      (payload ∷ results, after)
]

unfoldable pub contiguous_payloads : Reassembly → List (List ℕ) × Reassembly
unfolding contiguous_from
contiguous_payloads r = contiguous_from (length r.packets) (next_id r) r

-- The search in `ackWindow` for the end of the run of packets after `start`; `none` when the fuel
-- runs out.
pub run_end : ℕ → ℕ → Store (List ℕ) → Option ℕ
run_end zero start store = none
run_end (suc fuel) start store = elim (lookup (u32 (start + 1)) store) [
  | none ↦ some start
  | some payload ↦ run_end fuel (u32 (start + 1)) store
]

-- The last of the sorted keys.
unfoldable pub max_key : Store (List ℕ) → ℕ
max_key [] = 0
max_key ((k, v) ∷ m) = max k (max_key m)

-- `for id := start + 1; id <= end; id++`, on uint32; `none` when the fuel runs out.
pub bitmap_from : ℕ → ℕ → ℕ → Store (List ℕ) → Option (List ℕ)
bitmap_from zero id end store = none
bitmap_from (suc fuel) id end store =
    let rest = bitmap_from fuel (u32 (id + 1)) end store in
    let bit : ℕ = elim (lookup id store) [ none ↦ 0 | some payload ↦ 1 ] in
    if leb id end then elim rest [ none ↦ none | some bits ↦ some (bit ∷ bits) ] else some []

-- What `ackWindow` returns: nothing to acknowledge, or the first field of the acknowledgement and
-- its bitmap. `stuck` is no value of the source: a loop ran out of fuel.
pub data AckWindow : Type 0 where
  nothing : AckWindow
  window : ℕ → List ℕ → AckWindow
  stuck : AckWindow

pub window_end : ℕ → Store (List ℕ) → ℕ
window_end start store =
    let end = max_key store in if ltb 200 (end - start) then u32 (start + 200) else end

-- The bitmap holds at most 200 ids, so 202 rounds are enough unless the loop never ends.
pub window_from : ℕ → Store (List ℕ) → AckWindow
window_from start [] = window start []
window_from start (entry ∷ store) =
    let bits =
      bitmap_from 202 (u32 (start + 1)) (window_end start (entry ∷ store)) (entry ∷ store) in
    if ltb (max_key (entry ∷ store)) start
    then window start []
    else elim bits [ none ↦ stuck | some payload ↦ window start payload ]

unfoldable pub ack_window : Reassembly → AckWindow
unfolding run_end max_key bitmap_from window_end window_from
ack_window r =
    let found = run_end (length r.packets + 1) r.consumed r.packets in
    if not r.has_consumed
    then nothing
    else elim found [ none ↦ stuck | some start ↦ window_from start r.packets ]

-- Why a session was shut down.
pub data CloseError : Type 0 where
  closed_by_caller camera_disconnect receive_overflow send_overflow socket_error : CloseError

-- The fields of `uidSession` that its two loops work on. `closed` is `closeState`, set once.
pub record Session : Type 0 where
  pub client_id : ℕ
  pub camera_id : ℕ
  pub sent : Store (List ℕ)
  pub next_packet_id : ℕ
  pub reassembly : Reassembly
  pub closed : Option CloseError

unfoldable pub shutdown : CloseError → Session → Session
shutdown e s = elim s.closed [ none ↦ record s { closed = some e } | some first ↦ s ]

-- The two deletions that an acknowledgement makes in `sentPackets`.
pub drop_upto : ℕ → Store (List ℕ) → Store (List ℕ)
drop_upto id [] = []
drop_upto id ((k, v) ∷ m) = let rest = drop_upto id m in if leb k id then rest else (k, v) ∷ rest

pub drop_flagged : ℕ → List ℕ → Store (List ℕ) → Store (List ℕ)
drop_flagged id [] m = m
drop_flagged id (value ∷ payload) m =
    drop_flagged (u32 (id + 1)) payload (if value == 0 then m else delete id m)

unfoldable pub acknowledge : ℕ → List ℕ → Store (List ℕ) → Store (List ℕ)
unfolding drop_upto drop_flagged
acknowledge packet_id payload sent =
    drop_flagged (u32 (packet_id + 1)) payload (drop_upto packet_id sent)

-- `if _, ok := recvPackets[id]; !ok { recvPackets[id] = payload }`
unfoldable pub keep_first : ℕ → List ℕ → Store (List ℕ) → Store (List ℕ)
keep_first id payload m = elim (lookup id m) [ none ↦ insert id payload m | some old ↦ m ]

-- What the arms of `readLoop` do with a parsed packet: the session after it, and the chunks for the
-- read queue. `disconnect` is what the XML decoder finds in a discovery payload: the two ids of a
-- D2C_DISC element, if there is one.
module _ (disconnect : List ℕ → Option (ℕ × ℕ)) where
  unfoldable pub receive_discovery : Session → ℕ → List ℕ → Session
  receive_discovery s tid payload = elim (disconnect (udpxor tid payload)) [
    | none ↦ s
    | some (cid, did) ↦
        if cid == s.client_id && did == s.camera_id then shutdown camera_disconnect s else s
  ]

  unfoldable pub receive : Session → UdpPacket → Session × List (List ℕ)
  receive s (discovery tid payload) = (receive_discovery s tid payload, [])
  receive s (ack connection_id packet_id payload) =
      if not (connection_id == s.client_id)
      then (s, [])
      else (record s { sent = acknowledge packet_id payload s.sent }, [])
  receive s (datagram connection_id packet_id payload) =
      let r = s.reassembly in
      let (chunks, after) =
        contiguous_payloads (record r { packets = keep_first packet_id payload r.packets }) in
      if not (connection_id == s.client_id)
      then (s, [])
      else if ltb 1024 (length r.packets)
      then (shutdown receive_overflow s, [])
      else (record s { reassembly = after }, chunks)

  -- `readLoop` over the packets that parse, in the order of arrival. It stops at a closed session.
  unfoldable pub read_loop : Session → List UdpPacket → Session × List (List ℕ)
  read_loop s [] = (s, [])
  read_loop s (p ∷ packets) =
      let (after, chunks) = receive s p in
      let (last, later) = read_loop after packets in
      elim s.closed [ some e ↦ (s, []) | none ↦ (last, chunks ++ later) ]

-- The arm of `writeLoop` for a chunk: the session after it and the datagram that went out. `sends`
-- is whether the socket took it.
unfoldable pub send_chunk : Bool → Session → List ℕ → Session × Option (List ℕ)
send_chunk sends s chunk =
    let packet = marshal_udp_packet (datagram s.camera_id s.next_packet_id chunk) in
    let next = record s { next_packet_id = u32 (s.next_packet_id + 1) } in
    if ltb 1024 (length s.sent)
    then (shutdown send_overflow s, none)
    else if sends
    then (record next { sent = insert s.next_packet_id packet s.sent }, some packet)
    else (shutdown socket_error next, some packet)

pub values : Store (List ℕ) → List (List ℕ)
values [] = []
values ((k, v) ∷ m) = v ∷ values m

-- The arm of `writeLoop` for its ticker: everything not yet acknowledged goes out again, in no
-- particular order, and then the acknowledgement.
unfoldable pub tick : Session → List (List ℕ)
unfolding values
tick s = values s.sent ++ elim (ack_window s.reassembly) [
  | nothing ↦ []
  | window start payload ↦ marshal_udp_packet (ack s.camera_id start payload) ∷ []
  | stuck ↦ []
]

-- `Write`: the loop over `p`, each round of which takes a byte at least.
pub chunks_of : ℕ → ℕ → List ℕ → List (List ℕ)
chunks_of zero max_payload p = []
chunks_of (suc fuel) max_payload [] = []
chunks_of (suc fuel) max_payload (b ∷ p) =
    let chunk_len = min (length (b ∷ p)) max_payload in
    take chunk_len (b ∷ p) ∷ chunks_of fuel max_payload (drop chunk_len (b ∷ p))

-- The chunks that `Write` queues while the session stays open; `none` is the error of an MTU that
-- leaves no room for a payload.
unfoldable pub write : ℕ → List ℕ → Option (List (List ℕ))
unfolding chunks_of
write mtu p =
    let max_payload = mtu - 20 in
    if max_payload == 0 then none else some (chunks_of (length p) max_payload p)
