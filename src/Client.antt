-- ===== src/Client.antt =====
-- What `Client` of pkg/baichuan/client.go keeps besides its cipher: message numbers, the requests
-- that wait for a reply, the subscriptions, and the keepalive.
pub mod Dispatch
pub mod KeepAlive
pub mod Preview
pub mod Parsed
pub mod Fed
use reolinkproxy.Base.{
  second, max, ◌*◌, ℕ, zero, suc, ◌+◌, ◌%◌, ◌^◌, List, [], ◌∷◌, ◌++◌, Bool, true, false, ◌&&◌, ◌||◌,
  not, ltb, leb, ◌==◌, if◌then◌else◌, length, Option, none, some,
}
use reolinkproxy.Message.{Message, Header, has_payload_offset}

-- `reserveMessageNumber`, on a uint16: the number for this request, and the next one.
unfoldable pub reserve_message_number : ℕ → ℕ × ℕ
reserve_message_number msg_num = (msg_num, (msg_num + 1) % 2 ^ 16)

-- `Message.success`: none, or the code of the `StatusError`.
unfoldable pub success : Header → Option ℕ
success h =
    if not (has_payload_offset h.class)
    then none
    else if h.response_code == 200 || h.response_code == 201 || h.response_code == 300
    then none
    else some h.response_code

-- An entry of `pending`: its key, and its channel of capacity one.
pub record Waiter : Type 0 where
  pub msg_id : ℕ
  pub msg_num : ℕ
  pub slot : Option Message

-- An entry of `subs`: its message id, its channel of capacity 256 and its counter.
pub record Subscription : Type 0 where
  pub msg_id : ℕ
  pub queue : List Message
  pub dropped : ℕ

abbrev pub queue_capacity : ℕ
queue_capacity = 256

pub record Routes : Type 0 where
  pub pending : List Waiter
  pub subs : List Subscription

abbrev pub waits_for : Message → Waiter → Bool
waits_for m w = w.msg_id == m.header.msg_id && w.msg_num == m.header.msg_num

-- The send to a waiter's channel, which is skipped when the channel is full.
pub offer : Message → Waiter → Waiter
offer m w = elim w.slot [ none ↦ record w { slot = some m } | some first ↦ w ]

pub offer_pending : Message → List Waiter → List Waiter
offer_pending m [] = []
offer_pending m (w ∷ ws) = (if waits_for m w then offer m w else w) ∷ offer_pending m ws

-- The send to a subscription's channel, which counts what it cannot deliver.
pub deliver : Message → Subscription → Subscription
deliver m s =
    if ltb (length s.queue) queue_capacity
    then record s { queue = s.queue ++ m ∷ [] }
    else record s { dropped = s.dropped + 1 }

pub deliver_subs : Message → List Subscription → List Subscription
deliver_subs m [] = []
deliver_subs m (s ∷ ss) =
    (if s.msg_id == m.header.msg_id then deliver m s else s) ∷ deliver_subs m ss

unfoldable pub dispatch : Routes → Message → Routes
unfolding offer offer_pending deliver deliver_subs
dispatch r m = record { pending = offer_pending m r.pending; subs = deliver_subs m r.subs }

-- How a ping of `keepAliveLoop` went on TCP: answered, not answered while other bytes arrived, or
-- not answered at all.
pub data Ping : Type 0 where
  answered late missed : Ping

-- What happens while `keepAliveLoop` runs: a datagram of the camera arrives, which readLoop of a UID
-- session notes in `lastInbound`; or the ticker ticks, with how a ping goes that is sent then.
pub data Beat : Type 0 where
  hears : ℕ → Beat
  ticks : ℕ → Ping → Beat

abbrev pub max_ping_failures : ℕ
max_ping_failures = 3

abbrev pub uid_silence_limit : ℕ
uid_silence_limit = 15 * second

-- `pingFailures` after a ping.
unfoldable pub count_failure : Ping → ℕ → ℕ
count_failure answered failures = 0
count_failure late failures = 0
count_failure missed failures = failures + 1

-- A UID session has been silent for too long, counted from the start of the loop at the earliest.
unfoldable pub is_silent : ℕ → ℕ → ℕ → Bool
is_silent started_at last_inbound now = ltb (max last_inbound started_at + uid_silence_limit) now

-- `keepAliveLoop`, on UDP (where the transport is a UID session) or on TCP, which does not look at
-- `lastInbound`: whether it shuts the client down.
unfoldable pub keep_alive : Bool → ℕ → ℕ → ℕ → List Beat → Bool
unfolding count_failure is_silent
keep_alive is_udp started_at last_inbound failures [] = false
keep_alive is_udp started_at last_inbound failures (hears t ∷ beats) =
    keep_alive is_udp started_at t failures beats
keep_alive true started_at last_inbound failures (ticks now ping ∷ beats) =
    let rest = keep_alive true started_at last_inbound failures beats in
    if is_silent started_at last_inbound now then true else rest
keep_alive false started_at last_inbound failures (ticks now ping ∷ beats) =
    let failures' = count_failure ping failures in
    let rest = keep_alive false started_at last_inbound failures' beats in
    if leb max_ping_failures failures' then true else rest
