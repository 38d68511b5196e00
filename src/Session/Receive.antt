-- ===== src/Session/Receive.antt =====
-- One packet in `readLoop` of pkg/baichuan/uid.go: what it hands over, and what the session then has.
use reolinkproxy.Base.{
  ℕ, ◌+◌, ◌-◌, ◌^◌, ◌≤◌, ◌<◌, ◌≡◌, ◌≢◌, refl, List, [], arith, length, Option, none, ltb, ◌==◌,
  Bool-cases, ==_iff, subst, inl, inr, ◌⊎◌,
}
use native.Mathlib.Nat.{add-zero}
use native.Mathlib.Decide.{dec_lt}
use reolinkproxy.Base.Store.{lookup}
use reolinkproxy.Udp.{UdpPacket, discovery, ack, datagram}
use reolinkproxy.Session.{
  Session, Reassembly, next_id, contiguous_payloads, keep_first, receive, receive_discovery,
  shutdown, CloseError, receive_overflow, camera_disconnect,
}
use reolinkproxy.Session.Delivery.{
  in_order, IsStoreOf, Delivered, contiguous_payloads-Delivered, lookup-keep_first,
  keep_first-IsStoreOf, keep_first_there,
}

-- The datagrams that reach the session carry what the sender `f` put under their id.
abbrev pub FromSender : (ℕ → List ℕ) → ℕ → UdpPacket → Type 0
FromSender f client (discovery tid payload) = Unit {0}
FromSender f client (ack connection_id id payload) = Unit {0}
FromSender f client (datagram connection_id id payload) =
    (connection_id ≢ client) ⊎ ((payload ≡ f id) × (id < 2 ^ 32 - 1))

-- The packets `0` to `n - 1` have been handed over, the packet `n` is awaited.
pub record IsAt (f : ℕ → List ℕ) (n : ℕ) (s : Session) : Type 0 where
  pub awaited : next_id s.reassembly ≡ n
  pub in_range : n ≤ 2 ^ 32 - 1
  pub missing : lookup n s.reassembly.packets ≡ none
  pub stored : IsStoreOf f s.reassembly.packets

-- A packet has arrived: it was handed over, or waits in the map.
abbrev pub Has : ℕ → Session → ℕ → Type 0
Has n s id = (id < n) ⊎ (lookup id s.reassembly.packets ≢ none)

abbrev pub Got : ℕ → Session → UdpPacket → Type 0
Got n s (discovery tid payload) = Unit {0}
Got n s (ack connection_id id payload) = Unit {0}
Got n s (datagram connection_id id payload) = connection_id ≡ s.client_id → Has n s id

module _ (disconnect : List ℕ → Option (ℕ × ℕ)) (f : ℕ → List ℕ) where
  pub record Received (n : ℕ) (s : Session) (p : UdpPacket) (out : Session × List (List ℕ))
      : Type 0 where
    pub count : ℕ
    pub chunks : out.1 ≡ in_order f n count
    pub at : IsAt f (n + count) out.0
    pub same_client : out.0.client_id ≡ s.client_id
    pub keeps : (id : ℕ) → Has n s id → Has (n + count) out.0 id
    pub got : (out.0.closed ≡ none) → Got (n + count) out.0 p

  -- A step that leaves the reassembly and the ids alone hands nothing over.
  quiet :
      (n : ℕ) (s t : Session) (p : UdpPacket)
      → IsAt f n s
      → t.reassembly ≡ s.reassembly
      → t.client_id ≡ s.client_id
      → (t.closed ≡ none → Got n t p)
      → Received n s p (t, [])
  quiet n s t p v same client got = record {
    count = 0;
    chunks = refl;
    at = rw add-zero (record {
      awaited = rw same v.awaited;
      in_range = v.in_range;
      missing = rw same v.missing;
      stored = rw same v.stored;
    });
    same_client = client;
    keeps = λ id h. rw (add-zero, same) h;
    got = rw add-zero got;
  }

  shutdown_keeps :
      (e : CloseError) (s : Session)
      → ((shutdown e s).reassembly ≡ s.reassembly)
        × ((shutdown e s).client_id ≡ s.client_id)
        × ((shutdown e s).closed ≢ none)
  unfolding shutdown
  shutdown_keeps e s = ground arith

  with_packet : Session → ℕ → List ℕ → Reassembly
  with_packet s id payload = record (s.reassembly) {
    packets = keep_first id payload s.reassembly.packets;
  }

  -- What was there or has just come is handed over, or still there, after the run.
  still_there :
      (n id : ℕ) (r : Reassembly) (out : List (List ℕ) × Reassembly) (d : Delivered f n r out)
      → (id < n) ⊎ (lookup id r.packets ≢ none)
      → (id < n + d.count) ⊎ (lookup id out.1.packets ≢ none)
  still_there n id r out d h = elim (dec_lt id (n + d.count)) [
    | yes early ↦ inl early
    | no late ↦ ground (arith, d.kept id)
  ]

  arrived :
      (n k id : ℕ) (payload : List ℕ) (s : Session)
      → Has n s k
      → (k < n) ⊎ (lookup k (with_packet s id payload).packets ≢ none)
  unfolding with_packet
  arrived n k id payload s h = ground (arith, lookup-keep_first id k payload s.reassembly.packets)

  accepted :
      (n : ℕ) (s : Session) (connection_id id : ℕ) (payload : List ℕ)
      (out : List (List ℕ) × Reassembly)
      → Delivered f n (with_packet s id payload) out
      → Received n s (datagram connection_id id payload) (record s { reassembly = out.1 }, out.0)
  accepted n s connection_id id payload out d = record {
    count = d.count;
    chunks = d.chunks;
    at = record { awaited = d.reached; in_range = d.bound; missing = d.gap; stored = d.stored };
    same_client = refl;
    keeps = λ k h. still_there n k _ out d (arrived n k id payload s h);
    got = λ open_ mine.
        still_there n id _ out d
          (inr (unfold with_packet in keep_first_there id payload s.reassembly.packets));
  }

  run_of :
      (n : ℕ) (s : Session) (id : ℕ) (payload : List ℕ)
      → IsAt f n s
      → payload ≡ f id
      → id < 2 ^ 32 - 1
      → let r = with_packet s id payload in Delivered f n r (contiguous_payloads r)
  unfolding with_packet
  run_of n s id payload v hp hi =
      let r = with_packet s id payload in
      subst (λ k. Delivered f k r (contiguous_payloads r)) v.awaited
        (contiguous_payloads-Delivered f r (omega (arith, v.awaited, v.in_range))
          (keep_first-IsStoreOf f id payload s.reassembly.packets hp hi v.stored))

  receive_datagram-Received :
      (n : ℕ) (s : Session) (connection_id id : ℕ) (payload : List ℕ)
      → FromSender f s.client_id (datagram connection_id id payload)
      → IsAt f n s
      → let p = datagram connection_id id payload in Received n s p (receive disconnect s p)
  unfolding receive
  receive_datagram-Received n s connection_id id payload from v =
      elim (Bool-cases (connection_id == s.client_id)) [
        | inr other ↦ rw other (quiet n s s _ v refl refl (λ c mine. ground (arith)))
        | inl mine ↦ elim (Bool-cases (ltb 1024 (length s.reassembly.packets))) [
          | inl full ↦
              let (same, client, closed) = shutdown_keeps receive_overflow s in
              rw (mine, full)
                (quiet n s (shutdown receive_overflow s) _ v same client (λ c. absurd (closed c)))
          | inr room ↦
              let fact : (payload ≡ f id) × (id < 2 ^ 32 - 1) = elim from [
                | inl foreign ↦ absurd (foreign ((==_iff connection_id s.client_id).0 mine))
                | inr f ↦ f
              ] in
              rw (mine, room)
                (unfold with_packet in
                  accepted n s connection_id id payload _ (run_of n s id payload v fact.0 fact.1))
        ]
      ]

  receive_discovery_keeps :
      (s : Session) (tid : ℕ) (payload : List ℕ)
      → ((receive_discovery disconnect s tid payload).reassembly ≡ s.reassembly)
        × ((receive_discovery disconnect s tid payload).client_id ≡ s.client_id)
  unfolding receive_discovery
  receive_discovery_keeps s tid payload = ground (arith, shutdown_keeps camera_disconnect s)

  pub receive-Received :
      (n : ℕ) (s : Session) (p : UdpPacket)
      → FromSender f s.client_id p
      → IsAt f n s
      → Received n s p (receive disconnect s p)
  receive-Received n s (discovery tid payload) from v =
      let (same, client) = receive_discovery_keeps s tid payload in
      unfold receive in quiet n s _ _ v same client (λ c. tt)
  receive-Received n s (ack connection_id id payload) from v =
      elim (Bool-cases (connection_id == s.client_id)) [
        | inl mine ↦ unfold receive in rw mine (quiet n s _ _ v refl refl (λ c. tt))
        | inr other ↦ unfold receive in rw other (quiet n s _ _ v refl refl (λ c. tt))
      ]
  receive-Received n s (datagram connection_id id payload) from v =
      receive_datagram-Received n s connection_id id payload from v
