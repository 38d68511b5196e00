-- ===== src/Session/Stale.antt =====
-- A datagram that arrives again after its packet was handed over (pkg/baichuan/uid.go, `readLoop`).
use reolinkproxy.Base.{
  ℕ, zero, suc, ◌+◌, ◌≤◌, ◌<◌, ◌≡◌, ◌≢◌, refl, List, [], true, false, arith, length, Option, none,
  some, ltb, ==_refl,
}
use reolinkproxy.Base.Store.{Store, lookup, insert, lookup-insert, length-insert_new}
use reolinkproxy.Udp.{datagram}
use reolinkproxy.Session.{
  Session, Reassembly, next_id, contiguous_from, contiguous_payloads, keep_first, receive, shutdown,
  CloseError, receive_overflow,
}

contiguous_stops :
    (r : Reassembly) → lookup (next_id r) r.packets ≡ none → contiguous_payloads r ≡ ([], r)
unfolding contiguous_payloads
contiguous_stops r e = stops (length r.packets) (next_id r) r e
  where
    stops :
        (fuel next : ℕ) (r : Reassembly)
        → lookup next r.packets ≡ none
        → contiguous_from fuel next r ≡ ([], r)
    stops zero next r e = refl
    stops (suc fuel) next r e = rw (e, contiguous_from)

keep_first_new :
    (id : ℕ) (payload : List ℕ) (m : Store (List ℕ))
    → lookup id m ≡ none
    → keep_first id payload m ≡ insert id payload m
unfolding keep_first
keep_first_new id payload m e = rw (e, keep_first)

shutdown_first : (e : CloseError) (s : Session) → s.closed ≡ none → (shutdown e s).closed ≡ some e
unfolding shutdown
shutdown_first e s o = ground arith

module _ (disconnect : List ℕ → Option (ℕ × ℕ)) where
  -- A datagram that fits no gap, for whatever reason, is stored and hands nothing over. In
  -- particular one whose packet was handed over before is stored once more, and waits in the map,
  -- which counts towards the limit of the receive buffer.
  pub receive_out_of_turn :
      (s : Session) (id : ℕ) (payload : List ℕ)
      → lookup (next_id s.reassembly) s.reassembly.packets ≡ none
      → lookup id s.reassembly.packets ≡ none
      → id ≢ next_id s.reassembly
      → length s.reassembly.packets ≤ 1024
      → let out = receive disconnect s (datagram s.client_id id payload) in
        (out.1 ≡ [])
        × (out.0.reassembly.packets ≡ insert id payload s.reassembly.packets)
        × (length out.0.reassembly.packets ≡ length s.reassembly.packets + 1)
        × (next_id out.0.reassembly ≡ next_id s.reassembly)
  unfolding receive
  receive_out_of_turn s id payload gap new other room =
      let r = s.reassembly in
      let m = insert id payload r.packets in
      let same : contiguous_payloads (record r { packets = m }) ≡ ([], record r { packets = m }) =
        contiguous_stops (record r { packets = m })
          (ground (arith, lookup-insert id (next_id r) payload r.packets)) in
      let few : ltb 1024 (length r.packets) ≡ false = ground arith in
      rw (==_refl s.client_id, few, keep_first_new id payload r.packets new, same)
        (refl, refl, length-insert_new id payload r.packets new, refl)

  -- A receive buffer with more than 1024 packets ends the session at the next datagram for it,
  -- whether a packet is missing or not.
  pub receive-overflow :
      (s : Session) (id : ℕ) (payload : List ℕ)
      → s.closed ≡ none
      → 1024 < length s.reassembly.packets
      → (receive disconnect s (datagram s.client_id id payload)).0.closed ≡ some receive_overflow
  unfolding receive
  receive-overflow s id payload o h =
      let many : ltb 1024 (length s.reassembly.packets) ≡ true = ground arith in
      rw (==_refl s.client_id, many) (shutdown_first receive_overflow s o)
