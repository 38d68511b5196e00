-- ===== src/Session/InOrder.antt =====
-- `readLoop` of pkg/baichuan/uid.go as a whole: the chunks of a sender come out in order, each once.
use reolinkproxy.Base.{
  ℕ, ◌+◌, ◌≡◌, ◌≢◌, refl, sym, ◌∙◌, List, [], ◌∷◌, ◌++◌, false, arith, Option, none, some, ◌==◌,
  Option-cases, Bool-cases, ==_iff, subst, inl, inr, ◌⊎◌, All,
}
use native.Mathlib.Nat.{add-zero, zero-add}
use reolinkproxy.Base.Store.{lookup}
use reolinkproxy.Udp.{UdpPacket, discovery, ack, datagram}
use reolinkproxy.Session.{Session, receive, read_loop, CloseError}
use reolinkproxy.Session.Delivery.{in_order, in_order-append}
use reolinkproxy.Session.Receive.{FromSender, IsAt, Has, Got, Received, receive-Received}

-- The packet is no datagram of that id for this client.
abbrev pub IsNot : ℕ → ℕ → UdpPacket → Type 0
IsNot client n (discovery tid payload) = Unit {0}
IsNot client n (ack connection_id id payload) = Unit {0}
IsNot client n (datagram connection_id id payload) = (connection_id ≢ client) ⊎ (id ≢ n)

-- What `dialUIDLocal` sets up.
abbrev pub fresh : ℕ → ℕ → Session
fresh client camera = record {
  client_id = client;
  camera_id = camera;
  sent = [];
  next_packet_id = 0;
  reassembly = record { packets = []; consumed = 0; has_consumed = false };
  closed = none;
}

module _ (disconnect : List ℕ → Option (ℕ × ℕ)) (f : ℕ → List ℕ) where
  -- A session that is open at the end was open at the start.
  open_before :
      (s : Session) (packets : List UdpPacket)
      → (read_loop disconnect s packets).0.closed ≡ none
      → s.closed ≡ none
  unfolding read_loop
  open_before s [] e = e
  open_before s (p ∷ packets) e = ground arith

  record Transferred (n : ℕ) (s : Session) (packets : List UdpPacket)
      (out : Session × List (List ℕ)) : Type 0 where
    count : ℕ
    chunks : out.1 ≡ in_order f n count
    at : IsAt f (n + count) out.0
    same_client : out.0.client_id ≡ s.client_id
    keeps : (id : ℕ) → Has n s id → Has (n + count) out.0 id
    got : (out.0.closed ≡ none) → All (Got (n + count) out.0) packets

  Got-keeps :
      (n m : ℕ) (s t : Session) (p : UdpPacket)
      → t.client_id ≡ s.client_id
      → ((id : ℕ) → Has n s id → Has m t id)
      → Got n s p
      → Got m t p
  Got-keeps n m s t (discovery tid payload) e k g = tt
  Got-keeps n m s t (ack connection_id id payload) e k g = tt
  Got-keeps n m s t (datagram connection_id id payload) e k g = λ mine. k id (g (mine ∙ e))

  none_yet : (n : ℕ) (s : Session) → IsAt f n s → Transferred n s [] (s, [])
  none_yet n s v = record {
    count = 0;
    chunks = refl;
    at = rw add-zero v;
    same_client = refl;
    keeps = λ id h. rw add-zero h;
    got = λ c. tt;
  }

  -- A closed session reads nothing more.
  closed_already :
      (n : ℕ) (s : Session) (packets : List UdpPacket) {e : CloseError}
      → s.closed ≡ some e
      → IsAt f n s
      → Transferred n s packets (s, [])
  closed_already n s packets c v = record {
    count = 0;
    chunks = refl;
    at = rw add-zero v;
    same_client = refl;
    keeps = λ id h. rw add-zero h;
    got = λ o. cc;
  }

  one_then :
      (n : ℕ) (s : Session) (p : UdpPacket) (packets : List UdpPacket)
      (now last : Session × List (List ℕ)) (d : Received disconnect f n s p now)
      → Transferred (n + d.count) now.0 packets last
      → (last.0.closed ≡ none → now.0.closed ≡ none)
      → Transferred n s (p ∷ packets) (last.0, now.1 ++ last.1)
  one_then n s p packets now last d t before =
      let total : n + (d.count + t.count) ≡ n + d.count + t.count = omega arith in
      record {
        count = d.count + t.count;
        chunks = rw (d.chunks, t.chunks) (in_order-append f n d.count t.count);
        at = rw total t.at;
        same_client = t.same_client ∙ d.same_client;
        keeps = λ id h. rw total (t.keeps id (d.keeps id h));
        got = λ o.
            subst (λ k. All (Got k last.0) (p ∷ packets)) (sym total)
              (Got-keeps _ _ now.0 last.0 p t.same_client t.keeps (d.got (before o)), t.got o);
      }

  loop_closed :
      (s : Session) (p : UdpPacket) (packets : List UdpPacket) {e : CloseError}
      → s.closed ≡ some e
      → read_loop disconnect s (p ∷ packets) ≡ (s, [])
  unfolding read_loop
  loop_closed s p packets c = ground arith

  loop_open :
      (s : Session) (p : UdpPacket) (packets : List UdpPacket)
      → s.closed ≡ none
      → let now = receive disconnect s p in
        let last = read_loop disconnect now.0 packets in
        read_loop disconnect s (p ∷ packets) ≡ (last.0, now.1 ++ last.1)
  unfolding read_loop
  loop_open s p packets c = ground arith

  read_loop-Transferred :
      (n : ℕ) (s : Session) (packets : List UdpPacket)
      → All (FromSender f s.client_id) packets
      → IsAt f n s
      → Transferred n s packets (read_loop disconnect s packets)
  read_loop-Transferred n s [] from v = unfold read_loop in none_yet n s v
  read_loop-Transferred n s (p ∷ packets) from v = elim (Option-cases s.closed) [
    | inr (e, c) ↦ rw (loop_closed s p packets c) (closed_already n s (p ∷ packets) c v)
    | inl o ↦
        let now = receive disconnect s p in
        let d = receive-Received disconnect f n s p from.0 v in
        rw (loop_open s p packets o) (
          one_then n s p packets now (read_loop disconnect now.0 packets) d
            (read_loop-Transferred (n + d.count) now.0 packets (rw (d.same_client) from.1) d.at)
            (open_before now.0 packets))
  ]

  fresh-IsAt : (client camera : ℕ) → IsAt f 0 (fresh client camera)
  fresh-IsAt client camera =
      unfold lookup in
      record { awaited = refl; in_range = omega arith; missing = refl; stored = λ k v e. cc }

  Got-IsNot :
      (n : ℕ) (s : Session) (packets : List UdpPacket)
      → lookup n s.reassembly.packets ≡ none
      → All (Got n s) packets
      → All (IsNot s.client_id n) packets
  Got-IsNot n s [] gap g = tt
  Got-IsNot n s (discovery tid payload ∷ packets) gap g = (tt, Got-IsNot n s packets gap g.1)
  Got-IsNot n s (ack connection_id id payload ∷ packets) gap g = (tt, Got-IsNot n s packets gap g.1)
  Got-IsNot n s (datagram connection_id id payload ∷ packets) gap g = (
    elim (Bool-cases (connection_id == s.client_id)) [
      | inl mine ↦ inr (λ e. ground (arith, g.0 ((==_iff connection_id s.client_id).0 mine)))
      | inr other ↦ inl (λ e. ground arith)
    ],
    Got-IsNot n s packets gap g.1,
  )

  -- Datagrams of one sender, with ids below 2^32 - 1, arrive in any order, with repetitions and
  -- among packets of other kinds. The chunks handed over are the sender's packets 0 to n - 1, each
  -- once and in order, for some n; and a session that is still open stopped at n for the one
  -- possible reason, that the packet n is not among those that arrived.
  pub read_loop-in_order :
      (client camera : ℕ) (packets : List UdpPacket)
      → All (FromSender f client) packets
      → let out = read_loop disconnect (fresh client camera) packets in
        (n : ℕ) × (out.1 ≡ in_order f 0 n) × ((out.0.closed ≢ none) ⊎ All (IsNot client n) packets)
  read_loop-in_order client camera packets from =
      let out = read_loop disconnect (fresh client camera) packets in
      let t =
        read_loop-Transferred 0 (fresh client camera) packets from (fresh-IsAt client camera) in
      (
        t.count,
        t.chunks,
        elim (Option-cases out.0.closed) [
          | inr (e, c) ↦ inl (λ o. cc)
          | inl o ↦ inr (
              subst (λ k. All (IsNot k t.count) packets) t.same_client
                (rw zero-add at (Got-IsNot (0 + t.count) out.0 packets t.at.missing (t.got o))))
        ],
      )
