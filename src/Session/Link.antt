-- ===== src/Session/Link.antt =====
-- The two ends of a link: `ackWindow` of the receiver, and what the sender's `readLoop` deletes from
-- `sentPackets` when it gets that acknowledgement (pkg/baichuan/udp.go, uid.go).
use reolinkproxy.Base.{
  ℕ, ◌+◌, ◌-◌, ◌^◌, ◌≤◌, ◌<◌, ◌≡◌, ◌≢◌, refl, sym, List, [], ◌∷◌, true, arith, length, none, some,
  ltb, Bool-cases, inl, inr, ◌⊎◌,
}
use native.Mathlib.Numerals.{add-one}
use reolinkproxy.Base.Store.{Store, lookup}
use reolinkproxy.Session.{
  Reassembly, u32, run_end, max_key, bitmap_from, window_end, window_from, ack_window, AckWindow,
  nothing, window, stuck, drop_upto, drop_flagged, acknowledge,
}
use reolinkproxy.Session.Bitmap.{Flagged, no_flags, bitmap_total, run_end_gap, lookup-drop_upto}

-- A receiver between two calls of `contiguousPayloads`: it has consumed some packet, the one after
-- it is missing, and no id comes near the end of 32 bits.
pub record Waits (r : Reassembly) : Type 0 where
  pub has : r.has_consumed ≡ true
  pub missing : lookup (r.consumed + 1) r.packets ≡ none
  pub room : r.consumed < 2 ^ 32 - 202
  pub below : max_key r.packets < 2 ^ 32 - 1

-- The sender's packets after it processed the receiver's acknowledgement, if there is one.
abbrev pub after_ack : AckWindow → Store (List ℕ) → Store (List ℕ)
after_ack nothing sent = sent
after_ack (window start payload) sent = acknowledge start payload sent
after_ack stuck sent = sent

window_small :
    (start : ℕ) (store : Store (List ℕ))
    → max_key store < start
    → window_from start store ≡ window start []
unfolding window_from
window_small start [] h = refl
window_small start (entry ∷ store) h = ground arith

window_bits :
    (start : ℕ) (store : Store (List ℕ)) (bits : List ℕ)
    → start ≤ max_key store
    → start < 2 ^ 32 - 202
    → bitmap_from 202 (start + 1) (window_end start store) store ≡ some bits
    → (store ≡ []) ⊎ (window_from start store ≡ window start bits)
unfolding window_from
window_bits start [] bits h p e = inl refl
window_bits start (entry ∷ store) bits h p e =
    let no_wrap : start + 1 ≡ u32 (start + 1) = omega arith in ground (arith, no_wrap)

window_end_bounds :
    (start : ℕ) (store : Store (List ℕ))
    → start ≤ max_key store
    → start < 2 ^ 32 - 202
    → max_key store < 2 ^ 32 - 1
    → (start ≤ window_end start store)
      × (window_end start store ≤ start + 200)
      × (window_end start store < 2 ^ 32 - 1)
unfolding window_end
window_end_bounds start store h p b = ground arith

window_total :
    (start : ℕ) (store : Store (List ℕ))
    → start < 2 ^ 32 - 202
    → max_key store < 2 ^ 32 - 1
    → (bits : List ℕ) × (window_from start store ≡ window start bits)
      × (length bits ≤ 200)
      × ((max_key store ≤ start) ⊎ (start + length bits ≡ window_end start store))
      × ((sent : Store (List ℕ))
          → Flagged store
              (start + 1)
              (start + length bits)
              sent
              (drop_flagged (u32 (start + 1)) bits sent))
window_total start store h b = elim (Bool-cases (ltb (max_key store) start)) [
  | inl small ↦ (
    [],
    window_small start store (ground arith),
    omega arith,
    inl (ground arith),
    λ sent. unfold drop_flagged in no_flags store sent (start + 1) (start + 0) (omega arith),
  )
  | inr reach ↦
      let le : start ≤ max_key store = ground arith in
      let (lo, hi, top) = window_end_bounds start store le h b in
      let (bits, e, len, f) =
        bitmap_total 202 (start + 1) (window_end start store) store (omega arith) (omega arith)
          top in
      let no_wrap : start + 1 ≡ u32 (start + 1) = omega arith in
      let last : window_end start store ≡ start + length bits = omega arith in
      elim (window_bits start store bits le h e) [
        | inl empty ↦ (
          [],
          rw empty (unfold window_from in refl),
          omega arith,
          inl (rw empty (unfold max_key in omega arith)),
          λ sent. unfold drop_flagged in no_flags store sent (start + 1) (start + 0) (omega arith),
        )
        | inr w ↦ (bits, w, omega arith, inr (sym last), rw (← no_wrap, ← last) f)
      ]
]

ack_window-Waits :
    (r : Reassembly)
    → Waits r
    → (bits : List ℕ) × (ack_window r ≡ window r.consumed bits)
      × (length bits ≤ 200)
      × ((max_key r.packets ≤ r.consumed)
          ⊎ (r.consumed + length bits ≡ window_end r.consumed r.packets))
      × ((sent : Store (List ℕ))
          → Flagged r.packets
              (r.consumed + 1)
              (r.consumed + length bits)
              sent
              (drop_flagged (u32 (r.consumed + 1)) bits sent))
unfolding ack_window
ack_window-Waits r w =
    let (bits, e, len, reach, f) = window_total r.consumed r.packets w.room w.below in
    let no_wrap : r.consumed + 1 ≡ u32 (r.consumed + 1) = omega (arith, w.room) in
    let found : run_end (length r.packets + 1) r.consumed r.packets ≡ some r.consumed =
      rw add-one (run_end_gap (length r.packets) r.consumed r.packets (rw (← no_wrap) w.missing)) in
    (bits, ground (arith, w.has, found, e), len, reach, f)

-- The acknowledgement of a waiting receiver is never stuck: it starts at the consumed id, and its
-- bitmap has at most 200 entries.
pub ack_window_bounded :
    (r : Reassembly)
    → Waits r
    → (bits : List ℕ) × (ack_window r ≡ window r.consumed bits) × (length bits ≤ 200)
ack_window_bounded r w = let (bits, e, len, reach, f) = ack_window-Waits r w in (bits, e, len)

-- A packet that the acknowledgement made the sender forget was consumed by the receiver or waits in
-- its map: retransmission never gives up on a packet that is missing.
pub after_ack_safe :
    (r : Reassembly) (sent : Store (List ℕ)) (k : ℕ)
    → Waits r
    → (lookup k (after_ack (ack_window r) sent) ≡ lookup k sent)
      ⊎ ((k ≤ r.consumed) ⊎ (lookup k r.packets ≢ none))
unfolding acknowledge
after_ack_safe r sent k w =
    let (bits, e, len, reach, f) = ack_window-Waits r w in
    let left : Store (List ℕ) = drop_upto r.consumed sent in
    rw e (ground (arith, Flagged.safe (f left) k, lookup-drop_upto r.consumed k sent))

le-max_key : (k : ℕ) (m : Store (List ℕ)) → lookup k m ≢ none → k ≤ max_key m
unfolding lookup max_key
le-max_key k [] h = absurd (h refl)
le-max_key k ((j, v) ∷ m) h = ground (arith, le-max_key k m)

reaches :
    (r : Reassembly) (k : ℕ)
    → k ≤ r.consumed + 200
    → k ≤ max_key r.packets
    → max_key r.packets < 2 ^ 32 - 1
    → r.consumed < 2 ^ 32 - 202
    → k ≤ window_end r.consumed r.packets
unfolding window_end
reaches r k h p b room = ground arith

-- A packet that the receiver has consumed, or holds at most 200 ids further on, is not sent again
-- after the acknowledgement.
pub after_ack_done :
    (r : Reassembly) (sent : Store (List ℕ)) (k : ℕ)
    → Waits r
    → (k ≤ r.consumed) ⊎ ((k ≤ r.consumed + 200) × (lookup k r.packets ≢ none))
    → lookup k (after_ack (ack_window r) sent) ≡ none
unfolding acknowledge
after_ack_done r sent k w h =
    let (bits, e, len, reach, f) = ack_window-Waits r w in
    let left : Store (List ℕ) = drop_upto r.consumed sent in
    rw e (
      ground (
        arith,
        h,
        reach,
        Flagged.done (f left) k,
        Flagged.gone (f left) k,
        lookup-drop_upto r.consumed k sent,
        le-max_key k r.packets,
        reaches r k,
      ))
