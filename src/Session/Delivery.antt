-- ===== src/Session/Delivery.antt =====
-- In-order delivery: what the read queue of pkg/baichuan/uid.go gets, for datagrams that arrive in
-- any order and any number of times.
use reolinkproxy.Base.{
  ℕ, zero, suc, ◌+◌, ◌-◌, ◌^◌, ◌≤◌, ◌<◌, ◌≡◌, ◌≢◌, refl, ap, List, [], ◌∷◌, ◌++◌, true, arith,
  length, none, some, Option-cases, inl, inr, ◌⊎◌,
}
use native.Mathlib.Nat.{zero-add, add-zero}
use reolinkproxy.Base.Store.{Store, lookup, delete, lookup-insert, lookup-delete, length-delete_lt}
use reolinkproxy.Session.{
  Reassembly, next_id, u32, contiguous_from, contiguous_payloads, keep_first,
}

-- The payloads of `count` packets from `start` on, in order.
abbrev pub in_order : (ℕ → List ℕ) → ℕ → ℕ → List (List ℕ)
in_order f start zero = []
in_order f start (suc count) = f start ∷ in_order f (start + 1) count

-- Every stored packet is the sender's packet of that id, below the last id of 32 bits.
abbrev pub IsStoreOf : (ℕ → List ℕ) → Store (List ℕ) → Type 0
IsStoreOf f m = (k : ℕ) (v : List ℕ) → lookup k m ≡ some v → (v ≡ f k) × (k < 2 ^ 32 - 1)

delete-IsStoreOf :
    (f : ℕ → List ℕ) (m : Store (List ℕ)) (j : ℕ) → IsStoreOf f m → IsStoreOf f (delete j m)
delete-IsStoreOf f m j h k v e = ground (arith, lookup-delete j k m, h k v)

-- What a run of the loop from `next` does: it hands over the packets `next`, `next + 1`, … as long
-- as they are there, and they leave the map; nothing else does.
pub record Delivered (f : ℕ → List ℕ) (next : ℕ) (r : Reassembly) (out : List (List ℕ) × Reassembly)
    : Type 0 where
  pub count : ℕ
  pub chunks : out.0 ≡ in_order f next count
  pub bound : next + count ≤ 2 ^ 32 - 1
  pub reached : next_id out.1 ≡ next + count
  pub gap : lookup (next + count) out.1.packets ≡ none
  pub stored : IsStoreOf f out.1.packets
  pub kept : (k : ℕ) → (k < next) ⊎ (next + count ≤ k) → lookup k out.1.packets ≡ lookup k r.packets

lookup_empty : (k : ℕ) (m : Store (List ℕ)) → length m ≤ 0 → lookup k m ≡ none
unfolding lookup
lookup_empty k [] h = refl
lookup_empty k (x ∷ m) h = absurd (omega arith)

stopped :
    (f : ℕ → List ℕ) (next : ℕ) (r : Reassembly)
    → next ≤ 2 ^ 32 - 1
    → next_id r ≡ next
    → IsStoreOf f r.packets
    → lookup next r.packets ≡ none
    → Delivered f next r ([], r)
stopped f next r hn he hs e = record {
  count = 0;
  chunks = refl;
  bound = omega arith;
  reached = omega arith;
  gap = rw add-zero e;
  stored = hs;
  kept = λ k h. refl;
}

-- One round of the loop, before a run from the next id.
abbrev taken : ℕ → Reassembly → Reassembly
taken next r = record { packets = delete next r.packets; consumed = next; has_consumed = true }

one_more :
    (f : ℕ → List ℕ) (next : ℕ) (r : Reassembly) (v : List ℕ) (out : List (List ℕ) × Reassembly)
    → IsStoreOf f r.packets
    → lookup next r.packets ≡ some v
    → Delivered f (next + 1) (taken next r) out
    → Delivered f next r (v ∷ out.0, out.1)
one_more f next r v out hs e d =
    let from_next : next + suc d.count ≡ next + 1 + d.count = omega arith in
    record {
      count = suc d.count;
      chunks = rw ((hs next v e).0, d.chunks);
      bound = omega (arith, d.bound);
      reached = omega (arith, d.reached);
      gap = rw from_next d.gap;
      stored = d.stored;
      kept = λ k h. ground (arith, d.kept k, lookup-delete next k r.packets);
    }

round_stops :
    (fuel next : ℕ) (r : Reassembly)
    → lookup next r.packets ≡ none
    → contiguous_from (suc fuel) next r ≡ ([], r)
unfolding contiguous_from
round_stops fuel next r e = rw (e, contiguous_from)

round_takes :
    (fuel next : ℕ) (r : Reassembly) (v : List ℕ)
    → lookup next r.packets ≡ some v
    → next < 2 ^ 32 - 1
    → let out = contiguous_from fuel (next + 1) (taken next r) in
      contiguous_from (suc fuel) next r ≡ (v ∷ out.0, out.1)
unfolding contiguous_from
round_takes fuel next r v e h =
    let no_wrap : next + 1 ≡ u32 (next + 1) = omega arith in rw (no_wrap, e, contiguous_from)

pub contiguous_from-Delivered :
    (f : ℕ → List ℕ) (fuel next : ℕ) (r : Reassembly)
    → length r.packets ≤ fuel
    → next ≤ 2 ^ 32 - 1
    → next_id r ≡ next
    → IsStoreOf f r.packets
    → Delivered f next r (contiguous_from fuel next r)
contiguous_from-Delivered f zero next r hf hn he hs =
    unfold contiguous_from in stopped f next r hn he hs (lookup_empty next r.packets hf)
contiguous_from-Delivered f (suc fuel) next r hf hn he hs =
    elim (Option-cases (lookup next r.packets)) [
      | inl e ↦ rw (round_stops fuel next r e) (stopped f next r hn he hs e)
      | inr (v, e) ↦
          let in_range = (hs next v e).1 in
          rw (round_takes fuel next r v e in_range) (
            one_more f next r v _ hs e (
              contiguous_from-Delivered f fuel (next + 1) (taken next r) (shorter v e) (omega arith)
                (omega arith) (delete-IsStoreOf f r.packets next hs)))
    ]
  where
    shorter : (v : List ℕ) → lookup next r.packets ≡ some v → length (taken next r).packets ≤ fuel
    shorter v e = omega (arith, length-delete_lt next r.packets e)

-- One call of `contiguousPayloads` empties the run that starts at the next id, and stops at a gap.
pub contiguous_payloads-Delivered :
    (f : ℕ → List ℕ) (r : Reassembly)
    → next_id r ≤ 2 ^ 32 - 1
    → IsStoreOf f r.packets
    → Delivered f (next_id r) r (contiguous_payloads r)
unfolding contiguous_payloads
contiguous_payloads-Delivered f r hn hs =
    contiguous_from-Delivered f (length r.packets) (next_id r) r (omega arith) hn refl hs

pub lookup-keep_first :
    (id k : ℕ) (v : List ℕ) (m : Store (List ℕ))
    → (lookup k (keep_first id v m) ≡ lookup k m)
      ⊎ ((k ≡ id) × (lookup k m ≡ none) × (lookup k (keep_first id v m) ≡ some v))
unfolding keep_first
lookup-keep_first id k v m = ground (arith, lookup-insert id k v m)

pub keep_first-IsStoreOf :
    (f : ℕ → List ℕ) (id : ℕ) (v : List ℕ) (m : Store (List ℕ))
    → v ≡ f id
    → id < 2 ^ 32 - 1
    → IsStoreOf f m
    → IsStoreOf f (keep_first id v m)
keep_first-IsStoreOf f id v m hv hi hs k w e = ground (arith, lookup-keep_first id k v m, hs k w)

pub keep_first_there :
    (id : ℕ) (v : List ℕ) (m : Store (List ℕ)) → lookup id (keep_first id v m) ≢ none
unfolding keep_first
keep_first_there id v m e = ground (arith, lookup-insert id id v m)

pub in_order-append :
    (f : ℕ → List ℕ) (start n m : ℕ)
    → in_order f start n ++ in_order f (start + n) m ≡ in_order f start (n + m)
in_order-append f start zero m = rw (zero-add, add-zero)
in_order-append f start (suc n) m =
    let shifted : start + 1 + n ≡ start + suc n = omega arith in
    let whole : suc n + m ≡ suc (n + m) = omega arith in
    rw (whole, ← shifted) (ap (λ t. f start ∷ t) (in_order-append f (start + 1) n m))
