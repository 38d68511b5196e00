-- ===== src/Device/Notify.antt =====
-- `notifyState` of pkg/bridge/device.go: callers queue states, a goroutine delivers them.
use reolinkproxy.Base.{
  ap, sym, ◌∙◌, ℕ, suc, ◌+◌, ◌≡◌, refl, List, [], ◌∷◌, ◌++◌, Bool, true, false, arith, append_assoc,
  append-nil, if◌then◌else◌,
}

-- The queue behind `stateMu`, the goroutines that run its loop (`looping` between two rounds, `held`
-- those between taking a state and having delivered it), and what the callback got.
pub record Queue : Type 0 where
  pub state_pending : List Bool
  pub state_draining : Bool
  pub looping : ℕ
  pub held : List Bool
  pub delivered : List Bool

abbrev pub new_queue : Queue
new_queue = record {
  state_pending = [];
  state_draining = false;
  looping = 0;
  held = [];
  delivered = [];
}

unfoldable pub notify_state : Bool → Queue → Queue
notify_state connected q =
    let queued : Queue = record q { state_pending = q.state_pending ++ connected ∷ [] } in
    if q.state_draining
    then queued
    else record queued { state_draining = true; looping = q.looping + 1 }

-- One step of a caller or of a goroutine, in any interleaving; the list is what was notified.
pub data Step (q : Queue) (q' : Queue) : List Bool → Type 0 where
  notifies : (connected : Bool) → q' ≡ notify_state connected q → Step q q' (connected ∷ [])
  takes :
      (connected : Bool) (rest : List Bool) (others : ℕ)
      → q.looping ≡ suc others
      → q.state_pending ≡ connected ∷ rest
      → q' ≡ record q { looping = others; state_pending = rest; held = connected ∷ q.held }
      → Step q q' []
  delivers :
      (connected : Bool) (front back : List Bool)
      → q.held ≡ front ++ connected ∷ back
      → q' ≡ record q {
        held = front ++ back;
        looping = q.looping + 1;
        delivered = q.delivered ++ connected ∷ [];
      }
      → Step q q' []
  stops :
      (others : ℕ)
      → q.looping ≡ suc others
      → q.state_pending ≡ []
      → q' ≡ record q { looping = others; state_draining = false }
      → Step q q' []

-- The states notified on the way, in order.
pub data Reach : Queue → List Bool → Type 0 where
  starts : Reach new_queue []
  goes :
      {q q' : Queue} {before now : List Bool}
      → Reach q before
      → Step q q' now
      → Reach q' (before ++ now)

-- The one goroutine there is.
pub data Worker (q : Queue) : Type 0 where
  none_at_work :
      q.state_draining ≡ false → q.looping ≡ 0 → q.held ≡ [] → q.state_pending ≡ [] → Worker q
  between : q.state_draining ≡ true → q.looping ≡ 1 → q.held ≡ [] → Worker q
  delivering :
      (connected : Bool)
      → q.state_draining ≡ true
      → q.looping ≡ 0
      → q.held ≡ connected ∷ []
      → Worker q

-- What was notified is what was delivered, then what a goroutine holds, then what is queued.
data Ordered (q : Queue) (states : List Bool) : Type 0 where
  in_order : states ≡ q.delivered ++ q.held ++ q.state_pending → Worker q → Ordered q states

append_snoc :
    (a b c states : List Bool) (x : Bool)
    → states ≡ a ++ b ++ c
    → states ++ x ∷ [] ≡ a ++ b ++ (c ++ x ∷ [])
append_snoc a b c states x s = rw s (append_assoc (a ++ b) c (x ∷ []))

notify_state-Ordered :
    (connected : Bool) (q : Queue) (states : List Bool)
    → Ordered q states
    → Ordered (notify_state connected q) (states ++ connected ∷ [])
unfolding notify_state
notify_state-Ordered connected q states (in_order s w) =
    let t = append_snoc q.delivered q.held q.state_pending states connected s in
    elim w [
      | none_at_work d l h p ↦ rw d (in_order t (between refl (omega (arith, l)) h))
      | between d l h ↦ rw d (in_order t (between refl l h))
      | delivering c d l h ↦ rw d (in_order t (delivering c refl l h))
    ]

takes-Ordered :
    (q : Queue) (states : List Bool) (connected : Bool) (rest : List Bool) (others : ℕ)
    → Ordered q states
    → q.looping ≡ suc others
    → q.state_pending ≡ connected ∷ rest
    → Ordered
        (record q { looping = others; state_pending = rest; held = connected ∷ q.held })
        states
takes-Ordered q states connected rest others (in_order s w) n p = elim w [
  | none_at_work d l h e ↦ absurd (omega (arith, n, l))
  | between d l h ↦
      in_order
        (s
          ∙ rw (h, p, append-nil q.delivered)
              (sym (append_assoc q.delivered (connected ∷ []) rest)))
        (delivering connected d (omega (arith, n, l)) (ap (λ x. connected ∷ x) h))
  | delivering c d l h ↦ absurd (omega (arith, n, l))
]

delivers-Ordered :
    (q : Queue) (states : List Bool) (connected : Bool) (front back : List Bool)
    → Ordered q states
    → q.held ≡ front ++ connected ∷ back
    → Ordered
        (record q {
          held = front ++ back;
          looping = q.looping + 1;
          delivered = q.delivered ++ connected ∷ [];
        })
        states
delivers-Ordered q states connected [] back (in_order s w) e = elim w [
  | none_at_work d l h p ↦ absurd (cc (h, e))
  | between d l h ↦ absurd (cc (h, e))
  | delivering c d l h ↦
      let one : c ∷ [] ≡ connected ∷ back = sym h ∙ e in
      let none_left : back ≡ [] = cc one in
      in_order (s ∙ rw (e, none_left, append-nil (q.delivered ++ connected ∷ [])) refl)
        (between d (omega (arith, l)) none_left)
]
delivers-Ordered q states connected (x ∷ []) back (in_order s w) e = elim w [
  | none_at_work d l h p ↦ absurd (cc (h, e))
  | between d l h ↦ absurd (cc (h, e))
  | delivering c d l h ↦ absurd (cc (h, e))
]
delivers-Ordered q states connected (x ∷ y ∷ front) back (in_order s w) e = elim w [
  | none_at_work d l h p ↦ absurd (cc (h, e))
  | between d l h ↦ absurd (cc (h, e))
  | delivering c d l h ↦ absurd (cc (h, e))
]

stops-Ordered :
    (q : Queue) (states : List Bool) (others : ℕ)
    → Ordered q states
    → q.looping ≡ suc others
    → q.state_pending ≡ []
    → Ordered (record q { looping = others; state_draining = false }) states
stops-Ordered q states others (in_order s w) n p = elim w [
  | none_at_work d l h e ↦ absurd (omega (arith, n, l))
  | between d l h ↦ in_order s (none_at_work refl (omega (arith, n, l)) h p)
  | delivering c d l h ↦ absurd (omega (arith, n, l))
]

Step-Ordered :
    (q q' : Queue) (states now : List Bool)
    → Ordered q states
    → Step q q' now
    → Ordered q' (states ++ now)
Step-Ordered q q' states now o (notifies connected e) =
    rw e (notify_state-Ordered connected q states o)
Step-Ordered q q' states now o (takes connected rest others l p e) =
    rw (e, append-nil states) (takes-Ordered q states connected rest others o l p)
Step-Ordered q q' states now o (delivers connected front back h e) =
    rw (e, append-nil states) (delivers-Ordered q states connected front back o h)
Step-Ordered q q' states now o (stops others l p e) =
    rw (e, append-nil states) (stops-Ordered q states others o l p)

Reach-Ordered : (q : Queue) (states : List Bool) → Reach q states → Ordered q states
Reach-Ordered q states starts = in_order refl (none_at_work refl refl refl refl)
Reach-Ordered q states (goes {q = q0} {before = before} {now = now} r s) =
    Step-Ordered q0 q before now (Reach-Ordered q0 before r) s

-- Whatever callers and goroutines do, and in whatever order: what the callback has got, then the state
-- that is being delivered, then those still queued, are all the states that were notified, in the order
-- in which they were; and when no goroutine drains the queue, all of them have been delivered.
pub Reach-delivered :
    (q : Queue) (states : List Bool)
    → Reach q states
    → (states ≡ q.delivered ++ q.held ++ q.state_pending)
      × (q.state_draining ≡ false → states ≡ q.delivered)
Reach-delivered q states r = elim (Reach-Ordered q states r) [
  | in_order s w ↦ (
    s,
    elim w [
      | none_at_work d l h p ↦
          λ off. s ∙ rw (h, p, append-nil q.delivered, append-nil q.delivered) refl
      | between d l h ↦ λ off. absurd (cc (d, off))
      | delivering c d l h ↦ λ off. absurd (cc (d, off))
    ],
  )
]
