-- ===== src/Client/Dispatch.antt =====
-- Where `dispatch` of pkg/baichuan/client.go puts a message.
use reolinkproxy.Base.{
  ◌+◌, ◌≤◌, ◌≡◌, ◌≢◌, List, [], ◌∷◌, ◌++◌, arith, length, none, some, ◌⊎◌, ◌==◌, if◌then◌else◌,
}
use reolinkproxy.Message.{Message}
use reolinkproxy.Client.{
  Waiter, Subscription, Routes, waits_for, offer, offer_pending, deliver, deliver_subs, dispatch,
  queue_capacity,
}

-- What became of a subscription: for another message id nothing; else the message is the newest in
-- its queue, or the queue was full and the loss was counted.
pub record Served (m : Message) (s t : Subscription) : Type 0 where
  pub same_id : t.msg_id ≡ s.msg_id
  pub outcome :
      ((s.msg_id ≢ m.header.msg_id) × (t ≡ s))
      ⊎ (((s.msg_id ≡ m.header.msg_id) × (t.queue ≡ s.queue ++ m ∷ []) × (t.dropped ≡ s.dropped))
          ⊎ ((s.msg_id ≡ m.header.msg_id)
              × (t.queue ≡ s.queue)
              × (t.dropped ≡ s.dropped + 1)
              × (queue_capacity ≤ length s.queue)))

-- What became of a waiter: only the one whose request the message answers gets it, and only the
-- first time.
pub record Offered (m : Message) (w u : Waiter) : Type 0 where
  pub same_id : (u.msg_id ≡ w.msg_id) × (u.msg_num ≡ w.msg_num)
  pub outcome :
      ((w.msg_id ≡ m.header.msg_id)
        × (w.msg_num ≡ m.header.msg_num)
        × (w.slot ≡ none)
        × (u.slot ≡ some m))
      ⊎ (((w.msg_id ≢ m.header.msg_id) ⊎ ((w.msg_num ≢ m.header.msg_num) ⊎ (w.slot ≢ none)))
          × (u.slot ≡ w.slot))

-- A relation between two lists, entry by entry.
abbrev pub Each {ℓ} : {A : Type ℓ} → (A → A → Type 0) → List A → List A → Type 0
Each R [] [] = Unit {0}
Each R [] (y ∷ ys) = ⊥
Each R (x ∷ xs) [] = ⊥
Each R (x ∷ xs) (y ∷ ys) = R x y × Each R xs ys

serve :
    (m : Message) (s : Subscription)
    → Served m s (if s.msg_id == m.header.msg_id then deliver m s else s)
unfolding deliver
serve m s = ground arith

offer_one : (m : Message) (w : Waiter) → Offered m w (if waits_for m w then offer m w else w)
unfolding offer
offer_one m w = ground arith

Each-Served : (m : Message) (ss : List Subscription) → Each (Served m) ss (deliver_subs m ss)
unfolding deliver_subs
Each-Served m [] = tt
Each-Served m (s ∷ ss) = (serve m s, Each-Served m ss)

Each-Offered : (m : Message) (ws : List Waiter) → Each (Offered m) ws (offer_pending m ws)
unfolding offer_pending
Each-Offered m [] = tt
Each-Offered m (w ∷ ws) = (offer_one m w, Each-Offered m ws)

-- `dispatch` offers the message to the request that it answers and to no other, and gives each
-- subscription of its id the message, or counts it as dropped when the queue is full.
pub dispatch_lem :
    (r : Routes) (m : Message)
    → Each (Offered m) r.pending (dispatch r m).pending × Each (Served m) r.subs (dispatch r m).subs
unfolding dispatch
dispatch_lem r m = (Each-Offered m r.pending, Each-Served m r.subs)
