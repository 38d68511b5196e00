-- ===== src/Rtsp/Bridges.antt =====
-- The talk bridges of a server, and what starting and leaving one does to them (pkg/bridge/talk_rtsp.go).
use reolinkproxy.Base.{
  ℕ, ◌≤◌, ◌<◌, ◌≡◌, refl, [], Bool, true, false, ◌==◌, if◌then◌else◌, Option, none, some, arith,
  Bool-cases, inl, inr, ◌⊎◌, sym, subst,
}
use reolinkproxy.Rtsp.Sets.{put, is_some}
use reolinkproxy.Rtsp.{
  Server, release, alive, running, hold, make_bridge, ensure_session_state, feeds, start_bridge,
  leave_talk,
}
use reolinkproxy.Rtsp.Feeding.{
  Fed, Shuts, release-Shuts, left-Fed, held-Fed, put_same_talk, left_ended,
}

-- And a bridge that no session feeds is done.
pub record Sound (s : Server) : Type 0 where
  pub fed : (b : ℕ) → Fed s.sessions s.refs b
  pub made : (b i : ℕ) → s.bridges ≤ b → is_some b (s.sessions i).talk ≡ false
  pub active_made : (p b : ℕ) → s.active p ≡ some b → b < s.bridges
  pub ended : (b : ℕ) → b < s.bridges → s.refs b ≡ 0 → s.done b ≡ true

pub Sound-Shuts : (s s' : Server) → Shuts s s' → Sound s → Sound s'
Sound-Shuts s s' h v = record {
  fed = λ b.
      subst (λ f. Fed f s'.refs b) (sym h.same_sessions)
        (subst (λ f. Fed s.sessions f b) (sym h.same_refs) (v.fed b));
  made = λ b i le. rw h.same_sessions (v.made b i (omega (arith, le, h.same_bridges)));
  active_made = λ p b a. rw h.same_bridges (v.active_made p b (h.fewer p b a));
  ended =
      λ b lt z. h.stays_done b (v.ended b (omega (arith, lt, h.same_bridges)) (rw⁻¹ h.same_refs z));
}

-- As `Sound`, but bridge `b` may run without a session.
record SoundBut (b : ℕ) (s : Server) : Type 0 where
  pub fed : (k : ℕ) → Fed s.sessions s.refs k
  pub made : (k i : ℕ) → s.bridges ≤ k → is_some k (s.sessions i).talk ≡ false
  pub active_made : (p k : ℕ) → s.active p ≡ some k → k < s.bridges
  pub others_ended : (k : ℕ) → (k == b) ≡ false → k < s.bridges → s.refs k ≡ 0 → s.done k ≡ true

Sound-SoundBut : (b : ℕ) (s : Server) → Sound s → SoundBut b s
Sound-SoundBut b s v = record {
  fed = v.fed;
  made = v.made;
  active_made = v.active_made;
  others_ended = λ k other. v.ended k;
}

hold-Sound :
    (i b : ℕ) (s : Server)
    → (s.sessions i).talk ≡ none
    → b < s.bridges
    → SoundBut b s
    → Sound (hold i b s)
unfolding hold
hold-Sound i b s t lt v = record {
  fed = λ k. held-Fed s.sessions s.refs b i k t (v.fed k);
  made = λ k j le.
      put_same_talk s.sessions i k (some b) (λ o. o ≡ false) (λ j. v.made k j le)
        (ground (arith, le, lt)) j;
  active_made = v.active_made;
  ended = λ k l z. elim (Bool-cases (k == b)) [
    | inl here ↦ absurd (ground (arith, here, z))
    | inr there ↦ v.others_ended k there l (ground (arith, there, z))
  ];
}

fresh-Fed : (s : Server) (k : ℕ) → Sound s → Fed s.sessions (put s.refs s.bridges 0) k
fresh-Fed s k v = elim (Bool-cases (k == s.bridges)) [
  | inl new ↦ record {
    holders = [];
    unique = tt;
    exactly = λ j. sym (v.made k j (ground (arith, new)));
    size = rw new refl;
  }
  | inr old ↦
      let f = v.fed k in
      record { holders = f.holders; unique = f.unique; exactly = f.exactly; size = rw old f.size }
]

make_bridge-SoundBut : (p : ℕ) (s : Server) → Sound s → SoundBut s.bridges (make_bridge p s)
unfolding make_bridge
make_bridge-SoundBut p s v = record {
  fed = λ k. fresh-Fed s k v;
  made = λ k i le. v.made k i (omega (arith, le));
  active_made = λ q k a. elim (Bool-cases (q == p)) [
    | inl same ↦
        let new : some s.bridges ≡ some k =
          subst (λ (t : Bool). (if t then some s.bridges else s.active q) ≡ some k) same a in
        ground (arith, new)
    | inr other ↦
        let old : s.active q ≡ some k =
          subst (λ (t : Bool). (if t then some s.bridges else s.active q) ≡ some k) other a in
        omega (arith, v.active_made q k old)
  ];
  others_ended =
      λ k other lt z. rw other (v.ended k (ground (arith, lt, other)) (ground (arith, other, z)));
}

pub leave_talk-Sound :
    (t : Option ℕ) (i : ℕ) (s : Server)
    → (s.sessions i).talk ≡ t
    → Sound s
    → Sound (leave_talk t i s)
unfolding leave_talk
leave_talk-Sound none i s e v = v
leave_talk-Sound (some b) i s e v =
    let (h, last) = release-Shuts b s in
    record {
      fed = λ k. rw (h.same_sessions, h.same_refs) (left-Fed s.sessions s.refs b i k e (v.fed k));
      made = λ k j le. rw h.same_sessions (
          put_same_talk s.sessions i k none (λ o. o ≡ false)
            (λ j. v.made k j (omega (arith, le, h.same_bridges))) refl j);
      active_made = λ p k a. rw h.same_bridges (v.active_made p k (h.fewer p k a));
      ended = λ k lt z. left_ended b s k (release b s) h last (λ l. v.ended k l) lt z;
    }

ensure_session_state-Sound :
    (p i : ℕ) (b : Option ℕ) (s : Server)
    → (s.sessions i).talk ≡ none
    → ((k : ℕ) → b ≡ some k → k < s.bridges)
    → Sound s
    → Sound (ensure_session_state p i b s)
unfolding ensure_session_state
ensure_session_state-Sound p i (some b) s t lt v =
    hold-Sound i b s t (lt b refl) (Sound-SoundBut b s v)
ensure_session_state-Sound p i none s t lt v =
    hold-Sound i s.bridges (make_bridge p s) (unfold make_bridge in t)
      (unfold make_bridge in omega arith) (make_bridge-SoundBut p s v)

alive-some : (s : Server) (b : Option ℕ) (k : ℕ) → alive s b ≡ some k → b ≡ some k
unfolding alive
alive-some s none k r = absurd (cc r)
alive-some s (some b) k r = elim (Bool-cases (s.done b)) [
  | inl done ↦ absurd (cc (subst (λ (t : Bool). (if t then none else some b) ≡ some k) done r))
  | inr runs ↦ subst (λ (t : Bool). (if t then none else some b) ≡ some k) runs r
]

-- A session feeds no other talk when it is to feed `p`.
abbrev pub Free : ℕ → ℕ → Server → Type 0
Free p i s = ((s.sessions i).talk ≡ none) ⊎ (feeds p s (s.sessions i).talk ≡ true)

pub start_bridge-Sound : (p i : ℕ) (s : Server) → Free p i s → Sound s → Sound (start_bridge p i s)
unfolding start_bridge
start_bridge-Sound p i s free v = elim (Bool-cases (feeds p s (s.sessions i).talk)) [
  | inl fed ↦ rw fed v
  | inr not_fed ↦ rw not_fed (
      ensure_session_state-Sound p i (running p s) s
        (elim free [ inl none_yet ↦ none_yet | inr fed ↦ absurd (cc (fed, not_fed)) ])
        (λ k r. v.active_made p k (unfold running in alive-some s (s.active p) k r)) v)
]
