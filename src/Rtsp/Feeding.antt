-- ===== src/Rtsp/Feeding.antt =====
-- The sessions that feed a talk bridge, as its `refs` count them (pkg/bridge/talk_rtsp.go).
use reolinkproxy.Base.{
  ℕ, ◌+◌, ◌-◌, ◌<◌, ◌≡◌, refl, List, ◌∷◌, Bool, true, false, ◌==◌, leb, if◌then◌else◌, Option, none,
  some, arith, ==_iff, Bool-cases, inl, inr, ◌∙◌, sym, ap, subst, length,
}
use reolinkproxy.Rtsp.Sets.{
  put, has, without, is_some, put_same, has-without, Unique, Unique-without, length-without,
}
use reolinkproxy.Rtsp.{Session, Server, finish, close_bridge, release}

-- `refs` of a bridge is the number of the sessions that feed it.
pub record Fed (sessions : ℕ → Session) (refs : ℕ → ℕ) (b : ℕ) : Type 0 where
  pub holders : List ℕ
  pub unique : Unique holders
  pub exactly : (i : ℕ) → has i holders ≡ is_some b (sessions i).talk
  pub size : refs b ≡ length holders

-- What ending a bridge leaves as it is.
pub record Shuts (s s' : Server) : Type 0 where
  pub same_sessions : s'.sessions ≡ s.sessions
  pub same_refs : s'.refs ≡ s.refs
  pub same_bridges : s'.bridges ≡ s.bridges
  pub fewer : (p b : ℕ) → s'.active p ≡ some b → s.active p ≡ some b
  pub stays_done : (b : ℕ) → s.done b ≡ true → s'.done b ≡ true

put-none : (f : ℕ → Option ℕ) (p q b : ℕ) → put f p none q ≡ some b → f q ≡ some b
put-none f p q b h = elim (Bool-cases (q == p)) [
  | inl same ↦ absurd (ground (arith, h, same))
  | inr other ↦ ground (arith, h, other)
]

put-true : (f : ℕ → Bool) (b k : ℕ) → f k ≡ true → put f b true k ≡ true
put-true f b k h = ground (arith, h)

finish-Shuts : (b : ℕ) (s : Server) → Shuts s (finish b s)
unfolding finish
finish-Shuts b s =
    elim (is_some b (s.active (s.publisher b)))
      as (λ t. Shuts s (if t then record s { active = put s.active (s.publisher b) none } else s)) [
        | true ↦ record {
          same_sessions = refl;
          same_refs = refl;
          same_bridges = refl;
          fewer = λ p b' h. put-none s.active (s.publisher b) p b' h;
          stays_done = λ b' h. h;
        }
        | false ↦ record {
          same_sessions = refl;
          same_refs = refl;
          same_bridges = refl;
          fewer = λ p b' h. h;
          stays_done = λ b' h. h;
        }
      ]

pub close_bridge-Shuts :
    (b : ℕ) (s : Server) → Shuts s (close_bridge b s) × ((close_bridge b s).done b ≡ true)
unfolding close_bridge
close_bridge-Shuts b s =
    let f = finish-Shuts b s in
    (
      record {
        same_sessions = f.same_sessions;
        same_refs = f.same_refs;
        same_bridges = f.same_bridges;
        fewer = f.fewer;
        stays_done = λ k h. put-true (finish b s).done b k (f.stays_done k h);
      },
      put_same (finish b s).done b true,
    )

abbrev pub released : ℕ → Server → Server
released b s = record s { refs = put s.refs b (s.refs b - 1) }

pub release-Shuts :
    (b : ℕ) (s : Server)
    → Shuts (released b s) (release b s) × (s.refs b - 1 ≡ 0 → (release b s).done b ≡ true)
unfolding release
release-Shuts b s = elim (Bool-cases (leb (s.refs b - 1) 0)) [
  | inl last ↦
      let (shuts, done) = close_bridge-Shuts b (released b s) in rw last (shuts, (λ h. done))
  | inr more ↦ rw more (
    record {
      same_sessions = refl;
      same_refs = refl;
      same_bridges = refl;
      fewer = λ p b' h. h;
      stays_done = λ k h. h;
    },
    (λ h. absurd (ground (arith, more, h))),
  )
]

pub left-Fed :
    (f : ℕ → Session) (refs : ℕ → ℕ) (b i k : ℕ)
    → (f i).talk ≡ some b
    → Fed f refs k
    → Fed (put f i (record (f i) { talk = none })) (put refs b (refs b - 1)) k
left-Fed f refs b i k t v = elim (Bool-cases (k == b)) [
  | inl here ↦
      let held = length-without i v.holders v.unique (v.exactly i ∙ ap (is_some k) t ∙ here) in
      let size' : refs b ≡ length v.holders =
        subst (λ n. refs n ≡ length v.holders) ((==_iff k b).0 here) v.size in
      record {
        holders = without i v.holders;
        unique = Unique-without i v.holders v.unique;
        exactly = λ j. has-without i j v.holders ∙ elim (Bool-cases (j == i)) [
          | inl same ↦ rw same refl
          | inr other ↦ rw other (v.exactly j)
        ];
        size = rw here (omega (arith, size', held));
      }
  | inr there ↦ record {
    holders = v.holders;
    unique = v.unique;
    exactly = λ j. elim (Bool-cases (j == i)) [
      | inl same ↦ rw same (v.exactly j ∙ rw ((==_iff j i).0 same, t) there)
      | inr other ↦ rw other (v.exactly j)
    ];
    size = rw there v.size;
  }
]

pub held-Fed :
    (f : ℕ → Session) (refs : ℕ → ℕ) (b i k : ℕ)
    → (f i).talk ≡ none
    → Fed f refs k
    → Fed (put f i (record (f i) { talk = some b })) (put refs b (refs b + 1)) k
held-Fed f refs b i k t v = elim (Bool-cases (k == b)) [
  | inl here ↦ record {
    holders = i ∷ v.holders;
    unique = (v.exactly i ∙ ap (is_some k) t, v.unique);
    exactly = λ j. elim (Bool-cases (j == i)) [
      | inl same ↦ rw (same, here) refl
      | inr other ↦ rw other (v.exactly j)
    ];
    size = rw here (
        let size' : refs b ≡ length v.holders =
          subst (λ n. refs n ≡ length v.holders) ((==_iff k b).0 here) v.size in
        omega (arith, size'));
  }
  | inr there ↦ record {
    holders = v.holders;
    unique = v.unique;
    exactly = λ j. elim (Bool-cases (j == i)) [
      | inl same ↦ rw (same, there) (v.exactly j ∙ rw ((==_iff j i).0 same, t) refl)
      | inr other ↦ rw other (v.exactly j)
    ];
    size = rw there v.size;
  }
]

pub put_same_talk :
    (f : ℕ → Session) (i b : ℕ) (t : Option ℕ) (P : Bool → Type 0)
    → ((j : ℕ) → P (is_some b (f j).talk))
    → P (is_some b t)
    → (j : ℕ) → P (is_some b (put f i (record (f i) { talk = t }) j).talk)
put_same_talk f i b t P h p j = elim (Bool-cases (j == i)) [
  | inl same ↦ rw same p
  | inr other ↦ rw other (h j)
]

pub left_ended :
    (b : ℕ) (s : Server) (k : ℕ) (s' : Server)
    → Shuts (released b s) s'
    → (s.refs b - 1 ≡ 0 → s'.done b ≡ true)
    → (k < s.bridges → s.refs k ≡ 0 → s.done k ≡ true)
    → k < s'.bridges
    → s'.refs k ≡ 0
    → s'.done k ≡ true
left_ended b s k s' h last ended lt z =
    let z' : put s.refs b (s.refs b - 1) k ≡ 0 = subst (λ f. f k ≡ 0) h.same_refs z in
    elim (Bool-cases (k == b)) [
      | inl here ↦
          subst (λ n. s'.done n ≡ true) (sym ((==_iff k b).0 here))
            (last (ground (arith, here, z')))
      | inr there ↦
          h.stays_done k (ended (omega (arith, lt, h.same_bridges)) (ground (arith, there, z')))
    ]

pub put_keeps_talk :
    (f : ℕ → Session) (i : ℕ) (x : Session)
    → x.talk ≡ (f i).talk
    → (j : ℕ) → (put f i x j).talk ≡ (f j).talk
put_keeps_talk f i x e j = elim (Bool-cases (j == i)) [
  | inl same ↦ rw (same, (==_iff j i).0 same) e
  | inr other ↦ rw other refl
]
