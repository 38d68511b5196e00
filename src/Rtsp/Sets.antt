-- ===== src/Rtsp/Sets.antt =====
-- Go maps by numbers, as functions, and Go maps to nothing, as lists of their keys.
use reolinkproxy.Base.{
  ℕ, ◌+◌, ◌≡◌, refl, List, [], ◌∷◌, Bool, true, false, not, ◌||◌, ◌&&◌, ◌==◌, if◌then◌else◌, Option,
  none, some, arith, length, subst, sym, ap, ==_iff, ==_refl, Bool-cases, inl, inr,
}

abbrev pub put {ℓ} : {A : Type ℓ} → (ℕ → A) → ℕ → A → ℕ → A
put f k a i = if i == k then a else f i

abbrev pub has : ℕ → List ℕ → Bool
has i [] = false
has i (k ∷ ks) = (i == k) || has i ks

abbrev pub add : ℕ → List ℕ → List ℕ
add i ks = if has i ks then ks else i ∷ ks

abbrev pub without : ℕ → List ℕ → List ℕ
without i [] = []
without i (k ∷ ks) = let rest = without i ks in if i == k then rest else k ∷ rest

abbrev pub is_some : ℕ → Option ℕ → Bool
is_some i none = false
is_some i (some k) = i == k

pub put_same {ℓ} : {A : Type ℓ} (f : ℕ → A) (k : ℕ) (a : A) → put f k a k ≡ a
put_same f k a = rw (==_refl k) refl

pub put_other {ℓ} :
    {A : Type ℓ} (f : ℕ → A) (k i : ℕ) (a : A) → (i == k) ≡ false → put f k a i ≡ f i
put_other f k i a e = rw e refl

pub has-add : (i j : ℕ) (ks : List ℕ) → has j (add i ks) ≡ ((j == i) || has j ks)
has-add i j ks = elim (Bool-cases (has i ks)) [
  | inl there ↦ rw there (elim (Bool-cases (j == i)) [
    | inl same ↦ rw same (subst (λ k. has k ks ≡ true) (sym ((==_iff j i).0 same)) there)
    | inr other ↦ rw other refl
  ])
  | inr new ↦ rw new refl
]

pub has-without : (i j : ℕ) (ks : List ℕ) → has j (without i ks) ≡ (not (j == i) && has j ks)
has-without i j [] = ground arith
has-without i j (k ∷ ks) = let h = has-without i j ks in ground (arith, h)

-- No key twice.
abbrev pub Unique : List ℕ → Type 0
Unique [] = Unit {0}
Unique (k ∷ ks) = (has k ks ≡ false) × Unique ks

Unique-skip : (k i : ℕ) (ks : List ℕ) → has k ks ≡ false → has k (without i ks) ≡ false
Unique-skip k i ks h = let w = has-without i k ks in ground (arith, w, h)

pub Unique-without : (i : ℕ) (ks : List ℕ) → Unique ks → Unique (without i ks)
Unique-without i [] u = tt
Unique-without i (k ∷ ks) u = elim (Bool-cases (i == k)) [
  | inl same ↦ rw same (Unique-without i ks u.1)
  | inr other ↦ rw other (Unique-skip k i ks u.0, Unique-without i ks u.1)
]

without_absent : (i : ℕ) (ks : List ℕ) → has i ks ≡ false → without i ks ≡ ks
without_absent i [] h = refl
without_absent i (k ∷ ks) h = elim (Bool-cases (i == k)) [
  | inl same ↦ absurd (ground (arith, h, same))
  | inr other ↦ rw other (ap (λ l. k ∷ l) (without_absent i ks (ground (arith, h, other))))
]

pub length-without :
    (i : ℕ) (ks : List ℕ) → Unique ks → has i ks ≡ true → length ks ≡ length (without i ks) + 1
length-without i [] u h = absurd (cc h)
length-without i (k ∷ ks) u h = elim (Bool-cases (i == k)) [
  | inl same ↦ rw (same, without_absent i ks (rw ((==_iff i k).0 same) u.0)) (omega arith)
  | inr other ↦
      rw other (let l = length-without i ks u.1 (ground (arith, h, other)) in omega (arith, l))
]
