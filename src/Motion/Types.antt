-- ===== src/Motion/Types.antt =====
-- Lists of types without repeats (`appendNew` of pkg/baichuan/motion.go).
use reolinkproxy.Base.{
  ◌≡◌, refl, List, [], ◌∷◌, ◌++◌, Bool, true, false, ◌||◌, ◌==◌, if◌then◌else◌, sym, arith,
  Bool-cases, inl, inr, ==_iff, ==_refl,
}
use reolinkproxy.Motion.Texts.{Text, text_eq, elem, append_new}

pub text_eq_sound : (a b : Text) → text_eq a b ≡ true → a ≡ b
text_eq_sound [] [] e = refl
text_eq_sound [] (b ∷ bs) e = absurd (cc e)
text_eq_sound (a ∷ as_) [] e = absurd (cc e)
text_eq_sound (a ∷ as_) (b ∷ bs) e = elim (Bool-cases (a == b)) [
  | inl same ↦ rw ((==_iff a b).0 same, text_eq_sound as_ bs (ground (arith, e, same))) refl
  | inr other ↦ absurd (ground (arith, e, other))
]

pub text_eq_refl : (a : Text) → text_eq a a ≡ true
text_eq_refl [] = refl
text_eq_refl (a ∷ as_) = rw (==_refl a, text_eq_refl as_) refl

pub text_eq_sym : (a b : Text) → text_eq a b ≡ false → text_eq b a ≡ false
text_eq_sym a b e = elim (Bool-cases (text_eq b a)) [
  | inl same ↦ absurd (cc (e, text_eq_refl b, text_eq_sound b a same))
  | inr other ↦ other
]

pub or_assoc : (a b c : Bool) → ((a || b) || c) ≡ (a || (b || c))
or_assoc true b c = refl
or_assoc false b c = refl

pub or_false : (a : Bool) → (a || false) ≡ a
or_false true = refl
or_false false = refl

elem-snoc : (t x : Text) (l : List Text) → elem t (l ++ x ∷ []) ≡ (elem t l || text_eq t x)
elem-snoc t x [] = or_false (text_eq t x)
elem-snoc t x (u ∷ us) =
    rw (elem-snoc t x us) (sym (or_assoc (text_eq t u) (elem t us) (text_eq t x)))

elem_add :
    (t x : Text) (l : List Text)
    → elem t (if elem x l then l else l ++ x ∷ []) ≡ (elem t l || text_eq t x)
elem_add t x l = elim (Bool-cases (elem x l)) [
  | inr new ↦ rw new (elem-snoc t x l)
  | inl there ↦ rw there (elim (Bool-cases (text_eq t x)) [
    | inl same ↦ rw (text_eq_sound t x same, there) refl
    | inr other ↦ rw (other, or_false (elem t l)) refl
  ])
]

pub elem-append_new :
    (t : Text) (l items : List Text) → elem t (append_new l items) ≡ (elem t l || elem t items)
unfolding append_new
elem-append_new t l [] = sym (or_false (elem t l))
elem-append_new t l (x ∷ items) =
    rw (elem-append_new t (if elem x l then l else l ++ x ∷ []) items, elem_add t x l)
      (or_assoc (elem t l) (text_eq t x) (elem t items))

-- No type twice.
abbrev pub Distinct : List Text → Type 0
Distinct [] = Unit {0}
Distinct (x ∷ xs) = (elem x xs ≡ false) × Distinct xs

Distinct-snoc : (x : Text) (l : List Text) → elem x l ≡ false → Distinct l → Distinct (l ++ x ∷ [])
Distinct-snoc x [] e d = (refl, tt)
Distinct-snoc x (y ∷ ys) e d =
    let apart : text_eq x y ≡ false = ground (arith, e) in
    (
      rw (elem-snoc y x ys, d.0, text_eq_sym x y apart) refl,
      Distinct-snoc x ys (ground (arith, e)) d.1,
    )

pub Distinct-append_new : (l items : List Text) → Distinct l → Distinct (append_new l items)
unfolding append_new
Distinct-append_new l [] d = d
Distinct-append_new l (x ∷ items) d = elim (Bool-cases (elem x l)) [
  | inl there ↦ rw there (Distinct-append_new l items d)
  | inr new ↦ rw new (Distinct-append_new (l ++ x ∷ []) items (Distinct-snoc x l new d))
]
