-- ===== src/Session/Bitmap.antt =====
-- The bitmap of an acknowledgement, written by `ackWindow` (pkg/baichuan/udp.go) and read in `readLoop`
-- (pkg/baichuan/uid.go).
use reolinkproxy.Base.{
  ℕ, zero, suc, ◌+◌, ◌-◌, ◌^◌, ◌≤◌, ◌<◌, ◌≡◌, ◌≢◌, refl, List, [], ◌∷◌, arith, length, none, some,
  leb, if◌then◌else◌, Option-cases, Bool-cases, inl, inr, ◌⊎◌,
}
use native.Mathlib.Decide.{ℕ_discrete}
use reolinkproxy.Base.Store.{Store, lookup, delete, lookup-delete}
use reolinkproxy.Session.{u32, run_end, bitmap_from, drop_upto, drop_flagged}

-- What is left of `sent` after the flags of the ids `id` to `end`, for the receiver's map `store`.
pub record Flagged (store : Store (List ℕ)) (id end : ℕ) (sent out : Store (List ℕ)) : Type 0 where
  pub safe : (k : ℕ) → (lookup k out ≡ lookup k sent) ⊎ (lookup k store ≢ none)
  pub done : (k : ℕ) → id ≤ k → k ≤ end → lookup k store ≢ none → lookup k out ≡ none
  pub gone : (k : ℕ) → lookup k sent ≡ none → lookup k out ≡ none

flag : ℕ → Store (List ℕ) → ℕ
flag id store = elim (lookup id store) [ none ↦ 0 | some payload ↦ 1 ]

bitmap_stops :
    (fuel id end : ℕ) (store : Store (List ℕ))
    → end < id
    → bitmap_from (suc fuel) id end store ≡ some []
unfolding bitmap_from
bitmap_stops fuel id end store h = ground arith

bitmap_goes_on :
    (fuel id end : ℕ) (store : Store (List ℕ)) (bits : List ℕ)
    → id ≤ end
    → end < 2 ^ 32 - 1
    → bitmap_from fuel (id + 1) end store ≡ some bits
    → bitmap_from (suc fuel) id end store ≡ some (flag id store ∷ bits)
unfolding bitmap_from flag
bitmap_goes_on fuel id end store bits h he e =
    let no_wrap : id + 1 ≡ u32 (id + 1) = omega arith in ground (arith, no_wrap, e)

pub no_flags :
    (store sent : Store (List ℕ)) (id end : ℕ)
    → end < id
    → Flagged store id end sent (drop_flagged id [] sent)
unfolding drop_flagged
no_flags store sent id end h = record {
  safe = λ k. inl refl;
  done = λ k p q there. absurd (omega arith);
  gone = λ k e. e;
}

flag_absent :
    (id : ℕ) (store sent : Store (List ℕ)) (bits : List ℕ)
    → lookup id store ≡ none
    → id < 2 ^ 32 - 1
    → drop_flagged id (flag id store ∷ bits) sent ≡ drop_flagged (id + 1) bits sent
unfolding drop_flagged flag
flag_absent id store sent bits e h =
    let no_wrap : id + 1 ≡ u32 (id + 1) = omega arith in ground (arith, no_wrap, e)

flag_there :
    (id : ℕ) (store sent : Store (List ℕ)) (bits : List ℕ)
    → lookup id store ≢ none
    → id < 2 ^ 32 - 1
    → drop_flagged id (flag id store ∷ bits) sent ≡ drop_flagged (id + 1) bits (delete id sent)
unfolding drop_flagged flag
flag_there id store sent bits e h =
    let no_wrap : id + 1 ≡ u32 (id + 1) = omega arith in ground (arith, no_wrap, e)

-- The flag of one id, then those of the ids after it.
flag_then :
    (store sent : Store (List ℕ)) (id end : ℕ) (bits : List ℕ)
    → id < 2 ^ 32 - 1
    → ((m : Store (List ℕ)) → Flagged store (id + 1) end m (drop_flagged (id + 1) bits m))
    → Flagged store id end sent (drop_flagged id (flag id store ∷ bits) sent)
flag_then store sent id end bits h later = elim (Option-cases (lookup id store)) [
  | inl absent ↦
      let f = later sent in
      rw (flag_absent id store sent bits absent h) (record {
        safe = f.safe;
        done = λ k p q there. elim (ℕ_discrete id k) [
          | yes same ↦ absurd (there (rw (← same) absent))
          | no other ↦ f.done k (omega arith) q there
        ];
        gone = f.gone;
      })
  | inr (v, there) ↦
      let f = later (delete id sent) in
      rw (flag_there id store sent bits (λ e. cc) h) (record {
        safe = λ k. ground (arith, f.safe k, lookup-delete id k sent, there);
        done = λ k p q has. elim (ℕ_discrete id k) [
          | yes same ↦ f.gone k (ground (arith, lookup-delete id k sent))
          | no other ↦ f.done k (omega arith) q has
        ];
        gone = λ k e. f.gone k (ground (arith, lookup-delete id k sent));
      })
]

-- With fuel for every id the loop ends, and gives one flag for each: those are what gets deleted.
pub bitmap_total :
    (fuel id end : ℕ) (store : Store (List ℕ))
    → id ≤ end + 1
    → end + 1 < id + fuel
    → end < 2 ^ 32 - 1
    → (bits : List ℕ) × (bitmap_from fuel id end store ≡ some bits)
      × (length bits ≡ end + 1 - id)
      × ((sent : Store (List ℕ)) → Flagged store id end sent (drop_flagged id bits sent))
bitmap_total zero id end store p h he = absurd (omega arith)
bitmap_total (suc fuel) id end store p h he = elim (Bool-cases (leb id end)) [
  | inl go ↦
      let le : id ≤ end = ground arith in
      let (bits, e, len, f) = bitmap_total fuel (id + 1) end store (omega arith) (omega arith) he in
      (
        flag id store ∷ bits,
        bitmap_goes_on fuel id end store bits le he e,
        ground arith,
        λ sent. flag_then store sent id end bits (omega arith) f,
      )
  | inr over ↦
      let gt : end < id = ground arith in
      ([], bitmap_stops fuel id end store gt, ground arith, λ sent. no_flags store sent id end gt)
]

pub run_end_gap :
    (fuel start : ℕ) (store : Store (List ℕ))
    → lookup (u32 (start + 1)) store ≡ none
    → run_end (suc fuel) start store ≡ some start
unfolding run_end
run_end_gap fuel start store e = rw (e, run_end)

pub lookup-drop_upto :
    (id k : ℕ) (m : Store (List ℕ))
    → lookup k (drop_upto id m) ≡ (if leb k id then none else lookup k m)
unfolding lookup drop_upto
lookup-drop_upto id k [] = ground arith
lookup-drop_upto id k ((j, v) ∷ m) = ground (arith, lookup-drop_upto id k m)
