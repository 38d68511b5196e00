-- ===== src/Talk/Volume.antt =====
-- The volume of pkg/bridge/talk_pipeline.go on whole packets.
use reolinkproxy.Base.{
  ℕ, zero, suc, ◌*◌, ◌/◌, ◌≤◌, ◌≡◌, refl, List, [], ◌∷◌, true, false, ◌==◌, All, arith, Bool-cases,
  inl, inr, ◌⊎◌,
}
use reolinkproxy.Base.Int.{ℤ, pos, negsuc, ◌≤ℤ◌, ◌-ℤ◌, magnitude}
use reolinkproxy.Talk.{scaled, limited, scale_all, apply_talk_volume, is_silence}

-- A sample of int16.
abbrev pub IsSample : ℤ → Type 0
IsSample z = (negsuc 32767 ≤ℤ z) × (z ≤ℤ pos 32767)

-- Two packets of the same length, the samples of the second no louder than those of the first.
abbrev pub NoLouder : List ℤ → List ℤ → Type 0
NoLouder [] [] = Unit {0}
NoLouder [] (q ∷ qs) = ⊥
NoLouder (p ∷ ps) [] = ⊥
NoLouder (p ∷ ps) (q ∷ qs) = (magnitude q ≤ magnitude p) × NoLouder ps qs

limited-IsSample : (z : ℤ) → IsSample (limited z)
unfolding limited
limited-IsSample z = ground arith

at_most : (n percent : ℕ) → percent ≤ 100 → n * percent ≤ n * 100
at_most zero percent h = omega arith
at_most (suc n) percent h = grind (arith, at_most n percent h)

shrinks : (n percent : ℕ) → percent ≤ 100 → n * percent / 100 ≤ n
shrinks n percent h =
    let whole : n * percent ≤ n * 100 = at_most n percent h in omega (arith, whole)

quieter :
    (percent : ℕ) (z : ℤ) → percent ≤ 100 → magnitude (limited (scaled percent z)) ≤ magnitude z
unfolding limited scaled ◌-ℤ◌
quieter percent (pos n) h = ground (arith, shrinks n percent h)
quieter percent (negsuc n) h = ground (arith, shrinks (suc n) percent h)

scale_all-IsSample : (percent : ℕ) (pcm : List ℤ) → All IsSample (scale_all percent pcm)
unfolding scale_all
scale_all-IsSample percent [] = tt
scale_all-IsSample percent (z ∷ pcm) =
    (limited-IsSample (scaled percent z), scale_all-IsSample percent pcm)

scale_all-NoLouder :
    (percent : ℕ) (pcm : List ℤ) → percent ≤ 100 → NoLouder pcm (scale_all percent pcm)
unfolding scale_all
scale_all-NoLouder percent [] h = tt
scale_all-NoLouder percent (z ∷ pcm) h = (quieter percent z h, scale_all-NoLouder percent pcm h)

unchanged : (pcm : List ℤ) → NoLouder pcm pcm
unchanged [] = tt
unchanged (z ∷ pcm) = (omega arith, unchanged pcm)

NoLouder-is_silence :
    (ps qs : List ℤ) → NoLouder ps qs → is_silence ps ≡ true → is_silence qs ≡ true
unfolding is_silence
NoLouder-is_silence [] [] h s = refl
NoLouder-is_silence [] (q ∷ qs) h s = absurd h
NoLouder-is_silence (p ∷ ps) [] h s = refl
NoLouder-is_silence (p ∷ ps) (q ∷ qs) h s = ground (arith, h.0, NoLouder-is_silence ps qs h.1)

volume :
    (pcm : List ℤ) (percent : ℤ)
    → All IsSample pcm
    → percent ≤ℤ pos 100
    → All IsSample (apply_talk_volume pcm percent) × NoLouder pcm (apply_talk_volume pcm percent)
unfolding apply_talk_volume
volume pcm (negsuc n) samples h = (scale_all-IsSample 0 pcm, scale_all-NoLouder 0 pcm (omega arith))
volume pcm (pos percent) samples h = elim (Bool-cases (percent == 100)) [
  | inl full ↦ rw full (samples, unchanged pcm)
  | inr other ↦
      rw other (scale_all-IsSample percent pcm, scale_all-NoLouder percent pcm (omega arith))
]

-- At a volume of 100 percent or less, a negative one included, samples of int16 stay samples of
-- int16, none gets louder or is lost, and a silent packet stays silent.
pub apply_talk_volume-NoLouder :
    (pcm : List ℤ) (percent : ℤ)
    → All IsSample pcm
    → percent ≤ℤ pos 100
    → All IsSample (apply_talk_volume pcm percent)
      × NoLouder pcm (apply_talk_volume pcm percent)
      × ((is_silence pcm ≡ false) ⊎ (is_silence (apply_talk_volume pcm percent) ≡ true))
apply_talk_volume-NoLouder pcm percent samples h =
    let (good, quiet) = volume pcm percent samples h in
    (
      good,
      quiet,
      elim (Bool-cases (is_silence pcm)) [
        | inl s ↦ inr (NoLouder-is_silence pcm _ quiet s)
        | inr s ↦ inl s
      ],
    )
