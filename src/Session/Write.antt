-- ===== src/Session/Write.antt =====
-- `uidSession.Write` of pkg/baichuan/uid.go: how it cuts what it is given into chunks.
use reolinkproxy.Base.{
  ℕ, zero, suc, ◌-◌, ◌≤◌, ◌<◌, ◌≡◌, refl, List, [], ◌∷◌, ◌++◌, arith, length, length-take,
  length-drop, drop, take-append-drop, min, some, All, ◌==◌, false,
}
use reolinkproxy.Session.{chunks_of, write}

abbrev pub concat : List (List ℕ) → List ℕ
concat [] = []
concat (c ∷ cs) = c ++ concat cs

abbrev pub IsChunk : ℕ → List ℕ → Type 0
IsChunk limit chunk = (1 ≤ length chunk) × (length chunk ≤ limit)

concat-chunks_of :
    (fuel limit : ℕ) (p : List ℕ)
    → length p ≤ fuel
    → 0 < limit
    → concat (chunks_of fuel limit p) ≡ p
unfolding chunks_of
concat-chunks_of zero limit [] h pos = refl
concat-chunks_of zero limit (b ∷ p) h pos = absurd (omega arith)
concat-chunks_of (suc fuel) limit [] h pos = refl
concat-chunks_of (suc fuel) limit (b ∷ p) h pos =
    let n : ℕ = min (length (b ∷ p)) limit in
    rw (concat-chunks_of fuel limit (drop n (b ∷ p)) (omega (arith, length-drop n (b ∷ p))) pos)
      (take-append-drop n (b ∷ p))

chunks_of-IsChunk :
    (fuel limit : ℕ) (p : List ℕ) → 0 < limit → All (IsChunk limit) (chunks_of fuel limit p)
unfolding chunks_of
chunks_of-IsChunk zero limit p pos = tt
chunks_of-IsChunk (suc fuel) limit [] pos = tt
chunks_of-IsChunk (suc fuel) limit (b ∷ p) pos =
    let n : ℕ = min (length (b ∷ p)) limit in
    let len = length-take n (b ∷ p) in
    ((omega (arith, len), omega (arith, len)), chunks_of-IsChunk fuel limit (drop n (b ∷ p)) pos)

-- With an MTU above the 20 bytes of a header, `Write` queues the bytes it was given: put together in
-- order the chunks are those bytes, and each chunk has a byte at least and fits the MTU.
pub write_chunks :
    (mtu : ℕ) (p : List ℕ)
    → 20 < mtu
    → (cs : List (List ℕ)) × (write mtu p ≡ some cs) × (concat cs ≡ p) × All (IsChunk (mtu - 20)) cs
unfolding write
write_chunks mtu p h =
    let positive : (mtu - 20 == 0) ≡ false = ground arith in
    (
      chunks_of (length p) (mtu - 20) p,
      rw positive,
      concat-chunks_of (length p) (mtu - 20) p (omega arith) (omega arith),
      chunks_of-IsChunk (length p) (mtu - 20) p (omega arith),
    )
