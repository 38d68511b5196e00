-- ===== src/Session/Read.antt =====
-- `uidSession.Read` of pkg/baichuan/uid.go: the byte stream on top of the chunks.
use reolinkproxy.Base.{
  ℕ, ◌≤◌, ◌<◌, ◌≡◌, refl, List, [], ◌∷◌, ◌++◌, append_assoc, arith, length, length-take, take, drop,
  take-append-drop, Option, none, some,
}
use reolinkproxy.Session.Write.{concat}

-- `readBuf` and what is in `readQueue`.
pub record Pipe : Type 0 where
  pub read_buf : List ℕ
  pub read_queue : List (List ℕ)

-- The loop of `Read`: chunks go to the buffer until it has a byte. `none` when the queue has no
-- more, where the source waits, or returns the error of a closed session.
unfoldable pub fill : List ℕ → List (List ℕ) → Option Pipe
fill (b ∷ buf) queue = some (record { read_buf = b ∷ buf; read_queue = queue })
fill [] [] = none
fill [] (chunk ∷ queue) = fill chunk queue

abbrev pub take_from : ℕ → Pipe → List ℕ × Pipe
take_from n p = (take n p.read_buf, record p { read_buf = drop n p.read_buf })

-- `Read` into a slice of `n` bytes.
unfoldable pub read : ℕ → Pipe → Option (List ℕ × Pipe)
read n p = elim (fill p.read_buf p.read_queue) [
  | none ↦ none
  | some filled ↦ some (take_from n filled)
]

-- The bytes that are still to be read.
abbrev pub pending : Pipe → List ℕ
pending p = p.read_buf ++ concat p.read_queue

-- A call either gives the next bytes of the stream, one at least and no more than there is room
-- for, and leaves the others in order, or there is no byte to give.
abbrev pub IsRead : ℕ → Pipe → Option (List ℕ × Pipe) → Type 0
IsRead n p none = pending p ≡ []
IsRead n p (some (out, q)) = (out ++ pending q ≡ pending p) × (1 ≤ length out) × (length out ≤ n)

taken_from :
    (n b : ℕ) (buf : List ℕ) (queue : List (List ℕ))
    → 0 < n
    → let p : Pipe = record { read_buf = b ∷ buf; read_queue = queue } in
      IsRead n p (some (take_from n p))
taken_from n b buf queue h =
    let len = length-take n (b ∷ buf) in
    (rw (← append_assoc, take-append-drop n (b ∷ buf)) refl, omega (arith, len), omega (arith, len))

fill-IsRead :
    (n : ℕ) (buf : List ℕ) (queue : List (List ℕ))
    → 0 < n
    → IsRead n
        (record { read_buf = buf; read_queue = queue })
        (read n (record { read_buf = buf; read_queue = queue }))
unfolding read fill
fill-IsRead n (b ∷ buf) queue h = taken_from n b buf queue h
fill-IsRead n [] [] h = refl
fill-IsRead n [] (chunk ∷ queue) h = fill-IsRead n chunk queue h

-- With room for a byte, `Read` gives the next bytes of the stream, one at least and no more than
-- there is room for, and leaves the others in order; it gives none only when there is none.
pub read-IsRead : (n : ℕ) (p : Pipe) → 0 < n → IsRead n p (read n p)
read-IsRead n p h = fill-IsRead n p.read_buf p.read_queue h
