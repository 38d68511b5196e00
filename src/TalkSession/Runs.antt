-- ===== src/TalkSession/Runs.antt =====
-- What all the calls of a talk session keep (pkg/baichuan/talk.go).
use reolinkproxy.Base.{
  ℕ, ◌+◌, ◌%◌, ◌^◌, ◌≡◌, refl, List, [], ◌∷◌, ◌++◌, true, false, Option, none, some, inl, inr,
  Bool-cases, length, ◌==◌, ==_iff, append-nil, append_assoc,
}
use reolinkproxy.TalkSession.{
  TalkSession, WriteError, canceled, block_size, not_written, Attempt, write_adpcm_block,
  send_block, talk,
}

send_block-sent :
    (now : ℕ) (block : List ℕ) (s : TalkSession) → (send_block true now block s).0 ≡ none
unfolding send_block
send_block-sent now block s = refl

send_block-lost :
    (now : ℕ) (block : List ℕ) (s : TalkSession)
    → send_block false now block s ≡ (some not_written, record s { seq = (s.seq + 1) % 2 ^ 16 })
unfolding send_block
send_block-lost now block s = refl

write_adpcm_block-closed :
    (a : Attempt) (s : TalkSession)
    → s.closed ≡ true
    → write_adpcm_block a.takes a.time a.block s ≡ (some canceled, s)
unfolding write_adpcm_block
write_adpcm_block-closed a s e = simp e refl

write_adpcm_block-refused :
    (a : Attempt) (s : TalkSession)
    → s.closed ≡ false
    → (length a.block == s.bytes_per_block) ≡ false
    → write_adpcm_block a.takes a.time a.block s ≡ (some block_size, s)
unfolding write_adpcm_block
write_adpcm_block-refused a s e f = simp (e, f) refl

write_adpcm_block-sends :
    (a : Attempt) (s : TalkSession)
    → s.closed ≡ false
    → (length a.block == s.bytes_per_block) ≡ true
    → write_adpcm_block a.takes a.time a.block s ≡ send_block a.takes a.time a.block s
unfolding write_adpcm_block
write_adpcm_block-sends a s e f = simp (e, f) refl

-- A relation between the calls that returned no error and the session: it is kept when a number is
-- spent on a message that does not go out, and when a block of the right size goes out.
module _ (P : List Attempt → TalkSession → Type 0)
    (skip : (sent : List Attempt) (s : TalkSession) (seq : ℕ)
      → P sent s
      → P sent (record s { seq = seq }))
    (take_one : (sent : List Attempt) (s : TalkSession) (a : Attempt)
      → length a.block ≡ s.bytes_per_block
      → P sent s
      → P (sent ++ a ∷ []) (send_block true a.time a.block s).1) where
  write_adpcm_block-keeps :
      (a : Attempt) (sent : List Attempt) (s : TalkSession)
      → P sent s
      → P
          (sent
            ++ elim (write_adpcm_block a.takes a.time a.block s).0 [ none ↦ a ∷ [] | some e ↦ [] ])
          (write_adpcm_block a.takes a.time a.block s).1
  write_adpcm_block-keeps a sent s p = elim (Bool-cases s.closed) [
    | inl e ↦ rw (write_adpcm_block-closed a s e, append-nil sent) p
    | inr e ↦ elim (Bool-cases (length a.block == s.bytes_per_block)) [
      | inr f ↦ rw (write_adpcm_block-refused a s e f, append-nil sent) p
      | inl f ↦ elim (Bool-cases a.takes) [
        | inr g ↦
            rw
              (
                write_adpcm_block-sends a s e f,
                g,
                send_block-lost a.time a.block s,
                append-nil sent,
              )
              (skip sent s ((s.seq + 1) % 2 ^ 16) p)
        | inl g ↦
            rw (write_adpcm_block-sends a s e f, g, send_block-sent a.time a.block s)
              (take_one sent s a ((==_iff _ _).0 f) p)
      ]
    ]
  ]

  keeps_first :
      (r : Option WriteError) (a : Attempt) (sent later : List Attempt) (s : TalkSession)
      → P ((sent ++ elim r [ none ↦ a ∷ [] | some e ↦ [] ]) ++ later) s
      → P (sent ++ elim r [ none ↦ a ∷ later | some e ↦ later ]) s
  keeps_first none a sent later s h = rw (append_assoc sent (a ∷ []) later) at h
  keeps_first (some e) a sent later s h = rw (append-nil sent) at h

  pub talk-keeps :
      (attempts sent : List Attempt) (s : TalkSession)
      → P sent s
      → P (sent ++ (talk attempts s).0) (talk attempts s).1
  unfolding talk
  talk-keeps [] sent s p = rw (append-nil sent) p
  talk-keeps (a ∷ attempts) sent s p =
      let now = write_adpcm_block a.takes a.time a.block s in
      keeps_first now.0 a sent (talk attempts now.1).0 (talk attempts now.1).1
        (talk-keeps attempts _ now.1 (write_adpcm_block-keeps a sent s p))
