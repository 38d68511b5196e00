-- ===== src/Talk/Chunks.antt =====
-- What the blocks of a talk hold, as chunks of its audio (pkg/bridge/talk_pipeline.go).
use reolinkproxy.Base.{
  ℕ, ◌≤◌, ◌%◌, ◌≡◌, refl, List, [], ◌∷◌, ◌++◌, length, take, drop, All, arith, ok, ap, sym, ◌∙◌,
  append_assoc, append-nil, take-append-drop, length-take,
}
use reolinkproxy.Base.Int.{ℤ}
use reolinkproxy.Base.Bytes.{put_uint16}
use reolinkproxy.Codec.Adpcm.{State, encode_block, encode_pairs, to_uint16}
use reolinkproxy.Talk.Resampler.{Resampler}
use reolinkproxy.Talk.Blocks.{Bridge, hear}

-- The packets, as they go on to the encoder.
abbrev pub heard : Resampler → List (List ℤ) → List ℤ
heard r [] = []
heard r (pcm ∷ packets) = (hear r pcm).0 ++ heard (hear r pcm).1 packets

abbrev pub heard_by : Resampler → List (List ℤ) → Resampler
heard_by r [] = r
heard_by r (pcm ∷ packets) = heard_by (hear r pcm).1 packets

pub heard-append :
    (r : Resampler) (ps qs : List (List ℤ))
    → heard r (ps ++ qs) ≡ heard r ps ++ heard (heard_by r ps) qs
heard-append r [] qs = refl
heard-append r (pcm ∷ ps) qs = rw (heard-append (hear r pcm).1 ps qs) (
    sym (
      append_assoc (hear r pcm).0 (heard (hear r pcm).1 ps)
        (heard (heard_by (hear r pcm).1 ps) qs)))

abbrev pub concat : List (List ℤ) → List ℤ
concat [] = []
concat (c ∷ cs) = c ++ concat cs

-- An encoder in state `e` makes these blocks of these chunks, one by one.
abbrev pub Encodes : State → List (List ℤ) → List (List ℕ) → State → Type 0
Encodes e [] [] last = e ≡ last
Encodes e [] (block ∷ blocks) last = ⊥
Encodes e (chunk ∷ chunks) [] last = ⊥
Encodes e (chunk ∷ chunks) (block ∷ blocks) last =
    (next : State) × (encode_block e chunk ≡ ok (block, next)) × Encodes next chunks blocks last

Encodes-snoc :
    (e : State) (chunks : List (List ℤ)) (blocks : List (List ℕ)) (last : State) (chunk : List ℤ)
    (block : List ℕ) (next : State)
    → Encodes e chunks blocks last
    → encode_block last chunk ≡ ok (block, next)
    → Encodes e (chunks ++ chunk ∷ []) (blocks ++ block ∷ []) next
Encodes-snoc e [] [] last chunk block next c h = (next, rw c h, refl)
Encodes-snoc e [] (y ∷ blocks) last chunk block next c h = elim c [ ]
Encodes-snoc e (x ∷ chunks) [] last chunk block next c h = elim c [ ]
Encodes-snoc e (x ∷ chunks) (y ∷ blocks) last chunk block next (e', h', c) h =
    (e', h', Encodes-snoc e' chunks blocks last chunk block next c h)

concat-snoc : (cs : List (List ℤ)) (c : List ℤ) → concat (cs ++ c ∷ []) ≡ concat cs ++ c
concat-snoc [] c = append-nil c
concat-snoc (x ∷ cs) c = rw (concat-snoc cs c) (sym (append_assoc x (concat cs) c))

pub nothing : (xs : List ℤ) → length xs ≡ 0 → xs ≡ []
nothing [] e = refl
nothing (x ∷ xs) e = absurd (omega (arith, e))

pub all_of :
    (chunks : List (List ℤ)) (buffer as_ bs zeros : List ℤ)
    → concat chunks ++ buffer ≡ as_ ++ zeros
    → buffer ≡ []
    → as_ ≡ bs
    → concat chunks ≡ bs ++ zeros
all_of chunks buffer as_ bs zeros o e h =
    sym (append-nil (concat chunks))
    ∙ ap (λ l. concat chunks ++ l) (sym e)
    ∙ o
    ∙ ap (λ l. l ++ zeros) h

-- What has been done with `samples` since encoder `e0`: whole chunks are written, the rest waits.
pub record Sent (n : ℕ) (e0 : State) (samples : List ℤ) (b : Bridge) : Type 0 where
  pub chunks : List (List ℤ)
  pub whole : All (λ c. length c ≡ n) chunks
  pub order : concat chunks ++ b.pcm_buffer ≡ samples
  pub coded : Encodes e0 chunks b.blocks b.encoder

All-snoc :
    (n : ℕ) (cs : List (List ℤ)) (c : List ℤ)
    → All (λ c. length c ≡ n) cs
    → length c ≡ n
    → All (λ c. length c ≡ n) (cs ++ c ∷ [])
All-snoc n [] c a e = (e, tt)
All-snoc n (x ∷ cs) c a e = (a.0, All-snoc n cs c a.1 e)

pub encode_block-ok :
    (e : State) (pcm : List ℤ)
    → 2 ≤ length pcm
    → length pcm % 2 ≡ 0
    → (block : List ℕ) × (next : State) × (encode_block e pcm ≡ ok (block, next))
unfolding encode_block
encode_block-ok e pcm two even =
    let (bytes, last) = encode_pairs e pcm in
    (put_uint16 (to_uint16 e.predicted) (e.index ∷ 0 ∷ bytes), last, ground (arith, two, even))

unfoldable pub stepped : ℕ → List ℕ → State → Bridge → Bridge
stepped n block next b = record b {
  encoder = next;
  pcm_buffer = drop n b.pcm_buffer;
  blocks = b.blocks ++ block ∷ [];
}

pub stepped-Sent :
    (n : ℕ) (e0 : State) (samples : List ℤ) (b : Bridge) (block : List ℕ) (next : State)
    → n ≤ length b.pcm_buffer
    → encode_block b.encoder (take n b.pcm_buffer) ≡ ok (block, next)
    → Sent n e0 samples b
    → Sent n e0 samples (stepped n block next b)
unfolding stepped
stepped-Sent n e0 samples b block next le e s =
    let chunk = take n b.pcm_buffer in
    record {
      chunks = s.chunks ++ chunk ∷ [];
      whole = All-snoc n s.chunks chunk s.whole (omega (arith, length-take n b.pcm_buffer, le));
      order = rw (concat-snoc s.chunks chunk) (
          append_assoc (concat s.chunks) chunk (drop n b.pcm_buffer)
          ∙ ap (λ l. concat s.chunks ++ l) (take-append-drop n b.pcm_buffer)
          ∙ s.order);
      coded = Encodes-snoc e0 s.chunks b.blocks b.encoder chunk block next s.coded e;
    }
