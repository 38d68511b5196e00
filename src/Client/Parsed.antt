-- ===== src/Client/Parsed.antt =====
-- What the reader of a preview has parsed (pkg/baichuan/client.go).
use reolinkproxy.Base.{
  ℕ, ◌≡◌, refl, List, [], ◌∷◌, ◌++◌, true, false, ltb, if◌then◌else◌, Bool-cases, inl, inr, ◌⊎◌,
  append-nil, append_assoc, sym, ◌∙◌, ap,
}
use reolinkproxy.Message.{Message}
use reolinkproxy.Media.{
  Appended, Status, waiting, broken, panicked, out_of_fuel, append, append_loop, parse_media_packet,
}
use reolinkproxy.Media.Chunks.{append-append, after}
use reolinkproxy.Media.Bounds.{append_ends}
use reolinkproxy.Client.Preview.{Reader, new_reader, is_wanted, fed, feed, receive, has_ended}

-- The bytes that a stream's messages carry.
abbrev pub bytes_of : ℕ → List Message → List ℕ
bytes_of stream_type [] = []
bytes_of stream_type (m ∷ ms) =
    let rest = bytes_of stream_type ms in
    if is_wanted stream_type m then m.payload ++ rest else rest

bytes_of-snoc :
    (stream_type : ℕ) (ms : List Message) (m : Message)
    → bytes_of stream_type (ms ++ m ∷ [])
      ≡ bytes_of stream_type ms ++ (if is_wanted stream_type m then m.payload else [])
bytes_of-snoc stream_type [] m = elim (Bool-cases (is_wanted stream_type m)) [
  | inl e ↦ rw e (append-nil m.payload)
  | inr e ↦ rw e refl
]
bytes_of-snoc stream_type (n ∷ ms) m = elim (Bool-cases (is_wanted stream_type n)) [
  | inl e ↦
      rw (e, bytes_of-snoc stream_type ms m)
        (sym (append_assoc n.payload (bytes_of stream_type ms) _))
  | inr e ↦ rw e (bytes_of-snoc stream_type ms m)
]

-- The reader has parsed these messages, to the last that it was fed.
pub record Parsed (stream_type : ℕ) (ms : List Message) (r : Reader) : Type 0 where
  pub waits : Appended.status (append [] (bytes_of stream_type ms)) ≡ waiting
  pub packets : r.packets ≡ Appended.packets (append [] (bytes_of stream_type ms))
  pub rest : r.rest ≡ Appended.rest (append [] (bytes_of stream_type ms))

-- The parser on one more message.
one_more :
    (stream_type : ℕ) (ms : List Message) (m : Message) (r : Reader)
    → is_wanted stream_type m ≡ true
    → Parsed stream_type ms r
    → append [] (bytes_of stream_type (ms ++ m ∷ []))
      ≡ after (Appended.packets (append [] (bytes_of stream_type ms))) (append r.rest m.payload)
one_more stream_type ms m r w p =
    rw (bytes_of-snoc stream_type ms m, w, p.rest)
      (append-append [] (bytes_of stream_type ms) m.payload p.waits)

-- The reader goes on with the message parsed, or it has ended and the message is left out.
abbrev pub Outcome : ℕ → List Message → Message → Reader → Type 0
Outcome stream_type ms m r =
    Parsed stream_type (ms ++ m ∷ []) r ⊎ ((has_ended r ≡ true) × Parsed stream_type ms r)

fed-Outcome :
    (stream_type : ℕ) (ms : List Message) (m : Message) (r : Reader) (status : Status)
    → is_wanted stream_type m ≡ true
    → Parsed stream_type ms r
    → Appended.status (append r.rest m.payload) ≡ status
    → Outcome stream_type ms m (fed r (append r.rest m.payload) status)
unfolding fed
fed-Outcome stream_type ms m r waiting w p e =
    let more = one_more stream_type ms m r w p in
    inl (record {
      waits = ap (λ a. Appended.status a) more ∙ e;
      packets =
          ap (λ ps. ps ++ Appended.packets (append r.rest m.payload)) p.packets
          ∙ sym (ap (λ a. Appended.packets a) more);
      rest = sym (ap (λ a. Appended.rest a) more);
    })
fed-Outcome stream_type ms m r (broken x) w p e =
    inr (refl, record { waits = p.waits; packets = p.packets; rest = p.rest })
fed-Outcome stream_type ms m r panicked w p e =
    inr (refl, record { waits = p.waits; packets = p.packets; rest = p.rest })
fed-Outcome stream_type ms m r out_of_fuel w p e = absurd (append_ends r.rest m.payload e)

skipped :
    (stream_type : ℕ) (ms : List Message) (m : Message) (r : Reader)
    → is_wanted stream_type m ≡ false
    → Parsed stream_type ms r
    → Parsed stream_type (ms ++ m ∷ []) r
skipped stream_type ms m r w p =
    let same : bytes_of stream_type (ms ++ m ∷ []) ≡ bytes_of stream_type ms =
      rw (bytes_of-snoc stream_type ms m, w) (append-nil (bytes_of stream_type ms)) in
    record { waits = rw same p.waits; packets = rw same p.packets; rest = rw same p.rest }

-- A message that is received with nothing lost.
pub receive-Outcome :
    (stream_type : ℕ) (ms : List Message) (m : Message) (r : Reader)
    → Parsed stream_type ms r
    → Outcome stream_type ms m (receive stream_type 0 m r)
unfolding receive feed
receive-Outcome stream_type ms m r p = elim (Bool-cases (is_wanted stream_type m)) [
  | inr other ↦ rw other (inl (skipped stream_type ms m r other p))
  | inl wanted ↦ rw wanted (fed-Outcome stream_type ms m r _ wanted p refl)
]

-- A message that is received after a loss: the reader takes no more bytes.
pub receive-lossy :
    (stream_type dropped : ℕ) (ms : List Message) (m : Message) (r : Reader)
    → ltb 0 dropped ≡ true
    → Parsed stream_type ms r
    → Parsed stream_type ms (receive stream_type dropped m r)
unfolding receive
receive-lossy stream_type dropped ms m r lossy p = elim (Bool-cases (is_wanted stream_type m)) [
  | inr other ↦ rw other p
  | inl wanted ↦ rw (wanted, lossy) (record { waits = p.waits; packets = p.packets; rest = p.rest })
]

pub nothing_parsed : (stream_type : ℕ) → Parsed stream_type [] new_reader
unfolding append append_loop parse_media_packet
nothing_parsed stream_type = record { waits = refl; packets = refl; rest = refl }
