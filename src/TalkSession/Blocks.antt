-- ===== src/TalkSession/Blocks.antt =====
-- The blocks of a talk against the media parser (pkg/baichuan/talk.go, pkg/baichuan/media.go).
use reolinkproxy.Base.{
  ℕ, true, ◌+◌, ◌-◌, ◌%◌, ◌^◌, ◌≤◌, ◌<◌, ◌≡◌, refl, List, [], ◌∷◌, ◌++◌, true, length, take, drop,
  replicate, length-append, length-replicate, take-append_length, drop-append_length, append_assoc,
  arith, ap, ◌∙◌, sym,
}
use native.Mathlib.Nat.{add-sub_cancel}
use reolinkproxy.Base.Bytes.{IsU16, byte0, byte1, word16, word32, word16_bytes}
use reolinkproxy.Media.{
  MediaPacket, adpcm, packet, parse_media_packet, parse_adpcm, also, pad_len, waiting, append,
}
use reolinkproxy.Media.Chunks.{run, run_packet, run_waits}
use reolinkproxy.TalkSession.Runs.{talk-keeps}
use reolinkproxy.TalkSession.{
  TalkSession, Attempt, TalkConfig, new_session, talk, serialize_talk_adpcm_block, send_block,
}

parse_adpcm-framed :
    (m0 m1 m2 m3 lo hi s0 s1 size : ℕ) (body : List ℕ)
    → word16 lo hi ≡ size
    → 4 ≤ size
    → size + pad_len size ≤ length body + 4
    → parse_adpcm (m0 ∷ m1 ∷ m2 ∷ m3 ∷ lo ∷ hi ∷ lo ∷ hi ∷ 0 ∷ 1 ∷ s0 ∷ s1 ∷ body)
      ≡ packet (adpcm (take (size - 4) body)) (8 + size + pad_len size)
unfolding parse_adpcm word16
parse_adpcm-framed m0 m1 m2 m3 lo hi s0 s1 size body w four fits = rw w (ground (arith, four, fits))

parse_media_packet-adpcm :
    (rest : List ℕ)
    → parse_media_packet (48 ∷ 49 ∷ 119 ∷ 98 ∷ rest) ≡ parse_adpcm (48 ∷ 49 ∷ 119 ∷ 98 ∷ rest)
unfolding parse_media_packet word32
parse_media_packet-adpcm rest = ground arith

-- A block that is serialised, with what follows it, as the parser sees it.
parse-serialize :
    (block rest : List ℕ) (seq : ℕ)
    → length block + 4 < 2 ^ 16
    → parse_media_packet (serialize_talk_adpcm_block block seq ++ rest)
      ≡ packet (adpcm block) (8 + (length block + 4) + pad_len (length block + 4))
unfolding serialize_talk_adpcm_block
parse-serialize block rest seq h =
    let size = length block + 4 in
    let pad : List ℕ = replicate (pad_len size) 0 in
    let body : List ℕ = (block ++ pad) ++ rest in
    let long : size + pad_len size ≤ length body + 4 = omega (
      arith,
      length-append (block ++ pad) rest,
      length-append block pad,
      length-replicate {A = ℕ} (pad_len size) 0,
    ) in
    let whole : take (size - 4) body ≡ block =
      ap (λ k. take k body) (add-sub_cancel (length block) 4)
      ∙ rw (append_assoc block pad rest) (take-append_length block (pad ++ rest)) in
    parse_media_packet-adpcm _
    ∙ parse_adpcm-framed 48 49 119 98 (byte0 size) (byte1 size) (byte0 seq) (byte1 seq) size body
        (word16_bytes size h) (omega arith) long
    ∙ ap (λ b. packet (adpcm b) (8 + size + pad_len size)) whole

serialize-length :
    (block : List ℕ) (seq : ℕ)
    → length (serialize_talk_adpcm_block block seq)
      ≡ 8 + (length block + 4) + pad_len (length block + 4)
unfolding serialize_talk_adpcm_block
serialize-length block seq =
    let k = pad_len (length block + 4) in
    omega (arith, length-append block (replicate k 0), length-replicate {A = ℕ} k 0)

-- The messages of a session, each behind the others.
abbrev pub joined : List (List ℕ) → List ℕ
joined [] = []
joined (w ∷ ws) = w ++ joined ws

-- Each message is a block of the calls, in the same order.
abbrev Frames : List Attempt → List (List ℕ) → Type 0
Frames [] [] = Unit {0}
Frames [] (w ∷ ws) = ⊥
Frames (a ∷ sent) [] = ⊥
Frames (a ∷ sent) (w ∷ ws) =
    ((seq : ℕ) × w ≡ serialize_talk_adpcm_block a.block seq)
    × length a.block + 4 < 2 ^ 16
    × Frames sent ws

abbrev pub blocks_of : List Attempt → List MediaPacket
blocks_of [] = []
blocks_of (a ∷ sent) = adpcm a.block ∷ blocks_of sent

Frames-snoc :
    (sent : List Attempt) (ws : List (List ℕ)) (a : Attempt) (seq : ℕ)
    → Frames sent ws
    → length a.block + 4 < 2 ^ 16
    → Frames (sent ++ a ∷ []) (ws ++ serialize_talk_adpcm_block a.block seq ∷ [])
Frames-snoc [] [] a seq fs h = ((seq, refl), h, tt)
Frames-snoc [] (w ∷ ws) a seq fs h = absurd fs
Frames-snoc (x ∷ sent) [] a seq fs h = absurd fs
Frames-snoc (x ∷ sent) (w ∷ ws) a seq (same, small, rest) h =
    (same, small, Frames-snoc sent ws a seq rest h)

-- What the parser reads in messages.
run-joined :
    (sent : List Attempt) (ws : List (List ℕ))
    → Frames sent ws
    → run (joined ws) ≡ record { packets = blocks_of sent; rest = []; status = waiting }
run-joined [] [] fs = run_waits [] (unfold parse_media_packet in refl)
run-joined [] (w ∷ ws) fs = absurd fs
run-joined (a ∷ sent) [] fs = absurd fs
run-joined (a ∷ sent) (w ∷ ws) ((seq, same), small, rest) =
    let one = serialize_talk_adpcm_block a.block seq in
    let reads = run_packet (one ++ joined ws) (parse-serialize a.block (joined ws) seq small) in
    let left : drop (8 + (length a.block + 4) + pad_len (length a.block + 4)) (one ++ joined ws)
        ≡ joined ws =
      rw (sym (serialize-length a.block seq)) (drop-append_length one (joined ws)) in
    rw same (
      reads
      ∙ ap (λ buf. also (adpcm a.block) (run buf)) left
      ∙ ap (also (adpcm a.block)) (run-joined sent ws rest))

-- The messages of a session are the blocks that it took.
IsTalking : List Attempt → TalkSession → Type 0
IsTalking sent s = Frames sent s.written × s.bytes_per_block + 4 < 2 ^ 16

IsTalking-skip :
    (sent : List Attempt) (s : TalkSession) (seq : ℕ)
    → IsTalking sent s
    → IsTalking sent (record s { seq = seq })
unfolding IsTalking
IsTalking-skip sent s seq h = h

IsTalking-send_block :
    (sent : List Attempt) (s : TalkSession) (a : Attempt)
    → length a.block ≡ s.bytes_per_block
    → IsTalking sent s
    → IsTalking (sent ++ a ∷ []) (send_block true a.time a.block s).1
unfolding IsTalking send_block
IsTalking-send_block sent s a same (fs, small) =
    (Frames-snoc sent s.written a ((s.seq + 1) % 2 ^ 16) fs (omega (arith, same, small)), small)

-- Whatever is written on a session, and whatever the connection takes of it, the messages that went
-- out, run together, are read back by the media parser as ADPCM packets: the blocks of exactly the
-- calls that returned no error, in the order of the calls, with no byte left over.
pub append-talk :
    (cfg : TalkConfig) (attempts : List Attempt)
    → IsU16 cfg.audio_config.length_per_encode
    → append [] (joined (TalkSession.written (talk attempts (new_session cfg)).1)) ≡ record {
      packets = blocks_of (talk attempts (new_session cfg)).0;
      rest = [];
      status = waiting;
    }
unfolding new_session append IsTalking
append-talk cfg attempts h =
    let s = new_session cfg in
    let done =
      talk-keeps IsTalking IsTalking-skip IsTalking-send_block attempts [] s
        (tt, omega (arith, h)) in
    run-joined (talk attempts s).0 (TalkSession.written (talk attempts s).1) done.0
