-- ===== src/Talk/Whole.antt =====
-- That the blocks of a talk hold all of its audio (pkg/bridge/talk_pipeline.go).
use reolinkproxy.Base.{
  subst, ℕ, zero, suc, ◌+◌, ◌-◌, ◌≤◌, ◌<◌, ◌%◌, ◌≡◌, refl, List, [], ◌∷◌, ◌++◌, Bool, true, false,
  ltb, leb, length, take, drop, replicate, All, arith, ok, Bool-cases, inl, inr, ap, sym, ◌∙◌,
  append_assoc, append-nil, length-append, length-take, length-drop, length-replicate,
}
use reolinkproxy.Base.Int.{ℤ, pos}
use reolinkproxy.Codec.Adpcm.{State}
use reolinkproxy.Talk.Blocks.{
  Bridge, hear, write_one, write_blocks, process_pcm, process_all, pad, run_bridge,
}
use reolinkproxy.Talk.Chunks.{
  heard, heard_by, heard-append, concat, Encodes, nothing, all_of, Sent, encode_block-ok, stepped,
  stepped-Sent,
}

module _ (n : ℕ) (fails : ℕ → Bool) (two : 2 ≤ n) (even : n % 2 ≡ 0)
    (taken : (k : ℕ) → fails k ≡ false) (e0 : State) where
  -- No error, whole chunks written, and less than a chunk waits.
  record Cut (samples : List ℤ) (b : Bridge) (r : Bool × Bridge) : Type 0 where
    pub no_error : r.0 ≡ false
    pub sent : Sent n e0 samples r.1
    pub short : length r.1.pcm_buffer < n
    pub same_rates : r.1.resampler ≡ b.resampler

  write_one-taken :
      (b : Bridge) (block : List ℕ) (next : State)
      → write_one n fails (ok (block, next)) b ≡ (false, stepped n block next b)
  unfolding write_one stepped
  write_one-taken b block next = rw (taken (length b.blocks)) refl

  write_blocks-Cut :
      (fuel : ℕ) (samples : List ℤ) (b : Bridge)
      → length b.pcm_buffer < fuel
      → Sent n e0 samples b
      → Cut samples b (write_blocks n fails fuel b)
  unfolding write_blocks
  write_blocks-Cut zero samples b lt s = absurd (omega (arith, lt))
  write_blocks-Cut (suc fuel) samples b lt s = elim (Bool-cases (leb n (length b.pcm_buffer))) [
    | inr few ↦
        rw few
          (record { no_error = refl; sent = s; short = ground (arith, few); same_rates = refl })
    | inl enough ↦
        let le : n ≤ length b.pcm_buffer = ground (arith, enough) in
        let whole : length (take n b.pcm_buffer) ≡ n =
          omega (arith, length-take n b.pcm_buffer, le) in
        let (block, next, e) =
          encode_block-ok b.encoder (take n b.pcm_buffer) (omega (arith, whole, two))
            (rw whole even) in
        let b' = stepped n block next b in
        let later =
          write_blocks-Cut fuel samples b'
            (unfold stepped in omega (arith, length-drop n b.pcm_buffer, lt, two, le))
            (stepped-Sent n e0 samples b block next le e s) in
        rw (enough, e, write_one-taken b block next)
          (record {
            no_error = later.no_error;
            sent = later.sent;
            short = later.short;
            same_rates = later.same_rates ∙ (unfold stepped in refl);
          })
  ]

  process_pcm-Cut :
      (pcm : List ℤ) (samples : List ℤ) (b : Bridge)
      → Sent n e0 samples b
      → Cut
          (samples ++ (hear b.resampler pcm).0)
          (record b { resampler = (hear b.resampler pcm).1 })
          (process_pcm n fails pcm b)
  unfolding process_pcm
  process_pcm-Cut pcm samples b s =
      let (more, r) = hear b.resampler pcm in
      let buffer = b.pcm_buffer ++ more in
      let b' : Bridge = record b { pcm_buffer = buffer; resampler = r } in
      let cut = write_blocks-Cut (length buffer + 1) (samples ++ more) b' (omega arith) (record {
        chunks = s.chunks;
        whole = s.whole;
        order =
            sym (append_assoc (concat s.chunks) b.pcm_buffer more) ∙ ap (λ l. l ++ more) s.order;
        coded = s.coded;
      }) in
      record {
        no_error = cut.no_error;
        sent = cut.sent;
        short = cut.short;
        same_rates = cut.same_rates;
      }

  -- As `Cut`, after packets.
  record Processed (packets : List (List ℤ)) (samples : List ℤ) (b : Bridge) (r : Bool × Bridge)
      : Type 0 where
    pub no_error : r.0 ≡ false
    pub sent : Sent n e0 (samples ++ heard b.resampler packets) r.1
    pub short : length r.1.pcm_buffer < n
    pub rates : r.1.resampler ≡ heard_by b.resampler packets

  process_all-Processed :
      (packets : List (List ℤ)) (samples : List ℤ) (b : Bridge)
      → Sent n e0 samples b
      → length b.pcm_buffer < n
      → Processed packets samples b (process_all n fails packets b)
  unfolding process_all
  process_all-Processed [] samples b s lt = record {
    no_error = refl;
    sent = rw (append-nil samples) s;
    short = lt;
    rates = refl;
  }
  process_all-Processed (pcm ∷ packets) samples b s lt =
      let cut = process_pcm-Cut pcm samples b s in
      let b' = (process_pcm n fails pcm b).1 in
      let more = (hear b.resampler pcm).0 in
      let rest = process_all-Processed packets (samples ++ more) b' cut.sent cut.short in
      rw cut.no_error (record {
        no_error = rest.no_error;
        sent =
            subst (λ l. Sent n e0 l (process_all n fails packets b').1)
              (append_assoc samples more (heard b'.resampler packets)
                ∙ ap (λ r. samples ++ (more ++ heard r packets)) cut.same_rates)
              rest.sent;
        short = rest.short;
        rates = rest.rates ∙ ap (λ r. heard_by r packets) cut.same_rates;
      })

  -- One chunk, and nothing after it.
  write_blocks_exact :
      (fuel : ℕ) (b : Bridge)
      → length b.pcm_buffer ≡ n
      → (write_blocks n fails (suc (suc fuel)) b).1.pcm_buffer ≡ []
  unfolding write_blocks
  write_blocks_exact fuel b l =
      let full : leb n (length b.pcm_buffer) ≡ true = ground (arith, l) in
      let chunk : length (take n b.pcm_buffer) ≡ n = omega (arith, length-take n b.pcm_buffer, l) in
      let (block, next, e) =
        encode_block-ok b.encoder (take n b.pcm_buffer) (omega (arith, chunk, two))
          (rw chunk even) in
      let empty : drop n b.pcm_buffer ≡ [] =
        nothing (drop n b.pcm_buffer) (omega (arith, length-drop n b.pcm_buffer, l)) in
      let short : leb n (length (drop n b.pcm_buffer)) ≡ false = rw empty (ground (arith, two)) in
      rw (full, e, write_one-taken b block next) (unfold stepped in rw short empty)

  pad-Sent :
      (samples : List ℤ) (b : Bridge)
      → Sent n e0 samples b
      → length b.pcm_buffer < n
      → (k : ℕ) × (k < n)
        × Sent n e0 (samples ++ replicate k (pos 0)) (pad n fails b)
        × ((pad n fails b).pcm_buffer ≡ [])
  unfolding pad
  pad-Sent samples b s lt = elim (Bool-cases (ltb 0 (length b.pcm_buffer))) [
    | inr none_left ↦
        let empty = nothing b.pcm_buffer (ground (arith, none_left)) in
        (0, omega (arith, two), rw none_left (rw (append-nil samples) s), rw none_left empty)
    | inl some_left ↦
        let k = n - length b.pcm_buffer in
        let zeros = replicate k (pos 0) in
        let buffer = b.pcm_buffer ++ zeros in
        let b' : Bridge = record b { pcm_buffer = buffer } in
        let full : length buffer ≡ n =
          omega (arith, length-append b.pcm_buffer zeros, length-replicate k (pos 0), lt) in
        let two_rounds : length buffer + 1 ≡ suc (suc (n - 1)) = omega (arith, full, two) in
        let cut = write_blocks-Cut (length buffer + 1) (samples ++ zeros) b' (omega arith) (record {
          chunks = s.chunks;
          whole = s.whole;
          order =
              sym (append_assoc (concat s.chunks) b.pcm_buffer zeros)
              ∙ ap (λ l. l ++ zeros) s.order;
          coded = s.coded;
        }) in
        (
          k,
          ground (arith, some_left, lt),
          rw some_left cut.sent,
          rw some_left (
              subst (λ f. (write_blocks n fails f b').1.pcm_buffer ≡ []) (sym two_rounds)
                (write_blocks_exact (n - 1) b' full)),
        )
  ]

  -- Where its talk session refuses no block, with blocks of an even number of samples: a talk that
  -- starts with an empty buffer hands its talk session the blocks that the encoder makes, one by one, of whole chunks of
  -- all its audio, in order, the audio that was queued when it ended included, with less than a chunk
  -- of silence at the end.
  pub run_bridge-Encodes :
      (packets queue : List (List ℤ)) (b : Bridge)
      → b.encoder ≡ e0
      → b.pcm_buffer ≡ []
      → b.blocks ≡ []
      → let b' = run_bridge n fails packets queue b in
        (chunks : List (List ℤ)) × (k : ℕ) × (concat chunks
          ≡ heard b.resampler (packets ++ queue) ++ replicate k (pos 0))
        × (k < n)
        × All (λ c. length c ≡ n) chunks
        × Encodes e0 chunks b'.blocks b'.encoder
  unfolding run_bridge
  run_bridge-Encodes packets queue b e p q =
      let start : Sent n e0 [] b = record {
        chunks = [];
        whole = tt;
        order = p;
        coded = rw q (sym e);
      } in
      let first = process_all-Processed packets [] b start (rw p (omega (arith, two))) in
      let b1 = (process_all n fails packets b).1 in
      let second =
        process_all-Processed queue (heard b.resampler packets) b1 first.sent first.short in
      let b2 = (process_all n fails queue b1).1 in
      let (k, less, sent, empty) = pad-Sent _ b2 second.sent second.short in
      let all = heard-append b.resampler packets queue in
      (
        sent.chunks,
        k,
        all_of sent.chunks (pad n fails b2).pcm_buffer _ _ (replicate k (pos 0)) sent.order empty
            (ap (λ r. heard b.resampler packets ++ heard r queue) first.rates ∙ sym all),
        less,
        sent.whole,
        rw (first.no_error, second.no_error) sent.coded,
      )
