-- ===== src/Talk/Blocks.antt =====
-- `runBridgeInternal` of pkg/bridge/talk_pipeline.go: the audio of a talk, cut into ADPCM blocks.
use reolinkproxy.Base.{
  ℕ, zero, suc, ◌+◌, ◌-◌, List, [], ◌∷◌, ◌++◌, Bool, true, false, ltb, leb, ◌==◌, if◌then◌else◌,
  length, take, drop, replicate, Result, ok, err,
}
use reolinkproxy.Base.Int.{ℤ, pos}
use reolinkproxy.Codec.Adpcm.{State, encode_block, BlockError}
use reolinkproxy.Talk.Resampler.{Resampler, resample}

-- The encoder, the samples that wait, the resampler, and the blocks given to the talk session.
pub record Bridge : Type 0 where
  pub encoder : State
  pub pcm_buffer : List ℤ
  pub resampler : Resampler
  pub blocks : List (List ℕ)

-- A packet as it goes on to the encoder.
unfoldable pub hear : Resampler → List ℤ → List ℤ × Resampler
hear r pcm = if r.from == r.to then (pcm, r) else resample r pcm

-- `fails` is whether the talk session refuses a block, by its number.
module _ (block_samples : ℕ) (fails : ℕ → Bool) where
  -- A block is given to the session: it stays in the buffer if the session refuses it.
  unfoldable pub give : List ℕ → State → Bridge → Bool × Bridge
  give block e b =
      let encoded : Bridge = record b { encoder = e } in
      if fails (length b.blocks) then (true, encoded) else (
        false,
        record encoded {
          pcm_buffer = drop block_samples b.pcm_buffer;
          blocks = b.blocks ++ block ∷ [];
        },
      )

  unfoldable pub write_one : Result BlockError (List ℕ × State) → Bridge → Bool × Bridge
  unfolding give
  write_one (err e) b = (true, b)
  write_one (ok (block, e)) b = give block e b

  -- `writeBlocks`: whether it failed, and the bridge. A round takes one sample or more, so there are
  -- fewer rounds than samples and one.
  unfoldable pub write_blocks : ℕ → Bridge → Bool × Bridge
  unfolding write_one
  write_blocks zero b = (false, b)
  write_blocks (suc fuel) b =
      let (failed, b') = write_one (encode_block b.encoder (take block_samples b.pcm_buffer)) b in
      let rest = write_blocks fuel b' in
      if leb block_samples (length b.pcm_buffer)
      then (if failed then (true, b') else rest)
      else (false, b)

  -- `processPCM`
  unfoldable pub process_pcm : List ℤ → Bridge → Bool × Bridge
  unfolding write_blocks hear
  process_pcm pcm b =
      let (samples, r) = hear b.resampler pcm in
      let buffer = b.pcm_buffer ++ samples in
      write_blocks (length buffer + 1) (record b { pcm_buffer = buffer; resampler = r })

  -- The packets that arrive, until the first that fails.
  unfoldable pub process_all : List (List ℤ) → Bridge → Bool × Bridge
  unfolding process_pcm
  process_all [] b = (false, b)
  process_all (pcm ∷ packets) b =
      let (failed, b') = process_pcm pcm b in
      let rest = process_all packets b' in if failed then (true, b') else rest

  -- The end of `flush`, once the queue is empty.
  unfoldable pub pad : Bridge → Bridge
  unfolding write_blocks
  pad b =
      let buffer = b.pcm_buffer ++ replicate (block_samples - length b.pcm_buffer) (pos 0) in
      let padded = (write_blocks (length buffer + 1) (record b { pcm_buffer = buffer })).1 in
      if ltb 0 (length b.pcm_buffer) then padded else b

  -- `runBridgeInternal`: the packets that arrive, then the flush of the queue.
  unfoldable pub run_bridge : List (List ℤ) → List (List ℤ) → Bridge → Bridge
  unfolding process_all pad
  run_bridge packets queue b =
      let (failed, b') = process_all packets b in
      let (lost, b'') = process_all queue b' in if failed then b' else if lost then b'' else pad b''
