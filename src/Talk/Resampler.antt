-- ===== src/Talk/Resampler.antt =====
-- `pcmResampler` of pkg/bridge/talk_pipeline.go.
use reolinkproxy.Base.{
  ℕ, zero, suc, ◌+◌, ◌-◌, ◌*◌, ◌/◌, ◌%◌, List, [], ◌∷◌, Bool, true, false, ltb, ◌==◌, if◌then◌else◌,
  length, get_or,
}
use reolinkproxy.Base.Int.{ℤ, pos, negsuc, ◌+ℤ◌, ◌-ℤ◌}

-- Rates are positive; `position` is `pos`.
pub record Resampler : Type 0 where
  pub from : ℕ
  pub to : ℕ
  pub position : ℕ
  pub prev : ℤ
  pub primed : Bool

unfoldable pub new_pcm_resampler : ℕ → ℕ → Resampler
new_pcm_resampler from to = record {
  from = from;
  to = to;
  position = 0;
  prev = pos 0;
  primed = false;
}

-- `d * k / to`, which rounds towards zero.
unfoldable pub part_of : ℤ → ℕ → ℕ → ℤ
part_of (pos n) k to = pos (n * k / to)
part_of (negsuc n) k to = pos 0 -ℤ pos (suc n * k / to)

-- One output sample, at `position` in 1/to samples counted from `prev`; it lies between its two
-- neighbours, so it is an int16 as they are.
unfoldable pub sample_at : ℕ → ℤ → List ℤ → ℕ → ℤ
unfolding part_of
sample_at to prev pcm position =
    let base = position / to in
    let a = if base == 0 then prev else get_or pcm (base - 1) (pos 0) in
    let b = get_or pcm base (pos 0) in a +ℤ part_of (b -ℤ a) (position % to) to

-- The loop, from `position` to `limit`: the samples, and the position after it. Each round moves it
-- by `from`, one or more, so `limit` rounds are enough.
unfoldable pub resample_loop : ℕ → ℕ → ℕ → ℤ → List ℤ → ℕ → List ℤ × ℕ
unfolding sample_at
resample_loop zero from to prev pcm position = ([], position)
resample_loop (suc fuel) from to prev pcm position =
    let (later, end) = resample_loop fuel from to prev pcm (position + from) in
    if ltb position (length pcm * to)
    then (sample_at to prev pcm position ∷ later, end)
    else ([], position)

abbrev pub last_or : ℤ → List ℤ → ℤ
last_or prev [] = prev
last_or prev (x ∷ xs) = last_or x xs

-- `resample` once there is a previous sample.
unfoldable pub resample_primed : Resampler → List ℤ → List ℤ × Resampler
unfolding resample_loop
resample_primed r pcm =
    let limit = length pcm * r.to in
    let (out, end) = resample_loop (limit + 1) r.from r.to r.prev pcm r.position in
    (out, record r { position = end - limit; prev = last_or r.prev pcm })

unfoldable pub prime : Resampler → List ℤ → List ℤ × Resampler
unfolding resample_primed
prime r [] = ([], r)
prime r (x ∷ xs) = resample_primed (record r { prev = x; primed = true }) xs

-- `resample`
unfoldable pub resample : Resampler → List ℤ → List ℤ × Resampler
unfolding prime
resample r pcm = if r.primed then resample_primed r pcm else prime r pcm
