-- ===== src/Talk.antt =====
-- The samples of a talk in pkg/bridge/talk_pipeline.go: the volume and the test for silence here, the
-- resampler and the cutting into blocks in the modules below.
pub mod Volume
pub mod Resampler
pub mod Blocks
pub mod Chunks
pub mod Whole
use reolinkproxy.Base.{
  ℕ, zero, suc, ◌+◌, ◌*◌, ◌/◌, List, [], ◌∷◌, Bool, true, false, ◌||◌, ◌==◌, if◌then◌else◌, map,
}
use reolinkproxy.Base.Int.{ℤ, pos, negsuc, ◌-ℤ◌, ltb_ℤ}

-- `int64(sample)*int64(percent)/100`, which rounds towards zero; the percentage is not negative here.
unfoldable pub scaled : ℕ → ℤ → ℤ
scaled percent (pos n) = pos (n * percent / 100)
scaled percent (negsuc n) = pos 0 -ℤ pos (suc n * percent / 100)

-- `max(min(…, 32767), -32768)`
unfoldable pub limited : ℤ → ℤ
limited z =
    let low = if ltb_ℤ (pos 32767) z then pos 32767 else z in
    if ltb_ℤ low (negsuc 32767) then negsuc 32767 else low

pub scale_all : ℕ → List ℤ → List ℤ
scale_all percent [] = []
scale_all percent (sample ∷ pcm) = limited (scaled percent sample) ∷ scale_all percent pcm

-- `applyTalkVolume`: the samples after it.
unfoldable pub apply_talk_volume : List ℤ → ℤ → List ℤ
unfolding scale_all
apply_talk_volume pcm (pos percent) = if percent == 100 then pcm else scale_all percent pcm
apply_talk_volume pcm (negsuc n) = scale_all 0 pcm

unfoldable pub is_silence : List ℤ → Bool
is_silence [] = true
is_silence (sample ∷ pcm) =
    let rest = is_silence pcm in
    if ltb_ℤ (pos 25) sample || ltb_ℤ sample (negsuc 24) then false else rest
