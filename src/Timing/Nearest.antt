-- ===== src/Timing/Nearest.antt =====
-- `unwrapTimestamp` (pkg/bridge/stream_run.go): which 64-bit time it takes a 32-bit one for.
use reolinkproxy.Base.{ℕ, ◌+◌, ◌*◌, ◌%◌, ◌^◌, ◌≤◌, ◌<◌, ◌≡◌, arith}
use reolinkproxy.Base.Bytes.{IsU32}
use reolinkproxy.Timing.{unwrap_timestamp, abs_diff}

unwrap_timestamp_low : (ts highest : ℕ) → IsU32 ts → unwrap_timestamp ts highest % 2 ^ 32 ≡ ts
unfolding unwrap_timestamp
unwrap_timestamp_low ts highest h = ground arith

unwrap_timestamp_near :
    (ts highest turns : ℕ)
    → IsU32 ts
    → 0 < highest
    → abs_diff (unwrap_timestamp ts highest) highest ≤ abs_diff (turns * 2 ^ 32 + ts) highest
unfolding unwrap_timestamp
unwrap_timestamp_near ts highest turns h p = ground arith

-- The unwrapped time has the camera's 32 bits, and of all times that have them none is nearer to the
-- highest one seen so far, which is not 0.
pub unwrap_timestamp_nearest :
    (ts highest turns : ℕ)
    → IsU32 ts
    → 0 < highest
    → (unwrap_timestamp ts highest % 2 ^ 32 ≡ ts)
      × (abs_diff (unwrap_timestamp ts highest) highest ≤ abs_diff (turns * 2 ^ 32 + ts) highest)
unwrap_timestamp_nearest ts highest turns h p =
    (unwrap_timestamp_low ts highest h, unwrap_timestamp_near ts highest turns h p)
