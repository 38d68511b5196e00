-- ===== src/Timing.antt =====
-- The clocks of pkg/bridge/stream_run.go: RTP timestamps that never run backwards, the camera's
-- 32-bit clock unwrapped, one timeline for both tracks, and the skip back to the live edge.
pub mod Serial
pub mod Nearest
pub mod Monotone
pub mod Skipping
use reolinkproxy.Base.{
  ℕ, zero, suc, ◌+◌, ◌-◌, ◌*◌, ◌/◌, ◌%◌, ◌^◌, Bool, true, false, not, ◌&&◌, ◌||◌, ltb, leb, ◌==◌,
  if◌then◌else◌, List, [], ◌∷◌, Option, none, some,
}
use reolinkproxy.Base.Int.{ℤ, pos, negsuc, sub_ℕ, ◌+ℤ◌, ◌-ℤ◌, ltb_ℤ, pos_part}

abbrev pub wrap32 : ℕ → ℕ
wrap32 v = v % 2 ^ 32

-- `a - b` on uint32.
abbrev pub sub32 : ℕ → ℕ → ℕ
sub32 a b = (a + 2 ^ 32 - b) % 2 ^ 32

-- `rtpTimestampAfter` and `rtpTimestampBefore`: the sign of the difference as an int32.
unfoldable pub rtp_timestamp_after : ℕ → ℕ → Bool
rtp_timestamp_after ts prev = ltb 0 (sub32 ts prev) && ltb (sub32 ts prev) (2 ^ 31)

unfoldable pub rtp_timestamp_before : ℕ → ℕ → Bool
rtp_timestamp_before ts prev = leb (2 ^ 31) (sub32 ts prev)

-- `rtpTimestampGuard`
pub record Guard : Type 0 where
  pub offset : ℕ
  pub last : ℕ
  pub set : Bool

abbrev pub new_guard : Guard
new_guard = record { offset = 0; last = 0; set = false }

-- What `next` does with a guard that is set.
unfoldable pub next_set : Guard → ℕ → ℕ × Guard
unfolding rtp_timestamp_after
next_set g ts =
    let adjusted = wrap32 (ts + g.offset) in
    let follow = wrap32 (g.last + 1) in
    let shifted = sub32 follow ts in
    if ts == g.last
    then (follow, record g { offset = shifted; last = follow })
    else if rtp_timestamp_after adjusted g.last
    then (adjusted, record g { last = adjusted })
    else if ltb 90000 (sub32 g.last adjusted)
    then (wrap32 (ts + shifted), record g { offset = shifted; last = wrap32 (ts + shifted) })
    else (follow, record g { last = follow })

unfoldable pub next : Guard → ℕ → ℕ × Guard
next g ts = if g.set then next_set g ts else (ts, record g { last = ts; set = true })

-- The offset and the first timestamp that `applyBaseToPackets` settles on, from `base` plus the
-- timestamp of the first packet.
unfoldable pub settle : Guard → ℕ → ℕ × ℕ
unfolding rtp_timestamp_before
settle g sum =
    let same = g.set && sum == g.last in
    let offset = if same then 0 else g.offset in
    let first = if same then sum else wrap32 (sum + g.offset) in
    let shift = sub32 g.last sum in
    if g.set && rtp_timestamp_before first g.last
    then (if ltb 90000 (sub32 g.last first)
        then (shift, wrap32 (sum + shift))
        else (offset, g.last))
    else (offset, first)

-- `applyBaseToPackets` on the timestamps of the packets: the base to add to each.
unfoldable pub apply_base_to_packets : Guard → List ℕ → ℕ → ℕ → ℕ × Guard
apply_base_to_packets g [] base duration = (base, g)
apply_base_to_packets g (stamp ∷ stamps) base duration =
    let (offset, adjusted) = settle g (wrap32 (base + stamp)) in
    (
      sub32 adjusted stamp,
      record { offset = offset; last = wrap32 (adjusted + duration); set = true },
    )

abbrev pub abs_diff : ℕ → ℕ → ℕ
abs_diff a b = if ltb b a then a - b else b - a

-- `unwrapTimestamp`, for times well below 2^64 microseconds.
unfoldable pub unwrap_timestamp : ℕ → ℕ → ℕ
unwrap_timestamp ts32 highest =
    let cand1 = highest / 2 ^ 32 * 2 ^ 32 + ts32 in
    let cand2 = if leb (2 ^ 32) cand1 then cand1 - 2 ^ 32 else cand1 in
    let cand3 = cand1 + 2 ^ 32 in
    let best = if ltb (abs_diff cand2 highest) (abs_diff cand1 highest) then cand2 else cand1 in
    let best_diff =
      if ltb (abs_diff cand2 highest) (abs_diff cand1 highest)
      then abs_diff cand2 highest
      else abs_diff cand1 highest in
    if highest == 0 then ts32 else if ltb (abs_diff cand3 highest) best_diff then cand3 else best

-- `timestampUnwrapper`; `now` is the wall clock in microseconds, which only the first call reads.
pub record Unwrapper : Type 0 where
  pub highest : ℕ
  pub offset : ℕ
  pub base_set : Bool

unfoldable pub unwrap : ℕ → Unwrapper → ℕ → ℕ × Unwrapper
unwrap now u ts32 =
    let continuous = unwrap_timestamp ts32 u.highest in
    let highest = if ltb u.highest continuous then continuous else u.highest in
    if u.base_set
    then ((continuous + u.offset) % 2 ^ 64, record u { highest = highest })
    else (now, record { highest = ts32; offset = (now + 2 ^ 64 - ts32) % 2 ^ 64; base_set = true })

-- The smoothed frame delta is a float64: its type and operations are parameters. `blend` is
-- `avg + (delta - avg) * 0.1`, `truncate` is `int64(avg)`.
pub record Smoothing : Type 1 where
  pub Average : Type 0
  pub initial : Average
  pub is_zero : Average → Bool
  pub of_delta : ℕ → Average
  pub blend : Average → ℕ → Average
  pub truncate : Average → ℤ

abbrev pub max_trusted_video_delta_us : ℕ
max_trusted_video_delta_us = 500000

abbrev pub fallback_video_delta_us : ℕ
fallback_video_delta_us = 40000

-- `applyOffset`; a time in microseconds is far below 2^63, where int64 ends.
unfoldable pub apply_offset : ℤ → ℕ → ℕ
apply_offset offset raw = pos_part (pos raw -ℤ offset)

module _ (f : Smoothing) where
  open f use {Average, initial, is_zero, of_delta, blend, truncate}

  -- `mediaTimeline`
  pub record Timeline : Type 0 where
    pub unwrapper : Unwrapper
    pub offset : ℤ
    pub last_video : ℕ
    pub avg_delta_us : Average
    pub have_video : Bool

  -- What stands in for a delta that is not trusted.
  unfoldable pub step_us : Average → ℕ
  step_us avg =
      if ltb_ℤ (pos 0) (truncate avg) then pos_part (truncate avg) else fallback_video_delta_us

  -- The switch of `video` on the delta: the published time, the offset and the average after it.
  unfoldable pub correct : Timeline → ℕ → ℕ × ℤ × Average
  unfolding step_us
  correct t us =
      let delta = pos us -ℤ pos t.last_video in
      let step = step_us t.avg_delta_us in
      if leb us t.last_video || ltb max_trusted_video_delta_us (us - t.last_video)
      then (t.last_video + step, t.offset +ℤ (delta -ℤ pos step), t.avg_delta_us)
      else if is_zero t.avg_delta_us
      then (us, t.offset, of_delta (us - t.last_video))
      else (us, t.offset, blend t.avg_delta_us (us - t.last_video))

  -- `video`: the time to publish, the camera's own, and the timeline after it.
  unfoldable pub video : ℕ → Timeline → ℕ → ℕ × ℕ × Timeline
  video now t ts32 =
      let (raw, unwrapper) = unwrap now t.unwrapper ts32 in
      let us = apply_offset t.offset raw in
      let (published, offset, avg) = correct t us in
      if t.have_video
      then (
        published,
        raw,
        record t {
          unwrapper = unwrapper;
          offset = offset;
          last_video = published;
          avg_delta_us = avg;
        },
      )
      else (us, raw, record t { unwrapper = unwrapper; last_video = us; have_video = true })

  unfoldable pub audio : ℕ → Timeline → ℕ → ℕ × Timeline
  audio now t ts32 =
      let (raw, unwrapper) = unwrap now t.unwrapper ts32 in
      (apply_offset t.offset raw, record t { unwrapper = unwrapper })

-- `liveEdge` without its log: times of the wall clock are nanoseconds.
pub record LiveEdge : Type 0 where
  pub wall_anchor : ℕ
  pub media_anchor : ℕ
  pub anchored : Bool
  pub catching_up : Bool
  pub lag : ℤ
  pub skipped : ℕ

unfoldable pub anchor : ℕ → ℕ → LiveEdge → LiveEdge
anchor media now l = record l { wall_anchor = now; media_anchor = media; anchored = true }

-- The switch of `behind` on the lag.
unfoldable pub measure_lag : ℕ → ℕ → ℕ → LiveEdge → LiveEdge
unfolding anchor
measure_lag max_lag media now l =
    let lag = sub_ℕ (now + l.media_anchor * 1000) (l.wall_anchor + media * 1000) in
    if ltb_ℤ lag (pos 0)
    then anchor media now l
    else if ltb_ℤ (pos max_lag) lag
    then record l { catching_up = true; lag = lag }
    else l

-- `behind`: whether to drop the frame. A limit of 0 stands for one that is not positive, or unset.
unfoldable pub behind : ℕ → LiveEdge → ℕ → Bool → ℕ → Bool × LiveEdge
unfolding measure_lag anchor
behind max_lag l media keyframe now =
    let m = measure_lag max_lag media now l in
    if max_lag == 0
    then (false, record l { catching_up = false })
    else if not l.anchored
    then (false, anchor media now l)
    else if not m.catching_up
    then (false, m)
    else if not keyframe
    then (true, record m { skipped = m.skipped + 1 })
    else (false, record (anchor media now m) { catching_up = false; skipped = 0; lag = pos 0 })

-- `rtpTimestampForClock`
unfoldable pub rtp_timestamp_for_clock : ℕ → ℕ → ℕ
rtp_timestamp_for_clock microseconds clock_rate =
    wrap32 (microseconds / 1000000 * clock_rate + microseconds % 1000000 * clock_rate / 1000000)
