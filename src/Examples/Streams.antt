-- ===== src/Examples/Streams.antt =====
-- The theorems on timestamps and alarm pushes, applied to concrete runs.
use reolinkproxy.Base.{
  ℕ, ◌+◌, ◌*◌, ◌≤◌, ◌%◌, ◌^◌, ◌≡◌, refl, List, [], ◌∷◌, ◌++◌, Bool, true, false, some, arith, ◌==◌,
}
use reolinkproxy.Base.Int.{pos}
use reolinkproxy.Timing.{Smoothing, Timeline, LiveEdge, unwrap_timestamp, abs_diff}
use reolinkproxy.Timing.Nearest.{unwrap_timestamp_nearest}
use reolinkproxy.Timing.Skipping.{Frame}
use reolinkproxy.Timing.Monotone.{published, Above, published-Above}
use reolinkproxy.Motion.Texts.{Text, person_name, people_name, md_name, elem}
use reolinkproxy.Motion.Types.{Distinct}
use reolinkproxy.Motion.{AlarmState, AlarmEvent, AlarmParse, no_alarm, parse_alarm, lists}
use reolinkproxy.Motion.Parsing.{in_events, all_events, events_motion, concerned, parse_alarm_lem}
use reolinkproxy.Motion.Merging.{
  Push, alarms, yolos, resets, basic, detailed, merged, pushes, new_merger, with_ai_types,
  last_alarm, last_basic, last_detailed, merged-pushes,
}

unwrap_timestamp_nearest_example :
    (unwrap_timestamp 3 4294967290 % 2 ^ 32 ≡ 3)
    × (abs_diff (unwrap_timestamp 3 4294967290) 4294967290 ≤ abs_diff (0 * 2 ^ 32 + 3) 4294967290)
unwrap_timestamp_nearest_example =
    unwrap_timestamp_nearest 3 4294967290 0 (omega arith) (omega arith)

abbrev edge : LiveEdge
edge = record {
  wall_anchor = 0;
  media_anchor = 0;
  anchored = true;
  catching_up = false;
  lag = pos 0;
  skipped = 0;
}

abbrev frame_at : ℕ → Bool → ℕ → Frame
frame_at media keyframe now = record { media = media; keyframe = keyframe; now = now }

abbrev frames : List Frame
frames = frame_at 40 false 5000000 ∷ frame_at 80 false 5000100 ∷ frame_at 90 true 5000200 ∷ []

-- The smoothing with whole numbers.
abbrev whole : Smoothing
whole = record {
  Average = ℕ;
  initial = 0;
  is_zero = λ avg. avg == 0;
  of_delta = λ delta. delta;
  blend = λ avg delta. avg;
  truncate = λ avg. pos avg;
}

abbrev timeline : Timeline whole
timeline = record {
  unwrapper = record { highest = 1000; offset = 0; base_set = true };
  offset = pos 0;
  last_video = 1000;
  avg_delta_us = 0;
  have_video = true;
}

published-Above_example : Above whole 1000 (published whole timeline ((0, 900) ∷ (0, 9000000) ∷ []))
published-Above_example = published-Above whole timeline ((0, 900) ∷ (0, 9000000) ∷ []) refl

abbrev alarm : AlarmState
alarm = record { motion_detected = true; visitor = false; ai_types = people_name ∷ [] }

abbrev alarm_pushes : List Push
alarm_pushes =
    yolos basic (person_name ∷ []) true
    ∷ resets
    ∷ alarms alarm
    ∷ yolos detailed (md_name ∷ []) true
    ∷ yolos detailed [] false
    ∷ []

merged-pushes_example :
    merged (pushes new_merger alarm_pushes)
    ≡ with_ai_types
        (last_alarm no_alarm alarm_pushes)
        (last_basic [] alarm_pushes)
        (last_detailed [] alarm_pushes)
merged-pushes_example = merged-pushes alarm_pushes

abbrev event : AlarmEvent
event = record {
  channel_id = 0;
  status = md_name;
  ai_type = people_name ++ b'&' ∷ people_name;
  smart_ai = [];
}

-- With texts that are in lower case and trimmed already.
abbrev as_is : Text → Text
as_is t = t

parse_alarm_lem_example :
    (r : AlarmParse) × (parse_alarm as_is 0 false (lists ((event ∷ []) ∷ [])) ≡ some r)
    × ((t : Text)
        → elem t r.state.ai_types ≡ in_events as_is 0 false (all_events ((event ∷ []) ∷ [])) t)
    × Distinct r.state.ai_types
    × (r.state.motion_detected ≡ events_motion as_is 0 false (all_events ((event ∷ []) ∷ [])))
    × (r.matched ≡ concerned as_is 0 false (all_events ((event ∷ []) ∷ [])))
parse_alarm_lem_example = parse_alarm_lem as_is 0 false ((event ∷ []) ∷ [])
