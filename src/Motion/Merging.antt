-- ===== src/Motion/Merging.antt =====
-- `AlarmMerger` of pkg/baichuan/motion.go, and that it shows the last push of each kind.
use reolinkproxy.Base.{
  ◌≡◌, refl, List, [], ◌∷◌, Bool, true, false, ◌&&◌, if◌then◌else◌, ap, arith, Bool-cases, inl, inr,
}
use reolinkproxy.Motion.Texts.{Text, text_eq, append_new}
use reolinkproxy.Motion.Types.{text_eq_sound}
use reolinkproxy.Motion.{AlarmState, no_alarm}

pub record Merger : Type 0 where
  pub alarm : AlarmState
  pub yolo : List Text
  pub yolo_detail : List Text

abbrev pub new_merger : Merger
new_merger = record { alarm = no_alarm; yolo = []; yolo_detail = [] }

-- `withAITypes`
unfoldable pub with_ai_types : AlarmState → List Text → List Text → AlarmState
unfolding append_new
with_ai_types s basic detail = record s {
  ai_types = append_new (append_new s.ai_types basic) detail;
}

unfoldable pub merged : Merger → AlarmState
unfolding with_ai_types
merged m = with_ai_types m.alarm m.yolo m.yolo_detail

-- `Alarm`
unfoldable pub take_alarm : AlarmState → Merger → AlarmState × Merger
unfolding merged
take_alarm state m = let m' : Merger = record m { alarm = state } in (merged m', m')

-- `slices.Equal` for texts.
abbrev pub texts_eq : List Text → List Text → Bool
texts_eq [] [] = true
texts_eq [] (b ∷ bs) = false
texts_eq (a ∷ as_) [] = false
texts_eq (a ∷ as_) (b ∷ bs) = text_eq a b && texts_eq as_ bs

-- The two kinds of YOLO World push, msgIDYoloAlarm and msgIDYoloAlarmDetail.
pub data Command : Type 0 where
  basic detailed : Command

-- `Yolo` after the text was parsed: the state, whether the push changed something, and the merger.
unfoldable pub take_yolo : Command → List Text → Bool → Merger → AlarmState × Bool × Merger
unfolding merged
take_yolo basic types matched m =
    let m' : Merger = record m { yolo = types } in
    if texts_eq m.yolo types then (merged m, false, m) else (merged m', true, m')
take_yolo detailed types false m = (merged m, false, m)
take_yolo detailed types true m =
    let m' : Merger = record m { yolo_detail = types } in
    if texts_eq m.yolo_detail types then (merged m, false, m) else (merged m', true, m')

-- A push to a merger: an alarm for the channel, a YOLO World push that was parsed, or `Reset`.
pub data Push : Type 0 where
  alarms : AlarmState → Push
  yolos : Command → List Text → Bool → Push
  resets : Push

unfoldable pub push : Merger → Push → Merger
unfolding take_alarm take_yolo
push m (alarms state) = (take_alarm state m).1
push m (yolos cmd types matched) = (take_yolo cmd types matched m).2
push m resets = new_merger

unfoldable pub pushes : Merger → List Push → Merger
unfolding push
pushes m [] = m
pushes m (p ∷ ps) = pushes (push m p) ps

-- The last alarm, and the types of the last basic and of the last detailed push for the channel, since
-- the last `Reset`.
abbrev pub last_alarm : AlarmState → List Push → AlarmState
last_alarm s [] = s
last_alarm s (alarms state ∷ ps) = last_alarm state ps
last_alarm s (yolos cmd types matched ∷ ps) = last_alarm s ps
last_alarm s (resets ∷ ps) = last_alarm no_alarm ps

abbrev pub last_basic : List Text → List Push → List Text
last_basic l [] = l
last_basic l (alarms state ∷ ps) = last_basic l ps
last_basic l (yolos basic types matched ∷ ps) = last_basic types ps
last_basic l (yolos detailed types matched ∷ ps) = last_basic l ps
last_basic l (resets ∷ ps) = last_basic [] ps

abbrev pub last_detailed : List Text → List Push → List Text
last_detailed l [] = l
last_detailed l (alarms state ∷ ps) = last_detailed l ps
last_detailed l (yolos basic types matched ∷ ps) = last_detailed l ps
last_detailed l (yolos detailed types false ∷ ps) = last_detailed l ps
last_detailed l (yolos detailed types true ∷ ps) = last_detailed types ps
last_detailed l (resets ∷ ps) = last_detailed [] ps

texts_eq_sound : (a b : List Text) → texts_eq a b ≡ true → a ≡ b
texts_eq_sound [] [] e = refl
texts_eq_sound [] (b ∷ bs) e = absurd (cc e)
texts_eq_sound (a ∷ as_) [] e = absurd (cc e)
texts_eq_sound (a ∷ as_) (b ∷ bs) e = elim (Bool-cases (text_eq a b)) [
  | inl same ↦ rw (text_eq_sound a b same, texts_eq_sound as_ bs (ground (arith, e, same))) refl
  | inr other ↦ absurd (ground (arith, e, other))
]

-- An equal list is as good as a new one.
take_yolo-basic :
    (types : List Text) (matched : Bool) (m : Merger)
    → (take_yolo basic types matched m).2 ≡ record m { yolo = types }
unfolding take_yolo
take_yolo-basic types matched m = elim (Bool-cases (texts_eq m.yolo types)) [
  | inl same ↦ rw same (ap (λ l. record m { yolo = l }) (texts_eq_sound m.yolo types same))
  | inr other ↦ rw other refl
]

take_yolo-detailed :
    (types : List Text) (m : Merger)
    → (take_yolo detailed types true m).2 ≡ record m { yolo_detail = types }
unfolding take_yolo
take_yolo-detailed types m = elim (Bool-cases (texts_eq m.yolo_detail types)) [
  | inl same ↦
      rw same (ap (λ l. record m { yolo_detail = l }) (texts_eq_sound m.yolo_detail types same))
  | inr other ↦ rw other refl
]

pushes-last :
    (ps : List Push) (m : Merger)
    → pushes m ps ≡ record {
      alarm = last_alarm m.alarm ps;
      yolo = last_basic m.yolo ps;
      yolo_detail = last_detailed m.yolo_detail ps;
    }
unfolding pushes push
pushes-last [] m = refl
pushes-last (alarms state ∷ ps) m = pushes-last ps (record m { alarm = state })
pushes-last (yolos basic types matched ∷ ps) m =
    rw (take_yolo-basic types matched m) (pushes-last ps (record m { yolo = types }))
pushes-last (yolos detailed types false ∷ ps) m = pushes-last ps m
pushes-last (yolos detailed types true ∷ ps) m =
    rw (take_yolo-detailed types m) (pushes-last ps (record m { yolo_detail = types }))
pushes-last (resets ∷ ps) m = pushes-last ps new_merger

-- After any pushes, a merger shows the last alarm, with the types of the last basic YOLO World push and
-- of the last detailed one that was for the channel added to its types; what came before a reset is
-- forgotten.
pub merged-pushes :
    (ps : List Push)
    → merged (pushes new_merger ps)
      ≡ with_ai_types (last_alarm no_alarm ps) (last_basic [] ps) (last_detailed [] ps)
unfolding merged
merged-pushes ps = rw (pushes-last ps new_merger) refl
