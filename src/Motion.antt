-- ===== src/Motion.antt =====
-- The alarm pushes of a camera, pkg/baichuan/motion.go, once encoding/xml has decoded them. A text is
-- the list of its code points.
pub mod Texts
pub mod Types
pub mod Parsing
pub mod Merging
use reolinkproxy.Base.{
  ℕ, zero, suc, ◌+◌, List, [], ◌∷◌, ◌++◌, Bool, true, false, not, ◌&&◌, ◌||◌, ◌==◌, if◌then◌else◌,
  Option, none, some, Result, ok, err,
}
use reolinkproxy.Base.Int.{ℤ, pos, ltb_ℤ}
use reolinkproxy.Motion.Texts.{
  Text, text_eq, elem, append_new, starts_with, contains_text, is_separator, end_field,
  split_fields, none_name, other_name, visitor_name, md_name, person_name, people_name,
  vehicle_name, motor_vehicle_name, animal_name, dog_cat_name,
}

-- `SmartAIType`, its sub list by the types in it.
pub record Smart : Type 0 where
  pub index : ℤ
  pub sub_list : List Text

-- `AlarmEvent`
pub record AlarmEvent : Type 0 where
  pub channel_id : ℕ
  pub status : Text
  pub ai_type : Text
  pub smart_ai : List Smart

-- `yoloEvent`
pub record YoloEvent : Type 0 where
  pub channel : Option ℕ
  pub types : List Text

pub record AlarmState : Type 0 where
  pub motion_detected : Bool
  pub visitor : Bool
  pub ai_types : List Text

abbrev pub no_alarm : AlarmState
no_alarm = record { motion_detected = false; visitor = false; ai_types = [] }

unfoldable pub active : AlarmState → Bool
active s = s.motion_detected || elim s.ai_types [ [] ↦ false | t ∷ ts ↦ true ]

-- `alarmParse`
pub record AlarmParse : Type 0 where
  pub state : AlarmState
  pub matched : Bool
  pub has_event : Bool
  pub channels : List ℕ

abbrev pub no_parse : AlarmParse
no_parse = record { state = no_alarm; matched = false; has_event = false; channels = [] }

-- What became of the text of a push: there is none, it cannot be parsed, or its lists of events.
pub data Payload (E : Type 0) : Type 0 where
  empty broken : Payload E
  lists : List (List E) → Payload E

abbrev pub has_channel : ℕ → List ℕ → Bool
has_channel k [] = false
has_channel k (c ∷ cs) = k == c || has_channel k cs

unfoldable pub for_channel : ℕ → Bool → AlarmEvent → Bool
for_channel channel any_channel ev = any_channel || ev.channel_id == channel

unfoldable pub yolo_for_channel : ℕ → Bool → Option ℕ → Bool
yolo_for_channel channel any_channel none = false
yolo_for_channel channel any_channel (some c) = any_channel || c == channel

-- What the parser reads is in a text as `strings.ToLower(strings.TrimSpace(...))` gives it.
module _ (lower_trimmed : Text → Text) where
  unfoldable pub kept_types : List Text → List Text
  kept_types [] = []
  kept_types (part ∷ parts) =
      let name = lower_trimmed part in
      let rest = kept_types parts in
      if text_eq name [] || (text_eq name none_name || text_eq name other_name)
      then rest
      else name ∷ rest

  -- `parseAITypes`
  unfoldable pub parse_ai_types : Text → List Text
  unfolding kept_types split_fields
  parse_ai_types raw = kept_types (split_fields [] raw)

  -- A zone of a smart detection: it is a detection, even without a type.
  unfoldable pub take_zone : List Text → AlarmState → AlarmState
  unfolding append_new
  take_zone [] s = record s { motion_detected = true }
  take_zone (t ∷ types) s = record s { ai_types = append_new s.ai_types (t ∷ types) }

  unfoldable pub take_zones : List Text → AlarmState → AlarmState
  unfolding take_zone parse_ai_types
  take_zones [] s = s
  take_zones (sub ∷ subs) s = take_zones subs (take_zone (parse_ai_types sub) s)

  unfoldable pub take_smart : List Smart → AlarmState → AlarmState
  unfolding take_zones
  take_smart [] s = s
  take_smart (smart ∷ smarts) s = take_smart smarts (
      take_zones smart.sub_list
        (record s { motion_detected = s.motion_detected || ltb_ℤ (pos 0) smart.index }))

  -- An event for the channel.
  unfoldable pub take_event : AlarmEvent → AlarmState → AlarmState
  unfolding take_smart contains_text append_new parse_ai_types
  take_event ev s = take_smart ev.smart_ai (record {
    motion_detected =
        s.motion_detected
        || (contains_text ev.status md_name || contains_text ev.ai_type other_name);
    visitor = s.visitor || contains_text ev.status visitor_name;
    ai_types = append_new s.ai_types (parse_ai_types ev.ai_type);
  })

  unfoldable pub parse_event : ℕ → Bool → AlarmEvent → AlarmParse → AlarmParse
  unfolding take_event for_channel
  parse_event channel any_channel ev r =
      let seen : AlarmParse = record r {
        has_event = true;
        channels =
            if has_channel ev.channel_id r.channels
            then r.channels
            else r.channels ++ ev.channel_id ∷ [];
      } in
      if for_channel channel any_channel ev
      then record seen { state = take_event ev r.state; matched = true }
      else seen

  unfoldable pub parse_events : ℕ → Bool → List AlarmEvent → AlarmParse → AlarmParse
  unfolding parse_event
  parse_events channel any_channel [] r = r
  parse_events channel any_channel (ev ∷ events) r =
      parse_events channel any_channel events (parse_event channel any_channel ev r)

  unfoldable pub parse_lists : ℕ → Bool → List (List AlarmEvent) → AlarmParse → AlarmParse
  unfolding parse_events
  parse_lists channel any_channel [] r = r
  parse_lists channel any_channel (events ∷ more) r =
      parse_lists channel any_channel more (parse_events channel any_channel events r)

  -- `parseAlarm`; nothing where the text cannot be parsed.
  unfoldable pub parse_alarm : ℕ → Bool → Payload AlarmEvent → Option AlarmParse
  unfolding parse_lists
  parse_alarm channel any_channel empty = some no_parse
  parse_alarm channel any_channel broken = none
  parse_alarm channel any_channel (lists events) =
      some (parse_lists channel any_channel events no_parse)

  -- `yoloAIType`
  unfoldable pub yolo_ai_type : Text → Text
  yolo_ai_type raw =
      let name = lower_trimmed raw in
      if text_eq name person_name
      then people_name
      else if text_eq name motor_vehicle_name
      then vehicle_name
      else if text_eq name animal_name
      then dog_cat_name
      else name

  unfoldable pub yolo_types : List Text → List Text → List Text
  unfolding yolo_ai_type append_new
  yolo_types list [] = list
  yolo_types list (raw ∷ raws) =
      let name = yolo_ai_type raw in
      yolo_types (if text_eq name [] then list else append_new list (name ∷ [])) raws

  unfoldable pub yolo_events : ℕ → Bool → List YoloEvent → List Text × Bool → List Text × Bool
  unfolding yolo_types yolo_for_channel
  yolo_events channel any_channel [] r = r
  yolo_events channel any_channel (ev ∷ events) (list, matched) =
      yolo_events channel any_channel events (
        if yolo_for_channel channel any_channel ev.channel
        then (yolo_types list ev.types, true)
        else (list, matched))

  unfoldable pub yolo_lists : ℕ → Bool → List (List YoloEvent) → List Text × Bool → List Text × Bool
  unfolding yolo_events
  yolo_lists channel any_channel [] r = r
  yolo_lists channel any_channel (events ∷ more) r =
      yolo_lists channel any_channel more (yolo_events channel any_channel events r)

  -- `parseYolo`
  unfoldable pub parse_yolo : ℕ → Bool → Payload YoloEvent → Option (List Text × Bool)
  unfolding yolo_lists
  parse_yolo channel any_channel empty = some ([], false)
  parse_yolo channel any_channel broken = none
  parse_yolo channel any_channel (lists events) =
      some (yolo_lists channel any_channel events ([], false))
