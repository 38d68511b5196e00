-- ===== src/Motion/Parsing.antt =====
-- What an alarm push says, read off its events (`parseAlarm` of pkg/baichuan/motion.go).
use reolinkproxy.Base.{
  ℕ, ◌≡◌, refl, List, [], ◌∷◌, ◌++◌, Bool, true, false, ◌&&◌, ◌||◌, ap, sym, ◌∙◌, Bool-cases, inl,
  inr, some,
}
use reolinkproxy.Base.Int.{pos, ltb_ℤ}
use reolinkproxy.Motion.Texts.{
  Text, elem, append_new, contains_text, md_name, other_name, visitor_name,
}
use reolinkproxy.Motion.Types.{elem-append_new, Distinct, Distinct-append_new, or_assoc, or_false}
use reolinkproxy.Motion.{
  AlarmState, AlarmEvent, AlarmParse, Smart, lists, for_channel, parse_ai_types, take_zone,
  take_zones, take_smart, take_event, parse_event, parse_events, parse_lists, parse_alarm, no_parse,
}

-- From `s` to `s'`: the types that `types` holds are added, and there is motion if `motion`.
record Adds (types : Text → Bool) (motion : Bool) (s s' : AlarmState) : Type 0 where
  pub more : (t : Text) → elem t s'.ai_types ≡ (elem t s.ai_types || types t)
  pub moves : s'.motion_detected ≡ (s.motion_detected || motion)
  pub distinct : Distinct s.ai_types → Distinct s'.ai_types

Adds-then :
    (f g : Text → Bool) (m n : Bool) (s s' s'' : AlarmState)
    → Adds f m s s'
    → Adds g n s' s''
    → Adds (λ t. f t || g t) (m || n) s s''
Adds-then f g m n s s' s'' a b = record {
  more = λ t. b.more t ∙ rw (a.more t) (or_assoc (elem t s.ai_types) (f t) (g t));
  moves = b.moves ∙ rw a.moves (or_assoc s.motion_detected m n);
  distinct = λ d. b.distinct (a.distinct d);
}

or_true : (a : Bool) → (a || true) ≡ true
or_true true = refl
or_true false = refl

Adds-nothing : (s : AlarmState) → Adds (λ t. false) false s s
Adds-nothing s = record {
  more = λ t. sym (or_false (elem t s.ai_types));
  moves = sym (or_false s.motion_detected);
  distinct = λ d. d;
}

abbrev pub all_events : List (List AlarmEvent) → List AlarmEvent
all_events [] = []
all_events (events ∷ more) = events ++ all_events more

module _ (lower_trimmed : Text → Text) where
  abbrev pub no_type : List Text → Bool
  no_type [] = true
  no_type (t ∷ ts) = false

  -- The types that the zones, the smart detections, an event and the events for the channel name, and
  -- whether they speak of motion.
  abbrev pub in_zones : List Text → Text → Bool
  in_zones [] t = false
  in_zones (sub ∷ subs) t = elem t (parse_ai_types lower_trimmed sub) || in_zones subs t

  abbrev pub untyped_zone : List Text → Bool
  untyped_zone [] = false
  untyped_zone (sub ∷ subs) = no_type (parse_ai_types lower_trimmed sub) || untyped_zone subs

  abbrev pub in_smart : List Smart → Text → Bool
  in_smart [] t = false
  in_smart (smart ∷ smarts) t = in_zones smart.sub_list t || in_smart smarts t

  abbrev pub smart_motion : List Smart → Bool
  smart_motion [] = false
  smart_motion (smart ∷ smarts) =
      (ltb_ℤ (pos 0) smart.index || untyped_zone smart.sub_list) || smart_motion smarts

  abbrev pub in_event : AlarmEvent → Text → Bool
  in_event ev t = elem t (parse_ai_types lower_trimmed ev.ai_type) || in_smart ev.smart_ai t

  abbrev pub event_motion : AlarmEvent → Bool
  event_motion ev =
      (contains_text ev.status md_name || contains_text ev.ai_type other_name)
      || smart_motion ev.smart_ai

  take_zone-Adds :
      (types : List Text) (s : AlarmState)
      → Adds (λ t. elem t types) (no_type types) s (take_zone lower_trimmed types s)
  unfolding take_zone
  take_zone-Adds [] s = record {
    more = λ t. sym (or_false (elem t s.ai_types));
    moves = sym (or_true s.motion_detected);
    distinct = λ d. d;
  }
  take_zone-Adds (t ∷ types) s = record {
    more = λ u. elem-append_new u s.ai_types (t ∷ types);
    moves = sym (or_false s.motion_detected);
    distinct = λ d. Distinct-append_new s.ai_types (t ∷ types) d;
  }

  take_zones-Adds :
      (subs : List Text) (s : AlarmState)
      → Adds (in_zones subs) (untyped_zone subs) s (take_zones lower_trimmed subs s)
  unfolding take_zones
  take_zones-Adds [] s = Adds-nothing s
  take_zones-Adds (sub ∷ subs) s =
      let types = parse_ai_types lower_trimmed sub in
      Adds-then (λ t. elem t types) (in_zones subs) (no_type types) (untyped_zone subs) s _ _
        (take_zone-Adds types s) (take_zones-Adds subs (take_zone lower_trimmed types s))

  take_smart-Adds :
      (smarts : List Smart) (s : AlarmState)
      → Adds (in_smart smarts) (smart_motion smarts) s (take_smart lower_trimmed smarts s)
  unfolding take_smart
  take_smart-Adds [] s = Adds-nothing s
  take_smart-Adds (smart ∷ smarts) s =
      let moved = ltb_ℤ (pos 0) smart.index in
      let s1 : AlarmState = record s { motion_detected = s.motion_detected || moved } in
      let s2 = take_zones lower_trimmed smart.sub_list s1 in
      Adds-then (in_zones smart.sub_list) (in_smart smarts) (moved || untyped_zone smart.sub_list)
        (smart_motion smarts) s s2 _
        (Adds-then (λ t. false) (in_zones smart.sub_list) moved (untyped_zone smart.sub_list) s s1
          s2
          (record {
            more = λ t. sym (or_false (elem t s.ai_types));
            moves = refl;
            distinct = λ d. d;
          })
          (take_zones-Adds smart.sub_list s1))
        (take_smart-Adds smarts s2)

  take_event-Adds :
      (ev : AlarmEvent) (s : AlarmState)
      → Adds (in_event ev) (event_motion ev) s (take_event lower_trimmed ev s)
  unfolding take_event
  take_event-Adds ev s =
      let types = parse_ai_types lower_trimmed ev.ai_type in
      let moved = contains_text ev.status md_name || contains_text ev.ai_type other_name in
      let s1 : AlarmState = record s {
        motion_detected = s.motion_detected || moved;
        visitor = s.visitor || contains_text ev.status visitor_name;
        ai_types = append_new s.ai_types types;
      } in
      Adds-then (λ t. elem t types) (in_smart ev.smart_ai) moved (smart_motion ev.smart_ai) s s1 _
        (record {
          more = λ t. elem-append_new t s.ai_types types;
          moves = refl;
          distinct = λ d. Distinct-append_new s.ai_types types d;
        })
        (take_smart-Adds ev.smart_ai s1)

  module _ (channel : ℕ) (any_channel : Bool) where
    abbrev pub in_events : List AlarmEvent → Text → Bool
    in_events [] t = false
    in_events (ev ∷ events) t =
        (for_channel channel any_channel ev && in_event ev t) || in_events events t

    abbrev pub events_motion : List AlarmEvent → Bool
    events_motion [] = false
    events_motion (ev ∷ events) =
        (for_channel channel any_channel ev && event_motion ev) || events_motion events

    abbrev pub concerned : List AlarmEvent → Bool
    concerned [] = false
    concerned (ev ∷ events) = for_channel channel any_channel ev || concerned events

    record Reads (events : List AlarmEvent) (r r' : AlarmParse) : Type 0 where
      pub adds : Adds (in_events events) (events_motion events) r.state r'.state
      pub hits : r'.matched ≡ (r.matched || concerned events)

    parse_event-Adds :
        (ev : AlarmEvent) (r : AlarmParse)
        → let r' = parse_event lower_trimmed channel any_channel ev r in
          let mine = for_channel channel any_channel ev in
          Adds (λ t. mine && in_event ev t) (mine && event_motion ev) r.state r'.state
          × (r'.matched ≡ (r.matched || mine))
    unfolding parse_event
    parse_event-Adds ev r = elim (Bool-cases (for_channel channel any_channel ev)) [
      | inl mine ↦ rw mine (take_event-Adds ev r.state, sym (or_true r.matched))
      | inr foreign ↦ rw foreign (Adds-nothing r.state, sym (or_false r.matched))
    ]

    parse_events-Reads :
        (events : List AlarmEvent) (r : AlarmParse)
        → Reads events r (parse_events lower_trimmed channel any_channel events r)
    unfolding parse_events
    parse_events-Reads [] r = record {
      adds = Adds-nothing r.state;
      hits = sym (or_false r.matched);
    }
    parse_events-Reads (ev ∷ events) r =
        let mine = for_channel channel any_channel ev in
        let r1 = parse_event lower_trimmed channel any_channel ev r in
        let (a, h) = parse_event-Adds ev r in
        let rest = parse_events-Reads events r1 in
        record {
          adds =
              Adds-then (λ t. mine && in_event ev t) (in_events events) (mine && event_motion ev)
                (events_motion events) r.state r1.state _ a rest.adds;
          hits = rest.hits ∙ rw h (or_assoc r.matched mine (concerned events));
        }

    parse_events-append :
        (as_ bs : List AlarmEvent) (r : AlarmParse)
        → parse_events lower_trimmed channel any_channel (as_ ++ bs) r
          ≡ parse_events lower_trimmed channel any_channel bs
              (parse_events lower_trimmed channel any_channel as_ r)
    unfolding parse_events
    parse_events-append [] bs r = refl
    parse_events-append (ev ∷ as_) bs r =
        parse_events-append as_ bs (parse_event lower_trimmed channel any_channel ev r)

    parse_lists-all_events :
        (ls : List (List AlarmEvent)) (r : AlarmParse)
        → parse_lists lower_trimmed channel any_channel ls r
          ≡ parse_events lower_trimmed channel any_channel (all_events ls) r
    unfolding parse_lists parse_events
    parse_lists-all_events [] r = refl
    parse_lists-all_events (events ∷ more) r =
        parse_lists-all_events more (parse_events lower_trimmed channel any_channel events r)
        ∙ sym (parse_events-append events (all_events more) r)

    -- Of an alarm push that was decoded: the detections are those that an event for the channel names,
    -- in its type or for a zone, none of them twice; there is motion just when such an event has the
    -- status MD or the type other, a smart detection with an index above 0, or a zone without a type;
    -- and the push concerns the channel just when it has an event for it.
    pub parse_alarm_lem :
        (ls : List (List AlarmEvent))
        → (r : AlarmParse) × (parse_alarm lower_trimmed channel any_channel (lists ls) ≡ some r)
          × ((t : Text) → elem t r.state.ai_types ≡ in_events (all_events ls) t)
          × Distinct r.state.ai_types
          × (r.state.motion_detected ≡ events_motion (all_events ls))
          × (r.matched ≡ concerned (all_events ls))
    unfolding parse_alarm
    parse_alarm_lem ls =
        let events = all_events ls in
        let reads = parse_events-Reads events no_parse in
        (
          parse_events lower_trimmed channel any_channel events no_parse,
          ap some (parse_lists-all_events ls no_parse),
          (λ t. reads.adds.more t),
          reads.adds.distinct tt,
          reads.adds.moves,
          reads.hits,
        )
