-- ===== src/Bridge/Urls.antt =====
-- What is served under the URLs that a camera gives, pkg/bridge/bridge.go.
use reolinkproxy.Base.{
  ℕ, ◌==◌, ltb, List, [], ◌∷◌, ◌++◌, Bool, true, false, Option, none, some, ok, ◌≡◌, refl, ◌∙◌,
  subst, length, if◌then◌else◌, Bool-cases, inl, inr, arith,
}
use reolinkproxy.Motion.Texts.{Text, text_eq, elem}
use reolinkproxy.Motion.Types.{text_eq_refl, text_eq_sound}
use reolinkproxy.Bridge.Paths.{
  trim_prefix, is_empty, talk_path_for_camera, two_way_path_for_stream, normalize_profile_name,
}
use reolinkproxy.Bridge.Config.{CameraConfig, apply_defaults}
use reolinkproxy.Bridge.Served.{
  Store, lookup, insert, Registry, add_stream, add_talk, add_talk_alias,
}
use reolinkproxy.Bridge.Stores.{lookup-insert}
use reolinkproxy.Bridge.{
  Bridge, Camera, Setup, setup_stream, setup_all, setup_alias, setup_camera_streams, add_checked,
  add_camera, path_for_profile, profile_path,
}
use reolinkproxy.Bridge.Removal.{add_camera-ok}

-- Something is stored for a path.
abbrev pub Held : Text → Store ℕ → Type 0
Held path store = (v : ℕ) × lookup (trim_prefix path) store ≡ some v

insert-Held :
    (path : Text) (v : ℕ) (store : Store ℕ) → Held path (insert (trim_prefix path) v store)
insert-Held path v store = (
  v,
  lookup-insert (trim_prefix path) (trim_prefix path) v store
      ∙ rw (text_eq_refl (trim_prefix path)) refl,
)

Held-insert :
    (path key : Text) (v : ℕ) (store : Store ℕ) → Held path store → Held path (insert key v store)
Held-insert path key v store (w, e) = elim (Bool-cases (text_eq (trim_prefix path) key)) [
  | inl same ↦ (v, lookup-insert key (trim_prefix path) v store ∙ rw same refl)
  | inr other ↦ (w, lookup-insert key (trim_prefix path) v store ∙ rw other e)
]

-- A path has a stream, and its two-way path a stream and a talk.
abbrev pub IsServed : Text → Registry → Type 0
IsServed path r =
    Held path r.streams
    × Held (two_way_path_for_stream path) r.streams
    × Held (two_way_path_for_stream path) r.talks

-- A path takes the streams of an announcement.
abbrev pub IsTalkPath : Text → Registry → Type 0
IsTalkPath path r = Held path r.talks × Held path r.talk_sdp

-- What is served is served still.
module _ (path : Text) (p : Text) (h t publisher : ℕ) (r : Registry) where
  both_ways : Registry
  both_ways =
      add_talk_alias (two_way_path_for_stream p) publisher
        (add_stream (two_way_path_for_stream p) t (add_stream p h r))

  both_ways-IsServed : IsServed path r → IsServed path both_ways
  unfolding both_ways add_stream add_talk_alias
  both_ways-IsServed (s, w, b) = (
    Held-insert path _ t _ (Held-insert path _ h _ s),
    Held-insert (two_way_path_for_stream path) _ t _
        (Held-insert (two_way_path_for_stream path) _ h _ w),
    Held-insert (two_way_path_for_stream path) _ publisher _ b,
  )

  both_ways-IsTalkPath : IsTalkPath path r → IsTalkPath path both_ways
  unfolding both_ways add_stream add_talk_alias
  both_ways-IsTalkPath (b, d) = (Held-insert path _ publisher _ b, d)

IsServed-both_ways :
    (p : Text) (h t publisher : ℕ) (r : Registry) → IsServed p (both_ways p p h t publisher r)
unfolding both_ways add_stream add_talk_alias
IsServed-both_ways p h t publisher r = (
  Held-insert p _ t _ (insert-Held p h r.streams),
  insert-Held (two_way_path_for_stream p) t _,
  insert-Held (two_way_path_for_stream p) publisher _,
)

-- The turns of the loop, and the aliases, keep what is served.
module _ (camera : Text) (multi : Bool) (base preferred : Text) (publisher : ℕ) (path : Text) where
  setup_all-IsServed :
      (names : List Text) (st : Setup)
      → IsServed path st.registry
      → IsServed path (Setup.registry (setup_all camera multi base preferred publisher names st))
  unfolding setup_all setup_stream both_ways
  setup_all-IsServed [] st h = h
  setup_all-IsServed (s ∷ names) st h =
      setup_all-IsServed names (setup_stream camera multi base preferred publisher s st)
        (both_ways-IsServed path _ _ _ publisher st.registry h)

  setup_all-IsTalkPath :
      (names : List Text) (st : Setup)
      → IsTalkPath path st.registry
      → IsTalkPath path (Setup.registry (setup_all camera multi base preferred publisher names st))
  unfolding setup_all setup_stream both_ways
  setup_all-IsTalkPath [] st h = h
  setup_all-IsTalkPath (s ∷ names) st h =
      setup_all-IsTalkPath names (setup_stream camera multi base preferred publisher s st)
        (both_ways-IsTalkPath path _ _ _ publisher st.registry h)

-- Each stream that is set up is served.
IsServed-setup_all :
    (camera : Text) (multi : Bool) (base preferred : Text) (publisher : ℕ) (s : Text)
    (names : List Text) (st : Setup)
    → elem s names ≡ true
    → IsServed
        (profile_path base multi s)
        (Setup.registry (setup_all camera multi base preferred publisher names st))
unfolding setup_all setup_stream both_ways
IsServed-setup_all camera multi base preferred publisher s [] st e = absurd (cc e)
IsServed-setup_all camera multi base preferred publisher s (n ∷ names) st e =
    elim (Bool-cases (text_eq s n)) [
      | inr other ↦
          IsServed-setup_all camera multi base preferred publisher s names
            (setup_stream camera multi base preferred publisher n st) (rw other at e)
      | inl same ↦ rw (text_eq_sound s n same) (
          setup_all-IsServed camera multi base preferred publisher (profile_path base multi n) names
            (setup_stream camera multi base preferred publisher n st)
            (IsServed-both_ways (profile_path base multi n) _ _ publisher st.registry))
    ]

module _ (base path : Text) (publisher : ℕ) where
  setup_alias-IsServed :
      (preferred : Option (ℕ × ℕ)) (st : Setup)
      → IsServed path st.registry
      → IsServed path (Setup.registry (setup_alias base publisher preferred st))
  unfolding setup_alias both_ways
  setup_alias-IsServed none st e = e
  setup_alias-IsServed (some (h, t)) st e = both_ways-IsServed path base h t publisher st.registry e

  setup_alias-IsTalkPath :
      (preferred : Option (ℕ × ℕ)) (st : Setup)
      → IsTalkPath path st.registry
      → IsTalkPath path (Setup.registry (setup_alias base publisher preferred st))
  unfolding setup_alias both_ways
  setup_alias-IsTalkPath none st e = e
  setup_alias-IsTalkPath (some (h, t)) st e =
      both_ways-IsTalkPath path base h t publisher st.registry e

-- The path of a profile is the one that its stream is set up under.
path_for_profile_lem :
    (lower : ℕ → ℕ) (cfg : CameraConfig) (raw : Text)
    → elem (normalize_profile_name lower raw) cfg.streams ≡ true
    → is_empty (normalize_profile_name lower raw) ≡ false
    → path_for_profile lower cfg raw
      ≡ profile_path
          (trim_prefix cfg.rtsp_path)
          (ltb 1 (length cfg.streams))
          (normalize_profile_name lower raw)
unfolding path_for_profile
path_for_profile_lem lower cfg raw there named = one_or_more cfg.streams there
  where
    one_or_more :
        (names : List Text)
        → elem (normalize_profile_name lower raw) names ≡ true
        → (if is_empty (normalize_profile_name lower raw)
            then trim_prefix cfg.rtsp_path
            else if length names == 1
            then trim_prefix cfg.rtsp_path
            else trim_prefix cfg.rtsp_path ++ b'_' ∷ normalize_profile_name lower raw)
          ≡ profile_path
              (trim_prefix cfg.rtsp_path)
              (ltb 1 (length names))
              (normalize_profile_name lower raw)
    one_or_more [] e = absurd (cc e)
    one_or_more (n ∷ []) e = rw named refl
    one_or_more (n ∷ m ∷ names) e = rw named (ground arith)

add_checked-IsServed :
    (lower : ℕ → ℕ) (listens : Bool) (cfg : CameraConfig) (b : Bridge) (profile : Text)
    → elem (normalize_profile_name lower profile) cfg.streams ≡ true
    → is_empty (normalize_profile_name lower profile) ≡ false
    → let r = add_checked lower listens cfg b in
      IsServed (path_for_profile lower (Camera.cfg r.0) profile) (Bridge.registry r.1)
      × IsTalkPath
          (talk_path_for_camera (CameraConfig.rtsp_path (Camera.cfg r.0)))
          (Bridge.registry r.1)
unfolding add_checked setup_camera_streams add_talk
add_checked-IsServed lower listens cfg b profile there named =
    let base = trim_prefix cfg.rtsp_path in
    let talk_path = talk_path_for_camera cfg.rtsp_path in
    (
      rw (path_for_profile_lem lower cfg profile there named) (
          setup_alias-IsServed base _ b.made _ _ (
            IsServed-setup_all cfg.name _ base _ b.made (normalize_profile_name lower profile)
              cfg.streams _ there)),
      setup_alias-IsTalkPath base talk_path b.made _ _ (
          setup_all-IsTalkPath cfg.name _ base _ b.made talk_path cfg.streams _
            (insert-Held talk_path b.made _, insert-Held talk_path b.made _)),
    )

-- Once a camera is added, the server has something for each URL that the camera gives for a profile of
-- its streams, by a name that is not blank: a stream under the profile's path, a stream and a talk
-- under its two-way path; and under the talk path a talk that an announcement can be made to.
pub add_camera-IsServed :
    (lower : ℕ → ℕ) (listens : Bool) (cfg : CameraConfig) (b after : Bridge) (cam : Camera)
    (profile : Text)
    → add_camera lower listens cfg b ≡ ok (cam, after)
    → elem (normalize_profile_name lower profile) (CameraConfig.streams (apply_defaults lower cfg))
      ≡ true
    → is_empty (normalize_profile_name lower profile) ≡ false
    → IsServed (path_for_profile lower (Camera.cfg cam) profile) after.registry
      × IsTalkPath (talk_path_for_camera (CameraConfig.rtsp_path (Camera.cfg cam))) after.registry
add_camera-IsServed lower listens cfg b after cam profile e there named =
    subst
      (λ r.
        IsServed (path_for_profile lower (Camera.cfg r.0) profile) (Bridge.registry r.1)
        × IsTalkPath (talk_path_for_camera (CameraConfig.rtsp_path (Camera.cfg r.0)))
            (Bridge.registry r.1))
      (add_camera-ok lower listens cfg b e).1
      (add_checked-IsServed lower listens (apply_defaults lower cfg) b profile there named)
