-- ===== src/Bridge/Removal.antt =====
-- What is left of a camera once it is removed, pkg/bridge/bridge.go and pkg/bridge/rtsp.go.
use reolinkproxy.Base.{
  ℕ, List, [], ◌∷◌, ◌++◌, Bool, true, false, not, ◌&&◌, if◌then◌else◌, Option, none, some, ok, ◌≡◌,
  refl, ◌∙◌, ap, subst, Bool-cases, inl, inr, arith, Option-cases,
}
use reolinkproxy.Motion.Texts.{Text, text_eq, elem}
use reolinkproxy.Motion.Types.{text_eq_refl}
use reolinkproxy.Bridge.Paths.{trim_prefix, talk_path_for_camera}
use reolinkproxy.Bridge.Config.{CameraConfig, apply_defaults, validate}
use reolinkproxy.Bridge.Served.{
  Store, lookup, insert, delete, delete_all, Registry, add_stream, add_talk, add_talk_alias,
  remove_paths,
}
use reolinkproxy.Bridge.Stores.{
  keys_of, keys_of-snoc, elem-snoc_false, lookup-insert, lookup-delete_all, delete-insert,
  delete_twice,
}
use reolinkproxy.Bridge.{
  Bridge, Camera, RunningStream, Setup, setup_stream, setup_all, setup_alias, setup_camera_streams,
  add_checked, add_camera, remove_camera, forget_camera, stop, runs_of_others, entries_of_others,
  register,
}

-- The maps differ at most under the keys of the paths.
SameButAt : List Text → Store ℕ → Store ℕ → Type 0
SameButAt paths old new = (k : Text) → elem k (keys_of paths) ≡ false → lookup k new ≡ lookup k old

SameButAt-put :
    (paths : List Text) (old new : Store ℕ) (p : Text) (v : ℕ)
    → SameButAt paths old new
    → SameButAt (paths ++ p ∷ []) old (insert (trim_prefix p) v new)
unfolding SameButAt
SameButAt-put paths old new p v same k e =
    let (before, apart) =
      elem-snoc_false k (trim_prefix p) (keys_of paths) (rw (keys_of-snoc paths p) at e) in
    lookup-insert (trim_prefix p) k v new ∙ rw apart (same k before)

SameButAt-more :
    (paths : List Text) (old new : Store ℕ) (p : Text)
    → SameButAt paths old new
    → SameButAt (paths ++ p ∷ []) old new
unfolding SameButAt
SameButAt-more paths old new p same k e =
    same k (elem-snoc_false k (trim_prefix p) (keys_of paths) (rw (keys_of-snoc paths p) at e)).0

SameButAt-delete_all :
    (paths : List Text) (old new : Store ℕ) (k : Text)
    → SameButAt paths old new
    → lookup k (delete_all paths new) ≡ (if elem k (keys_of paths) then none else lookup k old)
unfolding SameButAt
SameButAt-delete_all paths old new k same = elim (Bool-cases (elem k (keys_of paths))) [
  | inl e ↦ lookup-delete_all paths k new ∙ rw e refl
  | inr e ↦ lookup-delete_all paths k new ∙ rw e (same k e)
]

IsOff : List Text → Registry → Registry → Type 0
IsOff paths old new =
    SameButAt paths old.streams new.streams
    × SameButAt paths old.talks new.talks
    × SameButAt paths old.talk_sdp new.talk_sdp

IsOff-add_stream :
    (paths : List Text) (old new : Registry) (p : Text) (h : ℕ)
    → IsOff paths old new
    → IsOff (paths ++ p ∷ []) old (add_stream p h new)
unfolding IsOff add_stream
IsOff-add_stream paths old new p h (s, t, d) =
    (SameButAt-put paths _ _ p h s, SameButAt-more paths _ _ p t, SameButAt-more paths _ _ p d)

IsOff-two_way :
    (paths : List Text) (old new : Registry) (p : Text) (h publisher : ℕ)
    → IsOff paths old new
    → IsOff (paths ++ p ∷ []) old (add_talk_alias p publisher (add_stream p h new))
unfolding IsOff add_stream add_talk_alias
IsOff-two_way paths old new p h publisher (s, t, d) = (
  SameButAt-put paths _ _ p h s,
  SameButAt-put paths _ _ p publisher t,
  SameButAt-more paths _ _ p d,
)

IsOff-add_talk :
    (r : Registry) (p : Text) (publisher : ℕ) → IsOff (p ∷ []) r (add_talk p publisher r)
unfolding IsOff add_talk SameButAt
IsOff-add_talk r p publisher = (
  SameButAt-more [] r.streams r.streams p (λ k e. refl),
  SameButAt-put [] r.talks r.talks p publisher (λ k e. refl),
  SameButAt-put [] r.talk_sdp r.talk_sdp p publisher (λ k e. refl),
)

runs_of_others-snoc :
    (camera : Text) (runs : List RunningStream) (r : RunningStream)
    → text_eq r.camera camera ≡ true
    → runs_of_others camera (runs ++ r ∷ []) ≡ runs_of_others camera runs
runs_of_others-snoc camera [] r e = rw e refl
runs_of_others-snoc camera (q ∷ runs) r e = rw (runs_of_others-snoc camera runs r e) refl

-- What a set-up of streams touches: the registrations of its paths and the camera's own runs.
IsSetUp : Text → Text → Registry → List RunningStream → Setup → Type 0
IsSetUp camera talk_path old runs st =
    IsOff (talk_path ∷ st.paths) old st.registry
    × runs_of_others camera st.runs ≡ runs_of_others camera runs

setup_all-IsSetUp :
    (camera talk_path : Text) (old : Registry) (runs : List RunningStream) (multi : Bool)
    (base preferred : Text) (publisher : ℕ) (names : List Text) (st : Setup)
    → IsSetUp camera talk_path old runs st
    → IsSetUp camera talk_path old runs (setup_all camera multi base preferred publisher names st)
unfolding setup_all setup_stream IsSetUp
setup_all-IsSetUp camera talk_path old runs multi base preferred publisher [] st h = h
setup_all-IsSetUp camera talk_path old runs multi base preferred publisher (s ∷ names) st
      (off, same) =
    setup_all-IsSetUp camera talk_path old runs multi base preferred publisher names
      (setup_stream camera multi base preferred publisher s st)
      (
        IsOff-two_way _ old _ _ _ publisher
            (IsOff-add_stream (talk_path ∷ st.paths) old st.registry _ _ off),
        runs_of_others-snoc camera st.runs _ (text_eq_refl camera) ∙ same,
      )

setup_alias-IsSetUp :
    (camera talk_path : Text) (old : Registry) (runs : List RunningStream) (base : Text)
    (publisher : ℕ) (preferred : Option (ℕ × ℕ)) (st : Setup)
    → IsSetUp camera talk_path old runs st
    → IsSetUp camera talk_path old runs (setup_alias base publisher preferred st)
unfolding setup_alias IsSetUp
setup_alias-IsSetUp camera talk_path old runs base publisher none st h = h
setup_alias-IsSetUp camera talk_path old runs base publisher (some (h, t)) st (off, same) = (
  IsOff-two_way _ old _ _ _ publisher
      (IsOff-add_stream (talk_path ∷ st.paths) old st.registry _ _ off),
  same,
)

setup_camera_streams-IsSetUp :
    (lower : ℕ → ℕ) (cfg : CameraConfig) (talk_path : Text) (old : Registry)
    (runs : List RunningStream) (publisher : ℕ) (st : Setup)
    → IsSetUp cfg.name talk_path old runs st
    → IsSetUp cfg.name talk_path old runs (setup_camera_streams lower cfg publisher st)
unfolding setup_camera_streams IsSetUp
setup_camera_streams-IsSetUp lower cfg talk_path old runs publisher st h =
    setup_alias-IsSetUp cfg.name talk_path old runs _ publisher _ _
      (setup_all-IsSetUp cfg.name talk_path old runs _ _ _ publisher cfg.streams st h)

register-others :
    (listens : Bool) (cfg : CameraConfig) (webhook : Option (Store Text))
    → entries_of_others cfg.name (register listens cfg webhook) ≡ entries_of_others cfg.name webhook
register-others listens cfg none = refl
register-others listens cfg (some entries) =
    elim (Bool-cases ((cfg.battery_camera && not cfg.mains_powered) && listens)) [
      | inl e ↦ rw e (ap some (delete_twice cfg.name cfg.name entries))
      | inr e ↦ rw e refl
    ]

-- What a bridge has for a camera that was added: its maps differ from those before under its paths
-- alone, and its other runs are those before.
IsAdded : CameraConfig → Bridge → Camera × Bridge → Type 0
IsAdded cfg b (cam, after) =
    Camera.cfg cam ≡ cfg
    × IsOff (Camera.paths cam) b.registry after.registry
    × runs_of_others cfg.name after.runs ≡ runs_of_others cfg.name b.runs
    × entries_of_others cfg.name after.webhook ≡ entries_of_others cfg.name b.webhook
    × after.cameras ≡ insert cfg.name cam b.cameras

add_checked-IsAdded :
    (lower : ℕ → ℕ) (listens : Bool) (cfg : CameraConfig) (b : Bridge)
    → IsAdded cfg b (add_checked lower listens cfg b)
unfolding add_checked IsAdded IsSetUp
add_checked-IsAdded lower listens cfg b =
    let (off, same) =
      setup_camera_streams-IsSetUp lower cfg _ b.registry b.runs b.made _
        (IsOff-add_talk b.registry (talk_path_for_camera cfg.rtsp_path) b.made, refl) in
    (refl, off, same, register-others listens cfg b.webhook, refl)

pub add_camera-ok :
    (lower : ℕ → ℕ) (listens : Bool) (raw : CameraConfig) (b : Bridge) {r : Camera × Bridge}
    → add_camera lower listens raw b ≡ ok r
    → lookup raw.name b.cameras ≡ none × add_checked lower listens (apply_defaults lower raw) b ≡ r
unfolding add_camera apply_defaults
add_camera-ok lower listens raw b e =
    elim (Option-cases (validate lower (apply_defaults lower raw))) [
      | inr (x, v) ↦ absurd (ground (arith, e, v))
      | inl v ↦ elim (Bool-cases b.closed) [
        | inl c ↦ absurd (ground (arith, e, v, c))
        | inr c ↦ elim (Bool-cases b.started) [
          | inr s ↦ absurd (ground (arith, e, v, c, s))
          | inl s ↦ elim (Option-cases (lookup raw.name b.cameras)) [
            | inr (x, l) ↦ absurd (ground (arith, e, v, c, s, l))
            | inl l ↦
                let gives : add_camera lower listens raw b
                    ≡ ok (add_checked lower listens (apply_defaults lower raw) b) =
                  ground (arith, v, c, s, l) in
                (l, cc (e, gives))
          ]
        ]
      ]
    ]

remove_camera-found :
    (name : Text) (b : Bridge) {cam : Camera}
    → lookup name b.cameras ≡ some cam
    → remove_camera name b ≡ (none, stop cam (record b { cameras = delete name b.cameras }))
unfolding remove_camera forget_camera
remove_camera-found name b e = rw (remove_camera, e) refl

-- A camera that was added is removed: the cameras are those before, of the runs and the webhook
-- entries those of other names are left, and under every key each of the server's maps holds nothing
-- if it is the key of a path that the camera registered, and else what it held before.
pub remove_camera-add_camera :
    (lower : ℕ → ℕ) (listens : Bool) (raw : CameraConfig) (b after : Bridge) (cam : Camera)
    (k : Text)
    → add_camera lower listens raw b ≡ ok (cam, after)
    → let gone = remove_camera raw.name after in
      gone.0 ≡ none
      × Bridge.cameras gone.1 ≡ b.cameras
      × Bridge.runs gone.1 ≡ runs_of_others raw.name b.runs
      × Bridge.webhook gone.1 ≡ entries_of_others raw.name b.webhook
      × lookup k (Registry.streams (Bridge.registry gone.1))
        ≡ (if elem k (keys_of cam.paths) then none else lookup k (Registry.streams b.registry))
      × lookup k (Registry.talks (Bridge.registry gone.1))
        ≡ (if elem k (keys_of cam.paths) then none else lookup k (Registry.talks b.registry))
      × lookup k (Registry.talk_sdp (Bridge.registry gone.1))
        ≡ (if elem k (keys_of cam.paths) then none else lookup k (Registry.talk_sdp b.registry))
unfolding stop apply_defaults IsAdded IsOff remove_paths
remove_camera-add_camera lower listens raw b after cam k e =
    let (absent, made) = add_camera-ok lower listens raw b e in
    let (cfg, (s, t, d), runs, entries, cameras) : IsAdded (apply_defaults lower raw) b
        (cam, after) =
      subst (IsAdded (apply_defaults lower raw) b) made
        (add_checked-IsAdded lower listens (apply_defaults lower raw) b) in
    let held : lookup raw.name after.cameras ≡ some cam =
      ap (lookup raw.name) cameras
      ∙ lookup-insert raw.name raw.name cam b.cameras
      ∙ rw (text_eq_refl raw.name) refl in
    let cleared : delete raw.name after.cameras ≡ b.cameras =
      ap (delete raw.name) cameras ∙ delete-insert raw.name cam b.cameras absent in
    let named : CameraConfig.name (Camera.cfg cam) ≡ raw.name = ap CameraConfig.name cfg in
    rw (remove_camera-found raw.name after held, named)
      (
        refl,
        cleared,
        runs,
        entries,
        SameButAt-delete_all cam.paths _ _ k s,
        SameButAt-delete_all cam.paths _ _ k t,
        SameButAt-delete_all cam.paths _ _ k d,
      )
