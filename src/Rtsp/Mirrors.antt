-- ===== src/Rtsp/Mirrors.antt =====
-- `rtspStreamHandler` of pkg/bridge/rtsp.go with its mirrors: who watches, and where packets go.
use reolinkproxy.Base.{
  ℕ, List, [], ◌∷◌, ◌++◌, Bool, true, false, ◌||◌, ltb, if◌then◌else◌, Option, none, some, ◌-◌,
}
use reolinkproxy.Rtsp.Sets.{has}

-- A handler without its mirrors; medias are numbers, a session is the medias it describes.
pub record Node : Type 0 where
  pub attached : Bool
  pub stream : Option (List ℕ)
  pub clients : List ℕ
  pub extras : List ℕ
  pub last_interest : ℕ

mutual
  pub data Handler : Type 0 where
    handler : Node → Mirrors → Handler

  pub data Mirrors : Type 0 where
    no_mirror : Mirrors
    mirrored : Handler → Mirrors → Mirrors

abbrev pub non_empty : List ℕ → Bool
non_empty [] = false
non_empty (k ∷ ks) = true

unfoldable mutual
  pub has_clients : Handler → Bool
  has_clients (handler n mirrors) = non_empty n.clients || any_clients mirrors

  pub any_clients : Mirrors → Bool
  any_clients no_mirror = false
  any_clients (mirrored h mirrors) = has_clients h || any_clients mirrors

unfoldable mutual
  pub interested_since : ℕ → Handler → Bool
  interested_since t (handler n mirrors) = ltb t n.last_interest || any_interested t mirrors

  pub any_interested : ℕ → Mirrors → Bool
  any_interested t no_mirror = false
  any_interested t (mirrored h mirrors) = interested_since t h || any_interested t mirrors

-- `idleGate`: whether the stream is wanted, and since when it is idle.
unfoldable pub idle_gate : ℕ → Handler → Option ℕ → ℕ → Bool × Option ℕ
unfolding has_clients interested_since
idle_gate timeout h idle_since now =
    if has_clients h || interested_since (now - timeout) h then (true, none) else elim idle_since [
      | none ↦ (true, some now)
      | some since ↦ (ltb (now - since) timeout, some since)
    ]

pub data ReadyError : Type 0 where
  not_attached no_media not_initialized : ReadyError

unfoldable pub present : List (Option ℕ) → List ℕ
present [] = []
present (none ∷ medias) = present medias
present (some m ∷ medias) = m ∷ present medias

-- The rest of `setReady`, where there was no error so far.
unfoldable pub after_node :
    Option ReadyError → Node → Mirrors → Option ReadyError × Mirrors → Option ReadyError × Handler
after_node (some e) n mirrors later = (some e, handler n mirrors)
after_node none n mirrors (failed, mirrors') = (failed, handler n mirrors')

unfoldable pub after_mirror :
    Option ReadyError
    → Handler
    → Mirrors
    → Option ReadyError × Mirrors
    → Option ReadyError × Mirrors
after_mirror (some e) h mirrors later = (some e, mirrored h mirrors)
after_mirror none h mirrors (failed, mirrors') = (failed, mirrored h mirrors')

-- `initialize` is whether gortsplib's Initialize accepts a description.
module _ (initialize : List ℕ → Bool) where
  -- The session for these medias, where there is none.
  unfoldable pub open_session : List ℕ → Node → Option ReadyError × Node
  open_session medias n =
      if non_empty medias
      then (if initialize medias
          then (none, record n { stream = some medias })
          else (some not_initialized, n))
      else (some no_media, n)

  unfoldable pub ready_stream : List (Option ℕ) → Node → Option (List ℕ) → Option ReadyError × Node
  unfolding open_session present
  ready_stream medias n none = open_session (present medias ++ n.extras) n
  ready_stream medias n (some described) = (none, n)

  unfoldable pub ready_node : List (Option ℕ) → Node → Option ReadyError × Node
  unfolding ready_stream
  ready_node medias n =
      if n.attached then ready_stream medias n n.stream else (some not_attached, n)

  unfoldable mutual
    unfolding ready_node after_node after_mirror

    -- `setReady`; the mirrors after one that fails are left as they are.
    pub set_ready : List (Option ℕ) → Handler → Option ReadyError × Handler
    set_ready medias (handler n mirrors) =
        let (failed, n') = ready_node medias n in
        after_node failed n' mirrors (set_all_ready medias mirrors)

    pub set_all_ready : List (Option ℕ) → Mirrors → Option ReadyError × Mirrors
    set_all_ready medias no_mirror = (none, no_mirror)
    set_all_ready medias (mirrored h mirrors) =
        let (failed, h') = set_ready medias h in
        after_mirror failed h' mirrors (set_all_ready medias mirrors)

unfoldable mutual
  pub reset : Handler → Handler
  reset (handler n mirrors) = handler (record n { stream = none }) (reset_all mirrors)

  pub reset_all : Mirrors → Mirrors
  reset_all no_mirror = no_mirror
  reset_all (mirrored h mirrors) = mirrored (reset h) (reset_all mirrors)

-- `streamCarriesMedia`, where there is a session.
unfoldable pub carries : ℕ → Option (List ℕ) → Bool
carries media none = false
carries media (some medias) = has media medias

unfoldable mutual
  unfolding carries

  -- `writePacket`: the handlers whose session gets the packet.
  pub write_packet : ℕ → Handler → List Node
  write_packet media (handler n mirrors) =
      let others = write_all media mirrors in if carries media n.stream then n ∷ others else others

  pub write_all : ℕ → Mirrors → List Node
  write_all media no_mirror = []
  write_all media (mirrored h mirrors) = write_packet media h ++ write_all media mirrors

unfoldable mutual
  pub nodes : Handler → List Node
  nodes (handler n mirrors) = n ∷ all_nodes mirrors

  pub all_nodes : Mirrors → List Node
  all_nodes no_mirror = []
  all_nodes (mirrored h mirrors) = nodes h ++ all_nodes mirrors
