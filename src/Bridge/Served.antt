-- ===== src/Bridge/Served.antt =====
-- What is served under which path: the maps of rtspServerHandler, pkg/bridge/rtsp.go. Stream handlers and
-- talk publishers are known by numbers.
use reolinkproxy.Base.{ℕ, List, [], ◌∷◌, if◌then◌else◌, Option, none, some}
use reolinkproxy.Motion.Texts.{Text, text_eq}
use reolinkproxy.Bridge.Paths.{trim_prefix, same_path}

-- A map, as the list of its keys and values.
abbrev pub Store : Type 0 → Type 0
Store V = List (Text × V)

module _ {V : Type 0} where
  unfoldable pub lookup : Text → Store V → Option V
  lookup key [] = none
  lookup key ((k, v) ∷ store) =
      let rest = lookup key store in if text_eq key k then some v else rest

  unfoldable pub delete : Text → Store V → Store V
  delete key [] = []
  delete key ((k, v) ∷ store) =
      let rest = delete key store in if text_eq key k then rest else (k, v) ∷ rest

  abbrev pub insert : Text → V → Store V → Store V
  insert key v store = (key, v) ∷ delete key store

  -- The value under a key that is the same path; of several, Go's iteration may give any.
  unfoldable pub find_path : Text → Store V → Option V
  find_path path [] = none
  find_path path ((k, v) ∷ store) =
      let rest = find_path path store in if same_path path k then some v else rest

-- `streams`, `talks` and `talkSDP` of `rtspServerHandler`.
pub record Registry : Type 0 where
  pub streams : Store ℕ
  pub talks : Store ℕ
  pub talk_sdp : Store ℕ

abbrev pub new_registry : Registry
new_registry = record { streams = []; talks = []; talk_sdp = [] }

-- `addStream`
unfoldable pub add_stream : Text → ℕ → Registry → Registry
add_stream path stream r = record r { streams = insert (trim_prefix path) stream r.streams }

-- `addTalk`
unfoldable pub add_talk : Text → ℕ → Registry → Registry
add_talk path talk r = record r {
  talks = insert (trim_prefix path) talk r.talks;
  talk_sdp = insert (trim_prefix path) talk r.talk_sdp;
}

-- `addTalkAlias`
unfoldable pub add_talk_alias : Text → ℕ → Registry → Registry
add_talk_alias path talk r = record r { talks = insert (trim_prefix path) talk r.talks }

abbrev pub delete_all : {V : Type 0} → List Text → Store V → Store V
delete_all [] store = store
delete_all (path ∷ paths) store = delete_all paths (delete (trim_prefix path) store)

-- `removePaths`
unfoldable pub remove_paths : List Text → Registry → Registry
remove_paths paths r = record {
  streams = delete_all paths r.streams;
  talks = delete_all paths r.talks;
  talk_sdp = delete_all paths r.talk_sdp;
}

-- `getStream`, `getTalk` and `getTalkSDP`
unfoldable pub get_stream : Text → Registry → Option ℕ
get_stream path r = find_path path r.streams

unfoldable pub get_talk : Text → Registry → Option ℕ
get_talk path r = find_path path r.talks

unfoldable pub get_talk_sdp : Text → Registry → Option ℕ
get_talk_sdp path r = find_path path r.talk_sdp
