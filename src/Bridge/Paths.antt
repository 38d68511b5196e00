-- ===== src/Bridge/Paths.antt =====
-- Texts as the bridge trims them, and the paths that it makes of them: normalizeProfileName of
-- pkg/bridge/config.go, samePath, isTwoWayPath of pkg/bridge/rtsp.go, the path functions of pkg/bridge/talk_rtsp.go.
use reolinkproxy.Base.{ℕ, [], ◌∷◌, ◌++◌, Bool, true, false, ◌&&◌, ◌||◌, leb, ◌==◌, if◌then◌else◌}
use reolinkproxy.Motion.Texts.{Text, text_eq}

-- The white space of Go's unicode.IsSpace.
unfoldable pub is_space : ℕ → Bool
is_space c =
    (leb 9 c && leb c 13)
    || (c == 32
        || (c == 133
            || (c == 160
                || (c == 5760
                    || ((leb 8192 c && leb c 8202)
                        || (c == 8232
                            || (c == 8233 || (c == 8239 || (c == 8287 || c == 12288)))))))))

unfoldable pub trim_left : (ℕ → Bool) → Text → Text
trim_left cut [] = []
trim_left cut (c ∷ cs) = let rest = trim_left cut cs in if cut c then rest else c ∷ cs

abbrev pub is_empty : Text → Bool
is_empty [] = true
is_empty (c ∷ cs) = false

unfoldable pub trim_right : (ℕ → Bool) → Text → Text
trim_right cut [] = []
trim_right cut (c ∷ cs) =
    let rest = trim_right cut cs in if is_empty rest && cut c then [] else c ∷ rest

abbrev pub trim : (ℕ → Bool) → Text → Text
trim cut t = trim_right cut (trim_left cut t)

abbrev pub is_slash : ℕ → Bool
is_slash c = c == b'/'

-- `strings.TrimPrefix` with one slash.
unfoldable pub trim_prefix : Text → Text
trim_prefix [] = []
trim_prefix (c ∷ cs) = if is_slash c then cs else c ∷ cs

-- A path without the white space and then the slashes at both ends.
unfoldable pub bare : Text → Text
bare path = trim is_slash (trim is_space path)

-- `samePath`
unfoldable pub same_path : Text → Text → Bool
same_path got want = text_eq (bare got) (bare want)

abbrev pub talk_name : Text
talk_name = b't' ∷ b'a' ∷ b'l' ∷ b'k' ∷ []

abbrev pub twoway_name : Text
twoway_name = b't' ∷ b'w' ∷ b'o' ∷ b'w' ∷ b'a' ∷ b'y' ∷ []

-- A path and a name behind it, or only the name.
abbrev pub suffixed : Text → Text → Text
suffixed name [] = name
suffixed name (c ∷ cs) = (c ∷ cs) ++ b'_' ∷ name

-- `talkPathForCamera`
unfoldable pub talk_path_for_camera : Text → Text
talk_path_for_camera path = suffixed talk_name (bare path)

-- `twoWayPathForStream`
unfoldable pub two_way_path_for_stream : Text → Text
two_way_path_for_stream path = suffixed twoway_name (bare path)

-- `normalizeProfileName`; `lower` is Go's unicode.ToLower.
unfoldable pub normalize_profile_name : (ℕ → ℕ) → Text → Text
normalize_profile_name lower raw = lowered (trim is_space raw)
  where
    lowered : Text → Text
    lowered [] = []
    lowered (c ∷ cs) = lower c ∷ lowered cs
