-- ===== src/TalkSession/Profile.antt =====
-- The configuration that a talk asks a camera for (pkg/baichuan/talk.go).
use reolinkproxy.Base.{
  ℕ, List, [], ◌∷◌, ◌++◌, true, false, none, some, ok, err, ◌≡◌, refl, Bool-cases, inl, inr, ◌⊎◌,
  All, ap, sym,
}
use reolinkproxy.Motion.Texts.{Text, text_eq, elem}
use reolinkproxy.Motion.Types.{text_eq_sound, text_eq_refl, text_eq_sym}
use reolinkproxy.TalkSession.{
  TalkAudioConfig, TalkAbility, TalkConfig, Unsupported, no_profiles, no_adpcm, fdx_name,
  follow_video_stream_name, prefer, is_usable, find_usable, config_with, from_lists,
  default_talk_config,
}

-- A name is the wanted one where it is offered, and else the first of those offered.
abbrev pub IsChoice : Text → List Text → Text → Type 0
IsChoice wanted offered t =
    ((elem wanted offered ≡ true) × (t ≡ wanted))
    ⊎ ((elem wanted offered ≡ false) × ((rest : List Text) × (offered ≡ t ∷ rest)))

prefer_lem :
    (wanted first : Text) (names : List Text)
    → ((elem wanted names ≡ true) × (prefer wanted first names ≡ wanted))
      ⊎ ((elem wanted names ≡ false) × (prefer wanted first names ≡ first))
unfolding prefer
prefer_lem wanted first [] = inr (refl, refl)
prefer_lem wanted first (n ∷ names) = elim (Bool-cases (text_eq n wanted)) [
  | inl e ↦
      let same = text_eq_sound n wanted e in inl (rw (same, text_eq_refl wanted) refl, rw e same)
  | inr e ↦ rw (e, text_eq_sym n wanted e) (prefer_lem wanted first names)
]

prefer-IsChoice :
    (wanted first : Text) (names : List Text)
    → IsChoice wanted (first ∷ names) (prefer wanted first (first ∷ names))
prefer-IsChoice wanted first names = elim (prefer_lem wanted first (first ∷ names)) [
  | inl h ↦ inl h
  | inr (absent, e) ↦ inr (absent, (names, ap (λ t. t ∷ names) (sym e)))
]

-- The first configuration of a list that a talk can use, if there is one.
abbrev pub IsFirstUsable : List TalkAudioConfig → TalkAudioConfig → Type 0
IsFirstUsable configs cfg =
    (before : List TalkAudioConfig) × (behind : List TalkAudioConfig) × (configs
      ≡ before ++ cfg ∷ behind)
    × All (λ c. is_usable c ≡ false) before
    × (is_usable cfg ≡ true)

find_usable_lem :
    (configs : List TalkAudioConfig)
    → ((find_usable configs ≡ none) × All (λ c. is_usable c ≡ false) configs)
      ⊎ ((cfg : TalkAudioConfig) × (find_usable configs ≡ some cfg) × IsFirstUsable configs cfg)
unfolding find_usable
find_usable_lem [] = inl (refl, tt)
find_usable_lem (c ∷ configs) = elim (Bool-cases (is_usable c)) [
  | inl e ↦ inr (c, rw e refl, ([], configs, refl, tt, e))
  | inr e ↦ elim (find_usable_lem configs) [
    | inl (found, rest) ↦ inl (rw e found, (e, rest))
    | inr (cfg, found, (before, behind, split, unusable, usable)) ↦
        inr (cfg, rw e found, (c ∷ before, behind, rw split refl, (e, unusable), usable))
  ]
]

from_lists_lem :
    (channel : ℕ) (version : Text) (duplexes modes : List Text) (configs : List TalkAudioConfig)
    → ((t : TalkConfig) × (cfg : TalkAudioConfig) × (from_lists channel version duplexes modes
            configs
          ≡ ok t)
        × IsFirstUsable configs cfg
        × (t.audio_config ≡ record cfg { priority = none })
        × (t.channel_id ≡ channel)
        × IsChoice fdx_name duplexes t.duplex
        × IsChoice follow_video_stream_name modes t.audio_stream_mode)
      ⊎ ((e : Unsupported) × (from_lists channel version duplexes modes configs ≡ err e)
          × (All (λ c. is_usable c ≡ false) configs ⊎ ((duplexes ≡ []) ⊎ (modes ≡ []))))
unfolding from_lists config_with
from_lists_lem channel version [] modes configs = inr (no_profiles, refl, inr (inl refl))
from_lists_lem channel version (d ∷ ds) [] configs = inr (no_profiles, refl, inr (inr refl))
from_lists_lem channel version (d ∷ ds) (m ∷ ms) [] = inr (no_profiles, refl, inl tt)
from_lists_lem channel version (d ∷ ds) (m ∷ ms) (c ∷ cs) = elim (find_usable_lem (c ∷ cs)) [
  | inl (found, unusable) ↦ inr (no_adpcm, rw found refl, inl unusable)
  | inr (cfg, found, first) ↦ inl (
    config_with channel version (d ∷ ds) (m ∷ ms) d m cfg,
    cfg,
    rw found refl,
    first,
    refl,
    refl,
    prefer-IsChoice fdx_name d ds,
    prefer-IsChoice follow_video_stream_name m ms,
  )
]

-- Where a camera reports its talk ability: either the configuration asked for is made from the first of
-- its ADPCM profiles with a rate and a block length other than 0, without its priority, for this channel,
-- with full duplex and the mode that follows the video stream where they are offered and else the first
-- that is; or it is an error, and there is no such profile, or no duplex or no mode is offered.
pub default_talk_config_lem :
    (channel : ℕ) (a : TalkAbility)
    → ((t : TalkConfig) × (cfg : TalkAudioConfig) × (default_talk_config channel (some a) ≡ ok t)
        × IsFirstUsable a.audio_config_list cfg
        × (t.audio_config ≡ record cfg { priority = none })
        × (t.channel_id ≡ channel)
        × IsChoice fdx_name a.duplex_list t.duplex
        × IsChoice follow_video_stream_name a.audio_stream_mode_list t.audio_stream_mode)
      ⊎ ((e : Unsupported) × (default_talk_config channel (some a) ≡ err e)
          × (All (λ c. is_usable c ≡ false) a.audio_config_list
              ⊎ ((a.duplex_list ≡ []) ⊎ (a.audio_stream_mode_list ≡ []))))
unfolding default_talk_config
default_talk_config_lem channel a =
    from_lists_lem channel a.version a.duplex_list a.audio_stream_mode_list a.audio_config_list
