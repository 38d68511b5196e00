-- ===== src/Ability.antt =====
-- The permissions of the logged-in user, pkg/baichuan/ability.go, once encoding/xml has decoded them. A
-- text is the list of its code points.
pub mod Granting
use reolinkproxy.Base.{
  ℕ, List, [], ◌∷◌, ◌++◌, Bool, true, false, not, ◌&&◌, ◌||◌, ltb, ◌==◌, if◌then◌else◌, Option,
  none, some, Result, ok, err,
}
use reolinkproxy.Motion.Texts.{Text, text_eq}

-- `abilityAccess`, a number.
pub data Access : Type 0 where
  no_access read_only read_write : Access

abbrev pub rank : Access → ℕ
rank no_access = 0
rank read_only = 1
rank read_write = 2

-- `xmlAbilitySubModule`
pub record SubModule : Type 0 where
  pub channel_id : Option ℕ
  pub ability_value : Text

-- `xmlAbilityInfo`, with the sub modules of each token that it has.
pub record AbilityInfo : Type 0 where
  pub system : Option (List SubModule)
  pub network : Option (List SubModule)
  pub alarm : Option (List SubModule)
  pub image : Option (List SubModule)
  pub video : Option (List SubModule)
  pub security : Option (List SubModule)
  pub replay : Option (List SubModule)
  pub ptz : Option (List SubModule)
  pub io : Option (List SubModule)
  pub streaming : Option (List SubModule)

-- What became of the request and of the text that answers it.
pub data Answer : Type 0 where
  refused broken missing : Answer
  info : AbilityInfo → Answer

pub data AbilityError : Type 0 where
  not_asked not_parsed no_info : AbilityError
  missing_ability : Text → Access → AbilityError

-- The map from names; a name that is not in it has no access.
abbrev pub Abilities : Type 0
Abilities = Text → Access

abbrev pub no_abilities : Abilities
no_abilities name = no_access

abbrev pub assign : Text → Access → Abilities → Abilities
assign name access abilities other = if text_eq name other then access else abilities other

-- `strings.SplitSeq` at commas, from within a part that begins with `part`.
unfoldable pub split_commas : Text → Text → List Text
split_commas part [] = part ∷ []
split_commas part (c ∷ cs) =
    let after = split_commas [] cs in
    let within = split_commas (part ++ c ∷ []) cs in if c == b',' then part ∷ after else within

abbrev pub cut_with : ℕ → Text → Option (Text × Text) → Option (Text × Text)
cut_with c cs (some (before, after)) = some (c ∷ before, after)
cut_with c cs none = if c == b'_' then some ([], cs) else none

-- What is before and after the last underscore, `strings.LastIndex`.
unfoldable pub cut_last : Text → Option (Text × Text)
cut_last [] = none
cut_last (c ∷ cs) = cut_with c cs (cut_last cs)

abbrev pub rw_suffix : Text
rw_suffix = b'r' ∷ b'w' ∷ []

abbrev pub ro_suffix : Text
ro_suffix = b'r' ∷ b'o' ∷ []

unfoldable pub access_of : Text → Option Access
access_of suffix =
    if text_eq suffix rw_suffix
    then some read_write
    else if text_eq suffix ro_suffix
    then some read_only
    else none

-- A later access counts where it is higher.
unfoldable pub raise : Text → Access → Abilities → Abilities
raise name access dst = if ltb (rank (dst name)) (rank access) then assign name access dst else dst

abbrev pub concerns : ℕ → Option ℕ → Bool
concerns channel none = true
concerns channel (some k) = k == channel

abbrev pub tokens_of : AbilityInfo → List (Option (List SubModule))
tokens_of i =
    i.system ∷ i.network ∷ i.alarm ∷ i.image ∷ i.video ∷ i.security ∷ i.replay ∷ i.ptz ∷ i.io
    ∷ i.streaming ∷ []

abbrev pub require : Text → Access → Option AbilityError
require name read_write = none
require name read_only = some (missing_ability name read_only)
require name no_access = some (missing_ability name no_access)

abbrev pub merge_grant : Option (Text × Access) → Abilities → Abilities
merge_grant none dst = dst
merge_grant (some (name, access)) dst = raise name access dst

-- `trim` and `lower` are `strings.TrimSpace` and `strings.ToLower`.
module _ (trim lower : Text → Text) where
  abbrev pub named : Text → Option Access → Option (Text × Access)
  named name none = none
  named name (some access) = some (lower name, access)

  abbrev pub grant_of : Option (Text × Text) → Option (Text × Access)
  grant_of none = none
  grant_of (some (name, suffix)) =
      if text_eq name [] || text_eq suffix [] then none else named name (access_of suffix)

  -- What a part of the list grants, if anything.
  unfoldable pub grant : Text → Option (Text × Access)
  unfolding cut_last access_of
  grant token = grant_of (cut_last (trim token))

  unfoldable pub merge_parts : List Text → Abilities → Abilities
  unfolding grant raise
  merge_parts [] dst = dst
  merge_parts (token ∷ tokens) dst = merge_parts tokens (merge_grant (grant token) dst)

  -- `mergeAbilities`
  unfoldable pub merge_abilities : Text → Abilities → Abilities
  unfolding merge_parts split_commas
  merge_abilities raw dst = merge_parts (split_commas [] raw) dst

  unfoldable pub merge_modules : ℕ → List SubModule → Abilities → Abilities
  unfolding merge_abilities
  merge_modules channel [] dst = dst
  merge_modules channel (m ∷ ms) dst =
      merge_modules channel ms
        (if concerns channel m.channel_id then merge_abilities m.ability_value dst else dst)

  unfoldable pub merge_tokens : ℕ → List (Option (List SubModule)) → Abilities → Abilities
  unfolding merge_modules
  merge_tokens channel [] dst = dst
  merge_tokens channel (none ∷ tokens) dst = merge_tokens channel tokens dst
  merge_tokens channel (some ms ∷ tokens) dst =
      merge_tokens channel tokens (merge_modules channel ms dst)

  -- `getAbilityInfo`, with `parseAbilityInfo`.
  unfoldable pub get_ability_info : ℕ → Answer → Result AbilityError Abilities
  unfolding merge_tokens
  get_ability_info channel refused = err not_asked
  get_ability_info channel broken = err not_parsed
  get_ability_info channel missing = err no_info
  get_ability_info channel (info i) = ok (merge_tokens channel (tokens_of i) no_abilities)

  -- `abilityAccess`
  unfoldable pub ability_access : ℕ → Text → Answer → Result AbilityError Access
  unfolding get_ability_info
  ability_access channel name answer = elim (get_ability_info channel answer) [
    | ok abilities ↦ ok (abilities (lower name))
    | err e ↦ err e
  ]

  -- `requireAbilityRW`: the error, if there is one.
  unfoldable pub require_ability_rw : ℕ → Text → Answer → Option AbilityError
  unfolding ability_access
  require_ability_rw channel name answer = elim (ability_access channel name answer) [
    | ok access ↦ require name access
    | err e ↦ some e
  ]
