-- ===== src/Ability/Granting.antt =====
-- What a user may do by the abilities that a camera reports (pkg/baichuan/ability.go).
use reolinkproxy.Base.{
  ℕ, ◌≡◌, refl, List, [], ◌∷◌, ◌++◌, Bool, true, false, ◌&&◌, ◌||◌, ltb, ◌==◌, if◌then◌else◌,
  Option, none, some, Bool-cases, inl, inr, ◌∙◌, sym, ap,
}
use reolinkproxy.Motion.Texts.{Text, text_eq}
use reolinkproxy.Motion.Types.{text_eq_sound, text_eq_refl}
use reolinkproxy.Ability.{
  Access, no_access, read_only, read_write, rank, SubModule, AbilityInfo, info, Abilities,
  no_abilities, assign, split_commas, raise, grant, merge_grant, merge_parts, merge_abilities,
  concerns, merge_modules, merge_tokens, tokens_of, get_ability_info, ability_access, require,
  require_ability_rw,
}

abbrev Grants : Type 0
Grants = List (Text × Access)

-- The higher of two.
abbrev higher : Access → Access → Access
higher read_write b = read_write
higher read_only read_write = read_write
higher read_only read_only = read_only
higher read_only no_access = read_only
higher no_access b = b

higher_assoc : (a b c : Access) → higher (higher a b) c ≡ higher a (higher b c)
higher_assoc read_write b c = refl
higher_assoc no_access b c = refl
higher_assoc read_only read_write c = refl
higher_assoc read_only no_access c = refl
higher_assoc read_only read_only read_write = refl
higher_assoc read_only read_only read_only = refl
higher_assoc read_only read_only no_access = refl

higher_none : (a : Access) → higher a no_access ≡ a
higher_none no_access = refl
higher_none read_only = refl
higher_none read_write = refl

higher_test : (a b : Access) → (if ltb (rank a) (rank b) then b else a) ≡ higher a b
higher_test no_access no_access = refl
higher_test no_access read_only = refl
higher_test no_access read_write = refl
higher_test read_only no_access = refl
higher_test read_only read_only = refl
higher_test read_only read_write = refl
higher_test read_write no_access = refl
higher_test read_write read_only = refl
higher_test read_write read_write = refl

-- Whether one of the grants gives a name this access.
abbrev pub has_grant : Access → Text → Grants → Bool
has_grant a name [] = false
has_grant a name ((other, given) ∷ grants) =
    text_eq other name && rank given == rank a || has_grant a name grants

-- The access that grants give a name: to write if one says so, else to read if one says so.
abbrev pub allowed : Text → Grants → Access
allowed name grants =
    if has_grant read_write name grants
    then read_write
    else if has_grant read_only name grants
    then read_only
    else no_access

abbrev HigherIf : Access → Bool → Bool → Type 0
HigherIf a w r =
    (if rank a == 2 || w then read_write else if rank a == 1 || r then read_only else no_access)
    ≡ higher a (if w then read_write else if r then read_only else no_access)

higher-if : (a : Access) (w r : Bool) → HigherIf a w r
higher-if no_access w r = refl
higher-if read_write w r = refl
higher-if read_only true r = refl
higher-if read_only false true = refl
higher-if read_only false false = refl

allowed-cons :
    (name other : Text) (a : Access) (grants : Grants)
    → allowed name ((other, a) ∷ grants)
      ≡ (if text_eq other name then higher a (allowed name grants) else allowed name grants)
allowed-cons name other a grants = elim (Bool-cases (text_eq other name)) [
  | inl same ↦
      rw same (higher-if a (has_grant read_write name grants) (has_grant read_only name grants))
  | inr differ ↦ rw differ refl
]

if_apply :
    (c : Bool) (f g : Abilities) (name : Text)
    → (if c then f else g) name ≡ (if c then f name else g name)
if_apply true f g name = refl
if_apply false f g name = refl

if_same : (c : Bool) (a : Access) → (if c then a else a) ≡ a
if_same true a = refl
if_same false a = refl

raise_at :
    (name other : Text) (a : Access) (dst : Abilities)
    → raise other a dst name ≡ (if text_eq other name then higher (dst name) a else dst name)
unfolding raise
raise_at name other a dst =
    if_apply (ltb (rank (dst other)) (rank a)) (assign other a dst) dst name
    ∙ elim (Bool-cases (text_eq other name)) [
      | inl same ↦ rw (text_eq_sound other name same, text_eq_refl name) (higher_test (dst name) a)
      | inr differ ↦ rw differ (if_same (ltb (rank (dst other)) (rank a)) (dst name))
    ]

abbrev raise_all : Grants → Abilities → Abilities
raise_all [] dst = dst
raise_all ((name, a) ∷ grants) dst = raise_all grants (raise name a dst)

raise_all_at :
    (name : Text) (grants : Grants) (dst : Abilities)
    → raise_all grants dst name ≡ higher (dst name) (allowed name grants)
raise_all_at name [] dst = sym (higher_none (dst name))
raise_all_at name ((other, a) ∷ grants) dst =
    raise_all_at name grants (raise other a dst)
    ∙ rw (raise_at name other a dst, allowed-cons name other a grants)
        (elim (Bool-cases (text_eq other name)) [
          | inl same ↦ rw same (higher_assoc (dst name) a (allowed name grants))
          | inr differ ↦ rw differ refl
        ])

raise_all-append :
    (gs hs : Grants) (dst : Abilities) → raise_all (gs ++ hs) dst ≡ raise_all hs (raise_all gs dst)
raise_all-append [] hs dst = refl
raise_all-append ((name, a) ∷ gs) hs dst = raise_all-append gs hs (raise name a dst)

abbrev pub put_grant : Option (Text × Access) → Grants → Grants
put_grant none grants = grants
put_grant (some g) grants = g ∷ grants

put_grant_all :
    (g : Option (Text × Access)) (grants : Grants) (dst : Abilities)
    → raise_all grants (merge_grant g dst) ≡ raise_all (put_grant g grants) dst
put_grant_all none grants dst = refl
put_grant_all (some (name, a)) grants dst = refl

module _ (trim lower : Text → Text) where
  -- What a list of abilities grants, part by part.
  abbrev pub part_grants : List Text → Grants
  part_grants [] = []
  part_grants (token ∷ tokens) = put_grant (grant trim lower token) (part_grants tokens)

  abbrev pub module_grants : ℕ → List SubModule → Grants
  module_grants channel [] = []
  module_grants channel (m ∷ ms) =
      (if concerns channel m.channel_id then part_grants (split_commas [] m.ability_value) else [])
      ++ module_grants channel ms

  -- All that a report grants for a channel.
  abbrev pub token_grants : ℕ → List (Option (List SubModule)) → Grants
  token_grants channel [] = []
  token_grants channel (none ∷ tokens) = token_grants channel tokens
  token_grants channel (some ms ∷ tokens) = module_grants channel ms ++ token_grants channel tokens

  merge_parts_all :
      (tokens : List Text) (dst : Abilities)
      → merge_parts trim lower tokens dst ≡ raise_all (part_grants tokens) dst
  unfolding merge_parts
  merge_parts_all [] dst = refl
  merge_parts_all (token ∷ tokens) dst =
      merge_parts_all tokens (merge_grant (grant trim lower token) dst)
      ∙ put_grant_all (grant trim lower token) (part_grants tokens) dst

  if_all :
      (c : Bool) (raw : Text) (dst : Abilities)
      → (if c then merge_abilities trim lower raw dst else dst)
        ≡ raise_all (if c then part_grants (split_commas [] raw) else []) dst
  unfolding merge_abilities
  if_all true raw dst = merge_parts_all (split_commas [] raw) dst
  if_all false raw dst = refl

  merge_modules_all :
      (channel : ℕ) (ms : List SubModule) (dst : Abilities)
      → merge_modules trim lower channel ms dst ≡ raise_all (module_grants channel ms) dst
  unfolding merge_modules
  merge_modules_all channel [] dst = refl
  merge_modules_all channel (m ∷ ms) dst =
      let mine = concerns channel m.channel_id in
      let first = if mine then part_grants (split_commas [] m.ability_value) else [] in
      ap (merge_modules trim lower channel ms) (if_all mine m.ability_value dst)
      ∙ merge_modules_all channel ms (raise_all first dst)
      ∙ sym (raise_all-append first (module_grants channel ms) dst)

  merge_tokens_all :
      (channel : ℕ) (tokens : List (Option (List SubModule))) (dst : Abilities)
      → merge_tokens trim lower channel tokens dst ≡ raise_all (token_grants channel tokens) dst
  unfolding merge_tokens
  merge_tokens_all channel [] dst = refl
  merge_tokens_all channel (none ∷ tokens) dst = merge_tokens_all channel tokens dst
  merge_tokens_all channel (some ms ∷ tokens) dst =
      ap (merge_tokens trim lower channel tokens) (merge_modules_all channel ms dst)
      ∙ merge_tokens_all channel tokens (raise_all (module_grants channel ms) dst)
      ∙ sym (raise_all-append (module_grants channel ms) (token_grants channel tokens) dst)

-- Where the camera reports its abilities: an operation is let through just when a part of a list that
-- concerns the channel grants writing to its name, whatever else is granted before or after it; and
-- else the error says to read if a part grants reading, and none if no part does.
pub require_ability_rw-allowed :
    (trim lower : Text → Text) (channel : ℕ) (name : Text) (i : AbilityInfo)
    → require_ability_rw trim lower channel name (info i)
      ≡ require name (allowed (lower name) (token_grants trim lower channel (tokens_of i)))
unfolding require_ability_rw ability_access get_ability_info
require_ability_rw-allowed trim lower channel name i = ap (require name) (
    ap (λ m. m (lower name)) (merge_tokens_all trim lower channel (tokens_of i) no_abilities)
    ∙ raise_all_at (lower name) (token_grants trim lower channel (tokens_of i)) no_abilities)
