-- ===== src/Support/Channels.antt =====
-- What `GetSupport` and `CapabilitiesFor` of pkg/baichuan/support.go report.
use reolinkproxy.Base.{
  ℕ, ◌+◌, ◌==◌, ◌≡◌, refl, List, [], ◌∷◌, Bool, false, not, ◌&&◌, ◌||◌, if◌then◌else◌, Option, none,
  some, arith,
}
use reolinkproxy.Base.Int.{ℤ}
use reolinkproxy.Support.{
  AiType, people, vehicle, face, dog_cat, parcel, non_motor_vehicle, ChannelCapabilities, Item,
  RawSupport, bit_set, contains, snoc, code_of, ai_loop, ai_table, is, decode_channel_capabilities,
  decode_items, get_support, find_channel, capabilities_for,
}

-- The bits that stand for a detection.
abbrev pub flagged : AiType → ℤ → Bool
flagged people v = bit_set 1 v
flagged vehicle v = bit_set 2 v
flagged face v = bit_set 3 v
flagged dog_cat v = bit_set 4 v
flagged parcel v = bit_set 17 v || bit_set 23 v
flagged non_motor_vehicle v = bit_set 23 v

-- How often a detection is listed.
abbrev pub times : AiType → List AiType → ℕ
times t [] = 0
times t (u ∷ us) = (if contains t (u ∷ []) then 1 else 0) + times t us

contains_same :
    (t u : AiType) (us : List AiType) → code_of t ≡ code_of u → contains t us ≡ contains u us
unfolding contains
contains_same t u [] e = refl
contains_same t u (x ∷ us) e = rw (e, contains_same t u us e)

contains-snoc :
    (t u : AiType) (us : List AiType)
    → contains t (snoc us u) ≡ (contains t us || code_of t == code_of u)
unfolding contains snoc
contains-snoc t u [] = ground arith
contains-snoc t u (x ∷ us) = ground (arith, contains-snoc t u us)

times-snoc :
    (t u : AiType) (us : List AiType)
    → times t (snoc us u) ≡ times t us + (if code_of t == code_of u then 1 else 0)
unfolding contains snoc
times-snoc t u [] = ground arith
times-snoc t u (x ∷ us) = ground (arith, times-snoc t u us)

-- A bit that stands for the detection, somewhere in the table.
abbrev hit : AiType → ℤ → List (ℕ × AiType) → Bool
hit t v [] = false
hit t v ((bit, name) ∷ table) = (bit_set bit v && code_of t == code_of name) || hit t v table

one_round :
    (t name : AiType) (set : Bool) (found : List AiType)
    → times t found ≡ (if contains t found then 1 else 0)
    → let next = if set && not (contains name found) then snoc found name else found in
      (times t next ≡ (if contains t next then 1 else 0))
      × (contains t next ≡ (contains t found || (set && code_of t == code_of name)))
one_round t name set found h =
    ground (arith, contains_same t name found, contains-snoc t name found, times-snoc t name found)

times-ai_loop :
    (t : AiType) (v : ℤ) (found : List AiType) (table : List (ℕ × AiType))
    → times t found ≡ (if contains t found then 1 else 0)
    → times t (ai_loop v found table) ≡ (if contains t found || hit t v table then 1 else 0)
unfolding ai_loop
times-ai_loop t v found [] h = ground arith
times-ai_loop t v found ((bit, name) ∷ table) h =
    let (once, there) = one_round t name (bit_set bit v) found h in
    let next = if bit_set bit v && not (contains name found) then snoc found name else found in
    ground (arith, times-ai_loop t v next table once, there)

hit-flagged : (t : AiType) (v : ℤ) → hit t v ai_table ≡ flagged t v
hit-flagged people v = ground arith
hit-flagged vehicle v = ground arith
hit-flagged face v = ground arith
hit-flagged dog_cat v = ground arith
hit-flagged parcel v = ground arith
hit-flagged non_motor_vehicle v = ground arith

-- A detection is listed once when one of the bits that stand for it is set, and else not at all:
-- the two bits for packages do not list them twice.
pub decode_channel_capabilities-ai_types :
    (item : Item) (device_talk : Bool) (t : AiType)
    → times t (decode_channel_capabilities item device_talk).ai_types
      ≡ (if flagged t item.ai_type then 1 else 0)
unfolding decode_channel_capabilities contains
decode_channel_capabilities-ai_types item device_talk t =
    rw (← hit-flagged t item.ai_type) (times-ai_loop t item.ai_type [] ai_table refl)

-- The first item of the report for a channel.
abbrev pub item_for : ℕ → List Item → Option Item
item_for channel [] = none
item_for channel (item ∷ items) =
    if is channel item.chn_id then some item else item_for channel items

abbrev pub decoded : Bool → Option Item → Option ChannelCapabilities
decoded device_talk none = none
decoded device_talk (some item) = some (decode_channel_capabilities item device_talk)

found :
    (items : List Item) (device_talk : Bool) (channel : ℕ)
    → find_channel channel (decode_items items device_talk)
      ≡ decoded device_talk (item_for channel items)
unfolding find_channel decode_items decode_channel_capabilities
found [] device_talk channel = refl
found (item ∷ items) device_talk channel = ground (arith, found items device_talk channel)

-- What is reported of a channel is what the first item for it says, none if there is none; a device
-- that is an NVR gives its cameras no talk of its own.
pub capabilities_for-get_support :
    (is_nvr : Bool) (raw : RawSupport) (channel : ℕ)
    → capabilities_for (get_support is_nvr raw) channel
      ≡ decoded (not (is 0 raw.audio_talk) && not is_nvr) (item_for channel raw.items)
unfolding capabilities_for get_support
capabilities_for-get_support is_nvr raw channel = found raw.items _ channel
