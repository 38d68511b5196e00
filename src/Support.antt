-- ===== src/Support.antt =====
-- The capability report of pkg/baichuan/support.go, once encoding/xml has decoded it.
pub mod Channels
use reolinkproxy.Base.{
  ℕ, zero, suc, ◌+◌, ◌/◌, ◌%◌, ◌^◌, List, [], ◌∷◌, Bool, true, false, not, ◌&&◌, ◌||◌, leb, ◌==◌,
  if◌then◌else◌, Option, none, some,
}
use reolinkproxy.Base.Int.{ℤ, pos, negsuc, ltb_ℤ}

-- The names that `AITypes` holds; `parcel` is "package", a reserved word here.
pub data AiType : Type 0 where
  people vehicle face dog_cat parcel non_motor_vehicle : AiType

pub record ChannelCapabilities : Type 0 where
  pub channel : ℤ
  pub ptz : Bool
  pub pan : Bool
  pub tilt : Bool
  pub zoom : Bool
  pub battery : Bool
  pub doorbell : Bool
  pub siren : Bool
  pub floodlight : Bool
  pub talk : Bool
  pub motion : Bool
  pub ai_types : List AiType

pub record Support : Type 0 where
  pub channel_num : ℤ
  pub audio_talk : Bool
  pub extern_stream : Bool
  pub channels : List ChannelCapabilities

-- `xmlSupportItem`
pub record Item : Type 0 where
  pub chn_id : ℤ
  pub channel_type : List ℕ
  pub ptz_type : ℤ
  pub battery : ℤ
  pub doorbell_version : ℤ
  pub audio_version : ℤ
  pub led_ctrl : ℤ
  pub ipc_audio_talk : Option ℤ
  pub motion : ℤ
  pub ai_type : ℤ

-- `xmlSupport`, without the fields that nothing reads.
pub record RawSupport : Type 0 where
  pub channel_num : ℤ
  pub audio_talk : ℤ
  pub no_extern_stream : ℤ
  pub items : List Item

abbrev pub eq_ℤ : ℤ → ℤ → Bool
eq_ℤ a b = not (ltb_ℤ a b) && not (ltb_ℤ b a)

-- `(v>>bit)&1 == 1`: the shift of -(n + 1) is -(n / 2^bit + 1).
pub bit_set : ℕ → ℤ → Bool
bit_set bit (pos n) = n / 2 ^ bit % 2 == 1
bit_set bit (negsuc n) = n / 2 ^ bit % 2 == 0

pub to_lower : ℕ → ℕ
to_lower c = if leb b'A' c && leb c b'Z' then c + 32 else c

-- `strings.EqualFold` with a text of letters that fold within ASCII only.
pub equal_fold : List ℕ → List ℕ → Bool
equal_fold [] [] = true
equal_fold [] (p ∷ ps) = false
equal_fold (c ∷ cs) [] = false
equal_fold (c ∷ cs) (p ∷ ps) = to_lower c == to_lower p && equal_fold cs ps

abbrev pub doorbell_type : List ℕ
doorbell_type = b'd' ∷ b'o' ∷ b'o' ∷ b'r' ∷ b'b' ∷ b'e' ∷ b'l' ∷ b'l' ∷ []

abbrev pub code_of : AiType → ℕ
code_of people = 0
code_of vehicle = 1
code_of face = 2
code_of dog_cat = 3
code_of parcel = 4
code_of non_motor_vehicle = 5

-- `slices.Contains`
pub contains : AiType → List AiType → Bool
contains t [] = false
contains t (u ∷ us) = code_of t == code_of u || contains t us

-- The appends of one round, at the end of what the earlier rounds left.
pub snoc : List AiType → AiType → List AiType
snoc [] t = t ∷ []
snoc (u ∷ us) t = u ∷ snoc us t

-- The loop over the table of bits, which is its third argument.
pub ai_loop : ℤ → List AiType → List (ℕ × AiType) → List AiType
ai_loop v found [] = found
ai_loop v found ((bit, name) ∷ table) =
    ai_loop v (if bit_set bit v && not (contains name found) then snoc found name else found) table

abbrev pub ai_table : List (ℕ × AiType)
ai_table =
    (1, people)
    ∷ (2, vehicle)
    ∷ (3, face)
    ∷ (4, dog_cat)
    ∷ (17, parcel)
    ∷ (23, parcel)
    ∷ (23, non_motor_vehicle)
    ∷ []

abbrev pub is : ℕ → ℤ → Bool
is n v = eq_ℤ v (pos n)

unfoldable pub decode_channel_capabilities : Item → Bool → ChannelCapabilities
unfolding ai_loop contains snoc bit_set equal_fold to_lower
decode_channel_capabilities item device_talk = record {
  channel = item.chn_id;
  ptz = not (is 0 item.ptz_type);
  pan =
      is 2 item.ptz_type
      || (is 3 item.ptz_type || (is 5 item.ptz_type || (is 6 item.ptz_type || is 7 item.ptz_type)));
  tilt = is 2 item.ptz_type || (is 3 item.ptz_type || (is 5 item.ptz_type || is 6 item.ptz_type));
  zoom = is 1 item.ptz_type || (is 2 item.ptz_type || is 5 item.ptz_type);
  battery = ltb_ℤ (pos 0) item.battery;
  doorbell = ltb_ℤ (pos 0) item.doorbell_version || equal_fold item.channel_type doorbell_type;
  siren = bit_set 2 item.audio_version;
  floodlight = bit_set 1 item.led_ctrl && bit_set 2 item.led_ctrl;
  talk = elim item.ipc_audio_talk [ none ↦ device_talk | some v ↦ not (is 0 v) ];
  motion = ltb_ℤ (pos 0) item.motion;
  ai_types = ai_loop item.ai_type [] ai_table;
}

pub decode_items : List Item → Bool → List ChannelCapabilities
decode_items [] device_talk = []
decode_items (item ∷ items) device_talk =
    decode_channel_capabilities item device_talk ∷ decode_items items device_talk

-- `GetSupport` after the reply was decoded; `is_nvr` is what the login said of the device.
unfoldable pub get_support : Bool → RawSupport → Support
unfolding decode_items
get_support is_nvr raw =
    let audio_talk = not (is 0 raw.audio_talk) in
    record {
      channel_num = raw.channel_num;
      audio_talk = audio_talk;
      extern_stream = is 0 raw.no_extern_stream;
      channels = decode_items raw.items (audio_talk && not is_nvr);
    }

-- The loop of `CapabilitiesFor`.
pub find_channel : ℕ → List ChannelCapabilities → Option ChannelCapabilities
find_channel channel [] = none
find_channel channel (ch ∷ channels) =
    if is channel ch.channel then some ch else find_channel channel channels

unfoldable pub capabilities_for : Support → ℕ → Option ChannelCapabilities
unfolding find_channel
capabilities_for s channel = find_channel channel s.channels
