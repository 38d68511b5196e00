-- ===== src/Base/Bytes.antt =====
-- Bytes, and the little-endian words of encoding/binary.
use Prim.Native.Nat.{ℕ, ◌+◌, ◌*◌, ◌/◌, ◌%◌, ◌^◌, ◌<◌}
use mathlib.Core.Path.{◌≡◌}
use mathlib.Core.List.{List, ◌∷◌}
use native.Mathlib.Omega.{arith}
use reolinkproxy.Base.Lists.{get_or, drop, All}

abbrev pub IsByte : ℕ → Type 0
IsByte b = b < 256

abbrev pub IsU16 : ℕ → Type 0
IsU16 v = v < 2 ^ 16

abbrev pub IsU32 : ℕ → Type 0
IsU32 v = v < 2 ^ 32

abbrev pub IsBytes : List ℕ → Type 0
IsBytes = All IsByte

-- byte(v), byte(v >> 8), byte(v >> 16), byte(v >> 24)
abbrev pub byte0 : ℕ → ℕ
byte0 v = v % 256

abbrev pub byte1 : ℕ → ℕ
byte1 v = v / 256 % 256

abbrev pub byte2 : ℕ → ℕ
byte2 v = v / 65536 % 256

abbrev pub byte3 : ℕ → ℕ
byte3 v = v / 16777216 % 256

-- The words that two and four bytes spell.
unfoldable pub word16 : ℕ → ℕ → ℕ
word16 a b = a + 256 * b

unfoldable pub word32 : ℕ → ℕ → ℕ → ℕ → ℕ
word32 a b c d = a + 256 * b + 65536 * c + 16777216 * d

-- binary.LittleEndian.Uint16(buf[i:i+2]), where the caller has checked the length.
abbrev pub uint16_at : ℕ → List ℕ → ℕ
uint16_at i buf = let b = drop i buf in word16 (get_or b 0 0) (get_or b 1 0)

-- binary.LittleEndian.Uint32(buf[i:i+4])
abbrev pub uint32_at : ℕ → List ℕ → ℕ
uint32_at i buf =
    let b = drop i buf in word32 (get_or b 0 0) (get_or b 1 0) (get_or b 2 0) (get_or b 3 0)

-- binary.LittleEndian.PutUint16 and PutUint32, put in front of the bytes that follow.
abbrev pub put_uint16 : ℕ → List ℕ → List ℕ
put_uint16 v rest = byte0 v ∷ byte1 v ∷ rest

abbrev pub put_uint32 : ℕ → List ℕ → List ℕ
put_uint32 v rest = byte0 v ∷ byte1 v ∷ byte2 v ∷ byte3 v ∷ rest

pub word16_bytes : (v : ℕ) → IsU16 v → word16 (byte0 v) (byte1 v) ≡ v
unfolding word16
word16_bytes v h = omega arith

pub word32_bytes : (v : ℕ) → IsU32 v → word32 (byte0 v) (byte1 v) (byte2 v) (byte3 v) ≡ v
unfolding word32
word32_bytes v h = omega arith

pub word16-IsU16 : (a b : ℕ) → IsByte a → IsByte b → IsU16 (word16 a b)
unfolding word16
word16-IsU16 a b p q = omega arith

pub word32-IsU32 :
    (a b c d : ℕ) → IsByte a → IsByte b → IsByte c → IsByte d → IsU32 (word32 a b c d)
unfolding word32
word32-IsU32 a b c d p q r s = omega arith
