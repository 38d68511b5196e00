-- ===== src/Crypto.antt =====
-- The ciphers of pkg/baichuan/crypto.go. MD5 and AES-CFB are Go's standard library: parameters.
pub mod Stream
pub mod Auto
pub mod Key
use reolinkproxy.Base.{
  ℕ, zero, suc, ◌+◌, ◌-◌, ◌/◌, ◌%◌, ◌^◌, bit_and, bit_xor, List, [], ◌∷◌, ◌++◌, Bool, true, false,
  ◌&&◌, ◌||◌, leb, ◌==◌, if◌then◌else◌, length, take, drop, get_or,
}
use reolinkproxy.Base.Bytes.{byte0, byte1, byte2, byte3}

abbrev pub bc_xml_key : List ℕ
bc_xml_key = 0x1F ∷ 0x2D ∷ 0x3C ∷ 0x4B ∷ 0x5A ∷ 0x69 ∷ 0x78 ∷ 0xFF ∷ []

abbrev pub udp_xml_key : List ℕ
udp_xml_key =
    0x1f2d3c4b ∷ 0x5a6c7f8d ∷ 0x38172e4b ∷ 0x8271635a ∷ 0x863f1a2b ∷ 0xa5c6f7d8 ∷ 0x8371e1b4
    ∷ 0x17f2d3a5 ∷ []

-- `strings.ToUpper` on ASCII.
pub to_upper : List ℕ → List ℕ
to_upper [] = []
to_upper (c ∷ cs) = (if leb b'a' c && leb c b'z' then c - 32 else c) ∷ to_upper cs

abbrev pub hex : List ℕ
hex =
    b'0' ∷ b'1' ∷ b'2' ∷ b'3' ∷ b'4' ∷ b'5' ∷ b'6' ∷ b'7' ∷ b'8' ∷ b'9' ∷ b'A' ∷ b'B' ∷ b'C' ∷ b'D'
    ∷ b'E' ∷ b'F' ∷ []

-- The loop of `stringifyMD5`.
pub hex_digits : List ℕ → List ℕ
hex_digits [] = []
hex_digits (b ∷ sum) = get_or hex (b / 2 ^ 4) 0 ∷ get_or hex (bit_and b 0x0F) 0 ∷ hex_digits sum

pub stringify_md5 : List ℕ → List ℕ
stringify_md5 sum = take 31 (hex_digits sum)

-- Trimming the empty suffix changes nothing.
unfoldable pub md5_modern : (List ℕ → List ℕ) → List ℕ → List ℕ
unfolding to_upper hex_digits stringify_md5
md5_modern md5 input = to_upper (to_upper (stringify_md5 (md5 input)))

unfoldable pub derive_aes_key : (List ℕ → List ℕ) → List ℕ → List ℕ → List ℕ
derive_aes_key md5 nonce password = take 16 (md5_modern md5 (nonce ++ b'-' ∷ password))

-- The loop of `BCXOR` from index `i` on.
pub bcxor_from : ℕ → ℕ → List ℕ → List ℕ
bcxor_from offset i [] = []
bcxor_from offset i (b ∷ buf) =
    bit_xor (bit_xor b (get_or bc_xml_key ((offset + i) % length bc_xml_key) 0)) offset
    ∷ bcxor_from offset (i + 1) buf

unfoldable pub bcxor : ℕ → List ℕ → List ℕ
unfolding bcxor_from
bcxor offset buf = bcxor_from offset 0 buf

-- The bytes of `udpXMLKey`, each word shifted by the transaction id.
pub key_stream : ℕ → List ℕ → List ℕ
key_stream tid [] = []
key_stream tid (key ∷ keys) =
    let value = (key + tid) % 2 ^ 32 in
    byte0 value ∷ byte1 value ∷ byte2 value ∷ byte3 value ∷ key_stream tid keys

-- The loop of `UDPXOR` from index `i` on.
pub udpxor_from : List ℕ → ℕ → List ℕ → List ℕ
udpxor_from stream i [] = []
udpxor_from stream i (b ∷ buf) =
    bit_xor b (get_or stream (i % length stream) 0) ∷ udpxor_from stream (i + 1) buf

unfoldable pub udpxor : ℕ → List ℕ → List ℕ
unfolding key_stream udpxor_from
udpxor tid buf = udpxor_from (key_stream tid udp_xml_key) 0 buf

-- `EncryptionMode`; the source's `default` branches are for values no code assigns.
pub data EncryptionMode : Type 0 where
  encryption_none encryption_bc encryption_aes : EncryptionMode

-- AES in CFB mode with the fixed IV, from crypto/aes and crypto/cipher: what it encrypts under a
-- key it decrypts under that key, and neither changes the length.
pub record AesCfb : Type 0 where
  pub encrypt : List ℕ → List ℕ → List ℕ
  pub decrypt : List ℕ → List ℕ → List ℕ
  pub decrypt-encrypt : (key buf : List ℕ) → Path (List ℕ) (decrypt key (encrypt key buf)) buf
  pub length-encrypt : (key buf : List ℕ) → Path ℕ (length (encrypt key buf)) (length buf)

-- What `snapshotCipher` returns: the mode, and the key once there is one (`hasAESKey`).
pub record Cipher : Type 0 where
  pub mode : EncryptionMode
  pub aes_key : List ℕ
  pub has_aes_key : Bool

module _ (aes : AesCfb) where
  abbrev encrypt_mode : ℕ → List ℕ → List ℕ → Bool → EncryptionMode → List ℕ
  encrypt_mode offset buf key has encryption_none = buf
  encrypt_mode offset buf key has encryption_bc = bcxor offset buf
  encrypt_mode offset buf key has encryption_aes =
      if has then aes.encrypt key buf else bcxor offset buf

  abbrev decrypt_mode : ℕ → List ℕ → List ℕ → Bool → EncryptionMode → List ℕ
  decrypt_mode offset buf key has encryption_none = buf
  decrypt_mode offset buf key has encryption_bc = bcxor offset buf
  decrypt_mode offset buf key has encryption_aes =
      if has then aes.decrypt key buf else bcxor offset buf

  unfoldable pub encrypt_xml : ℕ → List ℕ → Cipher → List ℕ
  encrypt_xml offset buf c = encrypt_mode offset buf c.aes_key c.has_aes_key c.mode

  unfoldable pub decrypt_xml : ℕ → List ℕ → Cipher → List ℕ
  decrypt_xml offset buf c = decrypt_mode offset buf c.aes_key c.has_aes_key c.mode

-- `bytes.TrimLeft(buf, " \t\r\n")`
pub trim_left : List ℕ → List ℕ
trim_left [] = []
trim_left (c ∷ cs) =
    if c == 0x20 || c == 0x09 || c == 0x0D || c == 0x0A then trim_left cs else c ∷ cs

pub has_prefix : List ℕ → List ℕ → Bool
has_prefix buf [] = true
has_prefix [] (p ∷ ps) = false
has_prefix (c ∷ cs) (p ∷ ps) = c == p && has_prefix cs ps

unfoldable pub is_xml_prefix : List ℕ → Bool
unfolding trim_left has_prefix
is_xml_prefix buf = has_prefix (trim_left buf) (b'<' ∷ b'?' ∷ b'x' ∷ b'm' ∷ b'l' ∷ [])

module _ (aes : AesCfb) where
  unfoldable pub decrypt_xml_auto : ℕ → List ℕ → Cipher → List ℕ
  decrypt_xml_auto offset buf c =
      let out = decrypt_xml aes offset buf c in
      if is_xml_prefix out
      then out
      else if is_xml_prefix buf
      then buf
      else if is_xml_prefix (bcxor offset buf)
      then bcxor offset buf
      else if c.has_aes_key && is_xml_prefix (aes.decrypt c.aes_key buf)
      then aes.decrypt c.aes_key buf
      else out
