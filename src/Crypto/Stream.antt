-- ===== src/Crypto/Stream.antt =====
-- The XOR ciphers undo themselves, and `decryptXML` undoes `encryptXML`.
use reolinkproxy.Base.{
  ℕ, ◌+◌, ◌≡◌, refl, bit_xor, List, [], ◌∷◌, length, ap, suc, ap₂, Bool, true, false,
}
use reolinkproxy.Base.Bits.{bit_xor_cancel, bit_xor_right_comm}
use reolinkproxy.Crypto.{
  bcxor_from, bcxor, udpxor_from, udpxor, key_stream, udp_xml_key, AesCfb, Cipher, EncryptionMode,
  encryption_none, encryption_bc, encryption_aes, encrypt_xml, decrypt_xml, encrypt_mode,
  decrypt_mode,
}

-- Two masks in the same order undo each other, since the order of masks does not matter.
masks_cancel : (b k o : ℕ) → bit_xor (bit_xor (bit_xor (bit_xor b k) o) k) o ≡ b
masks_cancel b k o = cc (
  bit_xor_right_comm (bit_xor b k) o k,
  bit_xor_cancel (bit_xor (bit_xor b k) k) o,
  bit_xor_cancel b k,
)

bcxor_from_cancel :
    (offset i : ℕ) (buf : List ℕ) → bcxor_from offset i (bcxor_from offset i buf) ≡ buf
unfolding bcxor_from
bcxor_from_cancel offset i [] = refl
bcxor_from_cancel offset i (b ∷ buf) =
    ap₂ ◌∷◌ (masks_cancel b _ offset) (bcxor_from_cancel offset (i + 1) buf)

-- `BCXOR` with the same offset twice gives the buffer back.
pub bcxor-bcxor : (offset : ℕ) (buf : List ℕ) → bcxor offset (bcxor offset buf) ≡ buf
unfolding bcxor
bcxor-bcxor offset buf = bcxor_from_cancel offset 0 buf

udpxor_from_cancel :
    (stream : List ℕ) (i : ℕ) (buf : List ℕ) → udpxor_from stream i (udpxor_from stream i buf) ≡ buf
unfolding udpxor_from
udpxor_from_cancel stream i [] = refl
udpxor_from_cancel stream i (b ∷ buf) =
    ap₂ ◌∷◌ (bit_xor_cancel b _) (udpxor_from_cancel stream (i + 1) buf)

-- `UDPXOR` with the same transaction id twice gives the buffer back.
pub udpxor-udpxor : (tid : ℕ) (buf : List ℕ) → udpxor tid (udpxor tid buf) ≡ buf
unfolding udpxor
udpxor-udpxor tid buf = udpxor_from_cancel (key_stream tid udp_xml_key) 0 buf

length-bcxor_from : (offset i : ℕ) (buf : List ℕ) → length (bcxor_from offset i buf) ≡ length buf
unfolding bcxor_from
length-bcxor_from offset i [] = refl
length-bcxor_from offset i (b ∷ buf) = ap suc (length-bcxor_from offset (i + 1) buf)

pub length-bcxor : (offset : ℕ) (buf : List ℕ) → length (bcxor offset buf) ≡ length buf
unfolding bcxor
length-bcxor offset buf = length-bcxor_from offset 0 buf

module _ (aes : AesCfb) (offset : ℕ) (buf : List ℕ) where
  undo_mode :
      (key : List ℕ) (has : Bool) (mode : EncryptionMode)
      → decrypt_mode aes offset (encrypt_mode aes offset buf key has mode) key has mode ≡ buf
  undo_mode key has encryption_none = refl
  undo_mode key has encryption_bc = bcxor-bcxor offset buf
  undo_mode key true encryption_aes = aes.decrypt-encrypt key buf
  undo_mode key false encryption_aes = bcxor-bcxor offset buf

  keep_length :
      (key : List ℕ) (has : Bool) (mode : EncryptionMode)
      → length (encrypt_mode aes offset buf key has mode) ≡ length buf
  keep_length key has encryption_none = refl
  keep_length key has encryption_bc = length-bcxor offset buf
  keep_length key true encryption_aes = aes.length-encrypt key buf
  keep_length key false encryption_aes = length-bcxor offset buf

  -- In every mode, with or without a key, decrypting with the same cipher undoes encrypting.
  pub decrypt_xml-encrypt_xml :
      (c : Cipher) → decrypt_xml aes offset (encrypt_xml aes offset buf c) c ≡ buf
  unfolding decrypt_xml encrypt_xml
  decrypt_xml-encrypt_xml c = undo_mode c.aes_key c.has_aes_key c.mode

  pub length-encrypt_xml : (c : Cipher) → length (encrypt_xml aes offset buf c) ≡ length buf
  unfolding encrypt_xml
  length-encrypt_xml c = keep_length c.aes_key c.has_aes_key c.mode
