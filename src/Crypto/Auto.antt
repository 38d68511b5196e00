-- ===== src/Crypto/Auto.antt =====
-- `decryptXMLAuto`: what it finds, and when it gives the session's own decryption.
use reolinkproxy.Base.{ℕ, ◌≡◌, ◌⊎◌, ◌↔◌, List, arith, true, false}
use reolinkproxy.Crypto.{
  AesCfb, Cipher, bcxor, encrypt_xml, decrypt_xml, decrypt_xml_auto, is_xml_prefix,
}
use reolinkproxy.Crypto.Stream.{decrypt_xml-encrypt_xml, bcxor-bcxor}

module _ (aes : AesCfb) (offset : ℕ) where
  -- A message that the session's own cipher encrypted comes back, if it is XML.
  pub decrypt_xml_auto-encrypt_xml :
      (buf : List ℕ) (c : Cipher)
      → is_xml_prefix buf ≡ true
      → decrypt_xml_auto aes offset (encrypt_xml aes offset buf c) c ≡ buf
  unfolding decrypt_xml_auto
  decrypt_xml_auto-encrypt_xml buf c h = ground (arith, decrypt_xml-encrypt_xml aes offset buf c)

  -- An XML message that was BC-encrypted comes back in a session of any mode, unless the session's
  -- cipher turns it, or it already looks like, some other XML text.
  pub decrypt_xml_auto-bcxor :
      (buf : List ℕ) (c : Cipher)
      → is_xml_prefix buf ≡ true
      → is_xml_prefix (decrypt_xml aes offset (bcxor offset buf) c) ≡ false
      → is_xml_prefix (bcxor offset buf) ≡ false
      → decrypt_xml_auto aes offset (bcxor offset buf) c ≡ buf
  unfolding decrypt_xml_auto
  decrypt_xml_auto-bcxor buf c h no_session no_plain = ground (arith, bcxor-bcxor offset buf)

  -- The result is XML exactly when one of the candidates is: the session's decryption, the bytes
  -- as they are, their BC decryption, or their AES decryption in a session that has a key. When
  -- none is, the result is the session's decryption.
  pub decrypt_xml_auto_complete :
      (buf : List ℕ) (c : Cipher)
      → ((is_xml_prefix (decrypt_xml_auto aes offset buf c) ≡ true) ↔ (
          (is_xml_prefix (decrypt_xml aes offset buf c) ≡ true)
          ⊎ ((is_xml_prefix buf ≡ true)
              ⊎ ((is_xml_prefix (bcxor offset buf) ≡ true)
                  ⊎ ((c.has_aes_key ≡ true)
                      × (is_xml_prefix (aes.decrypt c.aes_key buf) ≡ true))))))
        × ((is_xml_prefix (decrypt_xml_auto aes offset buf c) ≡ true)
            ⊎ (decrypt_xml_auto aes offset buf c ≡ decrypt_xml aes offset buf c))
  unfolding decrypt_xml_auto
  decrypt_xml_auto_complete buf c = ground arith
