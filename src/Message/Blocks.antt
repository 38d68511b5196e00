-- ===== src/Message/Blocks.antt =====
-- The two blocks of a message of pkg/baichuan/message.go, sealed by one side and opened by the other.
use reolinkproxy.Base.{
  ℕ, ◌≡◌, ◌≢◌, refl, List, [], ◌∷◌, true, false, arith, length, Option, ◌==◌, inl, inr, ◌⊎◌,
}
use reolinkproxy.Crypto.{AesCfb, encrypt_xml, decrypt_xml_auto, is_xml_prefix}
use reolinkproxy.Crypto.Auto.{decrypt_xml_auto-encrypt_xml}
use reolinkproxy.Crypto.Stream.{length-encrypt_xml}
use reolinkproxy.Message.{
  Request, Wire, Xml, Extension, class_legacy, snapshot_cipher, decode_extension, decode_payload,
}
use reolinkproxy.Message.Encode.{sealed_body, sealed_extension, request_cipher}

-- A block of a request: absent, or an XML document.
abbrev pub IsBlock : List ℕ → Type 0
IsBlock buf = (length buf ≡ 0) ⊎ (is_xml_prefix buf ≡ true)

length_zero : (buf : List ℕ) → length buf ≡ 0 → buf ≡ []
length_zero [] h = refl
length_zero (b ∷ buf) h = absurd (omega arith)

-- The text that the client keeps of a block.
abbrev pub text_of : Xml → List ℕ → List ℕ
text_of xml [] = []
text_of xml (b ∷ buf) = xml.trim_space (b ∷ buf)

module _ (aes : AesCfb) (xml : Xml) (w : Wire) (r : Request) (modern : r.class ≢ class_legacy)
    (own : r.force_bc ≡ false) where
  cipher_lem : request_cipher w r ≡ snapshot_cipher w
  unfolding request_cipher
  cipher_lem = rw own

  decode_extension_some :
      (buf : List ℕ)
      → length buf ≢ 0
      → let extension = decrypt_xml_auto aes r.channel_id buf (snapshot_cipher w) in
        decode_extension aes xml (snapshot_cipher w) r.channel_id buf
        ≡ (extension, xml.trim_space extension)
  unfolding decode_extension
  decode_extension_some [] h = absurd (h refl)
  decode_extension_some (b ∷ buf) h = refl

  decode_payload_some :
      (text : List ℕ) (meta : Option Extension) (buf : List ℕ)
      → length buf ≢ 0
      → let payload = decrypt_xml_auto aes r.channel_id buf (snapshot_cipher w) in
        decode_payload aes xml (snapshot_cipher w) r.channel_id false meta text buf
        ≡ (payload, xml.trim_space payload)
  unfolding decode_payload
  decode_payload_some text meta [] h = absurd (h refl)
  decode_payload_some text meta (b ∷ buf) h = refl

  text_some : (buf : List ℕ) → length buf ≢ 0 → text_of xml buf ≡ xml.trim_space buf
  text_some [] h = absurd (h refl)
  text_some (b ∷ buf) h = refl

  modern_test : (r.class == class_legacy) ≡ false
  modern_test = ground (arith, modern)

  sealed : List ℕ → List ℕ
  sealed buf = encrypt_xml aes r.channel_id buf (snapshot_cipher w)

  sealed_ne : (buf : List ℕ) → length buf ≢ 0 → length (sealed buf) ≢ 0
  unfolding sealed
  sealed_ne buf full e =
      full (ground (arith, length-encrypt_xml aes r.channel_id buf (snapshot_cipher w)))

  opened :
      (buf : List ℕ)
      → IsBlock buf
      → length buf ≢ 0
      → decrypt_xml_auto aes r.channel_id (sealed buf) (snapshot_cipher w) ≡ buf
  unfolding sealed
  opened buf b full =
      decrypt_xml_auto-encrypt_xml aes r.channel_id buf (snapshot_cipher w) (ground (arith, b))

  sealed_extension_cases :
      (sealed_extension aes w r ≡ r.extension) × (length r.extension ≡ 0)
      ⊎ (sealed_extension aes w r ≡ sealed r.extension) × (length r.extension ≢ 0)
  unfolding sealed_extension sealed
  sealed_extension_cases = ground (arith, modern, cipher_lem)

  sealed_body_cases :
      r.binary ≡ false
      → (sealed_body aes w r ≡ r.body) × (length r.body ≡ 0)
        ⊎ (sealed_body aes w r ≡ sealed r.body) × (length r.body ≢ 0)
  unfolding sealed_body sealed
  sealed_body_cases plain = ground (arith, modern, cipher_lem)

  pub open_extension :
      IsBlock r.extension
      → decode_extension aes xml (snapshot_cipher w) r.channel_id (sealed_extension aes w r)
        ≡ (r.extension, text_of xml r.extension)
  open_extension b = elim sealed_extension_cases [
    | inl (e, empty) ↦ rw (e, length_zero r.extension empty) (unfold decode_extension in refl)
    | inr (e, full) ↦ rw (
      e,
      decode_extension_some (sealed r.extension) (sealed_ne r.extension full),
      opened r.extension b full,
      text_some r.extension full,
    )
  ]

  pub open_body :
      (text : List ℕ) (meta : Option Extension)
      → IsBlock r.body
      → r.binary ≡ false
      → decode_payload aes xml
          (snapshot_cipher w)
          r.channel_id
          false
          meta
          text
          (sealed_body aes w r)
        ≡ (r.body, text_of xml r.body)
  open_body text meta b plain = elim (sealed_body_cases plain) [
    | inl (e, empty) ↦ rw (e, length_zero r.body empty) (unfold decode_payload in refl)
    | inr (e, full) ↦ rw (
      e,
      decode_payload_some text meta (sealed r.body) (sealed_ne r.body full),
      opened r.body b full,
      text_some r.body full,
    )
  ]

  pub length-sealed_extension : length (sealed_extension aes w r) ≡ length r.extension
  unfolding sealed
  length-sealed_extension = ground (
    arith,
    sealed_extension_cases,
    length-encrypt_xml aes r.channel_id r.extension (snapshot_cipher w),
  )

  pub length-sealed_body : r.binary ≡ false → length (sealed_body aes w r) ≡ length r.body
  unfolding sealed
  length-sealed_body plain = ground (
    arith,
    sealed_body_cases plain,
    length-encrypt_xml aes r.channel_id r.body (snapshot_cipher w),
  )
