-- ===== src/Crypto/Key.antt =====
-- The hashes and the AES key: their shape, whatever MD5 computes.
use reolinkproxy.Base.{
  ℕ, ◌*◌, ◌/◌, ◌%◌, ◌^◌, ◌≤◌, ◌<◌, ◌≡◌, refl, bit_and, List, [], ◌∷◌, ◌++◌, arith, length,
  length-take, All, All-take, Bool, true, ◌&&◌, ◌||◌, leb, ap, suc, get_or, zero, take,
}
use reolinkproxy.Base.Bytes.{IsBytes}
use reolinkproxy.Base.Bits.{low_nibble, every_below, every_below-at}
use reolinkproxy.Crypto.{hex, hex_digits, stringify_md5, md5_modern, derive_aes_key, to_upper}

-- An upper-case hexadecimal digit.
pub is_hex : ℕ → Bool
is_hex c = (leb b'0' c && leb c b'9') || (leb b'A' c && leb c b'F')

abbrev pub IsHex : ℕ → Type 0
IsHex c = is_hex c ≡ true

hex-IsHex : (n : ℕ) → n < 16 → IsHex (get_or hex n 0)
unfolding is_hex every_below
hex-IsHex n h = every_below-at 16 (λ k. is_hex (get_or hex k 0)) n refl h

hex_digits-IsHex : (sum : List ℕ) → IsBytes sum → All IsHex (hex_digits sum)
unfolding hex_digits
hex_digits-IsHex [] h = tt
hex_digits-IsHex (b ∷ sum) h =
    let low : IsHex (get_or hex (bit_and b 0x0F) 0) =
      rw (low_nibble b h.0) (hex-IsHex (b % 16) (omega arith)) in
    (hex-IsHex (b / 2 ^ 4) (omega arith), (low, hex_digits-IsHex sum h.1))

length-hex_digits : (sum : List ℕ) → length (hex_digits sum) ≡ 2 * length sum
unfolding hex_digits
length-hex_digits [] = refl
length-hex_digits (b ∷ sum) = omega (arith, length-hex_digits sum)

to_upper_hex : (cs : List ℕ) → All IsHex cs → to_upper cs ≡ cs
unfolding to_upper is_hex
to_upper_hex [] h = refl
to_upper_hex (c ∷ cs) h = ground (arith, to_upper_hex cs h.1)

take-take_le : (m n : ℕ) (cs : List ℕ) → m ≤ n → take m (take n cs) ≡ take m cs
take-take_le zero n cs h = refl
take-take_le (suc m) zero cs h = absurd (omega arith)
take-take_le (suc m) (suc n) [] h = refl
take-take_le (suc m) (suc n) (c ∷ cs) h = ap (λ t. c ∷ t) (take-take_le m n cs (omega arith))

-- MD5 as crypto/md5 documents it: 16 bytes for every input.
module _ (md5 : List ℕ → List ℕ) (bytes : (input : List ℕ) → IsBytes (md5 input))
    (size : (input : List ℕ) → length (md5 input) ≡ 16) where
  stringify-IsHex : (input : List ℕ) → All IsHex (stringify_md5 (md5 input))
  unfolding stringify_md5
  stringify-IsHex input = All-take IsHex 31 _ (hex_digits-IsHex (md5 input) (bytes input))

  -- `MD5Modern` gives 31 upper-case hexadecimal digits: the sum without its last digit.
  pub md5_modern_shape :
      (input : List ℕ)
      → (md5_modern md5 input ≡ take 31 (hex_digits (md5 input)))
        × (length (md5_modern md5 input) ≡ 31)
        × All IsHex (md5_modern md5 input)
  unfolding md5_modern stringify_md5
  md5_modern_shape input =
      let shape = stringify-IsHex input in
      rw (to_upper_hex _ shape, to_upper_hex _ shape)
        (
          refl,
          (omega (
            arith,
            length-take 31 (hex_digits (md5 input)),
            length-hex_digits (md5 input),
            size input,
          )),
          shape,
        )

  -- The session key is the first 16 hexadecimal digits of the MD5 of nonce, dash and password.
  pub derive_aes_key_shape :
      (nonce password : List ℕ)
      → (derive_aes_key md5 nonce password ≡ take 16 (hex_digits (md5 (nonce ++ b'-' ∷ password))))
        × (length (derive_aes_key md5 nonce password) ≡ 16)
        × All IsHex (derive_aes_key md5 nonce password)
  unfolding derive_aes_key
  derive_aes_key_shape nonce password =
      let (plain, len, shape) = md5_modern_shape (nonce ++ b'-' ∷ password) in
      (
        rw (plain, take-take_le 16 31 _ (omega arith)),
        omega (arith, len, length-take 16 (md5_modern md5 (nonce ++ b'-' ∷ password))),
        All-take IsHex 16 _ shape,
      )
