-- ===== src/Base/Bits.antt =====
-- Laws of the bit operations at variables: the equation of the lowest bit, and what follows.
use Prim.Native.Nat.{
  ℕ, zero, suc, ◌+◌, ◌*◌, ◌/◌, ◌%◌, ◌^◌, ◌≤◌, ◌<◌, bit_and, bit_or, bit_xor, digits,
  bit_xor-bitwise, bit_and-bitwise, min,
}
use Prim.Native.Nat.{differ}
use mathlib.Core.Path.{◌≡◌, refl}
use mathlib.Core.Bool.{Bool, true, ◌&&◌}
use native.Mathlib.Omega.{arith}
use native.Mathlib.Nat.{pow-suc}
use reolinkproxy.Base.Tests.{◌==◌, ==_iff}

-- The count of digits to go does not matter, once it is large enough.
module _ (z : ℕ → ℕ) (f : ℕ → ℕ → ℕ) where
  enough_digits : (n m a b : ℕ) → a ≤ n → a ≤ m → digits z f n a b ≡ digits z f m a b
  enough_digits zero zero a b p q = refl
  enough_digits zero (suc m) zero b p q = refl
  enough_digits zero (suc m) (suc a) b p q = absurd (omega arith)
  enough_digits (suc n) zero zero b p q = refl
  enough_digits (suc n) zero (suc a) b p q = absurd (omega arith)
  enough_digits (suc n) (suc m) zero b p q = refl
  enough_digits (suc n) (suc m) (suc a) b p q =
      rw (enough_digits n m (suc a / 2) (b / 2) (omega arith) (omega arith))

pub zero-bit_xor : (b : ℕ) → bit_xor 0 b ≡ b
zero-bit_xor b = bit_xor-bitwise 0 b

abbrev pub bit_sum : ℕ → ℕ → ℕ
bit_sum a b = (a % 2 + b % 2) % 2

differ_lt_two : (x y : ℕ) → x < 2 → y < 2 → differ x y ≡ (x + y) % 2
differ_lt_two zero y p q = omega arith
differ_lt_two (suc zero) zero p q = refl
differ_lt_two (suc zero) (suc zero) p q = refl
differ_lt_two (suc zero) (suc (suc y)) p q = absurd (omega arith)
differ_lt_two (suc (suc x)) y p q = absurd (omega arith)

differ_bits : (a b : ℕ) → differ (a % 2) (b % 2) ≡ bit_sum a b
differ_bits a b = differ_lt_two (a % 2) (b % 2) (omega arith) (omega arith)

pub bit_xor_step : (a b : ℕ) → bit_xor a b ≡ bit_xor (a / 2) (b / 2) * 2 + bit_sum a b
bit_xor_step zero b = omega (arith, zero-bit_xor b, zero-bit_xor (b / 2))
bit_xor_step (suc a) b = omega (
  arith,
  bit_xor-bitwise (suc a) b,
  bit_xor-bitwise (suc a / 2) (b / 2),
  differ_bits (suc a) b,
  enough_digits (λ y. y) differ a (suc a / 2) (suc a / 2) (b / 2) (omega arith) (omega arith),
)

zero-bit_and : (b : ℕ) → bit_and 0 b ≡ 0
zero-bit_and b = bit_and-bitwise 0 b

bit_and_by_halves : (x y : ℕ) → bit_and x y ≡ min (x % 2) (y % 2) + bit_and (x / 2) (y / 2) * 2
bit_and_by_halves zero y = omega (arith, zero-bit_and (y / 2), zero-bit_and y)
bit_and_by_halves (suc x) y = omega (
  arith,
  enough_digits (λ d. 0) min x (suc x / 2) (suc x / 2) (y / 2) (omega arith) (omega arith),
  bit_and-bitwise (suc x / 2) (y / 2),
  bit_and-bitwise (suc x) y,
)

bit_and-zero_below : (n a : ℕ) → a ≤ n → bit_and a 0 ≡ 0
bit_and-zero_below n zero h = zero-bit_and 0
bit_and-zero_below zero (suc a) h = absurd (omega arith)
bit_and-zero_below (suc n) (suc a) h =
    omega (arith, bit_and_by_halves (suc a) 0, bit_and-zero_below n (suc a / 2) (omega arith))

-- The lowest bit, of a number of any size.
pub bit_and_lowest : (a : ℕ) → bit_and a 1 ≡ a % 2
bit_and_lowest a =
    omega (arith, bit_and_by_halves a 1, bit_and-zero_below (a / 2) (a / 2) (omega arith))

pub bit_xor-lt : (k a b : ℕ) → a < 2 ^ k → b < 2 ^ k → bit_xor a b < 2 ^ k
bit_xor-lt zero zero zero p q = omega arith
bit_xor-lt zero (suc a) b p q = absurd (omega arith)
bit_xor-lt zero zero (suc b) p q = absurd (omega arith)
bit_xor-lt (suc k) a b p q = omega (
  arith,
  bit_xor_step a b,
  pow-suc 2 k,
  bit_xor-lt k (a / 2) (b / 2) (omega (arith, pow-suc 2 k)) (omega (arith, pow-suc 2 k)),
)

-- Xor with the same mask twice gives the number back; the fuel is the number of digits.
xor_cancel_below : (n a b : ℕ) → a ≤ n → b ≤ n → bit_xor (bit_xor a b) b ≡ a
xor_cancel_below zero zero zero p q = refl
xor_cancel_below zero (suc a) b p q = absurd (omega arith)
xor_cancel_below zero zero (suc b) p q = absurd (omega arith)
xor_cancel_below (suc n) a b p q = ground (
  arith,
  bit_xor_step a b,
  bit_xor_step (bit_xor a b) b,
  halves,
  xor_cancel_below n (a / 2) (b / 2) (omega arith) (omega arith),
)
  where
    halves : bit_xor a b / 2 ≡ bit_xor (a / 2) (b / 2)
    halves = omega (arith, bit_xor_step a b)

pub bit_xor_cancel : (a b : ℕ) → bit_xor (bit_xor a b) b ≡ a
bit_xor_cancel a b = xor_cancel_below (a + b) a b (omega arith) (omega arith)

-- With one side fixed, xor loses nothing.
pub bit_xor_injective : (a b c : ℕ) → bit_xor a c ≡ bit_xor b c → a ≡ b
bit_xor_injective a b c e = cc (bit_xor_cancel a c, bit_xor_cancel b c)

xor_comm_below : (n a b : ℕ) → a ≤ n → b ≤ n → bit_xor a b ≡ bit_xor b a
xor_comm_below zero zero zero p q = refl
xor_comm_below zero (suc a) b p q = absurd (omega arith)
xor_comm_below zero zero (suc b) p q = absurd (omega arith)
xor_comm_below (suc n) a b p q = omega (
  arith,
  bit_xor_step a b,
  bit_xor_step b a,
  xor_comm_below n (a / 2) (b / 2) (omega arith) (omega arith),
)

pub bit_xor_comm : (a b : ℕ) → bit_xor a b ≡ bit_xor b a
bit_xor_comm a b = xor_comm_below (a + b) a b (omega arith) (omega arith)

xor_half : (a b : ℕ) → bit_xor a b / 2 ≡ bit_xor (a / 2) (b / 2)
xor_half a b = omega (arith, bit_xor_step a b)

xor_right_comm_below :
    (n a b c : ℕ) → a ≤ n → b ≤ n → c ≤ n → bit_xor (bit_xor a b) c ≡ bit_xor (bit_xor a c) b
xor_right_comm_below zero zero zero zero p q r = refl
xor_right_comm_below zero (suc a) b c p q r = absurd (omega arith)
xor_right_comm_below zero zero (suc b) c p q r = absurd (omega arith)
xor_right_comm_below zero zero zero (suc c) p q r = absurd (omega arith)
xor_right_comm_below (suc n) a b c p q r = ground (
  arith,
  bit_xor_step a b,
  bit_xor_step a c,
  bit_xor_step (bit_xor a b) c,
  bit_xor_step (bit_xor a c) b,
  xor_half a b,
  xor_half a c,
  xor_right_comm_below n (a / 2) (b / 2) (c / 2) (omega arith) (omega arith) (omega arith),
)

pub bit_xor_right_comm : (a b c : ℕ) → bit_xor (bit_xor a b) c ≡ bit_xor (bit_xor a c) b
bit_xor_right_comm a b c =
    xor_right_comm_below (a + b + c) a b c (omega arith) (omega arith) (omega arith)

-- A test that holds of every number below some count is decided by running it on each.
unfoldable pub every_below : ℕ → (ℕ → Bool) → Bool
every_below zero test = true
every_below (suc last) test = every_below last test && test last

pub every_below-at :
    (count : ℕ) (test : ℕ → Bool) (k : ℕ)
    → every_below count test ≡ true
    → k < count
    → test k ≡ true
unfolding every_below
every_below-at zero test k every small = absurd (omega arith)
every_below-at (suc last) test k every small = ground (arith, every_below-at last test k)

module _ (f g : ℕ → ℕ) where
  agree_below : (n : ℕ) → every_below n (λ x. f x == g x) ≡ true → (x : ℕ) → x < n → f x ≡ g x
  agree_below n h x lt = (==_iff _ _).0 (every_below-at n _ x h lt)

pub low_nibble : (b : ℕ) → b < 256 → bit_and b 0x0f ≡ b % 16
unfolding every_below
low_nibble = agree_below _ _ 256 refl

pub bit_and-one : (b : ℕ) → b < 16 → bit_and b 1 ≡ b % 2
unfolding every_below
bit_and-one = agree_below _ _ 16 refl

pub bit_and-two : (b : ℕ) → b < 16 → bit_and b 2 ≡ b / 2 % 2 * 2
unfolding every_below
bit_and-two = agree_below _ _ 16 refl

pub bit_and-four : (b : ℕ) → b < 16 → bit_and b 4 ≡ b / 4 % 2 * 4
unfolding every_below
bit_and-four = agree_below _ _ 16 refl

pub bit_and-eight : (b : ℕ) → b < 16 → bit_and b 8 ≡ b / 8 * 8
unfolding every_below
bit_and-eight = agree_below _ _ 16 refl

-- Two nibbles in a byte.
pub pack_nibbles : (f s : ℕ) → f < 16 → s < 16 → bit_or (f * 16) s ≡ f * 16 + s
unfolding every_below
pack_nibbles f s p q =
    let packed : bit_or ((f * 16 + s) / 16 * 16) ((f * 16 + s) % 16) ≡ f * 16 + s =
      agree_below (λ x. bit_or (x / 16 * 16) (x % 16)) (λ x. x) 256 refl (f * 16 + s)
        (omega arith) in
    let high : (f * 16 + s) / 16 ≡ f = omega arith in
    let low : (f * 16 + s) % 16 ≡ s = omega arith in rw (high, low) at packed
