-- ===== src/Base/Bits.antt =====
-- Shifts and single bits of words, and how `&` and `|` act on them.
use Prim.Native.Nat.{ℕ, zero, suc, ◌+◌, ◌*◌, ◌/◌, ◌%◌, ◌^◌, ◌≤◌, ◌<◌, min, max}
use Prim.Native.Nat.{bit_and, bit_or, digits, bit_and-bitwise, bit_or-bitwise}
use mathlib.Core.Path.{◌≡◌, refl}
use native.Mathlib.Omega.{arith}
use native.Mathlib.Nat.{pow-suc}

-- `x >> t` on an unsigned word.
unfoldable pub shift_right : ℕ → ℕ → ℕ
shift_right x zero = x
shift_right x (suc t) = shift_right (x / 2) t

-- `(x >> t) & 1`, the remainder by 2 standing for the mask.
unfoldable pub bit : ℕ → ℕ → ℕ
unfolding shift_right
bit t x = shift_right x t % 2

pub bit-lt : (t x : ℕ) → bit t x < 2
unfolding bit
bit-lt t x = omega arith

bit-zero : (t : ℕ) → bit t 0 ≡ 0
unfolding bit
bit-zero zero = refl
bit-zero (suc t) = bit-zero t

module _ (z : ℕ → ℕ) (f : ℕ → ℕ → ℕ) (small : (x y : ℕ) → x < 2 → y < 2 → f x y < 2)
    (ends : (t b : ℕ) → bit t (z b) ≡ f 0 (bit t b)) where
  low_digit :
      (q a b : ℕ)
      → ((q * 2 + f (a % 2) (b % 2)) % 2 ≡ f (a % 2) (b % 2))
        × ((q * 2 + f (a % 2) (b % 2)) / 2 ≡ q)
  low_digit q a b =
      let s = small (a % 2) (b % 2) (omega arith) (omega arith) in (omega arith, omega arith)

  -- The recursion on digits that `&` and `|` stand for works on each bit.
  bit-digits : (t n a b : ℕ) → a ≤ n → bit t (digits z f n a b) ≡ f (bit t a) (bit t b)
  unfolding bit
  bit-digits t zero zero b h = rw (bit-zero t) (ends t b)
  bit-digits t zero (suc a) b h = absurd (omega arith)
  bit-digits t (suc n) zero b h = rw (bit-zero t) (ends t b)
  bit-digits zero (suc n) (suc a) b h = (low_digit (digits z f n (suc a / 2) (b / 2)) (suc a) b).0
  bit-digits (suc t) (suc n) (suc a) b h =
      rw ((low_digit (digits z f n (suc a / 2) (b / 2)) (suc a) b).1)
        (bit-digits t n (suc a / 2) (b / 2) (omega arith))

  digits_lt :
      (k n a b : ℕ) → a ≤ n → a < 2 ^ k → b < 2 ^ k → ((c : ℕ) → z c ≤ c) → digits z f n a b < 2 ^ k
  digits_lt k zero a b h p q zc = omega (arith, zc b)
  digits_lt k (suc n) zero b h p q zc = omega (arith, zc b)
  digits_lt zero (suc n) (suc a) b h p q zc = absurd (omega arith)
  digits_lt (suc k) (suc n) (suc a) b h p q zc = omega (
    arith,
    pow-suc 2 k,
    small (suc a % 2) (b % 2) (omega arith) (omega arith),
    digits_lt k n (suc a / 2) (b / 2) (omega arith) (omega (arith, pow-suc 2 k))
        (omega (arith, pow-suc 2 k)) zc,
  )

pub bit-bit_and : (t a b : ℕ) → bit t (bit_and a b) ≡ min (bit t a) (bit t b)
bit-bit_and t a b = rw bit_and-bitwise (
    bit-digits (λ _. 0) min (λ x y p q. omega arith) (λ t b. rw (bit-zero t) (omega arith)) t a a b
      (omega arith))

pub bit-bit_or : (t a b : ℕ) → bit t (bit_or a b) ≡ max (bit t a) (bit t b)
bit-bit_or t a b =
    rw bit_or-bitwise
      (bit-digits (λ b. b) max (λ x y p q. omega arith) (λ t b. omega arith) t a a b (omega arith))

pub bit_and_lt : (k a b : ℕ) → a < 2 ^ k → b < 2 ^ k → bit_and a b < 2 ^ k
bit_and_lt k a b p q = rw bit_and-bitwise (
    digits_lt (λ _. 0) min (λ x y p q. omega arith) (λ t b. rw (bit-zero t) (omega arith)) k a a b
      (omega arith) p q (λ c. omega arith))

pub bit_or_lt : (k a b : ℕ) → a < 2 ^ k → b < 2 ^ k → bit_or a b < 2 ^ k
bit_or_lt k a b p q = rw bit_or-bitwise (
    digits_lt (λ b. b) max (λ x y p q. omega arith) (λ t b. omega arith) k a a b (omega arith) p q
      (λ c. omega arith))
