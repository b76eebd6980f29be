-- ===== src/Base/Decimal.antt =====
-- `sprintf` with `%d`, and `atoi`, on the numbers that the code prints and reads.
use Prim.Native.Nat.{ℕ, zero, suc, ◌+◌, ◌-◌, ◌*◌, ◌/◌, ◌%◌, ◌^◌, ◌≤◌, ◌<◌}
use mathlib.Core.Path.{◌≡◌, refl, ◌∙◌}
use mathlib.Core.Bool.{Bool, true, false, ◌&&◌}
use mathlib.Core.List.{[], ◌∷◌, ◌++◌}
use native.Mathlib.Omega.{arith}
use native.Mathlib.Nat.{pow-suc, one-le-pow}
use mathlib.Core.Logic.{inl, inr}
use pacon.Base.Tests.{ltb, leb, if◌then◌else◌, Bool-cases}
use pacon.Base.Lists.{Bytes, length, lacks}

unfoldable pub is_digit : ℕ → Bool
is_digit c = leb b'0' c && leb c b'9'

-- The digits of `n` in front of `rest`, last digit first; each round takes one unit of fuel.
decimal_loop : ℕ → ℕ → Bytes → Bytes
decimal_loop zero n rest = rest
decimal_loop (suc f) n rest =
    let more = decimal_loop f (n / 10) ((b'0' + n % 10) ∷ rest) in
    if ltb n 10 then (b'0' + n) ∷ rest else more

-- `%d` of a number that is not negative.
unfoldable pub decimal : ℕ → Bytes
unfolding decimal_loop
decimal n = decimal_loop (suc n) n []

-- `%d` of a `uint32_t`, which is read as an `int`.
unfoldable pub decimal32 : ℕ → Bytes
unfolding decimal
decimal32 n = if ltb n (2 ^ 31) then decimal n else b'-' ∷ decimal (2 ^ 32 - n)

atoi_loop : ℕ → Bytes → ℕ
unfolding is_digit
atoi_loop acc [] = acc
atoi_loop acc (c ∷ s) =
    let more = atoi_loop (acc * 10 + (c - b'0')) s in if is_digit c then more else acc

-- `atoi` of a text with no sign and no leading blank; 0 if it does not begin with a digit.
unfoldable pub atoi : Bytes → ℕ
unfolding atoi_loop
atoi s = atoi_loop 0 s

-- No digit follows.
unfoldable pub ends_number : Bytes → Bool
unfolding is_digit
ends_number [] = true
ends_number (c ∷ s) = if is_digit c then false else true

atoi_loop-decimal_loop :
    (f n : ℕ) (rest : Bytes) → n < f → atoi_loop 0 (decimal_loop f n rest) ≡ atoi_loop n rest
unfolding atoi_loop decimal_loop
atoi_loop-decimal_loop zero n rest h = absurd (omega arith)
atoi_loop-decimal_loop (suc f) n rest h = elim (Bool-cases (ltb n 10)) [
  | inl small ↦ rw small (ground arith)
  | inr large ↦
      rw large
        (atoi_loop-decimal_loop f (n / 10) ((b'0' + n % 10) ∷ rest) (ground arith) ∙ ground arith)
]

atoi_loop-ends : (n : ℕ) (rest : Bytes) → ends_number rest ≡ true → atoi_loop n rest ≡ n
unfolding atoi_loop ends_number
atoi_loop-ends n [] h = refl
atoi_loop-ends n (c ∷ rest) h = ground arith

decimal_loop-append : (f n : ℕ) (s t : Bytes) → decimal_loop f n s ++ t ≡ decimal_loop f n (s ++ t)
unfolding decimal_loop
decimal_loop-append zero n s t = refl
decimal_loop-append (suc f) n s t =
    ground (arith, decimal_loop-append f (n / 10) ((b'0' + n % 10) ∷ s) t)

-- Reading back a printed number, whatever follows its digits.
pub atoi-decimal : (n : ℕ) (rest : Bytes) → ends_number rest ≡ true → atoi (decimal n ++ rest) ≡ n
unfolding atoi decimal
atoi-decimal n rest h =
    rw (decimal_loop-append (suc n) n [] rest)
      (atoi_loop-decimal_loop (suc n) n rest (omega arith) ∙ atoi_loop-ends n rest h)

-- A printed number is digits only, so it holds no separator.
decimal_loop-lacks :
    (c f n : ℕ) (rest : Bytes)
    → is_digit c ≡ false
    → lacks c rest ≡ true
    → lacks c (decimal_loop f n rest) ≡ true
unfolding decimal_loop lacks is_digit
decimal_loop-lacks c zero n rest d h = h
decimal_loop-lacks c (suc f) n rest d h =
    ground (arith, decimal_loop-lacks c f (n / 10) ((b'0' + n % 10) ∷ rest) d)

pub decimal-lacks : (c n : ℕ) → is_digit c ≡ false → lacks c (decimal n) ≡ true
unfolding decimal lacks
decimal-lacks c n d = decimal_loop-lacks c (suc n) n [] d refl

length-decimal_loop :
    (k f n : ℕ) (rest : Bytes)
    → n < 10 ^ suc k
    → length (decimal_loop f n rest) ≤ length rest + suc k
unfolding decimal_loop
length-decimal_loop k zero n rest h = omega arith
length-decimal_loop zero (suc f) n rest h = ground arith
length-decimal_loop (suc k) (suc f) n rest h = ground (
  arith,
  pow-suc 10 (suc k),
  length-decimal_loop k f (n / 10) ((b'0' + n % 10) ∷ rest) (omega (arith, pow-suc 10 (suc k))),
)

-- A number below `10 ^ (k + 1)` prints in at most `k + 1` digits.
pub length-decimal_le : (k n : ℕ) → n < 10 ^ suc k → length (decimal n) ≤ suc k
unfolding decimal
length-decimal_le k n h = omega (arith, length-decimal_loop k (suc n) n [] h)

decimal_loop_nonempty : (f n : ℕ) (rest : Bytes) → length rest ≤ length (decimal_loop f n rest)
unfolding decimal_loop
decimal_loop_nonempty zero n rest = omega arith
decimal_loop_nonempty (suc f) n rest =
    ground (arith, decimal_loop_nonempty f (n / 10) ((b'0' + n % 10) ∷ rest))

pub length-decimal_pos : (n : ℕ) → 1 ≤ length (decimal n)
unfolding decimal decimal_loop
length-decimal_pos n = ground (arith, decimal_loop_nonempty n (n / 10) ((b'0' + n % 10) ∷ []))

pub decimal_one_digit : (n : ℕ) → n < 10 → decimal n ≡ (b'0' + n) ∷ []
unfolding decimal
decimal_one_digit n h = ground arith

pub decimal_two_digits :
    (n : ℕ) → 10 ≤ n → n < 100 → decimal n ≡ (b'0' + n / 10) ∷ (b'0' + n % 10) ∷ []
unfolding decimal
decimal_two_digits zero low high = absurd (omega arith)
decimal_two_digits (suc n) low high = ground arith

decimal_loop_longer :
    (k f n : ℕ) (rest : Bytes)
    → 10 ^ k ≤ n
    → n < f
    → suc k + length rest ≤ length (decimal_loop f n rest)
unfolding decimal_loop
decimal_loop_longer k zero n rest low fuel = absurd (omega arith)
decimal_loop_longer zero (suc f) n rest low fuel =
    ground (arith, decimal_loop_nonempty f (n / 10) ((b'0' + n % 10) ∷ rest))
decimal_loop_longer (suc k) (suc f) n rest low fuel = ground (
  arith,
  pow-suc 10 k,
  one-le-pow k 10,
  decimal_loop_longer k f (n / 10) ((b'0' + n % 10) ∷ rest) (omega (arith, pow-suc 10 k))
      (omega (arith, pow-suc 10 k, one-le-pow k 10)),
)

-- A number from `10 ^ k` on prints in more than `k` digits.
pub length-decimal_gt : (k n : ℕ) → 10 ^ k ≤ n → suc k ≤ length (decimal n)
unfolding decimal
length-decimal_gt k n h = omega (arith, decimal_loop_longer k (suc n) n [] h (omega arith))
