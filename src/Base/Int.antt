-- ===== src/Base/Int.antt =====
-- Signed numbers, as `%d` prints them and `atoi` reads them.
use Prim.Native.Nat.{ℕ, zero, suc, ◌+◌, ◌-◌, ◌^◌, ◌<◌}
use mathlib.Core.Path.{◌≡◌, refl, ap, ◌∙◌, subst}
use mathlib.Core.Bool.{Bool, true, false}
use mathlib.Core.Option.{Option, none, some}
use mathlib.Core.List.{[], ◌∷◌, append-nil}
use native.Mathlib.Omega.{arith}
use mathlib.Core.Logic.{inl, inr}
use pacon.Base.Tests.{Bool-cases, ltb, ◌==◌, if◌then◌else◌}
use pacon.Base.Lists.{Bytes, lacks}
use pacon.Base.Decimal.{
  decimal, decimal32, atoi, is_digit, ends_number, atoi-decimal, decimal-lacks,
}

-- `negsuc n` is -(n + 1).
pub data ℤ : Type 0 where
  pos : ℕ → ℤ
  negsuc : ℕ → ℤ

-- z + n and z - 1
unfoldable pub add_nat : ℤ → ℕ → ℤ
add_nat (pos m) n = pos (m + n)
add_nat (negsuc m) n = if ltb m n then pos (n - m - 1) else negsuc (m - n)

unfoldable pub pred : ℤ → ℤ
pred (pos zero) = negsuc 0
pred (pos (suc n)) = pos n
pred (negsuc n) = negsuc (suc n)

unfoldable pub is_zero : ℤ → Bool
is_zero (pos n) = n == 0
is_zero (negsuc n) = false

-- -n
abbrev negated : ℕ → ℤ
negated zero = pos 0
negated (suc n) = negsuc n

unfoldable pub int_text : ℤ → Bytes
int_text (pos n) = decimal n
int_text (negsuc n) = b'-' ∷ decimal (suc n)

unfoldable pub atoi_int : Bytes → ℤ
atoi_int [] = pos 0
atoi_int (c ∷ s) = if c == b'-' then negated (atoi s) else pos (atoi (c ∷ s))

-- The number is an `int`.
abbrev pub is_int : ℤ → Bool
is_int (pos n) = ltb n (2 ^ 31)
is_int (negsuc n) = ltb n (2 ^ 31)

-- The `uint32_t` with the bits of an `int`; `none` for a number that is none.
unfoldable pub word_of : ℤ → Option ℕ
word_of (pos n) = if ltb n (2 ^ 31) then some n else none
word_of (negsuc n) = if ltb n (2 ^ 31) then some (2 ^ 32 - suc n) else none

-- A `uint32_t` that gets what `atoi` gives.
unfoldable pub atoi32 : Bytes → Option ℕ
unfolding atoi_int word_of
atoi32 s = word_of (atoi_int s)

pub atoi-decimal_alone : (n : ℕ) → atoi (decimal n) ≡ n
unfolding ends_number
atoi-decimal_alone n = subst (λ s. atoi s ≡ n) (append-nil (decimal n)) (atoi-decimal n [] refl)

pub unsigned : (s : Bytes) → lacks b'-' s ≡ true → (n : ℕ) → atoi s ≡ n → atoi_int s ≡ pos n
unfolding atoi_int lacks atoi
unsigned [] h n e = ap pos e
unsigned (c ∷ s) h n e = ground (arith, ap pos e)

-- A signed number that has been printed is read back.
pub atoi_int-int_text : (z : ℤ) → atoi_int (int_text z) ≡ z
unfolding int_text is_digit
atoi_int-int_text (pos n) =
    unsigned (decimal n) (decimal-lacks b'-' n refl) n (atoi-decimal_alone n)
atoi_int-int_text (negsuc n) = unfold atoi_int in ap negated (atoi-decimal_alone (suc n))

-- `%d` of a `uint32_t`, read back.
pub atoi32-decimal32 : (t : ℕ) → t < 2 ^ 32 → atoi32 (decimal32 t) ≡ some t
unfolding atoi32 decimal32 word_of int_text
atoi32-decimal32 t h = elim (Bool-cases (ltb t (2 ^ 31))) [
  | inl low ↦ rw (low, decimal32) (rw (atoi_int-int_text (pos t)) (ground arith))
  | inr high ↦
      let m = 2 ^ 32 - t - 1 in
      let e : 2 ^ 32 - t ≡ suc m = ground arith in
      rw (high, decimal32)
        (ap (λ k. word_of (atoi_int (b'-' ∷ decimal k))) e
          ∙ (ap word_of (atoi_int-int_text (negsuc m)) ∙ ground arith))
]
