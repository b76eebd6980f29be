-- ===== src/Server/Protocol/Sums.antt =====
-- Sums over the servers.
use pacon.Base.{
  ℕ, zero, suc, ◌+◌, ◌≤◌, ◌<◌, ◌≡◌, ◌≢◌, refl, inl, inr, arith, ltb, ltb→lt, Bool-cases,
}

unfoldable pub sum_to : ℕ → (ℕ → ℕ) → ℕ
sum_to zero f = 0
sum_to (suc n) f = sum_to n f + f n

pub sum_to-agree : (n : ℕ) (f g : ℕ → ℕ) → ((j : ℕ) → j < n → g j ≡ f j) → sum_to n g ≡ sum_to n f
unfolding sum_to
sum_to-agree zero f g same = refl
sum_to-agree (suc n) f g same =
    ground (arith, sum_to-agree n f g (λ j low. same j (omega arith)), same n (omega arith))

-- Where two families differ at one index only, their sums differ as the values there.
pub sum_to-change :
    (n : ℕ) (f g : ℕ → ℕ) (i : ℕ)
    → i < n
    → ((j : ℕ) → j ≢ i → g j ≡ f j)
    → sum_to n g + f i ≡ sum_to n f + g i
unfolding sum_to
sum_to-change zero f g i low same = absurd (omega arith)
sum_to-change (suc n) f g i low same = elim (Bool-cases (ltb i n)) [
  | inl below ↦ omega (
    arith,
    sum_to-change n f g i (ltb→lt i n below) same,
    same n (λ e. absurd (omega (arith, ltb→lt i n below))),
  )
  | inr at_n ↦
      let e : i ≡ n = ground arith in
      let rest = sum_to-agree n f g (λ j lt. same j (λ q. omega arith)) in ground (arith, rest)
]

pub le-sum_to : (n : ℕ) (f : ℕ → ℕ) (i : ℕ) → i < n → f i ≤ sum_to n f
unfolding sum_to
le-sum_to zero f i low = absurd (omega arith)
le-sum_to (suc n) f i low = elim (Bool-cases (ltb i n)) [
  | inl below ↦ omega (arith, le-sum_to n f i (ltb→lt i n below))
  | inr at_n ↦ let e : i ≡ n = ground arith in ground arith
]

pub sum_to-zero : (n : ℕ) (f : ℕ → ℕ) → ((j : ℕ) → j < n → f j ≡ 0) → sum_to n f ≡ 0
unfolding sum_to
sum_to-zero zero f none = refl
sum_to-zero (suc n) f none =
    omega (arith, sum_to-zero n f (λ j low. none j (omega arith)), none n (omega arith))
