-- ===== src/Base/Monad.antt =====
-- C code as a state monad. `fault` is undefined behaviour that the code reaches (a null pointer
-- read, an access out of bounds); `spin` says that a retry loop has used up its fuel.
use mathlib.Core.Path.{◌≡◌, ap, ◌∙◌}

pub data Outcome {ℓ} (A : Type ℓ) : Type ℓ where
  done : A → Outcome A
  fault : Outcome A
  spin : Outcome A

abbrev pub Cmd {ℓ} : Type ℓ → Type ℓ → Type ℓ
Cmd W A = W → Outcome (A × W)

module _ {ℓ} {W A : Type ℓ} where
  abbrev pub pure : A → Cmd W A
  pure a w = done (a, w)

  abbrev pub crash : Cmd W A
  crash w = fault

  abbrev pub exhausted : Cmd W A
  exhausted w = spin

  abbrev pub gets : (W → A) → Cmd W A
  gets f w = done (f w, w)

module _ {ℓ} {W A B : Type ℓ} where
  abbrev pub and_then : Outcome (A × W) → (A → Cmd W B) → Outcome (B × W)
  and_then (done (a, w)) f = f a w
  and_then fault f = fault
  and_then spin f = spin

  infixl 10 ◌>>=◌
  abbrev pub ◌>>=◌ : Cmd W A → (A → Cmd W B) → Cmd W B
  ◌>>=◌ m f w = and_then (m w) f

module _ {ℓ} {W B : Type ℓ} where
  infixl 10 ◌>>◌
  abbrev pub ◌>>◌ : {A : Type ℓ} → Cmd W A → Cmd W B → Cmd W B
  m >> k = m >>= λ _. k

-- A run goes on with what the first part has done.
module _ {ℓ} {W A B : Type ℓ} {o : Outcome (A × W)} {a : A} {w : W} {r : Outcome (B × W)} where
  pub run : (f : A → Cmd W B) → o ≡ done (a, w) → f a w ≡ r → and_then o f ≡ r
  run f e rest = ap (λ o. and_then o f) e ∙ rest
