-- ===== src/Base/Runs.antt =====
-- A run goes on in the branch that its test chooses.
use mathlib.Core.Path.{◌≡◌}
use mathlib.Core.Bool.{Bool, true, false}
use mathlib.Core.Option.{Option, none, some}
use pacon.Base.Tests.{if◌then◌else◌}
use pacon.Base.Monad.{Outcome, Cmd}

module _ {W A : Type 0} {w : W} {r : Outcome (A × W)} where
  pub when_true : (b : Bool) (m n : Cmd W A) → b ≡ true → m w ≡ r → (if b then m else n) w ≡ r
  when_true b m n e h = cc

  pub when_false : (b : Bool) (m n : Cmd W A) → b ≡ false → n w ≡ r → (if b then m else n) w ≡ r
  when_false b m n e h = cc

  pub when_some :
      {B : Type 0} (o : Option B) (m : Cmd W A) (f : B → Cmd W A) {b : B}
      → o ≡ some b
      → f b w ≡ r
      → (elim o as (λ _. Cmd W A) [ none ↦ m | some x ↦ f x ]) w ≡ r
  when_some o m f e h = cc

  pub when_none :
      {B : Type 0} (o : Option B) (m : Cmd W A) (f : B → Cmd W A)
      → o ≡ none
      → m w ≡ r
      → (elim o as (λ _. Cmd W A) [ none ↦ m | some x ↦ f x ]) w ≡ r
  when_none o m f e h = cc
