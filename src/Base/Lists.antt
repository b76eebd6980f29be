-- ===== src/Base/Lists.antt =====
-- Lists measured and indexed by native numbers, and C strings: the bytes before the NUL.
use Prim.Native.Nat.{ℕ, zero, suc, ◌+◌, ◌-◌, ◌≤◌}
use mathlib.Core.Path.{◌≡◌, refl, ap, ◌∙◌}
use mathlib.Core.Bool.{Bool, true, false, ◌&&◌}
use mathlib.Core.List.{List, [], ◌∷◌, ◌++◌}
use mathlib.Core.Option.{Option, none, some}
use native.Mathlib.Omega.{arith}
use pacon.Base.Tests.{◌==◌, if◌then◌else◌}

suc-add : (a b : ℕ) → suc a + b ≡ suc (a + b)
suc-add a b = omega arith

module _ {ℓ} {A : Type ℓ} where
  abbrev pub length : List A → ℕ
  length [] = 0
  length (x ∷ xs) = suc (length xs)

  abbrev pub get_or : List A → ℕ → A → A
  get_or [] i d = d
  get_or (x ∷ xs) zero d = x
  get_or (x ∷ xs) (suc i) d = get_or xs i d

  abbrev pub get_elem? : List A → ℕ → Option A
  get_elem? [] i = none
  get_elem? (x ∷ xs) zero = some x
  get_elem? (x ∷ xs) (suc i) = get_elem? xs i

  abbrev pub set : List A → ℕ → A → List A
  set [] i v = []
  set (x ∷ xs) zero v = v ∷ xs
  set (x ∷ xs) (suc i) v = x ∷ set xs i v

  abbrev pub take : ℕ → List A → List A
  take zero xs = []
  take (suc n) [] = []
  take (suc n) (x ∷ xs) = x ∷ take n xs

  abbrev pub drop : ℕ → List A → List A
  drop zero xs = xs
  drop (suc n) [] = []
  drop (suc n) (x ∷ xs) = drop n xs

  abbrev pub replicate : ℕ → A → List A
  replicate zero a = []
  replicate (suc n) a = a ∷ replicate n a

  pub length-append : (xs ys : List A) → length (xs ++ ys) ≡ length xs + length ys
  length-append [] ys = omega arith
  length-append (x ∷ xs) ys = omega (arith, length-append xs ys)

  pub drop-append : (xs ys : List A) → drop (length xs) (xs ++ ys) ≡ ys
  drop-append [] ys = refl
  drop-append (x ∷ xs) ys = drop-append xs ys

  pub take-append : (xs ys : List A) → take (length xs) (xs ++ ys) ≡ xs
  take-append [] ys = refl
  take-append (x ∷ xs) ys = ap (λ l. x ∷ l) (take-append xs ys)

  pub take-length : (xs : List A) → take (length xs) xs ≡ xs
  take-length [] = refl
  take-length (x ∷ xs) = ap (λ l. x ∷ l) (take-length xs)

module _ {ℓ} {A : Type ℓ} where
  pub length-drop : (n : ℕ) (s : List A) → length (drop n s) ≡ length s - n
  length-drop zero s = omega arith
  length-drop (suc n) [] = omega arith
  length-drop (suc n) (c ∷ s) = omega (arith, length-drop n s)

  pub drop_past : (p s : List A) (n : ℕ) → drop (length p + n) (p ++ s) ≡ drop n s
  drop_past [] s n = ap (λ m. drop m s) (omega arith)
  drop_past (c ∷ p) s n = ap (λ m. drop m (c ∷ p ++ s)) (suc-add (length p) n) ∙ drop_past p s n

  pub take_past : (p s : List A) (n : ℕ) → take (length p + n) (p ++ s) ≡ p ++ take n s
  take_past [] s n = ap (λ m. take m s) (omega arith)
  take_past (c ∷ p) s n =
      ap (λ m. take m (c ∷ p ++ s)) (suc-add (length p) n) ∙ ap (λ l. c ∷ l) (take_past p s n)

  pub get_or_past : (p s : List A) (n : ℕ) (d : A) → get_or (p ++ s) (length p + n) d ≡ get_or s n d
  get_or_past [] s n d = ap (λ m. get_or s m d) (omega arith)
  get_or_past (c ∷ p) s n d =
      ap (λ m. get_or (c ∷ p ++ s) m d) (suc-add (length p) n) ∙ get_or_past p s n d

  pub length-replicate : (n : ℕ) (x : A) → length (replicate n x) ≡ n
  length-replicate zero x = refl
  length-replicate (suc n) x = ap suc (length-replicate n x)

  pub length-take : (n : ℕ) (s : List A) → n ≤ length s → length (take n s) ≡ n
  length-take zero s h = refl
  length-take (suc n) [] h = absurd (omega arith)
  length-take (suc n) (c ∷ s) h = ap suc (length-take n s (omega arith))

  pub take_within : (n : ℕ) (s t : List A) → n ≤ length s → take n (s ++ t) ≡ take n s
  take_within zero s t h = refl
  take_within (suc n) [] t h = absurd (omega arith)
  take_within (suc n) (c ∷ s) t h = ap (λ l. c ∷ l) (take_within n s t (omega arith))

  pub drop_within : (n : ℕ) (s t : List A) → n ≤ length s → drop n (s ++ t) ≡ drop n s ++ t
  drop_within zero s t h = refl
  drop_within (suc n) [] t h = absurd (omega arith)
  drop_within (suc n) (c ∷ s) t h = drop_within n s t (omega arith)

  pub drop_all : (n : ℕ) (s : List A) → length s ≤ n → drop n s ≡ []
  drop_all zero [] h = refl
  drop_all zero (c ∷ s) h = absurd (omega arith)
  drop_all (suc n) [] h = refl
  drop_all (suc n) (c ∷ s) h = drop_all n s (omega arith)

-- A C string or buffer, without the NUL that ends a string. `Bytes` is also a path.
abbrev pub Bytes : Type 0
Bytes = List ℕ

-- `s[i]`; the byte behind the last one is the NUL.
abbrev pub char_at : Bytes → ℕ → ℕ
char_at s i = get_or s i 0

abbrev pub is_empty : Bytes → Bool
is_empty [] = true
is_empty (c ∷ s) = false

-- strcmp(s, t) == 0
unfoldable pub bytes_eq : Bytes → Bytes → Bool
bytes_eq [] [] = true
bytes_eq [] (c ∷ t) = false
bytes_eq (c ∷ s) [] = false
bytes_eq (c ∷ s) (d ∷ t) = (c == d) && bytes_eq s t

pub bytes_eq→eq : (s t : Bytes) → bytes_eq s t ≡ true → s ≡ t
unfolding bytes_eq
bytes_eq→eq [] [] h = refl
bytes_eq→eq [] (d ∷ t) h = ground arith
bytes_eq→eq (c ∷ s) [] h = ground arith
bytes_eq→eq (c ∷ s) (d ∷ t) h = ground (arith, bytes_eq→eq s t)

pub bytes_eq_refl : (s : Bytes) → bytes_eq s s ≡ true
unfolding bytes_eq
bytes_eq_refl [] = refl
bytes_eq_refl (c ∷ s) = ground (arith, bytes_eq_refl s)

-- What strcpy and strlen see of a buffer: the bytes before its first NUL.
unfoldable pub c_string : Bytes → Bytes
c_string [] = []
c_string (c ∷ s) = if c == 0 then [] else c ∷ c_string s

-- No byte of `s` is `c`.
unfoldable pub lacks : ℕ → Bytes → Bool
lacks c [] = true
lacks c (d ∷ s) = if d == c then false else lacks c s

-- The bytes before the first `c`, and those after it.
unfoldable pub before : ℕ → Bytes → Bytes
before c [] = []
before c (d ∷ s) = if d == c then [] else d ∷ before c s

unfoldable pub after : ℕ → Bytes → Bytes
after c [] = []
after c (d ∷ s) = if d == c then s else after c s

pub before-append : (c : ℕ) (s t : Bytes) → lacks c s ≡ true → before c (s ++ c ∷ t) ≡ s
unfolding before lacks
before-append c [] t h = ground arith
before-append c (d ∷ s) t h = ground (arith, before-append c s t)

pub after-append : (c : ℕ) (s t : Bytes) → lacks c s ≡ true → after c (s ++ c ∷ t) ≡ t
unfolding after lacks
after-append c [] t h = ground arith
after-append c (d ∷ s) t h = ground (arith, after-append c s t)

pub c_string-lacks : (s : Bytes) → lacks 0 s ≡ true → c_string s ≡ s
unfolding c_string lacks
c_string-lacks [] h = refl
c_string-lacks (c ∷ s) h = ground (arith, c_string-lacks s)

pub c_string-append : (s t : Bytes) → lacks 0 s ≡ true → c_string (s ++ 0 ∷ t) ≡ s
unfolding c_string lacks
c_string-append [] t h = refl
c_string-append (c ∷ s) t h = ground (arith, c_string-append s t)

pub lacks-append : (c : ℕ) (s t : Bytes) → lacks c (s ++ t) ≡ (lacks c s && lacks c t)
unfolding lacks
lacks-append c [] t = refl
lacks-append c (d ∷ s) t = ground (arith, lacks-append c s t)
