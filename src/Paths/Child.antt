-- ===== src/Paths/Child.antt =====
-- What the client's older `child_cmp` decides, and how the tests treat the root.
use pacon.Base.{
  ℕ, suc, ◌+◌, ◌<◌, ◌≡◌, ◌≢◌, ◌↔◌, refl, ap, ◌∙◌, Bool, true, false, not, ◌&&◌, [], ◌∷◌, ◌++◌,
  arith, ltb, ◌==◌, if◌then◌else◌, Bytes, length, drop, length-append,
}
use pacon.Paths.{slash, agrees, no_slash, child_cmp, child_cmp_new, unrelated}
use pacon.Paths.Compare.{agrees-append, agrees→eq, char_at-append}

drop_next : (p : Bytes) (c : ℕ) (s : Bytes) → drop (length p + 1) (p ++ c ∷ s) ≡ s
drop_next [] c s = refl
drop_next (d ∷ p) c s = ap (λ n. drop n (d ∷ p ++ c ∷ s)) (e (length p)) ∙ drop_next p c s
  where
    e : (n : ℕ) → suc n + 1 ≡ suc (n + 1)
    e n = omega arith

child_cmp-append :
    (p : Bytes) (c : ℕ) (s : Bytes)
    → child_cmp (p ++ c ∷ s) p false
      ≡ (if ltb 1 (length p) && not (c == slash) then false else no_slash s)
unfolding child_cmp
child_cmp-append p c s = ground (
  arith,
  length-append p (c ∷ s),
  agrees-append p (c ∷ s),
  char_at-append p (c ∷ s),
  drop_next p c s,
)

child_cmp-recursive : (p : Bytes) (c : ℕ) (s : Bytes) → child_cmp (p ++ c ∷ s) p true ≡ (c == slash)
unfolding child_cmp
child_cmp-recursive p c s =
    ground (arith, length-append p (c ∷ s), agrees-append p (c ∷ s), char_at-append p (c ∷ s))

child_cmp_self : (p : Bytes) (r : Bool) → child_cmp (p ++ []) p r ≡ false
unfolding child_cmp
child_cmp_self p r = ground (arith, length-append p [])

child_cmp-agrees : (path p : Bytes) (r : Bool) → child_cmp path p r ≡ true → agrees path p ≡ true
unfolding child_cmp
child_cmp-agrees path p r h = ground arith

-- A path of which the test holds goes on behind `p`.
child_cmp_longer :
    (path p : Bytes) (r : Bool)
    → child_cmp path p r ≡ true
    → (c : ℕ) × (s : Bytes) × (path ≡ p ++ c ∷ s)
child_cmp_longer path p r h =
    go (drop (length p) path) (agrees→eq path p (child_cmp-agrees path p r h))
  where
    go : (t : Bytes) → path ≡ p ++ t → (c : ℕ) × (s : Bytes) × (path ≡ p ++ c ∷ s)
    go [] e = ground (arith, child_cmp_self p r)
    go (c ∷ s) e = (c, s, e)

-- Without recursion, the directory `p` (not the root) has exactly the paths `p/name` below it where
-- the name holds no slash; the name may be empty.
pub child_cmp_direct :
    (path p : Bytes)
    → 1 < length p
    → (child_cmp path p false ≡ true)
      ↔ ((name : Bytes) × (path ≡ p ++ slash ∷ name) × (no_slash name ≡ true))
child_cmp_direct path p h = (
  λ e.
      let (c, s, q) = child_cmp_longer path p false e in
      (s, ground (arith, child_cmp-append p c s), ground (arith, child_cmp-append p c s)),
  λ (name, q, n). ground (arith, child_cmp-append p slash name),
)

-- With recursion, they are the paths that go on with a slash: at the root only those that begin
-- with two slashes.
pub child_cmp_deep :
    (path p : Bytes)
    → (child_cmp path p true ≡ true) ↔ ((rest : Bytes) × (path ≡ p ++ slash ∷ rest))
child_cmp_deep path p = (
  λ e.
      let (c, s, q) = child_cmp_longer path p true e in
      (s, ground (arith, child_cmp-recursive p c s)),
  λ (rest, q). ground (arith, child_cmp-recursive p slash rest),
)

-- The root is no ancestor of any path that `child_cmp_new` is asked about, unless that path begins
-- with two slashes.
pub root-unrelated :
    (c : ℕ) (s : Bytes) → c ≢ slash → child_cmp_new (slash ∷ c ∷ s) (slash ∷ []) ≡ unrelated
unfolding child_cmp_new
root-unrelated c s h = ground arith
