-- ===== src/Server/Removing/Laws.antt =====
-- What the table of removals keeps and loses.
use pacon.Base.{
  ℕ, zero, suc, ◌+◌, ◌-◌, ◌<◌, ◌≡◌, ◌≢◌, ◌↔◌, ◌⊎◌, inl, inr, refl, ap, sym, ◌∙◌, true, some, List,
  [], ◌∷◌, arith, Bytes, length, get_or, set, take, subst,
}
use pacon.Paths.{Ancestry, unrelated, below, same, server_child_cmp}
use pacon.Paths.Compare.{server_child_cmp_self}
use pacon.Server.Removing.{
  RemovingDirs, add_removing, drop_removing, del_loop, del_removing, skip_loop, skips,
}

module _ {A : Type 0} where
  take-set : (xs : List A) (n : ℕ) (x : A) → take n (set xs n x) ≡ take n xs
  take-set [] n x = refl
  take-set (y ∷ ys) zero x = refl
  take-set (y ∷ ys) (suc n) x = ap (λ l. y ∷ l) (take-set ys n x)

  get_or-set : (xs : List A) (n : ℕ) (x d : A) → n < length xs → get_or (set xs n x) n d ≡ x
  get_or-set [] n x d h = ground arith
  get_or-set (y ∷ ys) zero x d h = refl
  get_or-set (y ∷ ys) (suc n) x d h = get_or-set ys n x d (omega arith)

module _ {A : Type 0} where
  set-set : (xs : List A) (n : ℕ) (x y : A) → set (set xs n x) n y ≡ set xs n y
  set-set [] n x y = refl
  set-set (z ∷ zs) zero x y = refl
  set-set (z ∷ zs) (suc n) x y = ap (λ l. z ∷ l) (set-set zs n x y)

-- The entry in the last slot is found first.
del_last :
    (path : Bytes) (list : List Bytes) (n m : ℕ)
    → m ≡ suc n
    → server_child_cmp (get_or list n []) path ≡ same
    → del_loop m path (record { list = list; count = m })
      ≡ record { list = set list n []; count = n }
unfolding del_loop drop_removing
del_last path list n m e found =
    subst
      (λ k.
        del_loop k path (record { list = list; count = k })
        ≡ record { list = set list n []; count = n })
      (sym e) (ground arith)

-- From above, the loop comes down to the last slot that holds the path.
del_loop-down :
    (n at : ℕ) (path : Bytes) (r : RemovingDirs)
    → at < n
    → server_child_cmp (get_or r.list at []) path ≡ same
    → ((j : ℕ) → at < j → j < n → server_child_cmp (get_or r.list j []) path ≢ same)
    → del_loop n path r ≡ drop_removing at r
unfolding del_loop
del_loop-down zero at path r h found others = ground arith
del_loop-down (suc n) at path r h found others = elim (lt_cases at n h) [
  | inl e ↦ subst (λ k. del_loop (suc k) path r ≡ drop_removing at r) e (ground arith)
  | inr lt ↦
      let rest = del_loop-down n at path r lt found (λ j low high. others j low (omega arith)) in
      skip (server_child_cmp (get_or r.list n []) path) (others n lt (omega arith)) rest
]
  where
    lt_cases : (a b : ℕ) → a < suc b → (a ≡ b) ⊎ (a < b)
    lt_cases a b k = omega arith

    skip :
        (o : Ancestry) {x y : RemovingDirs}
        → o ≢ same
        → x ≡ y
        → (elim o as (λ _. RemovingDirs) [ same ↦ drop_removing n r | _ ↦ x ]) ≡ y
    skip same apart e = elim (apart refl) [ ]
    skip below apart e = e
    skip unrelated apart e = e

-- A removal that ends before any later one begins leaves the table in use as it was.
pub del_removing-add_removing :
    (path : Bytes) (r : RemovingDirs)
    → r.count < length r.list
    → (r' : RemovingDirs) × (add_removing path r ≡ some r')
      × ((del_removing path r').count ≡ r.count)
      × (take r.count (del_removing path r').list ≡ take r.count r.list)
unfolding add_removing del_removing
del_removing-add_removing path r room =
    let list = set r.list r.count path in
    let found : server_child_cmp (get_or list r.count []) path ≡ same =
      ap (λ q. server_child_cmp q path) (get_or-set r.list r.count path [] room)
      ∙ server_child_cmp_self path in
    let deleted = del_last path list r.count (r.count + 1) (omega arith) found in
    (
      record { list = list; count = r.count + 1 },
      ground arith,
      ap (λ (s : RemovingDirs). s.count) deleted,
      ap (λ (s : RemovingDirs). take r.count s.list) deleted
          ∙ (take-set list r.count [] ∙ take-set r.list r.count path),
    )

-- A removal that ends while a later one is under way: its slot is emptied, and the table gets shorter
-- by its last entry, that of the later one.
pub del_removing_inner :
    (path : Bytes) (r : RemovingDirs) (at : ℕ)
    → at + 1 < r.count
    → server_child_cmp (get_or r.list at []) path ≡ same
    → ((j : ℕ) → at < j → j < r.count → server_child_cmp (get_or r.list j []) path ≢ same)
    → del_removing path r ≡ record { list = set r.list at []; count = r.count - 1 }
unfolding del_removing drop_removing
del_removing_inner path r at inner found others =
    del_loop-down r.count at path r (omega arith) found others
    ∙ ground (arith, set-set r.list at (get_or r.list (r.count - 1) []) [])

skip_loop-below :
    (left : ℕ) (path : Bytes) (r : RemovingDirs)
    → (skip_loop left path r ≡ true)
      ↔ ((0 < left) × (server_child_cmp path (get_or r.list 0 []) ≡ below))
unfolding skip_loop
skip_loop-below zero path r = ground arith
skip_loop-below (suc left) path r = ground (arith, skip_loop-below left path r)

-- A creation is skipped only if its path is shorter than the number of removals under way less one,
-- and only for the first of them.
pub skips_iff :
    (path : Bytes) (r : RemovingDirs)
    → (skips path r ≡ true)
      ↔ ((length path + 1 < r.count) × (server_child_cmp path (get_or r.list 0 []) ≡ below))
unfolding skips
skips_iff path r = (
  λ h. ground (arith, skip_loop-below (r.count - 1 - length path) path r),
  λ h. ground (arith, skip_loop-below (r.count - 1 - length path) path r),
)
