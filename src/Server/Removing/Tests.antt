-- ===== src/Server/Removing/Tests.antt =====
-- The table of removals with one and with two entries.
use pacon.Base.{
  ℕ, zero, suc, ◌<◌, ◌≡◌, ◌≢◌, ◌↔◌, refl, true, some, [], ◌∷◌, arith, Bytes, get_or, take,
}
use pacon.Paths.{slash, below, same, server_child_cmp}
use pacon.Server.Removing.{RemovingDirs, add_removing, del_removing, skips}
use pacon.Server.Removing.Laws.{del_removing-add_removing, del_removing_inner, skips_iff}

-- "/a", "/b" and "/c"
abbrev dir_a : Bytes
dir_a = slash ∷ b'a' ∷ []

abbrev dir_b : Bytes
dir_b = slash ∷ b'b' ∷ []

abbrev dir_c : Bytes
dir_c = slash ∷ b'c' ∷ []

abbrev two : RemovingDirs
two = record { list = dir_a ∷ dir_b ∷ [] ∷ []; count = 2 }

del_removing-add_removing_example :
    (r' : RemovingDirs) × (add_removing dir_c two ≡ some r')
    × ((del_removing dir_c r').count ≡ 2)
    × (take 2 (del_removing dir_c r').list ≡ dir_a ∷ dir_b ∷ [])
del_removing-add_removing_example = del_removing-add_removing dir_c two (omega arith)

-- "/a" is done, and "/b" is lost with it.
del_removing_inner_example :
    del_removing dir_a two ≡ record { list = [] ∷ dir_b ∷ [] ∷ []; count = 1 }
unfolding server_child_cmp pacon.Paths.agrees
del_removing_inner_example = del_removing_inner dir_a two 0 (omega arith) refl others
  where
    others : (j : ℕ) → 0 < j → j < 2 → server_child_cmp (get_or two.list j []) dir_a ≢ same
    others zero low high e = ground arith
    others (suc zero) low high e = cc
    others (suc (suc j)) low high e = ground arith

skips_iff_example :
    (skips (slash ∷ b'a' ∷ slash ∷ []) two ≡ true)
    ↔ ((4 < 2) × (server_child_cmp (slash ∷ b'a' ∷ slash ∷ []) dir_a ≡ below))
skips_iff_example = skips_iff (slash ∷ b'a' ∷ slash ∷ []) two
