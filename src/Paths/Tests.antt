-- ===== src/Paths/Tests.antt =====
-- Paths and addresses compared.
use pacon.Base.{◌≡◌, ◌↔◌, true, false, [], ◌∷◌, ◌++◌, Bytes, arith}
use pacon.Paths.{
  slash, below, unrelated, child_cmp, child_cmp_new, server_child_cmp, is_loacl_addr, no_slash,
}
use pacon.Paths.Compare.{Related, server_child_cmp-Related, is_loacl_addr_iff}
use pacon.Paths.Child.{child_cmp_direct, child_cmp_deep, root-unrelated}

-- "/a/b" and "/a"
abbrev inner : Bytes
inner = slash ∷ b'a' ∷ slash ∷ b'b' ∷ []

abbrev outer : Bytes
outer = slash ∷ b'a' ∷ []

server_child_cmp-Related_example : Related inner outer below
unfolding server_child_cmp pacon.Paths.agrees
server_child_cmp-Related_example = server_child_cmp-Related inner outer

child_cmp_direct_example :
    (child_cmp inner outer false ≡ true)
    ↔ ((name : Bytes) × (inner ≡ outer ++ slash ∷ name) × (no_slash name ≡ true))
child_cmp_direct_example = child_cmp_direct inner outer (ground arith)

child_cmp_deep_example :
    (child_cmp inner outer true ≡ true) ↔ ((rest : Bytes) × (inner ≡ outer ++ slash ∷ rest))
child_cmp_deep_example = child_cmp_deep inner outer

root-unrelated_example : child_cmp_new outer (slash ∷ []) ≡ unrelated
root-unrelated_example = root-unrelated b'a' [] (ground arith)

-- "10" and "1"
abbrev ten : Bytes
ten = b'1' ∷ b'0' ∷ []

abbrev one : Bytes
one = b'1' ∷ []

is_loacl_addr_iff_example : (is_loacl_addr ten one ≡ true) ↔ (ten ≡ one)
is_loacl_addr_iff_example = is_loacl_addr_iff ten one
