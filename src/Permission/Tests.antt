-- ===== src/Permission/Tests.antt =====
-- Permissions at concrete modes.
use pacon.Base.{◌≡◌, ◌↔◌, inl, refl, true, [], ◌∷◌, arith, Bytes}
use pacon.Base.Decimal.{decimal}
use pacon.Paths.{slash}
use pacon.Permission.{PermissionInfo, read_pc, allowed, denied, mask_compare}
use pacon.Permission.Masks.{grants, mask_compare_iff, mask_compare_denies}

abbrev open_info : PermissionInfo
open_info = record {
  nom_dir_mode = 777;
  nom_f_mode = 777;
  sp_num = 1;
  sp_path = (slash ∷ b'a' ∷ []) ∷ [];
  sp_dir_modes = 700 ∷ [];
  sp_f_modes = 700 ∷ [];
}

mask_compare_iff_example : (mask_compare 400 read_pc ≡ allowed) ↔ (grants b'4' read_pc ≡ true)
unfolding decimal
mask_compare_iff_example = mask_compare_iff 400 read_pc (omega arith)

mask_compare_denies_example : mask_compare 640 read_pc ≡ denied
unfolding decimal
mask_compare_denies_example = mask_compare_denies 640 read_pc (omega arith) (inl refl)

-- "/a/f"
abbrev file_path : Bytes
file_path = slash ∷ b'a' ∷ slash ∷ b'f' ∷ []
