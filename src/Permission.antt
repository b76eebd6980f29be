-- ===== src/Permission.antt =====
-- Batch permissions: `struct permission_info`, `mask_compare` and `check_permission` of pacon.c.
pub mod Masks
pub mod Checks
pub mod Tests
use pacon.Base.{
  ℕ, zero, suc, ◌+◌, Bool, true, false, not, ◌&&◌, ◌||◌, Option, none, some, List, [], ◌∷◌, ltb,
  leb, ◌==◌, if◌then◌else◌, Bytes, length, char_at, get_or, replicate,
}
use pacon.Base.Decimal.{decimal}
use pacon.Message.{path_max}
use pacon.Paths.{slash, Ancestry, unrelated, below, same, child_cmp_new}

-- The operations that are checked, READDIR_PC to RENAME_PC.
pub data PermOpt : Type 0 where
  readdir_pc : PermOpt
  mkdir_pc : PermOpt
  create_pc : PermOpt
  rm_pc : PermOpt
  rmdir_pc : PermOpt
  link_pc : PermOpt
  owrite_pc : PermOpt
  fsync_pc : PermOpt
  read_pc : PermOpt
  write_pc : PermOpt
  rw_pc : PermOpt
  createw_pc : PermOpt
  rename_pc : PermOpt

abbrev pub opt_number : PermOpt → ℕ
opt_number readdir_pc = 0
opt_number mkdir_pc = 1
opt_number create_pc = 2
opt_number rm_pc = 3
opt_number rmdir_pc = 4
opt_number link_pc = 5
opt_number owrite_pc = 6
opt_number fsync_pc = 7
opt_number read_pc = 8
opt_number write_pc = 9
opt_number rw_pc = 10
opt_number createw_pc = 11
opt_number rename_pc = 12

-- opt != other
abbrev pub differs : PermOpt → PermOpt → Bool
differs opt other = not (opt_number opt == opt_number other)

-- The arrays have SP_LIST_MAX entries, of which the first `sp_num` are in use.
pub record PermissionInfo : Type 0 where
  pub nom_dir_mode : ℕ
  pub nom_f_mode : ℕ
  pub sp_num : ℕ
  pub sp_path : List Bytes
  pub sp_dir_modes : List ℕ
  pub sp_f_modes : List ℕ

-- SP_LIST_MAX
abbrev pub sp_list_max : ℕ
sp_list_max = 16

-- 0, -1, or no defined value: the mode overruns its buffer, or the function ends without a return.
pub data Mask : Type 0 where
  allowed : Mask
  denied : Mask
  no_value : Mask

-- The decimal text of the mode is taken into char mode[5]; its first digit decides.
unfoldable pub mask_compare : ℕ → PermOpt → Mask
mask_compare perm_mode opt =
    let digit = char_at (decimal perm_mode) 0 in
    if leb 5 (length (decimal perm_mode))
    then no_value
    else if digit == b'7'
    then allowed
    else if digit == b'6'
    then (if differs opt readdir_pc
          || (differs opt read_pc || (differs opt write_pc || differs opt rw_pc))
        then denied
        else allowed)
    else if digit == b'5'
    then (if differs opt readdir_pc || differs opt read_pc then denied else allowed)
    else if digit == b'4'
    then (if differs opt read_pc then denied else allowed)
    else if digit == b'3'
    then (if differs opt mkdir_pc
          || (differs opt create_pc
              || (differs opt rm_pc
                  || (differs opt rmdir_pc
                      || (differs opt write_pc
                          || (differs opt createw_pc || differs opt rename_pc)))))
        then denied
        else allowed)
    else if digit == b'2'
    then (if differs opt write_pc then denied else allowed)
    else if digit == b'1'
    then denied
    else if digit == b'0'
    then denied
    else no_value

-- A location (0 for the normal one, or the index of the special entry for the path), -1, or no
-- defined value.
pub data Verdict : Type 0 where
  legal : ℕ → Verdict
  illegal : Verdict
  undefined : Verdict

-- The text before the last slash; `none` when there is no slash.
unfoldable pub parent_text : Bytes → Option Bytes
parent_text [] = none
parent_text (c ∷ s) = elim (parent_text s) [
  | none ↦ if c == slash then some [] else none
  | some p ↦ some (c ∷ p)
]

abbrev pub is_creation : PermOpt → Bool
is_creation create_pc = true
is_creation createw_pc = true
is_creation mkdir_pc = true
is_creation _ = false

-- The special entries `i` on, whose paths and modes are given; `nor_or_sp` is the answer so far.
check_special : Bytes → PermOpt → ℕ → ℕ → ℕ → List Bytes → List ℕ → Verdict
check_special check_path opt zero i nor_or_sp paths modes = legal nor_or_sp
check_special check_path opt (suc left) i nor_or_sp paths modes =
    let related = child_cmp_new check_path (get_or paths i []) in
    let at_path : ℕ = elim related [ same ↦ i | _ ↦ nor_or_sp ] in
    let next = check_special check_path opt left (i + 1) nor_or_sp paths modes in
    let next_related = check_special check_path opt left (i + 1) at_path paths modes in
    let refused = mask_compare (get_or modes i 0) opt in
    elim related [
      | unrelated ↦ next
      | _ ↦ elim refused [ allowed ↦ next_related | denied ↦ illegal | no_value ↦ undefined ]
    ]

unfoldable pub check_modes : PermissionInfo → Bytes → PermOpt → ℕ → List ℕ → Verdict
unfolding check_special mask_compare
check_modes info check_path opt normal modes = elim (mask_compare normal opt) [
  | allowed ↦ check_special check_path opt info.sp_num 0 0 info.sp_path modes
  | denied ↦ illegal
  | no_value ↦ undefined
]

-- `type_tmp` is what that variable holds when the operation creates nothing: the source reads it
-- before it is written.
unfoldable pub check_permission : ℕ → PermissionInfo → Bytes → PermOpt → Verdict
unfolding parent_text
check_permission type_tmp info path opt =
    let dirs =
      λ (check_path : Bytes). check_modes info check_path opt info.nom_dir_mode info.sp_dir_modes in
    let files =
      λ (check_path : Bytes). check_modes info check_path opt info.nom_f_mode info.sp_f_modes in
    if is_creation opt
    then elim (parent_text path) [
      | none ↦ undefined
      | some p ↦ if leb path_max (length p) then undefined else dirs p
    ]
    else if leb path_max (length path)
    then undefined
    else if type_tmp == 0
    then dirs path
    else files path

-- `pacon_init_perm_info`: every special mode is 999, which stands for none.
unfoldable pub pacon_init_perm_info : PermissionInfo → PermissionInfo
pacon_init_perm_info info = record info {
  sp_dir_modes = replicate sp_list_max 999;
  sp_f_modes = replicate sp_list_max 999;
}
