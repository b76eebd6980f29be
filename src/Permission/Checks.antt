-- ===== src/Permission/Checks.antt =====
-- What a legal answer of `check_permission` means.
use pacon.Base.{ℕ, zero, suc, ◌≡◌, ◌≢◌, Bool, true, false, ◌&&◌, List, [], Bytes, get_or}
use pacon.Paths.{unrelated, child_cmp_new}
use pacon.Permission.{PermOpt, allowed, mask_compare}

-- The special entry `j` does not stand in the way.
abbrev Passes : Bytes → PermOpt → List Bytes → List ℕ → ℕ → Type 0
Passes path opt paths modes j =
    child_cmp_new path (get_or paths j []) ≢ unrelated
    → mask_compare (get_or modes j 0) opt ≡ allowed

-- The special entry `j` is neither the path nor above it, or its mode allows the operation.
abbrev pub passes : Bytes → PermOpt → List Bytes → List ℕ → ℕ → Bool
passes path opt paths modes j = elim (child_cmp_new path (get_or paths j [])) [
  | unrelated ↦ true
  | _ ↦ elim (mask_compare (get_or modes j 0) opt) [ allowed ↦ true | _ ↦ false ]
]

-- The first `n` entries all pass.
unfoldable pub all_pass : ℕ → Bytes → PermOpt → List Bytes → List ℕ → Bool
all_pass zero path opt paths modes = true
all_pass (suc n) path opt paths modes =
    passes path opt paths modes n && all_pass n path opt paths modes
