-- ===== src/Permission/Masks.antt =====
-- Which operations a mode allows.
use pacon.Base.{ℕ, ◌<◌, ◌≡◌, ◌↔◌, ◌⊎◌, Bool, true, not, ◌&&◌, ◌||◌, arith, ◌==◌, length, char_at}
use pacon.Base.Decimal.{decimal}
use pacon.Permission.{PermOpt, read_pc, write_pc, differs, allowed, denied, mask_compare}

abbrev pub leading : ℕ → ℕ
leading mode = char_at (decimal mode) 0

-- What the modes come to: 7 allows all, 4 reading, 2 writing, and no other digit anything.
abbrev pub grants : ℕ → PermOpt → Bool
grants digit opt =
    digit == b'7'
    || (digit == b'4' && not (differs opt read_pc) || digit == b'2' && not (differs opt write_pc))

-- A mode of one to four digits allows an operation exactly when its first digit grants it: 6, 5 and
-- 3 grant nothing, though their cases list operations.
pub mask_compare_iff :
    (mode : ℕ) (opt : PermOpt)
    → length (decimal mode) < 5
    → (mask_compare mode opt ≡ allowed) ↔ (grants (leading mode) opt ≡ true)
unfolding mask_compare
mask_compare_iff mode opt fits = (ground arith, ground arith)

-- The modes 6, 5 and 3 deny each operation.
pub mask_compare_denies :
    (mode : ℕ) (opt : PermOpt)
    → length (decimal mode) < 5
    → (leading mode ≡ b'6') ⊎ (leading mode ≡ b'5') ⊎ (leading mode ≡ b'3')
    → mask_compare mode opt ≡ denied
unfolding mask_compare
mask_compare_denies mode opt fits digit = ground arith
