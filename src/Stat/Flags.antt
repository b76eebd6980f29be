-- ===== src/Stat/Flags.antt =====
-- `struct pacon_stat`, `enum statflags`, `set_stat_flag` and `get_stat_flag` of pacon.c.
use Prim.Native.Nat.{bit_and, bit_or}
use pacon.Base.{ℕ, ◌-◌, ◌^◌, ◌<◌, ◌≡◌, Bool, true, false, arith, ◌==◌, if◌then◌else◌}
use pacon.Base.Bits.{bit, bit-lt, bit-bit_and, bit-bit_or, bit_and_lt, bit_or_lt}

pub record PaconStat : Type 0 where
  pub flags : ℕ
  pub mode : ℕ
  pub ctime : ℕ
  pub atime : ℕ
  pub mtime : ℕ
  pub size : ℕ
  pub uid : ℕ
  pub gid : ℕ
  pub nlink : ℕ
  pub open_counter : ℕ
  pub fd : ℕ

pub data StatFlag : Type 0 where
  stat_type : StatFlag
  stat_inline : StatFlag
  stat_commit : StatFlag
  stat_file_created : StatFlag
  stat_existedin_dfs : StatFlag
  stat_child_check : StatFlag
  stat_rm : StatFlag

-- The number of an enumerator, its shift.
abbrev pub position : StatFlag → ℕ
position stat_type = 0
position stat_inline = 1
position stat_commit = 2
position stat_file_created = 3
position stat_existedin_dfs = 4
position stat_child_check = 5
position stat_rm = 6

-- `~(1UL << flag_type)` has 64 bits; `flags` has 32, so the high ones have nothing to meet.
pub with_flag : ℕ → StatFlag → Bool → ℕ
with_flag flags flag_type true = bit_or flags (2 ^ position flag_type)
with_flag flags flag_type false = bit_and flags (2 ^ 32 - 1 - 2 ^ position flag_type)

pub has_flag : ℕ → StatFlag → Bool
unfolding bit
has_flag flags flag_type = if bit (position flag_type) flags == 1 then true else false

unfoldable pub set_stat_flag : PaconStat → StatFlag → Bool → PaconStat
set_stat_flag p_st flag_type val = record p_st { flags = with_flag p_st.flags flag_type val }

unfoldable pub get_stat_flag : PaconStat → StatFlag → Bool
get_stat_flag p_st flag_type = has_flag p_st.flags flag_type

abbrev pub same_flag : StatFlag → StatFlag → Bool
same_flag f g = position f == position g

-- The one bit of a mask, and the bits of its complement.
mask_bit : (f g : StatFlag) → bit (position g) (2 ^ position f) ≡ (if same_flag f g then 1 else 0)
unfolding bit
mask_bit f g = ground arith

clear_bit :
    (f g : StatFlag)
    → bit (position g) (2 ^ 32 - 1 - 2 ^ position f) ≡ (if same_flag f g then 0 else 1)
unfolding bit
clear_bit f g = ground arith

-- Setting or clearing a flag shows in that flag only.
pub has_flag-with_flag :
    (flags : ℕ) (f g : StatFlag) (val : Bool)
    → has_flag (with_flag flags f val) g ≡ (if same_flag f g then val else has_flag flags g)
unfolding has_flag with_flag
has_flag-with_flag flags f g true =
    ground (
      arith,
      bit-bit_or (position g) flags (2 ^ position f),
      mask_bit f g,
      bit-lt (position g) flags,
    )
has_flag-with_flag flags f g false = ground (
  arith,
  bit-bit_and (position g) flags (2 ^ 32 - 1 - 2 ^ position f),
  clear_bit f g,
  bit-lt (position g) flags,
)

-- The field stays a 32-bit word.
pub with_flag_lt :
    (flags : ℕ) (f : StatFlag) (val : Bool) → flags < 2 ^ 32 → with_flag flags f val < 2 ^ 32
unfolding with_flag
with_flag_lt flags f true h = bit_or_lt 32 flags (2 ^ position f) h (ground arith)
with_flag_lt flags f false h = bit_and_lt 32 flags (2 ^ 32 - 1 - 2 ^ position f) h (ground arith)

-- No flag is set in 0.
pub has_flag_zero : (g : StatFlag) → has_flag 0 g ≡ false
unfolding has_flag bit
has_flag_zero g = ground arith
