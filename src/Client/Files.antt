-- ===== src/Client/Files.antt =====
-- The file data of pacon.c: `struct pacon_file`, what open, read and write share, and the buffers.
pub mod Open
pub mod Read
pub mod Write
pub mod Counted
pub mod Sync
pub mod Splices
pub mod Cached
pub mod Inlines
pub mod Histories
pub mod Spills
pub mod Lost
pub mod Logs
pub mod Tests
use pacon.Base.{
  ℕ, zero, suc, ◌+◌, ◌%◌, ◌&&◌, not, Bool, Option, none, some, ◌∷◌, ◌++◌, [], ltb, leb,
  if◌then◌else◌, Bytes, length, take, drop, replicate, pure, crash, exhausted, ◌>>=◌,
}
use pacon.Stat.{
  PaconStat, stat_inline, stat_file_created, get_stat_flag, seri_val, deseri_val, inline_max,
  copy_into,
}
use pacon.System.{System}
use pacon.Dmkv.{ret_ok, ret_exists, ret_error, dmkv_get_cas, dmkv_cas}
use pacon.Client.State.{
  Status, succeeded, failed, Pacon, word, Act, with_kv, with_dfs, add_local_fd,
}

-- The fields that are looked at; `none` is an `fd` of -1.
pub record PaconFile : Type 0 where
  pub flags : ℕ
  pub mode : ℕ
  pub size : ℕ
  pub open_flags : ℕ
  pub open_mode : ℕ
  pub fd : Option ℕ
  pub hit_remote_cr : ℕ

-- The file's data is in the file system.
unfoldable pub in_dfs : PaconStat → Bool
in_dfs st =
    get_stat_flag st stat_file_created && not (get_stat_flag st stat_inline) && ltb 0 st.size

-- memcpy(dst + offset, src, n); `none` when it leaves one of the arrays.
unfoldable pub memcpy : Bytes → ℕ → Bytes → ℕ → Option Bytes
memcpy dst offset src n = if leb n (length src) then copy_into dst offset (take n src) else none

-- strcpy to an array that has room for it
abbrev pub strcpy : Bytes → Bytes → Bytes
strcpy dst text = text ++ 0 ∷ drop (length text + 1) dst

module _ (sys : System) where
  -- `char inline_data[INLINE_MAX];`
  abbrev pub unset_inline : Bytes
  unset_inline = replicate inline_max (sys.indeterminate % 256)

  -- while (1) { st.open_counter++; ... }: the swap of the struct with one more opening. After an error
  -- other than -1 and 1 it counts once more.
  unfoldable pub count_open : ℕ → Pacon → Bytes → PaconStat → ℕ → Act sys Status
  count_open zero p path st cas = exhausted
  count_open (suc fuel) p path st cas = do
    let opened = record st { open_counter = word (st.open_counter + 1) }
    ret ← with_kv sys (dmkv_cas sys.kv p.kv_handle path (seri_val opened) cas)
    elim ret [
      | ret_ok ↦ pure succeeded
      | ret_error ↦ pure failed
      | ret_exists ↦ do
        val ← with_kv sys (dmkv_get_cas sys.kv p.kv_handle path)
        elim val [
          | none ↦ crash
          | some i ↦ elim (deseri_val i.value) [
            | none ↦ crash
            | some st_new ↦ count_open fuel p path st_new i.item_cas
          ]
        ]
      | _ ↦ count_open fuel p path opened cas
    ]

  -- Open a cached file in the file system and count it; `none` when one of both fails.
  unfoldable pub open_counted : ℕ → Pacon → Bytes → ℕ → ℕ → PaconStat → ℕ → Act sys (Option ℕ)
  unfolding count_open
  open_counted fuel p path flags mode st cas = do
    opened ← with_dfs sys (sys.dfs.open_mode path flags mode)
    elim opened [
      | none ↦ pure none
      | some fd ↦ do
        counted ← count_open fuel p path st cas
        elim counted [
          | failed ↦ pure none
          | succeeded ↦ do _ ← add_local_fd sys path; pure (some fd)
        ]
    ]
