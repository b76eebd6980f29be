-- ===== src/Client/Load.antt =====
-- `load_to_pacon` and `pacon_opendir` of pacon.c with their eviction, and the parts that the
-- operations share: fetching an entry that may have to be loaded, setting a flag of an entry by
-- compare and swap, and placing a new entry where there is none or a removed one.
use pacon.Base.{
  ℕ, zero, suc, true, Option, none, some, List, Bytes, get_elem?, if◌then◌else◌, pure, crash,
  exhausted, ◌>>=◌, ◌>>◌,
}
use pacon.Stat.{StatFlag, stat_rm, set_stat_flag, get_stat_flag, seri_val, deseri_val}
use pacon.System.{Item, System}
use pacon.Dmkv.{
  KvRet, ret_ok, ret_exists, ret_no_memory, dmkv_set, dmkv_add, dmkv_cas, dmkv_get, dmkv_get_cas,
}
use pacon.Permission.{PermissionInfo}
use pacon.Client.State.{Status, succeeded, failed, Pacon, Act, with_kv}
use pacon.Client.Evict.{Dir, evict_metadata, load_with, opendir_with}

-- What became of a new entry: added, put in the place of a removed one, refused because the path is
-- in use, or lost to an error of the cache.
pub data Placed : Type 0 where
  added : Placed
  replaced : Placed
  occupied : Placed
  broken : Placed

module _ (sys : System) where
  unfoldable pub load_to_pacon : ℕ → Pacon → Bytes → Act sys Status
  unfolding load_with
  load_to_pacon fuel p path = load_with sys (evict_metadata sys fuel p) fuel p path

  unfoldable pub pacon_opendir : ℕ → Pacon → Bytes → Act sys Dir
  unfolding opendir_with
  pacon_opendir fuel p path = opendir_with sys (evict_metadata sys fuel p) fuel p path

  -- val = dmkv_get_cas(...); if (val == NULL) { load it or return -1; val = dmkv_get_cas(...); }
  -- `none` is that -1. A NULL after the load is dereferenced.
  unfoldable pub fetch_item : ℕ → Pacon → Bytes → Act sys (Option Item)
  unfolding load_to_pacon
  fetch_item fuel p path = do
    val ← with_kv sys (dmkv_get_cas sys.kv p.kv_handle path)
    elim val [
      | some i ↦ pure (some i)
      | none ↦ do
        loaded ← load_to_pacon fuel p path
        elim loaded [
          | failed ↦ pure none
          | succeeded ↦ do
            again ← with_kv sys (dmkv_get_cas sys.kv p.kv_handle path)
            elim again [ none ↦ crash | some i ↦ pure (some i) ]
        ]
    ]

  -- Set the flag in the stat of `i` and swap it in; while another write came between, read again.
  unfoldable pub mark_item : ℕ → Pacon → Bytes → StatFlag → Item → Act sys KvRet
  mark_item zero p path flag i = exhausted
  mark_item (suc fuel) p path flag i = elim (deseri_val i.value) [
    | none ↦ crash
    | some p_st ↦ do
      let val = seri_val (set_stat_flag p_st flag true)
      ret ← with_kv sys (dmkv_cas sys.kv p.kv_handle path val i.item_cas)
      elim ret [
        | ret_exists ↦ do
          again ← with_kv sys (dmkv_get_cas sys.kv p.kv_handle path)
          elim again [ none ↦ crash | some j ↦ mark_item fuel p path flag j ]
        | r ↦ pure r
      ]
  ]

  -- What follows a `dmkv_add` that is refused: an entry that was removed is overwritten.
  unfoldable pub replace_removed : Pacon → Bytes → Bytes → Act sys Placed
  replace_removed p path val = do
    tmp_val ← with_kv sys (dmkv_get sys.kv p.kv_handle path)
    elim tmp_val [
      | none ↦ pure broken
      | some v ↦ elim (deseri_val v) [
        | none ↦ crash
        | some tmp_p_st ↦
            if get_stat_flag tmp_p_st stat_rm
            then (do
              ret ← with_kv sys (dmkv_set sys.kv p.kv_handle path val)
              pure (elim ret [ ret_ok ↦ replaced | _ ↦ broken ]))
            else pure occupied
      ]
    ]

  unfoldable pub place : ℕ → Pacon → Bytes → Bytes → Act sys Placed
  unfolding replace_removed
  place zero p path val = exhausted
  place (suc fuel) p path val = do
    ret ← with_kv sys (dmkv_add sys.kv p.kv_handle path val)
    elim ret [
      | ret_ok ↦ pure added
      | ret_no_memory ↦ evict_metadata sys fuel p >> place fuel p path val
      | _ ↦ replace_removed p path val
    ]

  -- The default mode, or the one of the location that `check_permission` has found.
  unfoldable pub mode_at : Option PermissionInfo → (PermissionInfo → List ℕ) → ℕ → ℕ → Act sys ℕ
  mode_at none modes default location = pure default
  mode_at (some info) modes default location = elim (get_elem? (modes info) location) [
    | none ↦ crash
    | some mode ↦ pure mode
  ]
