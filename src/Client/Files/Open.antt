-- ===== src/Client/Files/Open.antt =====
-- `pacon_open` and `pacon_create_open` of pacon.c. `pacon_close` answers 0 and does nothing.
use pacon.Base.{
  ℕ, zero, suc, ◌+◌, true, none, some, List, [], ◌∷◌, if◌then◌else◌, Bytes, pure, crash, exhausted,
  ◌>>=◌,
}
use pacon.Stat.{PaconStat, stat_file_created, set_stat_flag, seri_val, deseri_val}
use pacon.System.{Stat, Item, System}
use pacon.Paths.{unrelated, child_cmp_new}
use pacon.Dmkv.{ret_ok, dmkv_get_cas}
use pacon.Permission.{rw_pc}
use pacon.Client.State.{
  Status, succeeded, failed, Remote, Pacon, word, Act, with_kv, with_dfs, stat, add_local_fd,
  permit,
}
use pacon.Client.Evict.{evict_metadata, add_or_evict}
use pacon.Client.Attr.{remote_pacon}
use pacon.Client.Create.{pacon_create}
use pacon.Client.Files.{PaconFile, in_dfs, open_counted}

module _ (sys : System) where
  abbrev pub Opened : Type 0
  Opened = Act sys (Status × PaconFile)

  -- The stat of a file that is opened in the file system; its counter of openings starts unset.
  unfoldable pub opened_stat : Stat → PaconStat
  opened_stat buf =
      set_stat_flag
        (record {
          flags = 0;
          mode = word buf.st_mode;
          ctime = word buf.st_ctime;
          atime = word buf.st_atime;
          mtime = word buf.st_mtime;
          size = word buf.st_size;
          uid = word buf.st_uid;
          gid = word buf.st_gid;
          nlink = word buf.st_nlink;
          open_counter = word (sys.indeterminate + 1);
          fd = word sys.indeterminate;
        })
        stat_file_created true

  unfoldable pub open_cached : ℕ → Pacon → Bytes → ℕ → ℕ → PaconFile → Item → Opened
  unfolding in_dfs open_counted
  open_cached fuel p path flags mode p_file i = elim (deseri_val i.value) [
    | none ↦ crash
    | some st ↦
        if in_dfs st
        then (do
          opened ← open_counted sys fuel p path flags mode st i.item_cas
          elim opened [
            | none ↦ pure (failed, p_file)
            | some fd ↦ pure (succeeded, record p_file { fd = some fd })
          ])
        else pure (succeeded, record p_file { fd = none })
  ]

  -- A path that is not cached, in the region: another round when the cache has got it meanwhile.
  unfoldable pub open_uncached : Opened → ℕ → Pacon → Bytes → ℕ → ℕ → PaconFile → Opened
  unfolding opened_stat add_or_evict
  open_uncached again fuel p path flags mode p_file = do
    buf ← stat sys path
    opened ← with_dfs sys (sys.dfs.open_mode path flags mode)
    elim buf [
      | none ↦ pure (failed, p_file)
      | some st ↦ elim opened [
        | none ↦ pure (failed, p_file)
        | some fd ↦ do
          ret ←
              add_or_evict sys (evict_metadata sys fuel p) fuel p.kv_handle path
                (seri_val (opened_stat st))
          elim ret [
            | ret_ok ↦ do
              _ ← add_local_fd sys path
              pure (succeeded, record p_file { fd = some fd })
            | _ ↦ again
          ]
      ]
    ]

  -- `elsewhere` is the search of the joined regions.
  unfoldable pub open_loop : Opened → ℕ → Pacon → Bytes → ℕ → ℕ → PaconFile → Opened
  unfolding open_cached open_uncached
  open_loop elsewhere zero p path flags mode p_file = exhausted
  open_loop elsewhere (suc fuel) p path flags mode p_file = do
    let again = open_loop elsewhere fuel p path flags mode p_file
    val ← with_kv sys (dmkv_get_cas sys.kv p.kv_handle path)
    elim val [
      | some i ↦ open_cached (suc fuel) p path flags mode p_file i
      | none ↦ elim (child_cmp_new path p.mount_path) [
        | unrelated ↦ elsewhere
        | _ ↦ open_uncached again fuel p path flags mode p_file
      ]
    ]

  unfoldable pub open_here : Opened → ℕ → Pacon → Bytes → ℕ → ℕ → PaconFile → Opened
  unfolding open_loop
  open_here elsewhere fuel p path flags mode p_file = do
    location ← permit sys p path rw_pc
    elim location [
      | none ↦ pure (failed, p_file)
      | some _ ↦
          open_loop elsewhere fuel p path flags mode
            (record p_file { open_flags = flags; open_mode = mode; hit_remote_cr = 0 })
    ]

  -- The first region that holds the path decides; which one it was is not kept.
  unfoldable pub open_remotes : ℕ → List Remote → Bytes → ℕ → ℕ → PaconFile → Opened
  unfolding open_here remote_pacon
  open_remotes fuel [] path flags mode p_file = pure (failed, p_file)
  open_remotes fuel (r ∷ rs) path flags mode p_file = elim (child_cmp_new path r.root) [
    | unrelated ↦ open_remotes fuel rs path flags mode p_file
    | _ ↦ do
      opened ← open_here (pure (failed, p_file)) fuel (remote_pacon r) path flags mode p_file
      let (ret, f) = opened
      elim ret [
        | failed ↦ pure (failed, f)
        | succeeded ↦ pure (succeeded, record f { hit_remote_cr = 1 })
      ]
  ]

  unfoldable pub pacon_open : ℕ → Pacon → Bytes → ℕ → ℕ → PaconFile → Opened
  unfolding open_remotes
  pacon_open fuel p path flags mode p_file =
      let f = record p_file { open_flags = flags; open_mode = mode; hit_remote_cr = 0 } in
      open_here (open_remotes fuel p.remotes path flags mode f) fuel p path flags mode p_file

  -- The mode that pacon_create gets is the address of `p_file`.
  unfoldable pub pacon_create_open : ℕ → Pacon → Bytes → ℕ → PaconFile → Opened
  unfolding pacon_create
  pacon_create_open fuel p path mode p_file = do
    ret ← pacon_create sys fuel p path sys.indeterminate
    elim ret [
      | failed ↦ pure (failed, p_file)
      | succeeded ↦
          pure (succeeded, record p_file { fd = none; open_mode = mode; hit_remote_cr = 0 })
    ]
