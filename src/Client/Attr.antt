-- ===== src/Client/Attr.antt =====
-- `pacon_getattr` of pacon.c, with the joined regions.
use pacon.Base.{
  ℕ, not, ◌&&◌, Option, none, some, List, [], ◌∷◌, if◌then◌else◌, Bytes, pure, crash, ◌>>=◌,
}
use pacon.Stat.{
  PaconStat, stat_rm, stat_inline, stat_file_created, get_stat_flag, seri_val, deseri_val,
}
use pacon.System.{Stat, System}
use pacon.Paths.{unrelated, child_cmp_new}
use pacon.Dmkv.{dmkv_get}
use pacon.Permission.{read_pc}
use pacon.Client.State.{Pacon, Remote, word, Act, with_kv, stat, permit}
use pacon.Client.Evict.{evict_metadata, add_or_evict}

-- A region joined by `cregion_joint`, as `init_remote_pacon` sets it up: no permissions, default
-- modes, no further regions. Nothing is synced to the log of one.
unfoldable pub remote_pacon : Remote → Pacon
remote_pacon r = record {
  kv_handle = r.handle;
  mount_path = r.root;
  perm_info = none;
  df_dir_mode = 16877;
  df_f_mode = 33188;
  remotes = [];
  fsync_logfile_path = [];
  fsync_log_fd = 0;
}

module _ (sys : System) where
  -- The caller's `fd` stays.
  unfoldable pub stat_of_dfs : PaconStat → Stat → PaconStat
  stat_of_dfs st buf = record st {
    flags = 0;
    mode = word buf.st_mode;
    ctime = word buf.st_ctime;
    atime = word buf.st_atime;
    mtime = word buf.st_mtime;
    size = word buf.st_size;
    uid = word buf.st_uid;
    gid = word buf.st_gid;
    nlink = word buf.st_nlink;
    open_counter = 0;
  }

  -- The caller's `open_counter` and `fd` stay.
  unfoldable pub stat_of_value : PaconStat → PaconStat → PaconStat
  stat_of_value st st_tmp = record st_tmp { open_counter = st.open_counter; fd = st.fd }

  -- The times and the size of a file that is in the file system; what `stat` leaves unset, when it
  -- fails, is copied all the same.
  unfoldable pub refreshed : PaconStat → Option Stat → PaconStat
  refreshed st (some buf) = record st {
    ctime = word buf.st_ctime;
    atime = word buf.st_atime;
    mtime = word buf.st_mtime;
    size = word buf.st_size;
  }
  refreshed st none = record st {
    ctime = word sys.indeterminate;
    atime = word sys.indeterminate;
    mtime = word sys.indeterminate;
    size = word sys.indeterminate;
  }

  -- The part behind a hit in the cache.
  unfoldable pub getattr_cached : Bytes → PaconStat → Bytes → Act sys (Option PaconStat)
  unfolding stat_of_value refreshed
  getattr_cached path st val = elim (deseri_val val) [
    | none ↦ crash
    | some st_tmp ↦
        let found = stat_of_value st st_tmp in
        if get_stat_flag found stat_rm
        then pure none
        else if not (get_stat_flag found stat_inline) && get_stat_flag found stat_file_created
        then (do buf ← stat sys path; pure (some (refreshed found buf)))
        else pure (some found)
  ]

  -- `elsewhere` is the search of the joined regions.
  unfoldable pub getattr_here :
      Act sys (Option PaconStat) → ℕ → Pacon → Bytes → PaconStat → Act sys (Option PaconStat)
  unfolding getattr_cached stat_of_dfs add_or_evict
  getattr_here elsewhere fuel p path st = do
    location ← permit sys p path read_pc
    elim location [
      | none ↦ pure none
      | some i ↦ do
        val ← with_kv sys (dmkv_get sys.kv p.kv_handle path)
        elim val [
          | some v ↦ getattr_cached path st v
          | none ↦ do
            found ← elim (child_cmp_new path p.mount_path) [
              | unrelated ↦ pure none
              | _ ↦ stat sys path
            ]
            elim found [
              | none ↦ elsewhere
              | some buf ↦ do
                let st_new = stat_of_dfs st buf
                _ ←
                    add_or_evict sys (evict_metadata sys fuel p) fuel p.kv_handle path
                      (seri_val st_new)
                pure (some st_new)
            ]
        ]
    ]

  -- The first region that holds the path decides. A remote region has no regions of its own.
  unfoldable pub getattr_remotes : ℕ → List Remote → Bytes → PaconStat → Act sys (Option PaconStat)
  unfolding getattr_here remote_pacon
  getattr_remotes fuel [] path st = pure none
  getattr_remotes fuel (r ∷ rs) path st = elim (child_cmp_new path r.root) [
    | unrelated ↦ getattr_remotes fuel rs path st
    | _ ↦ getattr_here (pure none) fuel (remote_pacon r) path st
  ]

  -- The stat for the caller, or `none` for -1. What it wrote to the caller's struct before a -1 is
  -- left out.
  unfoldable pub pacon_getattr : ℕ → Pacon → Bytes → PaconStat → Act sys (Option PaconStat)
  unfolding getattr_remotes
  pacon_getattr fuel p path st =
      getattr_here (getattr_remotes fuel p.remotes path st) fuel p path st
