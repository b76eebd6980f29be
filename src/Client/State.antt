-- ===== src/Client/State.antt =====
-- `struct pacon`, the process's tables, and the calls that every operation is made of.
use pacon.Base.{
  ℕ, ◌%◌, ◌^◌, Bool, true, false, Option, none, some, List, [], ◌∷◌, ◌++◌, leb, ◌==◌, if◌then◌else◌,
  Bytes, bytes_eq, length, done, fault, spin, Cmd,
}
use pacon.System.{Stat, Dirent, System}
use pacon.Message.{Opt, too_long, overrun, built, mq_mesg, rpc_mesg, path_max}
use pacon.Permission.{PermissionInfo, PermOpt, legal, illegal, undefined, check_permission}

-- 0 and -1
pub data Status : Type 0 where
  succeeded : Status
  failed : Status

-- A region joined by `cregion_joint`: its root and the cluster that caches it.
pub record Remote : Type 0 where
  pub root : Bytes
  pub handle : ℕ

-- The settings in `struct pacon`; a NULL `perm_info` is `none`.
pub record Pacon : Type 0 where
  pub kv_handle : ℕ
  pub mount_path : Bytes
  pub perm_info : Option PermissionInfo
  pub df_dir_mode : ℕ
  pub df_f_mode : ℕ
  pub remotes : List Remote
  pub fsync_logfile_path : Bytes
  pub fsync_log_fd : ℕ

-- What a client process changes: the services that it calls, the messages it has put on the commit
-- queue (oldest first), the tables of checked parents and of open files, its last barrier, and the size
-- of its fsync log.
pub record Client (sys : System) : Type 0 where
  pub kv : sys.kv.State
  pub dfs : sys.dfs.State
  pub now : ℕ
  pub sent : List Bytes
  pub dir_check_table : List Bytes
  pub fd_table : List Bytes
  pub current_barrier_id : ℕ
  pub log_size : ℕ

-- A `uint32_t`.
abbrev pub word : ℕ → ℕ
word n = n % 2 ^ 32

unfoldable pub contains : List Bytes → Bytes → Bool
contains [] k = false
contains (j ∷ js) k = if bytes_eq j k then true else contains js k

module _ (sys : System) where
  abbrev pub Act : Type 0 → Type 0
  Act A = Cmd (Client sys) A

  abbrev pub with_kv : {A : Type 0} → Cmd sys.kv.State A → Act A
  with_kv m c = elim (m c.kv) [
    | done (a, kv') ↦ done (a, record c { kv = kv' })
    | fault ↦ fault
    | spin ↦ spin
  ]

  abbrev pub with_dfs : {A : Type 0} → (sys.dfs.State → A × sys.dfs.State) → Act A
  with_dfs call c = done ((call c.dfs).0, record c { dfs = (call c.dfs).1 })

  unfoldable pub stat : Bytes → Act (Option Stat)
  stat path c = let (st, dfs') = sys.dfs.stat path c.dfs in done (st, record c { dfs = dfs' })

  unfoldable pub list_dir : Bytes → Act (Option (List Dirent))
  list_dir path c =
      let (entries, dfs') = sys.dfs.list_dir path c.dfs in done (entries, record c { dfs = dfs' })

  -- time(NULL)
  unfoldable pub time : Act ℕ
  time c = done (c.now, record c { now = sys.later c.now })

  unfoldable pub add_to_dir_check_table : Bytes → Act (Unit {0})
  add_to_dir_check_table parent_dir c =
      done (tt, record c { dir_check_table = parent_dir ∷ c.dir_check_table })

  unfoldable pub dir_check_local : Bytes → Act Bool
  unfolding contains
  dir_check_local parent_dir c = done (contains c.dir_check_table parent_dir, c)

  -- fdht_put: the path is open.
  unfoldable pub add_local_fd : Bytes → Act (Unit {0})
  add_local_fd path c = done (tt, record c { fd_table = path ∷ c.fd_table })

  unfoldable pub add_to_mq : Bytes → Opt → ℕ → Act Status
  add_to_mq path opt timestamp c = elim (mq_mesg path opt (word timestamp)) [
    | too_long ↦ done (failed, c)
    | overrun ↦ fault
    | built mesg ↦ done (succeeded, record c { sent = c.sent ++ mesg ∷ [] })
  ]

  -- The reply '0' is success.
  unfoldable pub add_to_local_rpc : Bytes → Opt → ℕ → Act Status
  add_to_local_rpc path opt timestamp c = elim (rpc_mesg path opt (word timestamp)) [
    | too_long ↦ done (failed, c)
    | overrun ↦ fault
    | built mesg ↦
        let (rep, kv', dfs') = sys.local_rpc mesg c.kv c.dfs in
        done (if rep == b'0' then succeeded else failed, record c { kv = kv'; dfs = dfs' })
  ]

  -- if (pacon->perm_info != NULL) { ret = check_permission(...); if (ret < 0) return -1; }
  -- `none` is that -1. Without batch permissions the location is 0.
  unfoldable pub permit : Pacon → Bytes → PermOpt → Act (Option ℕ)
  permit p path opt c = elim p.perm_info [
    | none ↦ done (some 0, c)
    | some info ↦ elim (check_permission sys.indeterminate info path opt) [
      | legal i ↦ done (some i, c)
      | illegal ↦ done (none, c)
      | undefined ↦ fault
    ]
  ]

  -- A text that is printed into a buffer of PATH_MAX bytes.
  abbrev pub into_path : Bytes → Act Bytes
  into_path text c = if leb path_max (length text) then fault else done (text, c)
