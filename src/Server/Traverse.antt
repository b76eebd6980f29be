-- ===== src/Server/Traverse.antt =====
-- The walks over a directory of server/pacon_server.c: traversedir_dmkv_del, traversedir_dmkv_flush,
-- traversedir_dmkv_rename and rename_update_dc. The fuel bounds the depth of the tree.
use pacon.Base.{
  ℕ, zero, suc, Bool, none, some, List, [], ◌∷◌, ◌++◌, leb, if◌then◌else◌, Bytes, length, pure,
  crash, exhausted, gets, ◌>>=◌, ◌>>◌,
}
use pacon.Paths.{slash}
use pacon.System.{Dirent, System}
use pacon.Dmkv.{KvRet, ret_ok, dmkv_del}
use pacon.Message.{split_joint}
use pacon.Client.Evict.{is_dot}
use pacon.Server.State.{Serve, with_cache, with_dfs}

-- The outcome of one entry: go on, or return from the directory.
pub data Visit : Type 0 where
  go_on : Visit
  return : Visit

-- path, '/', d_name
unfoldable pub dir_new : Bytes → Bytes → Bytes
dir_new path d_name = path ++ slash ∷ d_name

module _ (sys : System) where
  -- dmkv_del(kv_handle_for_barrier, dir_new)
  unfoldable pub drop_cached : Bytes → Serve sys KvRet
  drop_cached path = do
    kv_b ← gets (λ w. w.handle_for_barrier)
    with_cache sys (dmkv_del sys.kv kv_b path)

  -- while ((entry = readdir(pd)) != NULL), without "." and "..": `go_on` when all have been visited.
  unfoldable pub each_entry :
      (Bytes → Bool → Serve sys Visit) → Bytes → List Dirent → Serve sys Visit
  unfolding is_dot dir_new
  each_entry visit path [] = pure go_on
  each_entry visit path (entry ∷ rest) = do
    let others = each_entry visit path rest
    if is_dot entry.d_name then others else (do
      visited ← visit (dir_new path entry.d_name) entry.d_dir
      elim visited [ go_on ↦ others | return ↦ pure return ])

  -- opendir and the loop; a NULL directory is read.
  unfoldable pub walk : (Bytes → Bool → Serve sys Visit) → Bytes → Serve sys Visit
  unfolding each_entry
  walk visit path = do
    entries ← with_dfs sys (sys.dfs.list_dir path)
    elim entries [ none ↦ crash | some es ↦ each_entry visit path es ]

  -- One entry of traversedir_dmkv_del, with the call for a directory.
  unfoldable pub del_visit : (Bytes → Serve sys (Unit {0})) → Bytes → Bool → Serve sys Visit
  unfolding drop_cached
  del_visit deeper path d_dir = do
    _ ← drop_cached path
    if d_dir then (deeper path >> pure go_on) else (do
      removed? ← with_dfs sys (sys.dfs.remove path)
      pure (if removed? then go_on else return))

  -- Cached items and files below `path` go, and then `path`; an entry that cannot be removed ends the
  -- walk of its directory.
  unfoldable pub traversedir_dmkv_del : ℕ → Bytes → Serve sys (Unit {0})
  unfolding walk del_visit
  traversedir_dmkv_del zero path = exhausted
  traversedir_dmkv_del (suc fuel) path = do
    walked ← walk (del_visit (traversedir_dmkv_del fuel)) path
    elim walked [ return ↦ pure tt | go_on ↦ do _ ← with_dfs sys (sys.dfs.rmdir path); pure tt ]

  unfoldable pub flush_visit : (Bytes → Serve sys (Unit {0})) → Bytes → Bool → Serve sys Visit
  unfolding drop_cached
  flush_visit deeper path d_dir = do
    _ ← drop_cached path
    if d_dir then (deeper path >> pure go_on) else pure go_on

  unfoldable pub traversedir_dmkv_flush : ℕ → Bytes → Serve sys (Unit {0})
  unfolding walk flush_visit
  traversedir_dmkv_flush zero path = exhausted
  traversedir_dmkv_flush (suc fuel) path =
      walk (flush_visit (traversedir_dmkv_flush fuel)) path >> pure tt

  -- An item that is not cached ends the walk of its directory.
  unfoldable pub rename_visit : (Bytes → Serve sys (Unit {0})) → Bytes → Bool → Serve sys Visit
  unfolding drop_cached
  rename_visit deeper path d_dir = do
    ret ← drop_cached path
    elim ret [
      | ret_ok ↦ if d_dir then (deeper path >> pure go_on) else pure go_on
      | _ ↦ pure return
    ]

  unfoldable pub traversedir_dmkv_rename : ℕ → Bytes → Bytes → Serve sys (Unit {0})
  unfolding walk rename_visit
  traversedir_dmkv_rename zero oldpath newpath = exhausted
  traversedir_dmkv_rename (suc fuel) oldpath newpath =
      walk (rename_visit (λ path. traversedir_dmkv_rename fuel path newpath)) oldpath >> pure tt

  unfoldable pub rename_update_dc : ℕ → Bytes → Serve sys (Unit {0})
  unfolding traversedir_dmkv_rename split_joint
  rename_update_dc fuel path = if leb (length path) 1 then pure tt else (do
    let (oldpath, newpath) = split_joint path
    traversedir_dmkv_rename fuel oldpath newpath
    _ ← with_dfs sys (sys.dfs.rename oldpath newpath)
    pure tt)
