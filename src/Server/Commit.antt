-- ===== src/Server/Commit.antt =====
-- The commit of a change to the file system: the cases MKDIR, CREATE and RM of commit_to_fs and
-- `retry_commit` of server/pacon_server.c, behind the wait for a barrier at the head of commit_to_fs.
pub mod Effects
pub mod Tests
use pacon.Base.{
  ℕ, zero, suc, Bool, none, some, Bytes, if◌then◌else◌, done, pure, exhausted, gets, ◌>>=◌,
}
use pacon.System.{System}
use pacon.Dmkv.{KvRet, ret_ok, dmkv_get, dmkv_del}
use pacon.Server.Removing.{skips}
use pacon.Server.State.{Server, Serve, with_cache, Committed, ok, error, not_read}

-- The changes that have no barrier: the messages ":1", ":2" and ":3".
pub data Change : Type 0 where
  mkdir_change : Change
  create_change : Change
  rm_change : Change

module _ (sys : System) where
  -- One attempt at a change, with a mode.
  unfoldable pub attempt : Change → Bytes → ℕ → Serve sys Bool
  attempt mkdir_change path mode w =
      let (done?, dfs') = sys.dfs.mkdir path mode w.dfs in done (done?, record w { dfs = dfs' })
  attempt create_change path mode w =
      let (done?, dfs') = sys.dfs.creat path mode w.dfs in done (done?, record w { dfs = dfs' })
  attempt rm_change path mode w =
      let (done?, dfs') = sys.dfs.remove path w.dfs in done (done?, record w { dfs = dfs' })

  -- while (1): until an attempt succeeds.
  unfoldable pub retry_commit : ℕ → Change → Bytes → Serve sys Committed
  unfolding attempt
  retry_commit zero op path = exhausted
  retry_commit (suc fuel) op path = do
    mode ← gets (λ w. w.batch_dir_mode)
    done? ← attempt op path mode
    if done? then pure ok else retry_commit fuel op path

  -- S_IFDIR | 0755 and S_IFREG | 0644
  abbrev pub first_mode : Change → ℕ
  first_mode mkdir_change = 16877
  first_mode create_change = 33188
  first_mode rm_change = 0

  -- The cases '1' and '2': nothing for a path that is being removed.
  unfoldable pub commit_creation : ℕ → Change → Bytes → Serve sys Committed
  unfolding attempt retry_commit skips
  commit_creation fuel op path = do
    skipped ← gets (λ w. skips path w.removing_dirs)
    if skipped then pure ok else (do
      permission ← gets (λ w. w.sp_permission)
      elim permission [
        | not_read ↦ pure error
        | _ ↦ do
          done? ← attempt op path (first_mode op)
          if done? then pure ok else retry_commit fuel op path
      ])

  -- The case '3': nothing for a path that is not cached; the item goes with the file.
  unfoldable pub commit_rm : ℕ → Bytes → Serve sys Committed
  unfolding attempt retry_commit
  commit_rm fuel path = do
    handle ← gets (λ w. w.handle)
    val ← with_cache sys (dmkv_get sys.kv handle path)
    elim val [
      | none ↦ pure ok
      | some _ ↦ do
        done? ← attempt rm_change path 0
        committed ← (if done? then pure ok else retry_commit fuel rm_change path)
        elim committed [
          | error ↦ pure error
          | ok ↦ do
            ret ← with_cache sys (dmkv_del sys.kv handle path)
            pure (elim ret [ ret_ok ↦ ok | _ ↦ error ])
        ]
    ]

  unfoldable pub commit_change : ℕ → Change → Bytes → Serve sys Committed
  unfolding commit_creation commit_rm
  commit_change fuel rm_change path = commit_rm fuel path
  commit_change fuel mkdir_change path = commit_creation fuel mkdir_change path
  commit_change fuel create_change path = commit_creation fuel create_change path
