-- ===== src/Server/Dispatch.antt =====
-- `commit_to_fs` of server/pacon_server.c as a whole: the permissions are read once, a commit waits
-- while a barrier stands, and the operation's byte chooses the case.
pub mod Laws
pub mod Tests
use pacon.Base.{ℕ, none, some, not, ◌==◌, if◌then◌else◌, Bytes, pure, crash, gets, ◌>>=◌, ◌>>◌, leb}
use pacon.System.{System}
use pacon.Message.{
  parse_mesg, opt_code, checkpoint, mkdir, create, rm, rmdir, readdir, owrite, fsync, write,
  barrier, rename, flushdir, barrier_id_max,
}
use pacon.Server.State.{Server, Serve, Committed, ok, modify, wait_while}
use pacon.Server.Barriers.{must_wait, commit_barrier}
use pacon.Server.Batch.{batch_permission}
use pacon.Server.Commit.{mkdir_change, create_change, rm_change, commit_change}
use pacon.Server.Fsync.{fsync_from_log}
use pacon.Server.Inline.{commit_write}

module _ (sys : System) (meanwhile : Server sys → Server sys) where
  -- reach_barrier = 2; while (reach_barrier != 0);
  unfoldable pub stop_commits : ℕ → Serve sys Committed
  unfolding wait_while
  stop_commits fuel = do
    modify sys (λ w. record w { reach_barrier = 2 })
    wait_while sys meanwhile fuel (λ w. not (w.reach_barrier == 0))
    pure ok

  -- The switch; a byte that is no operation is passed over.
  unfoldable pub commit_opt : ℕ → ℕ → Bytes → Serve sys Committed
  unfolding stop_commits commit_change commit_barrier fsync_from_log commit_write
  commit_opt fuel opt path =
      if opt == opt_code mkdir
      then commit_change sys fuel mkdir_change path
      else if opt == opt_code create
      then commit_change sys fuel create_change path
      else if opt == opt_code rm
      then commit_change sys fuel rm_change path
      else if opt == opt_code rmdir
      then stop_commits fuel
      else if opt == opt_code readdir
      then stop_commits fuel
      else if opt == opt_code owrite
      then pure ok
      else if opt == opt_code fsync
      then fsync_from_log sys meanwhile fuel path
      else if opt == opt_code write
      then commit_write sys path
      else if opt == opt_code barrier
      then commit_barrier sys meanwhile fuel path
      else if opt == opt_code checkpoint
      then stop_commits fuel
      else if opt == opt_code rename
      then stop_commits fuel
      else if opt == opt_code flushdir
      then stop_commits fuel
      else pure ok

  -- while (barrier[waiting_barrier_id] == 1); an id past the array is a read out of it.
  unfoldable pub await_barrier : ℕ → Serve sys (Unit {0})
  unfolding wait_while must_wait
  await_barrier fuel = do
    id ← gets (λ w. w.barriers.waiting_barrier_id)
    if leb barrier_id_max id
        then crash
        else wait_while sys meanwhile fuel (λ w. must_wait w.barriers)

  unfoldable pub commit_to_fs : ℕ → Bytes → Serve sys Committed
  unfolding parse_mesg batch_permission await_barrier commit_opt
  commit_to_fs fuel mesg = elim (parse_mesg mesg) [
    | none ↦ crash
    | some m ↦ do batch_permission sys; await_barrier fuel; commit_opt fuel m.opt m.path
  ]
