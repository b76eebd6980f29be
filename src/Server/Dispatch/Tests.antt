-- ===== src/Server/Dispatch/Tests.antt =====
-- A message behind a barrier that another server deletes after the first look.
use pacon.Base.{before, ℕ, zero, suc, ◌<◌, ◌≡◌, ◌≢◌, refl, true, [], arith, Bytes}
use pacon.Message.{mesg_text, mkdir, parse_mesg}
use pacon.Server.State.{Server, not_read}
use pacon.Server.Barriers.{set_barrier, del_barrier, must_wait, next_waiting}
use pacon.Server.Samples.{node, file_path, server_of}
use pacon.Server.Dispatch.{commit_opt, commit_to_fs}
use pacon.Server.Dispatch.Laws.{after_looks, commit_to_fs-waits}

abbrev deletion : Server node → Server node
deletion w = record w { barriers = del_barrier w.barriers }

abbrev stopped : Server node
stopped = record (server_of [] 0) { barriers = set_barrier 0 true (server_of [] 0).barriers }

stopped-known : stopped.sp_permission ≢ not_read
unfolding server_of
stopped-known = λ e. cc

stopped-stands : (j : ℕ) → j < 1 → must_wait (after_looks deletion j stopped).barriers ≡ true
unfolding must_wait set_barrier server_of
stopped-stands zero low = refl
stopped-stands (suc j) low = absurd (omega arith)

abbrev mkdir_mesg : Bytes
mkdir_mesg = mesg_text file_path mkdir 5

commit_to_fs-waits_example :
    commit_to_fs node deletion 2 mkdir_mesg stopped
    ≡ commit_opt node deletion 2 b'1' file_path (after_looks deletion 1 stopped)
unfolding parse_mesg mesg_text before must_wait set_barrier del_barrier next_waiting server_of
commit_to_fs-waits_example =
    commit_to_fs-waits node deletion 1 2 mkdir_mesg stopped (omega arith) stopped-known
      (omega arith) stopped-stands refl
