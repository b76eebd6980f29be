-- ===== src/Server/Requests.antt =====
-- The requests of server/pacon_server.c: `commit_to_fs_barrier` for a local client, between the two
-- halves of a barrier, `handle_cluster_mesg` for another server, and the replies of the listeners.
use pacon.Base.{
  ℕ, zero, suc, ◌-◌, ◌+◌, ◌%◌, ◌^◌, not, ◌&&◌, none, some, [], ◌∷◌, ◌++◌, ltb, leb, ◌==◌,
  if◌then◌else◌, Bytes, length, char_at, before, drop, pure, crash, exhausted, gets, ◌>>=◌, ◌>>◌,
}
use pacon.Base.Decimal.{atoi}
use pacon.System.{System}
use pacon.Message.{
  path_max, colon, Request, parse_request, opt_code, checkpoint, rmdir, readdir, rename, flushdir,
}
use pacon.Server.Removing.{add_removing, del_removing}
use pacon.Server.State.{Server, Serve, Committed, ok, error, modify, at_slot}
use pacon.Server.Barriers.{del_barrier, broadcast_barrier_begin_new, broadcast_barrier_end_new}
use pacon.Server.Broadcast.{server_broadcast}
use pacon.Server.Traverse.{traversedir_dmkv_del, traversedir_dmkv_flush, rename_update_dc}

-- CL_ADD_REMOVING_DIR and CL_DEL_REMOVING_DIR
abbrev pub add_removing_mesg : Bytes → Bytes
add_removing_mesg path = path ++ colon ∷ b'3' ∷ []

abbrev pub del_removing_mesg : Bytes → Bytes
del_removing_mesg path = path ++ colon ∷ b'4' ∷ []

module _ (sys : System) (meanwhile : Server sys → Server sys) where
  -- A path for the array of removals, which may be full.
  unfoldable pub record_removing : Bytes → Serve sys (Unit {0})
  unfolding add_removing
  record_removing path = do
    dirs ← gets (λ w. w.removing_dirs)
    elim (add_removing path dirs) [
      | none ↦ crash
      | some dirs' ↦ modify sys (λ w. record w { removing_dirs = dirs' })
    ]

  unfoldable pub forget_removing : Bytes → Serve sys (Unit {0})
  unfolding del_removing
  forget_removing path =
      modify sys (λ w. record w { removing_dirs = del_removing path w.removing_dirs })

  -- The switch of commit_to_fs_barrier. `checkpoint` prints a `char` as a text, so it reads at an
  -- address that is none.
  unfoldable pub barrier_opt : ℕ → ℕ → Bytes → Serve sys Committed
  unfolding traversedir_dmkv_del traversedir_dmkv_flush rename_update_dc
  barrier_opt fuel opt path =
      if opt == opt_code rmdir
      then traversedir_dmkv_del sys fuel path >> pure ok
      else if opt == opt_code readdir
      then pure ok
      else if opt == opt_code checkpoint
      then crash
      else if opt == opt_code rename
      then rename_update_dc sys fuel path >> pure ok
      else if opt == opt_code flushdir
      then traversedir_dmkv_flush sys fuel path >> pure ok
      else pure error

  -- if opt is rmdir then add, or del, removing path
  unfoldable pub announce_removing : ℕ → Bytes → Serve sys (Unit {0})
  unfolding record_removing server_broadcast
  announce_removing opt path =
      if not (opt == opt_code rmdir)
      then pure tt
      else (do record_removing path; _ ← server_broadcast sys (add_removing_mesg path); pure tt)

  unfoldable pub retract_removing : ℕ → Bytes → Serve sys (Unit {0})
  unfolding forget_removing server_broadcast
  retract_removing opt path =
      if not (opt == opt_code rmdir)
      then pure tt
      else (do forget_removing path; _ ← server_broadcast sys (del_removing_mesg path); pure tt)

  -- A request in its parts.
  unfoldable pub serve_request : ℕ → Request → Serve sys Committed
  unfolding announce_removing broadcast_barrier_begin_new barrier_opt retract_removing
      broadcast_barrier_end_new
  serve_request fuel r = do
    let opt = r.parsed.opt
    let path = r.parsed.path
    announce_removing opt path
    at_slot sys r.barrier_id (broadcast_barrier_begin_new sys meanwhile fuel)
    ret ← barrier_opt fuel opt path
    elim ret [
      | error ↦ pure error
      | ok ↦ do
        retract_removing opt path
        at_slot sys r.barrier_id (broadcast_barrier_end_new sys meanwhile fuel)
        pure ok
    ]

  -- The time of a request is read and nothing depends on it.
  unfoldable pub commit_to_fs_barrier : ℕ → Bytes → Serve sys Committed
  unfolding parse_request serve_request
  commit_to_fs_barrier fuel mesg = elim (parse_request mesg) [
    | none ↦ crash
    | some r ↦ serve_request fuel r
  ]

  -- while (remote_reach_barrier == 0), until a second passes without a message
  unfoldable pub remote_wait : ℕ → ℕ → Serve sys (Unit {0})
  remote_wait zero timestamp = exhausted
  remote_wait (suc fuel) timestamp = do
    modify sys meanwhile
    reached ← gets (λ w. w.remote_reach_barrier)
    now ← gets (λ w. w.now)
    count ← gets (λ w. w.mesg_count)
    let late = leb 1 (now - timestamp)
    let next = remote_wait fuel (if late && not (count == 0) then now % 2 ^ 32 else timestamp)
    if not (reached == 0)
        then pure tt
        else if not late
        then next
        else if count == 0
        then (modify sys (λ w. record w { remote_reach_barrier = 1 }) >> next)
        else (modify sys (λ w. record w { mesg_count = 0 }) >> next)

  -- atoi(mesg+2), which sets `commit_barrier` unless it is 0
  unfoldable pub set_commit_barrier : Bytes → Serve sys Committed
  set_commit_barrier mesg =
      let timestamp = atoi (drop 2 mesg) in
      if timestamp == 0
      then pure error
      else (modify sys (λ w. record w { commit_barrier = timestamp }) >> pure ok)

  -- A message of another server. The cases ":1" and ":2" read `rmdir_record`, which is set only with
  -- ASYNC_RPC; the case ":7" reads its timestamp unset.
  unfoldable pub handle_cluster_mesg : ℕ → Bytes → Serve sys Committed
  unfolding record_removing forget_removing del_barrier remote_wait set_commit_barrier
  handle_cluster_mesg fuel mesg =
      let path = before colon mesg in
      let case = char_at mesg (length path + 1) in
      if case == b'1'
      then crash
      else if case == b'2'
      then crash
      else if case == b'3'
      then (record_removing path >> pure ok)
      else if case == b'4'
      then (forget_removing path >> pure ok)
      else if case == b'6'
      then set_commit_barrier mesg
      else if case == b'7'
      then (remote_wait fuel sys.indeterminate >> pure ok)
      else if case == b'8'
      then (do
        set ← set_commit_barrier mesg
        elim set [ error ↦ pure error | ok ↦ remote_wait fuel (atoi (drop 2 mesg)) >> pure ok ])
      else if case == b'9'
      then (do
        id ← gets (λ w. w.barriers.waiting_barrier_id)
        if not (ltb id 1024)
            then crash
            else (modify sys (λ w. record w { barriers = del_barrier w.barriers }) >> pure ok))
      else pure error

  -- rep[0] of the listeners
  abbrev pub reply_byte : Committed → ℕ
  reply_byte ok = b'0'
  reply_byte error = b'1'

  -- One round of listen_local_rpc and of listen_cluster_rpc: the reply to a message. The NUL behind a
  -- message of PATH_MAX bytes or more overruns the buffer.
  unfoldable pub listen_local_rpc : ℕ → Bytes → Serve sys ℕ
  unfolding commit_to_fs_barrier
  listen_local_rpc fuel mesg =
      if leb path_max (length mesg)
      then crash
      else (do ret ← commit_to_fs_barrier fuel mesg; pure (reply_byte ret))

  unfoldable pub listen_cluster_rpc : ℕ → Bytes → Serve sys ℕ
  unfolding handle_cluster_mesg
  listen_cluster_rpc fuel mesg =
      if leb path_max (length mesg)
      then crash
      else (do ret ← handle_cluster_mesg fuel mesg; pure (reply_byte ret))
