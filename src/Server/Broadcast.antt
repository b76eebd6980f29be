-- ===== src/Server/Broadcast.antt =====
-- `server_broadcast` of comm/comm.c, over the servers that `get_cluster_info_comm` has read.
use pacon.Base.{ℕ, List, [], ◌∷◌, ◌++◌, ◌==◌, if◌then◌else◌, Bytes, done, pure, gets, ◌>>=◌}
use pacon.System.{System}
use pacon.Paths.{is_loacl_addr}
use pacon.Server.State.{Serve, Committed, ok, error}

module _ (sys : System) where
  -- zmq_send and zmq_recv: the byte that the server at `addr` answers.
  unfoldable pub ask_server : Bytes → Bytes → Serve sys ℕ
  ask_server addr mesg w =
      let (rep, kv', dfs') = sys.cluster_rpc addr mesg w.kv w.dfs in
      done (rep, record w { kv = kv'; dfs = dfs'; sent = w.sent ++ (addr, mesg) ∷ [] })

  -- for (i = 0; i < servers_num; ++i): `server_mq[i]` is NULL for the server's own address.
  unfoldable pub broadcast_to : List Bytes → Bytes → Serve sys Committed
  unfolding ask_server is_loacl_addr
  broadcast_to [] mesg = pure ok
  broadcast_to (addr ∷ rest) mesg = do
    local_ip ← gets (λ w. w.local_ip)
    let others = broadcast_to rest mesg
    if is_loacl_addr local_ip addr
        then others
        else (do rep ← ask_server addr mesg; if rep == b'0' then others else pure error)

  unfoldable pub server_broadcast : Bytes → Serve sys Committed
  unfolding broadcast_to
  server_broadcast mesg = do servers ← gets (λ w. w.server_list); broadcast_to servers mesg
