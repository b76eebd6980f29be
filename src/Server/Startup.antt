-- ===== src/Server/Startup.antt =====
-- The part of `start_pacon_server` of server/pacon_server.c that sets the barriers up, and the round of
-- `listen_commit_mq`.
use pacon.Base.{
  ℕ, zero, suc, ◌+◌, Option, none, some, List, [], ◌∷◌, Bytes, pure, crash, gets, ◌>>=◌, ◌>>◌,
  replicate, leb, length, if◌then◌else◌,
}
use pacon.System.{System}
use pacon.Dmkv.{dmkv_set}
use pacon.Message.{path_max, slot}
use pacon.Config.{get_local_addr_cnum}
use pacon.Server.State.{Server, Serve, with_cache, modify}
use pacon.Server.Barriers.{opt_key, b_key}
use pacon.Server.Dispatch.{commit_to_fs}

module _ (sys : System) where
  -- dmkv_set(kv_handle_for_barrier, key, "0"), whose result nothing looks at
  unfoldable pub zero_key : Bytes → Serve sys (Unit {0})
  zero_key key = do
    kv_b ← gets (λ w. w.handle_for_barrier)
    _ ← with_cache sys (dmkv_set sys.kv kv_b key (b'0' ∷ []))
    pure tt

  -- for (; i < BARRIER_ID_MAX; ++i), with `left` rounds
  unfoldable pub zero_keys : ℕ → ℕ → (ℕ → Bytes) → Serve sys (Unit {0})
  unfolding zero_key
  zero_keys zero i key = pure tt
  zero_keys (suc left) i key = zero_key (key i) >> zero_keys left (i + 1) key

  -- init barrier info and removing dirs structure; `config` is the text of local_config.
  unfoldable pub init_barriers : ℕ → Bytes → Serve sys (Unit {0})
  unfolding zero_keys opt_key b_key get_local_addr_cnum
  init_barriers slots config = do
    zero_keys slots 0 (λ i. opt_key (slot i))
    elim (get_local_addr_cnum config) [
      | none ↦ crash
      | some (local_ip, client_num) ↦ do
        modify sys (λ w. record w { local_ip = local_ip; client_num = client_num })
        zero_keys slots 0 (b_key local_ip)
        modify sys (λ w. record w {
          barriers = record w.barriers { reached = λ s. 0 };
          removing_dirs = record { list = replicate slots []; count = 0 };
        })
    ]

module _ (sys : System) (meanwhile : Server sys → Server sys) where
  -- The messages of the commit queue, one after the other; `none` is an error of zmq_recv. A commit
  -- that fails is only reported. The NUL behind a message of PATH_MAX bytes or more, whose length
  -- zmq_recv answers in full, overruns the buffer.
  unfoldable pub listen_commit_mq : ℕ → List (Option Bytes) → Serve sys (Unit {0})
  unfolding commit_to_fs
  listen_commit_mq fuel [] = pure tt
  listen_commit_mq fuel (mesg ∷ rest) = do
    let more = listen_commit_mq fuel rest
    elim mesg [
      | none ↦ more
      | some m ↦
          if leb path_max (length m)
          then crash
          else (do _ ← commit_to_fs sys meanwhile fuel m; more)
    ]
