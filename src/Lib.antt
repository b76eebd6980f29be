-- ===== src/Lib.antt =====
-- Pacon keeps the metadata of a part of a distributed file system (a consistent region) in a
-- memcached cluster. A client library (pacon.c) serves file operations from the cache and puts a
-- message on a commit queue for each change; a server on each node (server/pacon_server.c) applies
-- the messages to the file system, and answers requests that need the changes of all nodes first. The
-- clients and servers share the cache (kv/dmkv.c) and find one another by comm/comm.c.
--
-- Files, and what they model:
--   Base        shared helpers: Boolean tests, C strings, decimal text (`%d`, `atoi`), bits, and the
--               monad of code that changes a state, may fault, and may run out of fuel
--   System      what the code calls and does not implement, as parameters: memcached, the file
--               system, the server's answers, the clock. `System/Quiet` states what memcached
--               documents, for a cluster with memory and no other client at work; `System/Reference`
--               is a cluster that obeys it
--   Paths       child_cmp, child_cmp_new (pacon.c), child_cmp (server/pacon_server.c) and
--               is_loacl_addr (comm/comm.c)
--   Stat        struct pacon_stat, its flags, seri_val, deseri_val and the inline pair (pacon.c)
--   Dmkv        memc_put to memc_del and dmkv_set to dmkv_del (kv/dmkv.c)
--   Message     the texts on the queue and in requests: how pacon.c writes them, and how
--               commit_to_fs, commit_to_fs_barrier, handle_cluster_mesg and rename_update_dc
--               (server/pacon_server.c) read them
--   Permission  mask_compare, check_permission and pacon_init_perm_info (pacon.c)
--   Client      the operations of pacon.c: `State` the process and its shared calls, `Evict` and
--               `Load` eviction, loading and opendir, `Parent` check_parent_dir, `Create` create,
--               create_write and mkdir, `Attr` getattr, `Remove` rm and rmdir, `Names` rename,
--               barrier and checkpoint, `Files` the file data: `Open`, `Read`, `Write` (pacon_write_new),
--               `Counted` (pacon_write) and `Sync` (pacon_fsync), with `Splices`, `Cached`, `Inlines`,
--               `Spills`, `Lost`, `Logs` and `Histories` as proofs. `Namespace` is what the cache stands
--               for, and `Refine` holds the operations against it; `Placing`, `NewStats`, `Parents` and
--               `Barriers` are lemmas
--   Config      the files with the addresses: get_cluster_info (kv/dmkv.c, comm/comm.c),
--               get_remote_cluster_info, get_local_addr and get_local_addr_cnum
--   Server      server/pacon_server.c: `State` the process; `Dispatch` commit_to_fs with its wait for
--               a barrier, over `Commit` (MKDIR, CREATE, RM, retry_commit), `Inline` (WRITE), `Fsync`
--               (FSYNC, fsync_from_log), `Barriers` (BARRIER, broadcast_barrier_begin_new,
--               broadcast_barrier_end_new) and `Batch` (the batch permissions); `Requests`
--               commit_to_fs_barrier and handle_cluster_mesg, over `Traverse` (the walks over a
--               directory, rename_update_dc), `Removing` (the table of removals under way) and
--               `Broadcast` (server_broadcast of comm/comm.c); `Startup` the keys of the barriers.
--               `Runs` are lemmas and `Samples` is a small server for the tests; `Laws`, `Reaches`,
--               `Ends` and `Effects` below these modules hold their proofs.
--               `Protocol` is a cluster of servers as a step relation over `Barriers`: its
--               `Invariant`, kept step by step in `Serving`, `Finishing`, `Deleting`, `Reaching` and
--               `Hearing`, gives `Safety` and `Progress`
--
-- Each `Tests` module has the results at concrete values; `Client/Samples` is a small region for them.
--
-- Conventions. A C string is the list of its bytes before the NUL. A `uint32_t` is a number below
-- 2 ^ 32, cut where the source cuts it. Undefined behaviour that the code reaches is the outcome
-- `fault`, and a variable that is read before it is written holds `indeterminate`. Two things that the
-- compiler and the allocator decide are parameters of `System`: `slack`, the bytes that are unused
-- behind the server's struct, which is four bytes shorter than what is copied into it, and `memalign`,
-- the address that posix_memalign stores. The keys of the cluster that are paths begin with a slash: a
-- namespace speaks of these, and leaves the keys of locks, barriers and permissions open. The
-- compile-time switches have the values of the source: parents are checked, requests to the server
-- are synchronous, stats are copied byte by byte.
--
-- Fuel. Loops that retry (a full cache, a swap that conflicts, the eviction lock) need not end, so
-- they take fuel and say `spin` without it. On a quiet cluster one round is enough for each
-- operation that is proved, and the results state the outcome with any fuel above that.
--
-- Threads. A server's busy waits take a function `meanwhile`, what all others do between two looks at
-- the state, and fuel. In `Server/Protocol` the threads of all servers are interleaved instead: a step
-- is what a thread does between two such looks, with the swap of a count and the change of a barrier
-- and its key as one step.
--
-- Sizes and offsets are natural numbers: the sum of an offset and a size is below 2 ^ 64, and is cut to
-- an `int` where the code does it.
--
-- Not modelled: the set-up of the client, pacon_set_permission, the permissions of other regions, the
-- branches that ASYNC_RPC (0) compiles out, the JSON format (switched off), libmemcached, ZeroMQ and
-- the hash tables. The bytes that getattr writes to its argument before it fails, and printing, are
-- left out.
pub mod Base
pub mod System
pub mod Paths
pub mod Stat
pub mod Dmkv
pub mod Config
pub mod Message
pub mod Permission
pub mod Client
pub mod Server
