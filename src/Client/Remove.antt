-- ===== src/Client/Remove.antt =====
-- `pacon_rm`, `pacon_rmdir` and `pacon_rmdir_clean` of pacon.c.
use pacon.Base.{ℕ, none, some, [], Bytes, done, pure, gets, ◌>>=◌}
use pacon.Stat.{stat_rm}
use pacon.System.{System}
use pacon.Dmkv.{ret_ok, dmkv_get, dmkv_del}
use pacon.Message.{rm, rmdir, request_path}
use pacon.Permission.{rm_pc, rmdir_pc}
use pacon.Client.State.{
  Status, succeeded, failed, Pacon, Act, with_kv, time, add_to_mq, add_to_local_rpc, permit,
  into_path,
}
use pacon.Client.Load.{load_to_pacon, fetch_item, mark_item}

module _ (sys : System) where
  unfoldable pub pacon_rm : ℕ → Pacon → Bytes → Act sys Status
  unfolding fetch_item mark_item
  pacon_rm fuel p path = do
    location ← permit sys p path rm_pc
    elim location [
      | none ↦ pure failed
      | some _ ↦ do
        val ← fetch_item sys fuel p path
        elim val [
          | none ↦ pure failed
          | some i ↦ do
            -- whether the last swap failed is not looked at
            _ ← mark_item sys fuel p path stat_rm i
            t ← time sys
            add_to_mq sys path rm t
        ]
    ]

  -- The table of open files; the one of checked parents stays.
  unfoldable pub fdht_clean : Act sys (Unit {0})
  fdht_clean c = done (tt, record c { fd_table = [] })

  unfoldable pub pacon_rmdir : ℕ → Pacon → Bytes → Act sys Status
  unfolding load_to_pacon fdht_clean
  pacon_rmdir fuel p path = do
    location ← permit sys p path rmdir_pc
    elim location [
      | none ↦ pure failed
      | some _ ↦ do
        val ← with_kv sys (dmkv_get sys.kv p.kv_handle path)
        loaded ← elim val [
          | some _ ↦ pure succeeded
          | none ↦ do
            ret ← load_to_pacon sys fuel p path
            elim ret [
              | failed ↦ pure failed
              | succeeded ↦ do _ ← with_kv sys (dmkv_get sys.kv p.kv_handle path); pure succeeded
            ]
        ]
        elim loaded [
          | failed ↦ pure failed
          | succeeded ↦ do
            id ← gets (λ c. c.current_barrier_id)
            path_new ← into_path sys (request_path id path)
            t ← time sys
            reply ← add_to_local_rpc sys path_new rmdir t
            elim reply [
              | failed ↦ pure failed
              | succeeded ↦ do
                ret ← with_kv sys (dmkv_del sys.kv p.kv_handle path)
                elim ret [ ret_ok ↦ do _ ← fdht_clean; pure succeeded | _ ↦ pure failed ]
            ]
        ]
    ]

  unfoldable pub pacon_rmdir_clean : Act sys Status
  unfolding fdht_clean
  pacon_rmdir_clean = do _ ← fdht_clean; pure succeeded
