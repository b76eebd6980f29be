-- ===== src/Client/Names.antt =====
-- `pacon_rename`, `pacon_barrier` and `cregion_checkpoint` of pacon.c, which hand their work to the
-- server.
use pacon.Base.{
  ℕ, ◌+◌, ◌/◌, ◌||◌, none, some, ltb, leb, if◌then◌else◌, Bytes, length, done, pure, gets, ◌>>=◌,
}
use pacon.System.{System}
use pacon.Dmkv.{dmkv_get}
use pacon.Message.{
  rename, barrier, checkpoint, joint_path, request_path, barrier_path, path_max, barrier_id_max,
}
use pacon.Permission.{rename_pc}
use pacon.Client.State.{
  Status, succeeded, failed, Pacon, Act, with_kv, time, add_to_mq, add_to_local_rpc, permit,
  into_path,
}
use pacon.Client.Load.{load_to_pacon}

module _ (sys : System) where
  unfoldable pub pacon_rename : ℕ → Pacon → Bytes → Bytes → Act sys Status
  unfolding load_to_pacon
  pacon_rename fuel p path newpath = do
    location ← permit sys p path rename_pc
    elim location [
      | none ↦ pure failed
      | some _ ↦ do
        val ← with_kv sys (dmkv_get sys.kv p.kv_handle path)
        loaded ← elim val [
          | some _ ↦ pure succeeded
          | none ↦ do
            ret ← load_to_pacon sys fuel p path
            elim ret [
              | failed ↦ pure failed
              | succeeded ↦ do _ ← with_kv sys (dmkv_get sys.kv p.kv_handle path); pure succeeded
            ]
        ]
        elim loaded [
          | failed ↦ pure failed
          | succeeded ↦ do
            new_val ← with_kv sys (dmkv_get sys.kv p.kv_handle newpath)
            elim new_val [
              | some _ ↦ pure failed
              | none ↦ do
                new_loaded ← load_to_pacon sys fuel p newpath
                elim new_loaded [
                  | succeeded ↦ pure failed
                  | failed ↦
                      if ltb (path_max / 2) (length path) || ltb (path_max / 2) (length newpath)
                      then pure failed
                      else (do
                        joint ← into_path sys (joint_path path newpath)
                        id ← gets (λ c. c.current_barrier_id)
                        joint_path_new ← into_path sys (request_path id joint)
                        t ← time sys
                        add_to_local_rpc sys joint_path_new rename t)
                ]
            ]
        ]
    ]

  unfoldable pub pacon_barrier : Pacon → ℕ → Act sys (Unit {0})
  pacon_barrier p opt_num = do
    c ← gets (λ c. c)
    let id = c.current_barrier_id + 1
    _ ← λ c. done (tt {0}, record c { current_barrier_id = id })
    if leb barrier_id_max id then pure tt else (do
      barrier_id ← into_path sys (barrier_path opt_num id)
      t ← time sys
      _ ← add_to_mq sys barrier_id barrier t
      pure tt)

  unfoldable pub cregion_checkpoint : Pacon → Act sys Status
  cregion_checkpoint p = do t ← time sys; add_to_local_rpc sys p.mount_path checkpoint t
