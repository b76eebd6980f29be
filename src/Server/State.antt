-- ===== src/Server/State.antt =====
-- The state of a server process: `struct pacon_server_info` and the static variables of
-- server/pacon_server.c, with the cache and the file system that it works on.
use pacon.Base.{
  ℕ, zero, suc, Bool, true, false, List, Bytes, if◌then◌else◌, done, fault, spin, Cmd, ltb, crash,
}
use pacon.System.{System}
use pacon.Message.{Slot, slot, minus_one, unset, barrier_id_max}
use pacon.Server.Removing.{RemovingDirs}

-- `sp_permission`: -1, or what has been found in the cache, 0 or 1.
pub data SpPermission : Type 0 where
  not_read : SpPermission
  none_set : SpPermission
  set_up : SpPermission

-- 0 and -1
pub data Committed : Type 0 where
  ok : Committed
  error : Committed

-- struct permission_info; the arrays by index.
pub record PermInfo : Type 0 where
  pub nom_dir_mode : ℕ
  pub nom_f_mode : ℕ
  pub sp_path : ℕ → Bytes
  pub sp_dir_modes : ℕ → ℕ
  pub sp_f_modes : ℕ → ℕ
  pub sp_num : ℕ

-- `barrier`, `barrier_info.barrier` and `waiting_barrier_id`: by slot, whether commits have to wait,
-- and how many barrier messages have come; and the slot that commits look at.
pub record Barriers : Type 0 where
  pub barrier : ℕ → Bool
  pub reached : ℕ → ℕ
  pub waiting_barrier_id : ℕ

-- What a server's threads read and change.
pub record Server (sys : System) : Type 0 where
  pub kv : sys.kv.State
  pub dfs : sys.dfs.State
  pub now : ℕ
  -- the two clusters of memcached handles, and `c_info->node_list` of the second
  pub handle : ℕ
  pub handle_for_barrier : ℕ
  pub node_list : List Bytes
  pub local_ip : Bytes
  pub client_num : ℕ
  -- `s_comm`: the servers, and what has been sent to them
  pub server_list : List Bytes
  pub sent : List (Bytes × Bytes)
  pub removing_dirs : RemovingDirs
  pub sp_permission : SpPermission
  pub perm_info : PermInfo
  pub batch_dir_mode : ℕ
  pub barriers : Barriers
  pub reach_barrier : ℕ
  pub commit_barrier : ℕ
  pub remote_reach_barrier : ℕ
  pub mesg_count : ℕ

module _ (sys : System) where
  abbrev pub Serve : Type 0 → Type 0
  Serve A = Cmd (Server sys) A

  abbrev pub with_cache : {A : Type 0} → Cmd sys.kv.State A → Serve A
  with_cache m w = elim (m w.kv) [
    | done (a, kv') ↦ done (a, record w { kv = kv' })
    | fault ↦ fault
    | spin ↦ spin
  ]

  -- A call of the file system.
  abbrev pub with_dfs : {A : Type 0} → (sys.dfs.State → A × sys.dfs.State) → Serve A
  with_dfs call w = done ((call w.dfs).0, record w { dfs = (call w.dfs).1 })

  abbrev pub modify : (Server sys → Server sys) → Serve (Unit {0})
  modify f w = done (tt, f w)

  -- An index into the arrays of BARRIER_ID_MAX slots.
  abbrev pub at_slot : {A : Type 0} → Slot → (ℕ → Serve A) → Serve A
  at_slot minus_one f = crash
  at_slot unset f = crash
  at_slot (slot s) f = if ltb s barrier_id_max then f s else crash

  -- while (test); with `meanwhile` for what the other threads, servers and clients do between two
  -- looks.
  unfoldable pub wait_while : (Server sys → Server sys) → ℕ → (Server sys → Bool) → Serve (Unit {0})
  wait_while meanwhile zero test w = spin
  wait_while meanwhile (suc fuel) test w = elim (test w) [
    | true ↦ wait_while meanwhile fuel test (meanwhile w)
    | false ↦ done (tt, w)
  ]
