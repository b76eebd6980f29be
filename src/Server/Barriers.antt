-- ===== src/Server/Barriers.antt =====
-- The barriers of server/pacon_server.c: the case BARRIER of commit_to_fs, `broadcast_barrier_begin_new`
-- and `broadcast_barrier_end_new`, and the case DEL_BARRIER of handle_cluster_mesg.
pub mod Laws
pub mod Reaches
pub mod Ends
pub mod Tests
use pacon.Base.{
  ℕ, zero, suc, ◌+◌, Bool, true, false, not, none, some, List, [], ◌∷◌, ◌++◌, ◌==◌, if◌then◌else◌,
  Bytes, bytes_eq, pure, exhausted, gets, ◌>>=◌, ◌>>◌,
}
use pacon.Base.Decimal.{decimal, atoi}
use pacon.Base.Int.{ℤ, add_nat, pred, is_zero, int_text, atoi_int}
use pacon.System.{System}
use pacon.Dmkv.{ret_ok, dmkv_set, dmkv_get, dmkv_get_cas, dmkv_cas}
use pacon.Message.{Slot, slot, minus_one, unset, BarrierMesg, parse_barrier}
use pacon.Server.State.{
  Barriers, Server, Serve, Committed, ok, error, with_cache, modify, at_slot, wait_while,
}
use pacon.Server.Broadcast.{server_broadcast}

abbrev pub update {ℓ} : {A : Type ℓ} → (ℕ → A) → ℕ → A → ℕ → A
update f i a j = if i == j then a else f j

-- barrier_info.barrier[s]++ and barrier[s] = flag
unfoldable pub count_reached : ℕ → Barriers → Barriers
count_reached s b = record b { reached = update b.reached s (b.reached s + 1) }

unfoldable pub set_barrier : ℕ → Bool → Barriers → Barriers
set_barrier s flag b = record b { barrier = update b.barrier s flag }

unfoldable pub next_waiting : Barriers → Barriers
next_waiting b = record b { waiting_barrier_id = b.waiting_barrier_id + 1 }

-- barrier[waiting_barrier_id] = 0; waiting_barrier_id++;
unfoldable pub del_barrier : Barriers → Barriers
unfolding set_barrier next_waiting
del_barrier b = next_waiting (set_barrier b.waiting_barrier_id false b)

-- The test of commit_to_fs: barrier[waiting_barrier_id] == 1
unfoldable pub must_wait : Barriers → Bool
must_wait b = b.barrier b.waiting_barrier_id

abbrev pub dot : ℕ
dot = b'.'

-- "barrier_opt_count"
abbrev pub barrier_opt_count_key : Bytes
barrier_opt_count_key =
    b'b' ∷ b'a' ∷ b'r' ∷ b'r' ∷ b'i' ∷ b'e' ∷ b'r' ∷ b'_' ∷ b'o' ∷ b'p' ∷ b't' ∷ b'_' ∷ b'c' ∷ b'o'
    ∷ b'u' ∷ b'n' ∷ b't' ∷ []

slot_text : Slot → Bytes
slot_text (slot s) = decimal s
slot_text minus_one = b'-' ∷ b'1' ∷ []
slot_text unset = []

-- sprintf(opt_key, "%s%c%d", BARRIER_OPT_COUNT_KEY, '.', slot)
unfoldable pub opt_key : Slot → Bytes
unfolding slot_text
opt_key s = barrier_opt_count_key ++ dot ∷ slot_text s

-- sprintf(b_key, "%s%c%d", node, '.', slot)
unfoldable pub b_key : Bytes → ℕ → Bytes
b_key node s = node ++ dot ∷ decimal s

-- DEL_BARRIER
abbrev pub del_barrier_mesg : Bytes
del_barrier_mesg = b':' ∷ b'9' ∷ []

module _ (sys : System) (meanwhile : Server sys → Server sys) where
  -- getoptc: read the count with its CAS number, and write it back changed, until that succeeds.
  unfoldable pub change_opt_count : ℕ → (ℤ → ℤ) → Bytes → Serve sys ℤ
  unfolding atoi_int int_text
  change_opt_count zero change key = exhausted
  change_opt_count (suc fuel) change key = do
    let again = modify sys meanwhile >> change_opt_count fuel change key
    kv_b ← gets (λ w. w.handle_for_barrier)
    val ← with_cache sys (dmkv_get_cas sys.kv kv_b key)
    elim val [
      | none ↦ again
      | some i ↦ do
        let count = change (atoi_int i.value)
        ret ← with_cache sys (dmkv_cas sys.kv kv_b key (int_text count) i.item_cas)
        elim ret [ ret_ok ↦ pure count | _ ↦ again ]
    ]

  -- The case BARRIER from the count of the slot on.
  unfoldable pub reach_slot : ℕ → Serve sys Committed
  unfolding count_reached set_barrier b_key
  reach_slot s = do
    modify sys (λ w. record w { barriers = count_reached s w.barriers })
    all ← gets (λ w. w.barriers.reached s == w.client_num)
    if not all then pure ok else (do
      modify sys (λ w. record w { barriers = set_barrier s true w.barriers })
      kv ← gets (λ w. w.handle)
      local_ip ← gets (λ w. w.local_ip)
      ret ← with_cache sys (dmkv_set sys.kv kv (b_key local_ip s) (b'1' ∷ []))
      pure (elim ret [ ret_ok ↦ ok | _ ↦ error ]))

  -- The case BARRIER of commit_to_fs, with what the path says.
  unfoldable pub handle_barrier : ℕ → BarrierMesg → Serve sys Committed
  unfolding change_opt_count reach_slot opt_key add_nat
  handle_barrier fuel m = do
    _ ← elim m.opt_num [
      | none ↦ pure none
      | some opt_num ↦ do
        count ← change_opt_count fuel (λ c. add_nat c opt_num) (opt_key m.reached)
        pure (some count)
    ]
    at_slot sys m.reached reach_slot

  unfoldable pub commit_barrier : ℕ → Bytes → Serve sys Committed
  unfolding handle_barrier parse_barrier
  commit_barrier fuel path = handle_barrier fuel (parse_barrier path)

  -- while (reach == 0) reach = atoi(val), at one node's key
  unfoldable pub poll_key : ℕ → Bytes → Serve sys (Unit {0})
  poll_key zero key = exhausted
  poll_key (suc fuel) key = do
    let again = poll_key fuel key
    kv_b ← gets (λ w. w.handle_for_barrier)
    val ← with_cache sys (dmkv_get sys.kv kv_b key)
    modify sys meanwhile
    elim val [ none ↦ again | some v ↦ if atoi v == 0 then again else pure tt ]

  -- for (i = 0; i < node_num; ++i), the local node skipped
  unfoldable pub poll_nodes : ℕ → List Bytes → ℕ → Serve sys (Unit {0})
  unfolding poll_key b_key
  poll_nodes fuel [] s = pure tt
  poll_nodes fuel (node ∷ nodes) s = do
    let others = poll_nodes fuel nodes s
    local_ip ← gets (λ w. w.local_ip)
    if bytes_eq local_ip node then others else (poll_key fuel (b_key node s) >> others)

  -- wait for all nodes reach barrier
  unfoldable pub broadcast_barrier_begin_new : ℕ → ℕ → Serve sys (Unit {0})
  unfolding wait_while poll_nodes
  broadcast_barrier_begin_new fuel s = do
    wait_while sys meanwhile fuel (λ w. not (w.barriers.barrier s))
    nodes ← gets (λ w. w.node_list)
    poll_nodes fuel nodes s

  -- reset: dmkv_set until it succeeds
  unfoldable pub reset_key : ℕ → Bytes → Serve sys (Unit {0})
  reset_key zero key = exhausted
  reset_key (suc fuel) key = do
    let again = modify sys meanwhile >> reset_key fuel key
    kv_b ← gets (λ w. w.handle_for_barrier)
    ret ← with_cache sys (dmkv_set sys.kv kv_b key (b'0' ∷ []))
    elim ret [ ret_ok ↦ pure tt | _ ↦ again ]

  -- no concurrent opt, remove the barrier in the local and broadcast del_barrier mesg
  unfoldable pub remove_barrier : ℕ → ℕ → Serve sys (Unit {0})
  unfolding set_barrier next_waiting reset_key b_key server_broadcast
  remove_barrier fuel s = do
    modify sys (λ w. record w { barriers = set_barrier s false w.barriers })
    local_ip ← gets (λ w. w.local_ip)
    reset_key fuel (b_key local_ip s)
    _ ← server_broadcast sys del_barrier_mesg
    modify sys (λ w. record w { barriers = next_waiting w.barriers })

  unfoldable pub broadcast_barrier_end_new : ℕ → ℕ → Serve sys (Unit {0})
  unfolding change_opt_count pred opt_key is_zero remove_barrier
  broadcast_barrier_end_new fuel s = do
    count ← change_opt_count fuel pred (opt_key (slot s))
    if is_zero count then remove_barrier fuel s else pure tt
