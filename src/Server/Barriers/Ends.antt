-- ===== src/Server/Barriers/Ends.antt =====
-- The end of the last request of a slot.
use pacon.Base.{
  ℕ, suc, ◌≡◌, refl, ap, ◌∙◌, true, false, List, some, [], ◌∷◌, ◌++◌, ◌==◌, Bytes, done, run,
  Bool-cases, inl, inr, when_true, when_false,
}
use pacon.Base.Int.{pos, pred, is_zero, atoi_int}
use pacon.System.{Item, System}
use pacon.System.Quiet.{Quiet}
use pacon.Dmkv.{ret_ok, dmkv_set}
use pacon.Dmkv.Laws.{memc_put-writes}
use pacon.Paths.{is_loacl_addr}
use pacon.Message.{slot}
use pacon.Server.State.{Server, Committed, ok, error}
use pacon.Server.Runs.{with_cache-runs}
use pacon.Server.Broadcast.{broadcast_to, server_broadcast}
use pacon.Server.Barriers.{
  opt_key, b_key, set_barrier, next_waiting, del_barrier_mesg, reset_key, remove_barrier,
  broadcast_barrier_end_new,
}
use pacon.Server.Barriers.Laws.{opt_key-ends_plain, b_key-ends_plain, change_opt_count-changes}

module _ (sys : System) (mesg : Bytes) where
  -- A broadcast ends, whatever the servers answer, and leaves the barriers of its sender alone.
  broadcast_to-ends :
      (servers : List Bytes) (w : Server sys)
      → (a : Committed) × (w' : Server sys) × (broadcast_to sys servers mesg w ≡ done (a, w'))
        × (w'.barriers ≡ w.barriers)
  unfolding broadcast_to
  broadcast_to-ends [] w = (ok, w, refl, refl)
  broadcast_to-ends (addr ∷ rest) w = elim (Bool-cases (is_loacl_addr w.local_ip addr)) [
    | inl own ↦
        let (a, w', ran, same) = broadcast_to-ends rest w in (a, w', when_true _ _ _ own ran, same)
    | inr other ↦
        let (rep, kv', dfs') = sys.cluster_rpc addr mesg w.kv w.dfs in
        let w₁ = record w { kv = kv'; dfs = dfs'; sent = w.sent ++ (addr, mesg) ∷ [] } in
        elim (Bool-cases (rep == b'0')) [
          | inl served ↦
              let (a, w', ran, same) = broadcast_to-ends rest w₁ in
              (a, w', when_false _ _ _ other (when_true _ _ _ served ran), same)
          | inr refused ↦ (error, w₁, when_false _ _ _ other (when_false _ _ _ refused refl), refl)
        ]
  ]

module _ {sys : System} (q : Quiet sys.kv) (meanwhile : Server sys → Server sys) (w : Server sys)
    (fuel s : ℕ) where
  remove_barrier-removes :
      (w' : Server sys) × (remove_barrier sys meanwhile (suc fuel) s w ≡ done (tt, w'))
      × (w'.barriers ≡ next_waiting (set_barrier s false w.barriers))
  unfolding remove_barrier server_broadcast
  remove_barrier-removes =
      let w₁ = record w { barriers = set_barrier s false w.barriers } in
      let k = b_key w.local_ip s in
      let (t, ran, wrote) =
        memc_put-writes q w.handle_for_barrier k (b_key-ends_plain w.local_ip s) w.kv (b'0' ∷ []) in
      let w₂ = record w₁ { kv = t } in
      let (a, w₃, told, same) = broadcast_to-ends sys del_barrier_mesg w.server_list w₂ in
      (
        record w₃ { barriers = next_waiting w₃.barriers },
        run _ (resets w₁ k t ran) (run _ told refl),
        ap next_waiting same,
      )
    where
      resets :
          (w₁ : Server sys) (k : Bytes) (t : sys.kv.State)
          → dmkv_set sys.kv w₁.handle_for_barrier k (b'0' ∷ []) w₁.kv ≡ done (ret_ok, t)
          → reset_key sys meanwhile (suc fuel) k w₁ ≡ done (tt, record w₁ { kv = t })
      resets w₁ k t ran =
          run _
            (with_cache-runs sys (dmkv_set sys.kv w₁.handle_for_barrier k (b'0' ∷ [])) w₁ ret_ok t
              ran)
            refl

module _ {sys : System} (q : Quiet sys.kv) (meanwhile : Server sys → Server sys) (w : Server sys)
    (fuel s : ℕ) where
  -- The end of the last request of a slot: whatever the other servers answer, the barrier of the slot
  -- is down and the server waits in the next one.
  pub broadcast_barrier_end_new-last :
      (i : Item)
      → q.item w.kv w.handle_for_barrier (opt_key (slot s)) ≡ some i
      → atoi_int i.value ≡ pos 1
      → (w' : Server sys) × (broadcast_barrier_end_new sys meanwhile (suc fuel) s w ≡ done (tt, w'))
        × (w'.barriers ≡ next_waiting (set_barrier s false w.barriers))
  unfolding broadcast_barrier_end_new
  broadcast_barrier_end_new-last i held e =
      let (t, ran, holds) =
        change_opt_count-changes q meanwhile w fuel pred (opt_key (slot s)) i (opt_key-ends_plain s)
          held in
      let (w', removed, moved) = remove_barrier-removes q meanwhile (record w { kv = t }) fuel s in
      let zero? : is_zero (pred (atoi_int i.value)) ≡ true = ap (λ z. is_zero (pred z)) e ∙ refl in
      (w', run _ ran (when_true _ _ _ zero? removed), moved)
