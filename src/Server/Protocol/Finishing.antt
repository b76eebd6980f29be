-- ===== src/Server/Protocol/Finishing.antt =====
-- The end of a request: its operation is taken off the count, and the last one of its slot clears the
-- barrier of its server.
use pacon.Base.{
  ℕ, suc, ◌+◌, ◌<◌, ◌≡◌, ◌≢◌, refl, sym, ap, ◌∙◌, subst, Bool, true, false, ◌==◌, arith, Bool-cases,
  inl, inr, ==_iff,
}
use pacon.Server.State.{Barriers}
use pacon.Server.Barriers.{update, set_barrier}
use pacon.Server.Protocol.{Rpc, idle, working, deleting, Cluster, is_deleting, update₂}
use pacon.Server.Protocol.Sums.{sum_to, sum_to-change}
use pacon.Server.Protocol.Invariant.{
  busy, owed, NodeInv, AllReached, Deletes, Place, Stops, Inv, working-count, no_deleting, standing,
}
use pacon.Server.Protocol.Frames.{
  for_update, for_update₂, update_self, update_other, Place-update, Stops-update, owed-update,
  Place-keeps,
}

-- The barrier of slot `s` cleared, with its key.
pub cleared :
    {clients : ℕ} {b : Barriers} {key : ℕ → Bool} {left : ℕ → ℕ} {committing : Bool} (s : ℕ)
    → NodeInv clients b key left committing
    → NodeInv clients (set_barrier s false b) (update key s false) left committing
unfolding set_barrier
cleared s v = record {
  bounded = v.bounded;
  ordered = v.ordered;
  past = v.past;
  future = v.future;
  stands = λ t up. v.stands t (ground arith);
  stands_reached = λ t up. v.stands_reached t (ground arith);
  stands_key = λ t up. ground (arith, v.stands_key t (ground arith));
  key_reached = λ t set. v.key_reached t (ground arith);
  announced = v.announced;
  commits = λ now. ground (arith, v.commits now);
}

module _ {n : ℕ} {clients : ℕ → ℕ} {c : Cluster} (inv : Inv n clients c) (i s : ℕ) (low : i < n)
    (at_work : c.rpc i ≡ working s) where
  -- What is owed in the slot goes down by one, and nothing else.
  one_less :
      (r : Rpc)
      → ((t : ℕ) → busy r t ≡ 0)
      → sum_to n (owed c.unasked (update c.rpc i r) s) + 1 ≡ sum_to n (owed c.unasked c.rpc s)
  one_less r done_with =
      let f = owed c.unasked c.rpc s in
      let g = owed c.unasked (update c.rpc i r) s in
      let change =
        sum_to-change n f g i low
          (λ j other. ap (λ x. c.unasked j s + busy x s) (update_other c.rpc i r j other)) in
      let before : f i ≡ c.unasked i s + 1 =
        ap (λ x. c.unasked i s + busy x s) at_work ∙ ground arith in
      let now : g i ≡ c.unasked i s + 0 =
        ap (λ x. c.unasked i s + busy x s) (update_self c.rpc i r)
        ∙ ap (λ b. c.unasked i s + b) (done_with s) in
      omega (arith, change, before, now)

  elsewhere :
      (r : Rpc) (t : ℕ)
      → ((u : ℕ) → busy r u ≡ 0)
      → t ≢ s
      → sum_to n (owed c.unasked (update c.rpc i r) t) ≡ sum_to n (owed c.unasked c.rpc t)
  elsewhere r t done_with other =
      owed-update n clients c.unasked c.rpc i r t
        (done_with t ∙ sym (ap (λ x. busy x t) at_work ∙ ground arith))

  counted-less :
      (r : Rpc) (count : ℕ)
      → ((u : ℕ) → busy r u ≡ 0)
      → c.opt_count s ≡ suc count
      → (t : ℕ)
      → update c.opt_count s count t + sum_to n (λ j. c.left j t)
        ≡ sum_to n (owed c.unasked (update c.rpc i r) t)
  counted-less r count done_with e t = elim (Bool-cases (s == t)) [
    | inl on ↦
        subst
          (λ t.
            update c.opt_count s count t + sum_to n (λ j. c.left j t)
            ≡ sum_to n (owed c.unasked (update c.rpc i r) t))
          ((==_iff s t).0 on)
          (omega (arith, update_self c.opt_count s count, inv.counted s, one_less r done_with))
    | inr off ↦
        let other : t ≢ s = λ q. ground arith in
        omega (
          arith,
          update_other c.opt_count s count t other,
          inv.counted t,
          elsewhere r t done_with other,
        )
  ]

  others-keep :
      (node' : ℕ → Barriers) (opt_count' : ℕ → ℕ)
      → ((j t : ℕ) → j < n → (c.node j).reached t ≡ clients j → (node' j).reached t ≡ clients j)
      → ((j : ℕ) → j ≢ i → (node' j) ≡ c.node j)
      → (j : ℕ) → j < n
      → j ≢ i
      → Place n clients node' opt_count' j (c.rpc j)
  others-keep node' opt_count' full same j jlow other =
      Place-keeps n clients c.node node' c.opt_count opt_count' j (c.rpc j) full
        (λ t _ up. ap (λ b. b.barrier t) (same j other) ∙ up)
        (λ t k e. no_deleting n clients inv i s j t k low jlow at_work e) (inv.places j jlow)

  pub finish_more-Inv :
      (count : ℕ)
      → c.opt_count s ≡ suc (suc count)
      → Inv n clients
          (record c { rpc = update c.rpc i idle; opt_count = update c.opt_count s (suc count) })
  finish_more-Inv count e = record {
    nodes = inv.nodes;
    places =
        Place-update n clients c.node (update c.opt_count s (suc count)) c.rpc i idle tt (
          others-keep c.node (update c.opt_count s (suc count)) (λ j t _ full. full) (λ j _. refl));
    stops =
        Stops-update n clients c.node c.rpc i idle
          (λ full down. subst (λ r. is_deleting r ≡ true) at_work (inv.stops i low full down))
          (λ j jlow _. inv.stops j jlow);
    over = λ j t jlow past.
        let o = inv.over j t jlow past in
        let other : t ≢ s =
          λ q. absurd (omega (arith, subst (λ x. c.opt_count x ≡ 0) q o.none_left)) in
        record {
          none_left = update_other c.opt_count s (suc count) t other ∙ o.none_left;
          seen = o.seen;
        };
    counted = counted-less idle (suc count) (λ u. refl) e;
  }

  abbrev nodes_now : ℕ → Barriers
  nodes_now = update c.node i (set_barrier s false (c.node i))

  -- Clearing the barrier changes no count of messages and no number.
  reached-now : (j t : ℕ) → (nodes_now j).reached t ≡ (c.node j).reached t
  unfolding set_barrier
  reached-now j t =
      for_update (λ j b. b.reached t ≡ (c.node j).reached t) c.node i _ refl j (λ _. refl)

  number-now : (j : ℕ) → (nodes_now j).waiting_barrier_id ≡ (c.node j).waiting_barrier_id
  unfolding set_barrier
  number-now j =
      for_update (λ j b. b.waiting_barrier_id ≡ (c.node j).waiting_barrier_id) c.node i _ refl j
        (λ _. refl)

  barrier-now : (nodes_now i).barrier s ≡ false
  unfolding set_barrier
  barrier-now = ground arith

  all-now : (k t : ℕ) → AllReached n clients c.node k t → AllReached n clients nodes_now k t
  all-now k t all j below jlow = reached-now j t ∙ all j below jlow

  pub finish_last-Inv :
      c.opt_count s ≡ 1
      → Inv n clients (record c {
        node = update c.node i (set_barrier s false (c.node i));
        rpc = update c.rpc i (deleting s 0);
        key = update₂ c.key i s false;
        opt_count = update c.opt_count s 0;
      })
  finish_last-Inv e = record {
    nodes = λ j jlow.
        for_update₂ (λ j b k. NodeInv (clients j) b k (c.left j) (c.committing j)) c.node c.key i
          (set_barrier s false (c.node i)) (update (c.key i) s false) (cleared s (inv.nodes i low))
          j (λ _. inv.nodes j jlow);
    places =
        Place-update n clients nodes_now (update c.opt_count s 0) c.rpc i (deleting s 0) deletes (
          others-keep nodes_now (update c.opt_count s 0) (λ j t _ full. reached-now j t ∙ full)
            (λ j other. update_other c.node i _ j other));
    stops =
        Stops-update n clients nodes_now c.rpc i (deleting s 0) (λ _ _. refl)
          (λ j jlow other.
            subst (λ b. Stops b (clients j) (c.rpc j)) (sym (update_other c.node i _ j other))
              (inv.stops j jlow));
    over = λ j t jlow past.
        let o = inv.over j t jlow (subst (λ w. t < w) (number-now j) past) in
        record { none_left = ground (arith, o.none_left); seen = all-now n t o.seen };
    counted = counted-less (deleting s 0) 0 (λ u. refl) e;
  }
    where
      work : AllReached n clients c.node n s × (0 < c.opt_count s)
      work = working-count n clients inv i s low at_work

      deletes : Deletes n clients nodes_now (update c.opt_count s 0) i s 0
      deletes = record {
        within = omega arith;
        own = number-now i ∙ (standing n clients inv s work.0 work.1 i low).0;
        gone = barrier-now;
        none_left = update_self c.opt_count s 0;
        seen = all-now n s work.0;
        untold = λ j jlow other _.
            let up = standing n clients inv s work.0 work.1 j jlow in
            (
              number-now j ∙ up.0,
              ap (λ (b : Barriers). b.barrier s) (update_other c.node i _ j other) ∙ up.1,
            );
        told = λ j jlow other below. absurd (omega arith);
      }
