-- ===== src/Server/Protocol/Deleting.antt =====
-- The deletion of a barrier keeps the invariant: the sender tells each other server, and then moves on
-- itself.
use pacon.Base.{
  ℕ, suc, ◌+◌, ◌<◌, ◌≡◌, ◌≢◌, refl, sym, ap, ◌∙◌, subst, Bool, true, false, ◌==◌, arith, Bool-cases,
  inl, inr, ==_iff, ltb, ltb→lt,
}
use pacon.Server.State.{Barriers}
use pacon.Server.Barriers.{update, set_barrier, next_waiting, del_barrier}
use pacon.Server.Protocol.{Rpc, idle, deleting, Cluster, is_deleting}
use pacon.Server.Protocol.Invariant.{
  busy, NodeInv, AllReached, Deletes, Place, Stops, Over, Inv, busy-count, one_deleting,
}
use pacon.Server.Protocol.Frames.{
  for_update, update_self, update_other, Place-update, Stops-update, owed-update, Place-keeps,
}
use pacon.Server.Protocol.Serving.{serve-Inv}

-- A server moves on from a slot whose messages are all there and whose barrier is down.
pub moved_on :
    {clients : ℕ} {b b' : Barriers} {key : ℕ → Bool} {left : ℕ → ℕ} {committing : Bool}
    → NodeInv clients b key left committing
    → b.reached b.waiting_barrier_id ≡ clients
    → ((t : ℕ) → b'.reached t ≡ b.reached t)
    → b'.waiting_barrier_id ≡ suc b.waiting_barrier_id
    → ((t : ℕ) → b'.barrier t ≡ false)
    → NodeInv clients b' key left committing
moved_on {clients} {b} {b'} v full same next down = record {
  bounded = λ s. omega (arith, v.bounded s, same s);
  ordered = λ s. omega (arith, v.ordered s, same s, same (suc s));
  past = λ s low. same s ∙ elim (Bool-cases (ltb s b.waiting_barrier_id)) [
    | inl before ↦ v.past s (ltb→lt _ _ before)
    | inr at ↦
        let e : b.waiting_barrier_id ≡ s = ground arith in subst (λ t. b.reached t ≡ clients) e full
  ];
  future = λ s high. omega (arith, v.future s (omega arith), same s);
  stands = λ s up. absurd (no_barrier s up);
  stands_reached = λ s up. absurd (no_barrier s up);
  stands_key = λ s up. absurd (no_barrier s up);
  key_reached = λ s set. same s ∙ v.key_reached s set;
  announced = λ s all. v.announced s (sym (same s) ∙ all);
  commits = λ _. down b'.waiting_barrier_id;
}
  where
    no_barrier : (s : ℕ) → b'.barrier s ≡ true → ⊥
    no_barrier s up = let d = down s in cc

module _ {n : ℕ} {clients : ℕ → ℕ} {c : Cluster} (inv : Inv n clients c) (i s k : ℕ) (low : i < n)
    (at_work : c.rpc i ≡ deleting s k) where
  deletes : Deletes n clients c.node c.opt_count i s k
  deletes = subst (Place n clients c.node c.opt_count i) at_work (inv.places i low)

  pub skip-Inv : k ≡ i → Inv n clients (record c { rpc = update c.rpc i (deleting s (suc k)) })
  skip-Inv own =
      serve-Inv inv i low (deleting s (suc k))
        (record {
          within = omega arith;
          own = deletes.own;
          gone = deletes.gone;
          none_left = deletes.none_left;
          seen = deletes.seen;
          untold = λ j jlow other after. deletes.untold j jlow other (omega arith);
          told = λ j jlow other before. deletes.told j jlow other (elim (Bool-cases (ltb j k)) [
            | inl b ↦ ltb→lt j k b
            | inr b ↦ absurd (other (ground arith))
          ]);
        })
        (sym (ap is_deleting at_work)) (λ t. sym (ap (λ r. busy r t) at_work))

  -- Server `m` moves on to the next slot, with its barrier of slot `s` down.
  module _ (m : ℕ) (mlow : m < n) (b' : Barriers)
      (same : (t : ℕ) → b'.reached t ≡ (c.node m).reached t)
      (next : b'.waiting_barrier_id ≡ suc (c.node m).waiting_barrier_id)
      (down : (t : ℕ) → b'.barrier t ≡ false) (at_s : (c.node m).waiting_barrier_id ≡ s) where
    abbrev moved : ℕ → Barriers
    moved = update c.node m b'

    reached-moved : (j t : ℕ) → (moved j).reached t ≡ (c.node j).reached t
    reached-moved j t =
        for_update (λ j b. b.reached t ≡ (c.node j).reached t) c.node m b' (same t) j (λ _. refl)

    all-moved : (k t : ℕ) → AllReached n clients c.node k t → AllReached n clients moved k t
    all-moved k t all j below jlow = reached-moved j t ∙ all j below jlow

    nodes-moved :
        (j : ℕ) → j < n → NodeInv (clients j) (moved j) (c.key j) (c.left j) (c.committing j)
    nodes-moved j jlow =
        for_update (λ j b. NodeInv (clients j) b (c.key j) (c.left j) (c.committing j)) c.node m b'
          (moved_on (inv.nodes m mlow)
            (subst (λ t. (c.node m).reached t ≡ clients m) (sym at_s) (deletes.seen m mlow mlow))
            same next down)
          j (λ _. inv.nodes j jlow)

    Over-moved :
        (j t : ℕ) → j < n → t < (moved j).waiting_barrier_id → Over n clients moved c.opt_count t
    Over-moved j t jlow past =
        for_update (λ j b. t < b.waiting_barrier_id → Over n clients moved c.opt_count t) c.node m
          b'
          (λ before. elim (Bool-cases (ltb t (c.node m).waiting_barrier_id)) [
            | inl old ↦ again (inv.over m t mlow (ltb→lt _ _ old))
            | inr new ↦
                let e : s ≡ t = ground (arith, next, at_s) in
                subst (Over n clients moved c.opt_count) e
                  (record { none_left = deletes.none_left; seen = all-moved n s deletes.seen })
          ])
          j (λ _ before. again (inv.over j t jlow before)) past
      where
        again : Over n clients c.node c.opt_count t → Over n clients moved c.opt_count t
        again o = record { none_left = o.none_left; seen = all-moved n t o.seen }

    -- No request is under way in the slot.
    not_busy : (j t : ℕ) → j < n → 0 < busy (c.rpc j) t → t ≢ s
    not_busy j t jlow some e =
        let none = busy-count n clients inv j s jlow deletes.seen in
        omega (arith, deletes.none_left, none, subst (λ t. 0 < busy (c.rpc j) t) e some)

    barrier-moved :
        (j t : ℕ) → j < n → t ≢ s → (c.node j).barrier t ≡ true → (moved j).barrier t ≡ true
    barrier-moved j t jlow other up =
        for_update (λ j b. (c.node j).barrier t ≡ true → b.barrier t ≡ true) c.node m b'
          (λ was. absurd (other ((inv.nodes m mlow).stands t was ∙ at_s))) j (λ _ was. was) up

    others-moved : (j : ℕ) → j < n → j ≢ i → Place n clients moved c.opt_count j (c.rpc j)
    others-moved j jlow other =
        Place-keeps n clients c.node moved c.opt_count c.opt_count j (c.rpc j)
          (λ j t _ full. reached-moved j t ∙ full)
          (λ t some up. barrier-moved j t jlow (not_busy j t jlow some) up)
          (λ t l e. one_deleting n clients inv i s k j t l low jlow other at_work e)
          (inv.places j jlow)

    Stops-moved : (j : ℕ) → j < n → j ≢ i → Stops (moved j) (clients j) (c.rpc j)
    Stops-moved j jlow other =
        for_update (λ j b. Stops b (clients j) (c.rpc j)) c.node m b' later j
          (λ _. inv.stops j jlow)
      where
        later : Stops b' (clients m) (c.rpc m)
        later full _ = absurd (
            omega (
              arith,
              (inv.nodes m mlow).future b'.waiting_barrier_id (omega (arith, next)),
              same b'.waiting_barrier_id,
              full,
            ))

    moved-Inv :
        (r : Rpc)
        → Place n clients moved c.opt_count i r
        → Stops (moved i) (clients i) r
        → ((t : ℕ) → busy r t ≡ 0)
        → Inv n clients (record c { node = moved; rpc = update c.rpc i r })
    moved-Inv r place stop none = record {
      nodes = nodes-moved;
      places = Place-update n clients moved c.opt_count c.rpc i r place others-moved;
      stops = Stops-update n clients moved c.rpc i r stop Stops-moved;
      over = Over-moved;
      counted = λ t.
          inv.counted t
          ∙ sym (
              owed-update n clients c.unasked c.rpc i r t
                (none t ∙ sym (ap (λ x. busy x t) at_work)));
    }

  -- The barrier of a server stands in no other slot than the one it waits in.
  others-down : (j t : ℕ) → j < n → t ≢ (c.node j).waiting_barrier_id → (c.node j).barrier t ≡ false
  others-down j t jlow other = elim (Bool-cases ((c.node j).barrier t)) [
    | inl up ↦ absurd (other ((inv.nodes j jlow).stands t up))
    | inr down ↦ down
  ]

  pub deleted-Inv :
      k ≡ n
      → Inv n clients
          (record c { node = update c.node i (next_waiting (c.node i)); rpc = update c.rpc i idle })
  unfolding next_waiting
  deleted-Inv e =
      moved-Inv i low (next_waiting (c.node i)) (λ t. refl) (omega arith) down deletes.own idle tt
        stop (λ t. refl)
    where
      down : (t : ℕ) → (c.node i).barrier t ≡ false
      down t = elim (Bool-cases (t == (c.node i).waiting_barrier_id)) [
        | inl at ↦
            let here : t ≡ s = (==_iff t (c.node i).waiting_barrier_id).0 at ∙ deletes.own in
            subst (λ x. (c.node i).barrier x ≡ false) (sym here) deletes.gone
        | inr off ↦ others-down i t low (λ q. ground arith)
      ]

      stop : Stops (update c.node i (next_waiting (c.node i)) i) (clients i) idle
      stop =
          subst (λ b. Stops b (clients i) idle)
            (sym (update_self c.node i (next_waiting (c.node i))))
            (λ full _. absurd (
              omega (
                arith,
                (inv.nodes i low).future ((c.node i).waiting_barrier_id + 1) (omega arith),
                full,
              )))

  pub tell-Inv :
      k < n
      → k ≢ i
      → Inv n clients (record c {
        node = update c.node k (del_barrier (c.node k));
        rpc = update c.rpc i (deleting s (suc k));
      })
  unfolding del_barrier next_waiting set_barrier
  tell-Inv klow other =
      moved-Inv k klow (del_barrier (c.node k)) (λ t. refl) (omega arith) down at_s
        (deleting s (suc k)) place (λ _ _. refl) (λ t. refl)
    where
      at_s : (c.node k).waiting_barrier_id ≡ s
      at_s = (deletes.untold k klow other (omega arith)).0

      down : (t : ℕ) → (del_barrier (c.node k)).barrier t ≡ false
      down t = elim (Bool-cases ((c.node k).waiting_barrier_id == t)) [
        | inl at ↦ ground arith
        | inr off ↦ ground (arith, others-down k t klow (λ q. ground arith))
      ]

      off_k : (j : ℕ) → j ≢ k → update c.node k (del_barrier (c.node k)) j ≡ c.node j
      off_k j away = update_other c.node k (del_barrier (c.node k)) j away

      place : Deletes n clients (update c.node k (del_barrier (c.node k))) c.opt_count i s (suc k)
      place = record {
        within = omega arith;
        own =
            ap (λ (b : Barriers). b.waiting_barrier_id) (off_k i (λ e. other (sym e)))
            ∙ deletes.own;
        gone = ap (λ (b : Barriers). b.barrier s) (off_k i (λ e. other (sym e))) ∙ deletes.gone;
        none_left = deletes.none_left;
        seen =
            all-moved k klow (del_barrier (c.node k)) (λ t. refl) (omega arith) down at_s n s
              deletes.seen;
        untold = λ j jlow away after.
            subst (λ (b : Barriers). (b.waiting_barrier_id ≡ s) × (b.barrier s ≡ true))
              (sym (off_k j (λ e. omega arith))) (deletes.untold j jlow away (omega arith));
        told = λ j jlow away before.
            for_update (λ j b. s < b.waiting_barrier_id) c.node k (del_barrier (c.node k))
              (omega (arith, at_s)) j (λ off. deletes.told j jlow away (omega arith));
      }
