-- ===== src/Server/Protocol/Hearing.antt =====
-- The whole cluster when one server has taken a client's barrier message.
use pacon.Base.{
  ℕ, ◌+◌, ◌<◌, ◌≡◌, ◌≢◌, refl, sym, ap, ◌∙◌, subst, Bool, true, false, ◌==◌, arith, Bool-cases, inl,
  inr, ==_iff,
}
use pacon.Server.State.{Barriers}
use pacon.Server.Barriers.{update}
use pacon.Server.Protocol.{
  Rpc, idle, waiting, polling, working, deleting, Cluster, is_deleting, update₂,
}
use pacon.Server.Protocol.Sums.{sum_to, sum_to-change, sum_to-agree}
use pacon.Server.Protocol.Invariant.{NodeInv, AllReached, Deletes, Place, Stops, Inv}
use pacon.Server.Protocol.Frames.{for_update, for_update₂, update_self, update_other, Place-keeps}

module _ {n : ℕ} {clients : ℕ → ℕ} {c : Cluster} (inv : Inv n clients c) (i s ops l : ℕ)
    (low : i < n) (b' : Barriers) (key' : ℕ → ℕ → Bool)
    (number : b'.waiting_barrier_id ≡ (c.node i).waiting_barrier_id)
    (full : (t : ℕ) → (c.node i).reached t ≡ clients i → b'.reached t ≡ clients i)
    (up : (t : ℕ) → (c.node i).barrier t ≡ true → b'.barrier t ≡ true)
    (not_full : (c.node i).reached s < clients i) (apart : is_deleting (c.rpc i) ≡ false)
    (balance : l + ops ≡ c.left i s) where
  abbrev heard : ℕ → Barriers
  heard = update c.node i b'

  abbrev counts : ℕ → ℕ
  counts = update c.opt_count s (c.opt_count s + ops)

  full-heard : (j t : ℕ) → (c.node j).reached t ≡ clients j → (heard j).reached t ≡ clients j
  full-heard j t =
      for_update (λ j b. (c.node j).reached t ≡ clients j → b.reached t ≡ clients j) c.node i b'
        (full t) j (λ _ e. e)

  all-heard : (k t : ℕ) → AllReached n clients c.node k t → AllReached n clients heard k t
  all-heard k t all j below jlow = full-heard j t (all j below jlow)

  number-heard : (j : ℕ) → (heard j).waiting_barrier_id ≡ (c.node j).waiting_barrier_id
  number-heard j =
      for_update (λ j b. b.waiting_barrier_id ≡ (c.node j).waiting_barrier_id) c.node i b' number j
        (λ _. refl)

  up-heard : (j t : ℕ) → (c.node j).barrier t ≡ true → (heard j).barrier t ≡ true
  up-heard j t =
      for_update (λ j b. (c.node j).barrier t ≡ true → b.barrier t ≡ true) c.node i b' (up t) j
        (λ _ e. e)

  -- A slot of which all messages are there is another one.
  other_slot : (t : ℕ) → AllReached n clients c.node n t → t ≢ s
  other_slot t all e = omega (arith, all i low low, ap (c.node i).reached e)

  count-heard : (t : ℕ) → AllReached n clients c.node n t → c.opt_count t ≡ 0 → counts t ≡ 0
  count-heard t all none =
      update_other c.opt_count s (c.opt_count s + ops) t (other_slot t all) ∙ none

  Deletes-heard :
      (j t k : ℕ)
      → j ≢ i
      → Deletes n clients c.node c.opt_count j t k
      → Deletes n clients heard counts j t k
  Deletes-heard j t k away d = record {
    within = d.within;
    own = number-heard j ∙ d.own;
    gone = ap (λ (b : Barriers). b.barrier t) (update_other c.node i b' j away) ∙ d.gone;
    none_left = count-heard t d.seen d.none_left;
    seen = all-heard n t d.seen;
    untold = λ m mlow other after.
        let (at_t, stands) = d.untold m mlow other after in
        (number-heard m ∙ at_t, up-heard m t stands);
    told = λ m mlow other before.
        subst (λ w. t < w) (sym (number-heard m)) (d.told m mlow other before);
  }

  Place-heard :
      (j : ℕ) (r : Rpc)
      → c.rpc j ≡ r
      → Place n clients c.node c.opt_count j r
      → Place n clients heard counts j r
  Place-heard j (deleting t k) e d =
      Deletes-heard j t k
        (λ q.
          let none = subst (λ x. is_deleting (c.rpc x) ≡ false) (sym q) apart in
          let some = ap is_deleting e in cc)
        d
  Place-heard j idle e d = d
  Place-heard j (waiting t) e d = d
  Place-heard j (polling t k) e d =
      Place-keeps n clients c.node heard c.opt_count counts j (polling t k)
        (λ m u _. full-heard m u) (λ u _. up-heard j u) (λ u l q. cc) d
  Place-heard j (working t) e d =
      Place-keeps n clients c.node heard c.opt_count counts j (working t) (λ m u _. full-heard m u)
        (λ u _. up-heard j u) (λ u l q. cc) d

  left-heard :
      (t : ℕ)
      → counts t + sum_to n (λ j. update₂ c.left i s l j t)
        ≡ c.opt_count t + sum_to n (λ j. c.left j t)
  left-heard t = elim (Bool-cases (s == t)) [
    | inl on ↦
        subst
          (λ t.
            counts t + sum_to n (λ j. update₂ c.left i s l j t)
            ≡ c.opt_count t + sum_to n (λ j. c.left j t))
          ((==_iff s t).0 on)
          (omega (
            arith,
            balance,
            update_self c.opt_count s (c.opt_count s + ops),
            ap (λ (f : ℕ → ℕ). f s) (update_self c.left i (update (c.left i) s l)),
            update_self (c.left i) s l,
            sum_to-change n (λ j. c.left j s) (λ j. update₂ c.left i s l j s) i low
                (λ j away. ap (λ (f : ℕ → ℕ). f s) (update_other c.left i _ j away)),
          ))
    | inr off ↦
        let other : t ≢ s = λ q. ground arith in
        omega (
          arith,
          update_other c.opt_count s (c.opt_count s + ops) t other,
          sum_to-agree n (λ j. c.left j t) (λ j. update₂ c.left i s l j t)
              (λ j _.
                for_update (λ j (f : ℕ → ℕ). f t ≡ c.left j t) c.left i (update (c.left i) s l)
                  (update_other (c.left i) s l t other) j (λ _. refl)),
        )
  ]

  pub hear-Inv :
      NodeInv (clients i) b' (key' i) (update (c.left i) s l) (c.committing i)
      → ((j : ℕ) → j ≢ i → key' j ≡ c.key j)
      → Stops b' (clients i) (c.rpc i)
      → Inv n clients
          (record c { node = heard; key = key'; opt_count = counts; left = update₂ c.left i s l })
  hear-Inv v keys stop = record {
    nodes = λ j jlow.
        for_update₂ (λ j b f. NodeInv (clients j) b (key' j) f (c.committing j)) c.node c.left i b'
          (update (c.left i) s l) v j
          (λ away.
            subst (λ k. NodeInv (clients j) (c.node j) k (c.left j) (c.committing j))
              (sym (keys j away)) (inv.nodes j jlow));
    places = λ j jlow. Place-heard j (c.rpc j) refl (inv.places j jlow);
    stops = λ j jlow.
        for_update (λ j b. Stops b (clients j) (c.rpc j)) c.node i b' stop j
          (λ _. inv.stops j jlow);
    over = λ j t jlow past.
        let o = inv.over j t jlow (subst (λ w. t < w) (number-heard j) past) in
        record { none_left = count-heard t o.seen o.none_left; seen = all-heard n t o.seen };
    counted = λ t. left-heard t ∙ inv.counted t;
  }
