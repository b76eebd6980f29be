-- ===== src/Server/Protocol/Safety.antt =====
-- What holds in every reachable state of the barriers, when no server overlaps.
use pacon.Base.{
  ℕ, ◌+◌, ◌-◌, ◌<◌, ◌≡◌, refl, sym, ◌∙◌, subst, true, false, arith, Bool-cases, inl, inr,
}
use pacon.Server.Barriers.{update, count_reached, set_barrier, must_wait}
use pacon.Server.Protocol.{
  idle, working, Cluster, is_deleting, update₂, Hears, Step, start, Reach, started, later, commit,
  committed, reach_some, reach_last, request, see_local, poll, begin, finish_more, finish_last,
  tell, skip, deleted,
}
use pacon.Server.Protocol.Sums.{sum_to, sum_to-agree}
use pacon.Server.Protocol.Invariant.{
  busy, owed, NodeInv, AllReached, Inv, count-eq, standing, working-count,
}
use pacon.Server.Protocol.Frames.{update_self}
use pacon.Server.Protocol.Reaching.{one_more, last_slot, last_one}
use pacon.Server.Protocol.Hearing.{hear-Inv}
use pacon.Server.Protocol.Serving.{commit-Inv, request-Inv, see_local-Inv, poll-Inv, begin-Inv}
use pacon.Server.Protocol.Finishing.{finish_more-Inv, finish_last-Inv}
use pacon.Server.Protocol.Deleting.{skip-Inv, tell-Inv, deleted-Inv}

module _ {n : ℕ} {clients : ℕ → ℕ} where
  apart :
      {c : Cluster} {i s ops : ℕ} → Hears false n clients c i s ops → is_deleting (c.rpc i) ≡ false
  apart {c} {i} h = elim h.apart [ inl no_overlap ↦ absurd (cc) | inr a ↦ a ]

  reach_some-Inv :
      {c : Cluster} (inv : Inv n clients c) (i s ops : ℕ)
      → Hears false n clients c i s ops
      → (c.node i).reached s + 1 < clients i
      → Inv n clients (record c {
        node = update c.node i (count_reached s (c.node i));
        opt_count = update c.opt_count s (c.opt_count s + ops);
        left = update₂ c.left i s (c.left i s - ops);
      })
  unfolding count_reached
  reach_some-Inv {c} inv i s ops h more =
      let low = h.takes.server in
      let v = inv.nodes i low in
      hear-Inv inv i s ops (c.left i s - ops) low (count_reached s (c.node i)) c.key refl
        (λ t full. ground arith) (λ t up. up) (omega arith) (apart h) (omega (arith, h.announced))
        (one_more s (c.left i s - ops) v h.in_order more) (λ j _. refl)
        (λ full down. ground (arith, inv.stops i low))

  reach_last-Inv :
      {c : Cluster} (inv : Inv n clients c) (i s ops : ℕ)
      → Hears false n clients c i s ops
      → (c.node i).reached s + 1 ≡ clients i
      → ops ≡ c.left i s
      → Inv n clients (record c {
        node = update c.node i (set_barrier s true (count_reached s (c.node i)));
        key = update₂ c.key i s true;
        opt_count = update c.opt_count s (c.opt_count s + ops);
        left = update₂ c.left i s 0;
      })
  unfolding count_reached set_barrier must_wait
  reach_last-Inv {c} inv i s ops h last rest =
      let low = h.takes.server in
      let v = inv.nodes i low in
      let here =
        last_slot (c.rpc i) s v (inv.stops i low) (apart h) h.takes.passes h.in_order last in
      hear-Inv inv i s ops 0 low (set_barrier s true (count_reached s (c.node i)))
        (update₂ c.key i s true) refl (λ t full. ground arith) (λ t up. ground arith) (omega arith)
        (apart h) (omega (arith, rest))
        (subst
          (λ k.
            NodeInv (clients i) (set_barrier s true (count_reached s (c.node i))) k
              (update (c.left i) s 0) (c.committing i))
          (sym (update_self c.key i (update (c.key i) s true)))
          (last_one s v h.takes.free h.in_order last here))
        (λ j other. ground arith) (λ full down. ground (arith, here))

  -- Every step of the cluster keeps the invariant.
  pub Step-Inv : {c d : Cluster} → Step false n clients c d → Inv n clients c → Inv n clients d
  unfolding must_wait
  Step-Inv (commit i t) inv = commit-Inv inv i t.server true (λ _. t.passes)
  Step-Inv (committed i low e) inv = commit-Inv inv i low false (λ e. cc)
  Step-Inv (reach_some i s ops h more) inv = reach_some-Inv inv i s ops h more
  Step-Inv (reach_last i s ops h last rest) inv = reach_last-Inv inv i s ops h last rest
  Step-Inv (request i s left low e u) inv = request-Inv inv i low s left e u
  Step-Inv (see_local i s low e up) inv = see_local-Inv inv i low s e up
  Step-Inv (poll i s k low klow e set) inv = poll-Inv inv i low s k klow e set
  Step-Inv (begin i s low e) inv = begin-Inv inv i low s e
  Step-Inv (finish_more i s count low e q) inv = finish_more-Inv inv i s low e count q
  Step-Inv (finish_last i s low e q) inv = finish_last-Inv inv i s low e q
  Step-Inv (tell i s k low klow other e) inv = tell-Inv inv i s k low e klow other
  Step-Inv (skip i s low e) inv = skip-Inv inv i s i low e refl
  Step-Inv (deleted i s low e) inv = deleted-Inv inv i s n low e refl

  start-Inv :
      (ops : ℕ → ℕ → ℕ)
      → ((j : ℕ) → j < n → 0 < clients j)
      → Inv n clients (start false n clients ops)
  start-Inv ops some = record {
    nodes = λ j low. record {
      bounded = λ s. omega arith;
      ordered = λ s. omega arith;
      past = λ s before. absurd (omega arith);
      future = λ s _. some j low;
      stands = λ s up. cc;
      stands_reached = λ s up. cc;
      stands_key = λ s up. cc;
      key_reached = λ s set. cc;
      announced = λ s full. absurd (omega (arith, some j low));
      commits = λ busy. cc;
    };
    places = λ j low. tt;
    stops = λ j low full. absurd (omega (arith, some j low));
    over = λ j s low past. absurd (omega arith);
    counted = λ s.
        sym (
          sum_to-agree n (λ j. ops j s) (owed ops (λ _. idle) s) (λ j _. omega arith)
          ∙ omega arith);
  }

module _ {n : ℕ} {clients : ℕ → ℕ} {ops : ℕ → ℕ → ℕ} (some : (j : ℕ) → j < n → 0 < clients j) where
  pub Reach-Inv : {c : Cluster} → Reach false n clients ops c → Inv n clients c
  Reach-Inv started = start-Inv ops some
  Reach-Inv (later r st) = Step-Inv st (Reach-Inv r)

  -- While a server works on a request, no server commits a change or takes its next message: each has
  -- had all messages of the request's slot, waits in that slot, and finds its barrier standing. This
  -- holds in every state that is reached with no server overlapping.
  pub working-stops :
      {c : Cluster}
      → Reach false n clients ops c
      → (i s : ℕ) → i < n
      → c.rpc i ≡ working s
      → (j : ℕ) → j < n
      → ((c.node j).reached s ≡ clients j)
        × ((c.node j).waiting_barrier_id ≡ s)
        × (must_wait (c.node j) ≡ true)
        × (c.committing j ≡ false)
  unfolding must_wait
  working-stops {c} r i s low e j jlow =
      let inv = Reach-Inv r in
      let (all, counted) = working-count n clients inv i s low e in
      let (at_s, up) = standing n clients inv s all counted j jlow in
      let stops : (c.node j).barrier (c.node j).waiting_barrier_id ≡ true =
        subst (λ t. (c.node j).barrier t ≡ true) (sym at_s) up in
      (
        all j jlow jlow,
        at_s,
        stops,
        elim (Bool-cases (c.committing j)) [
          | inl busy ↦ let down = (inv.nodes j jlow).commits busy in absurd (cc)
          | inr free ↦ free
        ],
      )

  -- The count of a slot, once all its messages are there, is the number of its operations that are
  -- under way or still to be requested: it is never taken below zero, and reaches it with the last one.
  pub opt_count-owed :
      {c : Cluster}
      → Reach false n clients ops c
      → (s : ℕ) → AllReached n clients c.node n s
      → (c.opt_count s ≡ sum_to n (owed c.unasked c.rpc s))
        × ((i : ℕ) → i < n → c.rpc i ≡ working s → 0 < c.opt_count s)
  opt_count-owed r s all = (
    count-eq n clients (Reach-Inv r) s all,
    λ i low e. (working-count n clients (Reach-Inv r) i s low e).1,
  )
