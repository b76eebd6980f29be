-- ===== src/Server/Protocol/Invariant.antt =====
-- What holds of a cluster in every reachable state, when no server overlaps.
use pacon.Base.{
  ℕ, suc, ◌+◌, ◌≤◌, ◌<◌, ◌≡◌, ◌≢◌, refl, sym, ◌∙◌, Bool, true, false, ◌==◌, arith, if◌then◌else◌,
  Bool-cases, inl, inr, ltb, ltb→lt, subst,
}
use pacon.Server.State.{Barriers}
use pacon.Server.Protocol.{Rpc, idle, waiting, polling, working, deleting, Cluster, is_deleting}
use pacon.Server.Protocol.Sums.{sum_to, le-sum_to, sum_to-zero}

-- The request thread is at work in slot `s`, and has not yet taken its operation off the count.
abbrev pub busy : Rpc → ℕ → ℕ
busy idle s = 0
busy (waiting t) s = if t == s then 1 else 0
busy (polling t k) s = if t == s then 1 else 0
busy (working t) s = if t == s then 1 else 0
busy (deleting t k) s = 0

-- Operations of a server in slot `s` that have not been taken off the count.
abbrev pub owed : (ℕ → ℕ → ℕ) → (ℕ → Rpc) → ℕ → ℕ → ℕ
owed unasked rpc s i = unasked i s + busy (rpc i) s

-- What a server's own variables say.
pub record NodeInv (clients : ℕ) (b : Barriers) (key : ℕ → Bool) (left : ℕ → ℕ) (committing : Bool)
    : Type 0 where
  pub bounded : (s : ℕ) → b.reached s ≤ clients
  pub ordered : (s : ℕ) → b.reached (suc s) ≤ b.reached s
  pub past : (s : ℕ) → s < b.waiting_barrier_id → b.reached s ≡ clients
  pub future : (s : ℕ) → b.waiting_barrier_id < s → b.reached s < clients
  pub stands : (s : ℕ) → b.barrier s ≡ true → s ≡ b.waiting_barrier_id
  pub stands_reached : (s : ℕ) → b.barrier s ≡ true → b.reached s ≡ clients
  pub stands_key : (s : ℕ) → b.barrier s ≡ true → key s ≡ true
  pub key_reached : (s : ℕ) → key s ≡ true → b.reached s ≡ clients
  pub announced : (s : ℕ) → b.reached s ≡ clients → left s ≡ 0
  pub commits : committing ≡ true → b.barrier b.waiting_barrier_id ≡ false

-- The barrier that commits look at stands once all messages are there, unless it is being deleted.
abbrev pub Stops : Barriers → ℕ → Rpc → Type 0
Stops b clients r =
    b.reached b.waiting_barrier_id ≡ clients
    → b.barrier b.waiting_barrier_id ≡ false
    → is_deleting r ≡ true

module _ (n : ℕ) (clients : ℕ → ℕ) where
  -- Every server has had all messages of slot `s`.
  abbrev pub AllReached : (ℕ → Barriers) → ℕ → ℕ → Type 0
  AllReached node k s = (j : ℕ) → j < k → j < n → (node j).reached s ≡ clients j

  -- A server that has not been told yet, and one that has.
  abbrev pub Untold : (ℕ → Barriers) → ℕ → ℕ → Type 0
  Untold node s j = ((node j).waiting_barrier_id ≡ s) × ((node j).barrier s ≡ true)

  -- What the place of a request thread says.
  pub record Polls (node : ℕ → Barriers) (i s k : ℕ) : Type 0 where
    pub within : k ≤ n
    pub own : (node i).barrier s ≡ true
    pub seen : AllReached node k s

  pub record Deletes (node : ℕ → Barriers) (opt_count : ℕ → ℕ) (i s k : ℕ) : Type 0 where
    pub within : k ≤ n
    pub own : (node i).waiting_barrier_id ≡ s
    pub gone : (node i).barrier s ≡ false
    pub none_left : opt_count s ≡ 0
    pub seen : AllReached node n s
    pub untold : (j : ℕ) → j < n → j ≢ i → k ≤ j → Untold node s j
    pub told : (j : ℕ) → j < n → j ≢ i → j < k → s < (node j).waiting_barrier_id

  abbrev pub Place : (ℕ → Barriers) → (ℕ → ℕ) → ℕ → Rpc → Type 0
  Place node opt_count i idle = Unit {0}
  Place node opt_count i (waiting s) = Unit {0}
  Place node opt_count i (polling s k) = Polls node i s k
  Place node opt_count i (working s) = Polls node i s n
  Place node opt_count i (deleting s k) = Deletes node opt_count i s k

  -- The slots that a server has behind it are over.
  pub record Over (node : ℕ → Barriers) (opt_count : ℕ → ℕ) (s : ℕ) : Type 0 where
    pub none_left : opt_count s ≡ 0
    pub seen : AllReached node n s

  pub record Inv (c : Cluster) : Type 0 where
    pub nodes :
        (i : ℕ) → i < n → NodeInv (clients i) (c.node i) (c.key i) (c.left i) (c.committing i)
    pub places : (i : ℕ) → i < n → Place c.node c.opt_count i (c.rpc i)
    pub stops : (i : ℕ) → i < n → Stops (c.node i) (clients i) (c.rpc i)
    pub over : (i s : ℕ) → i < n → s < (c.node i).waiting_barrier_id → Over c.node c.opt_count s
    pub counted :
        (s : ℕ) → c.opt_count s + sum_to n (λ i. c.left i s) ≡ sum_to n (owed c.unasked c.rpc s)

  module _ {c : Cluster} (inv : Inv c) where
    -- With all messages of a slot there, its count is the number of operations under way or to come.
    pub count-eq :
        (s : ℕ) → AllReached c.node n s → c.opt_count s ≡ sum_to n (owed c.unasked c.rpc s)
    count-eq s all = omega (
      arith,
      inv.counted s,
      sum_to-zero n (λ i. c.left i s) (λ j low. (inv.nodes j low).announced s (all j low low)),
    )

    pub busy-count : (i s : ℕ) → i < n → AllReached c.node n s → busy (c.rpc i) s ≤ c.opt_count s
    busy-count i s low all =
        omega (arith, count-eq s all, le-sum_to n (owed c.unasked c.rpc s) i low)

    -- A count above 0, with all messages there: the barrier stands at every server.
    pub standing :
        (s : ℕ) → AllReached c.node n s → 0 < c.opt_count s → (j : ℕ) → j < n → Untold c.node s j
    standing s all some_left j low = (
      at_s,
      elim (Bool-cases ((c.node j).barrier s)) [
        | inl up ↦ up
        | inr down ↦ absurd (not_deleting (c.rpc j) refl (deletes down))
      ],
    )
      where
        at_s : (c.node j).waiting_barrier_id ≡ s
        at_s = elim (Bool-cases (ltb s (c.node j).waiting_barrier_id)) [
          | inl later ↦ absurd (omega (arith, (inv.over j s low (ltb→lt _ _ later)).none_left))
          | inr no_later ↦ elim (Bool-cases (ltb (c.node j).waiting_barrier_id s)) [
            | inl before ↦
                absurd
                  (omega (arith, (inv.nodes j low).future s (ltb→lt _ _ before), all j low low))
            | inr no_before ↦ ground arith
          ]
        ]

        deletes : (c.node j).barrier s ≡ false → is_deleting (c.rpc j) ≡ true
        deletes down = ground (arith, at_s, inv.stops j low, all j low low)

        not_deleting : (r : Rpc) → c.rpc j ≡ r → is_deleting r ≡ true → ⊥
        not_deleting (deleting t k) e d =
            let place : Deletes c.node c.opt_count j t k =
              subst (Place c.node c.opt_count j) e (inv.places j low) in
            let same : t ≡ s = sym place.own ∙ at_s in
            omega (arith, subst (λ x. c.opt_count x ≡ 0) same place.none_left)
        not_deleting idle e d = cc
        not_deleting (waiting t) e d = cc
        not_deleting (polling t k) e d = cc
        not_deleting (working t) e d = cc

    -- A request that is being worked on is counted, and no barrier is being deleted meanwhile.
    pub working-count :
        (i s : ℕ) → i < n → c.rpc i ≡ working s → AllReached c.node n s × (0 < c.opt_count s)
    working-count i s low e =
        let place : Polls c.node i s n = subst (Place c.node c.opt_count i) e (inv.places i low) in
        let one = subst (λ r. busy r s ≤ c.opt_count s) e (busy-count i s low place.seen) in
        (place.seen, ground arith)

    pub no_deleting :
        (i s j t k : ℕ) → i < n → j < n → c.rpc i ≡ working s → c.rpc j ≡ deleting t k → ⊥
    no_deleting i s j t k low jlow e d =
        let (all, some_left) = working-count i s low e in
        let up = standing s all some_left j jlow in
        let place : Deletes c.node c.opt_count j t k =
          subst (Place c.node c.opt_count j) d (inv.places j jlow) in
        let same : t ≡ s = sym place.own ∙ up.0 in
        omega (arith, subst (λ x. c.opt_count x ≡ 0) same place.none_left)

    -- Only one barrier is being deleted, and only by one server.
    pub one_deleting :
        (i s k j t l : ℕ)
        → i < n
        → j < n
        → j ≢ i
        → c.rpc i ≡ deleting s k
        → c.rpc j ≡ deleting t l
        → ⊥
    one_deleting i s k j t l low jlow other d e =
        let p : Deletes c.node c.opt_count i s k =
          subst (Place c.node c.opt_count i) d (inv.places i low) in
        let q : Deletes c.node c.opt_count j t l =
          subst (Place c.node c.opt_count j) e (inv.places j jlow) in
        elim (Bool-cases (ltb j k)) [
          | inl told ↦ absurd (
              omega (
                arith,
                p.told j jlow other (ltb→lt _ _ told),
                q.own,
                (inv.nodes i low).future t,
                q.seen i low low,
                p.own,
              ))
          | inr untold ↦
              let (at_s, up) = p.untold j jlow other (ground arith) in
              let same : t ≡ s = sym q.own ∙ at_s in
              let down = subst (λ x. (c.node j).barrier x ≡ false) same q.gone in cc
        ]
