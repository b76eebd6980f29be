-- ===== src/Server/Protocol/Serving.antt =====
-- The steps that change no barrier keep the invariant: commits, and a request up to its work.
use pacon.Base.{
  ℕ, suc, ◌<◌, ◌≡◌, ◌⊎◌, sym, ap, ◌∙◌, subst, Bool, true, false, ◌==◌, arith, Bool-cases, inl, inr,
  ==_iff, ltb, ltb→lt,
}
use pacon.Server.Barriers.{update}
use pacon.Server.Protocol.{Rpc, idle, waiting, polling, working, Cluster, is_deleting, update₂}
use pacon.Server.Protocol.Sums.{sum_to-agree}
use pacon.Server.Protocol.Invariant.{busy, owed, NodeInv, AllReached, Polls, Place, Inv}
use pacon.Server.Protocol.Frames.{
  for_update, with_committing, Place-update, Stops-update, owed-update,
}

module _ {n : ℕ} {clients : ℕ → ℕ} {c : Cluster} (inv : Inv n clients c) (i : ℕ) (low : i < n) where
  pub commit-Inv :
      (flag : Bool)
      → (flag ≡ true → (c.node i).barrier (c.node i).waiting_barrier_id ≡ false)
      → Inv n clients (record c { committing = update c.committing i flag })
  commit-Inv flag passes = record {
    nodes = λ j jlow.
        for_update (λ j x. NodeInv (clients j) (c.node j) (c.key j) (c.left j) x) c.committing i
          flag (with_committing (inv.nodes i low) passes) j (λ _. inv.nodes j jlow);
    places = inv.places;
    stops = inv.stops;
    over = inv.over;
    counted = inv.counted;
  }

  -- A request thread that goes from one place to another, with the barriers and counts as they are.
  pub serve-Inv :
      (r : Rpc)
      → Place n clients c.node c.opt_count i r
      → is_deleting r ≡ is_deleting (c.rpc i)
      → ((s : ℕ) → busy r s ≡ busy (c.rpc i) s)
      → Inv n clients (record c { rpc = update c.rpc i r })
  serve-Inv r place deletion same = record {
    nodes = inv.nodes;
    places =
        Place-update n clients c.node c.opt_count c.rpc i r place (λ j jlow _. inv.places j jlow);
    stops =
        Stops-update n clients c.node c.rpc i r (λ full down. deletion ∙ inv.stops i low full down)
          (λ j jlow _. inv.stops j jlow);
    over = inv.over;
    counted = λ s. inv.counted s ∙ sym (owed-update n clients c.unasked c.rpc i r s (same s));
  }

  -- A new request moves an operation from those to come to those under way.
  request-owed :
      (s left : ℕ)
      → c.rpc i ≡ idle
      → c.unasked i s ≡ suc left
      → (t j : ℕ)
      → owed (update₂ c.unasked i s left) (update c.rpc i (waiting s)) t j
        ≡ owed c.unasked c.rpc t j
  request-owed s left e u t j = elim (Bool-cases (i == j)) [
    | inr other ↦ ground arith
    | inl same ↦ elim (Bool-cases (s == t)) [
      | inr off ↦
          let eq = (==_iff i j).0 same in
          subst
            (λ k.
              owed (update₂ c.unasked i s left) (update c.rpc i (waiting s)) t k
              ≡ owed c.unasked c.rpc t k)
            eq (ground (arith, ap (λ r. busy r t) e))
      | inl on ↦
          let eq = (==_iff i j).0 same in
          let at : t ≡ s = sym ((==_iff s t).0 on) in
          subst
            (λ k.
              owed (update₂ c.unasked i s left) (update c.rpc i (waiting s)) t k
              ≡ owed c.unasked c.rpc t k)
            eq
            (subst
              (λ t.
                owed (update₂ c.unasked i s left) (update c.rpc i (waiting s)) t i
                ≡ owed c.unasked c.rpc t i)
              (sym at) (ground (arith, ap (λ r. busy r s) e)))
    ]
  ]

  pub request-Inv :
      (s left : ℕ)
      → c.rpc i ≡ idle
      → c.unasked i s ≡ suc left
      → Inv n clients
          (record c { rpc = update c.rpc i (waiting s); unasked = update₂ c.unasked i s left })
  request-Inv s left e u = record {
    nodes = inv.nodes;
    places =
        Place-update n clients c.node c.opt_count c.rpc i (waiting s) tt
          (λ j jlow _. inv.places j jlow);
    stops =
        Stops-update n clients c.node c.rpc i (waiting s)
          (λ full down. subst (λ r. is_deleting r ≡ true) e (inv.stops i low full down))
          (λ j jlow _. inv.stops j jlow);
    over = inv.over;
    counted = λ t.
        inv.counted t
        ∙ sym (
            sum_to-agree n (owed c.unasked c.rpc t)
              (owed (update₂ c.unasked i s left) (update c.rpc i (waiting s)) t)
              (λ j _. request-owed s left e u t j));
  }

  pub see_local-Inv :
      (s : ℕ)
      → c.rpc i ≡ waiting s
      → (c.node i).barrier s ≡ true
      → Inv n clients (record c { rpc = update c.rpc i (polling s 0) })
  see_local-Inv s e up =
      serve-Inv (polling s 0)
        (record { within = omega arith; own = up; seen = λ j below _. absurd (omega arith) })
        (sym (ap is_deleting e)) (λ t. sym (ap (λ r. busy r t) e))

  place_of : (s k : ℕ) → c.rpc i ≡ polling s k → Polls n clients c.node i s k
  place_of s k e = subst (Place n clients c.node c.opt_count i) e (inv.places i low)

  -- The server's own messages are there when its barrier stands, another's when its key says so.
  seen_at :
      (s k : ℕ)
      → k < n
      → (c.node i).barrier s ≡ true
      → (k ≡ i) ⊎ (c.key k s ≡ true)
      → (c.node k).reached s ≡ clients k
  seen_at s k klow up (inl own) =
      subst (λ j. (c.node j).reached s ≡ clients j) (sym own)
        ((inv.nodes i low).stands_reached s up)
  seen_at s k klow up (inr set) = (inv.nodes k klow).key_reached s set

  pub poll-Inv :
      (s k : ℕ)
      → k < n
      → c.rpc i ≡ polling s k
      → (k ≡ i) ⊎ (c.key k s ≡ true)
      → Inv n clients (record c { rpc = update c.rpc i (polling s (suc k)) })
  poll-Inv s k klow e set =
      serve-Inv (polling s (suc k)) (record { within = omega arith; own = p.own; seen = seen })
        (sym (ap is_deleting e)) (λ t. sym (ap (λ r. busy r t) e))
    where
      p : Polls n clients c.node i s k
      p = place_of s k e

      seen : AllReached n clients c.node (suc k) s
      seen j below jlow = elim (Bool-cases (ltb j k)) [
        | inl b ↦ p.seen j (ltb→lt j k b) jlow
        | inr b ↦
            let same : k ≡ j = ground arith in
            subst (λ x. (c.node x).reached s ≡ clients x) same (seen_at s k klow p.own set)
      ]

  pub begin-Inv :
      (s : ℕ)
      → c.rpc i ≡ polling s n
      → Inv n clients (record c { rpc = update c.rpc i (working s) })
  begin-Inv s e =
      serve-Inv (working s) (place_of s n e) (sym (ap is_deleting e))
        (λ t. sym (ap (λ r. busy r t) e))
