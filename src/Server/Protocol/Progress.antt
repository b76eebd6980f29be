-- ===== src/Server/Protocol/Progress.antt =====
-- A request never gets stuck in the barriers.
use pacon.Base.{
  ℕ, suc, ◌+◌, ◌-◌, ◌≤◌, ◌<◌, ◌≡◌, ◌≢◌, ◌⊎◌, refl, ap, ◌∙◌, subst, false, ◌==◌, arith, Bool-cases,
  inl, inr, ==_iff, ltb, ltb→lt,
}
use pacon.Server.Barriers.{update}
use pacon.Server.Protocol.{
  Rpc, idle, waiting, polling, working, deleting, Cluster, Step, Reach, see_local, poll, begin,
  finish_more, finish_last, tell, skip, deleted,
}
use pacon.Server.Protocol.Invariant.{
  busy, AllReached, Polls, Deletes, Place, Inv, busy-count, standing, working-count,
}
use pacon.Server.Protocol.Frames.{update_self}
use pacon.Server.Protocol.Safety.{Reach-Inv}

-- How far a request is, with `n` servers.
abbrev pub rank : ℕ → Rpc → ℕ
rank n idle = 0
rank n (waiting s) = 1
rank n (polling s k) = k + 2
rank n (working s) = n + 3
rank n (deleting s k) = n + k + 4

module _ (n : ℕ) (clients : ℕ → ℕ) (c : Cluster) (i : ℕ) where
  -- A step that ends the request or brings it one further.
  abbrev pub Advances : Rpc → Type 0
  Advances r =
      (d : Cluster) × Step false n clients c d
      × ((d.rpc i ≡ idle) ⊎ (rank n (d.rpc i) ≡ suc (rank n r)))

  module _ (inv : Inv n clients c) (low : i < n) where
    further :
        (r r' : Rpc) → rank n r' ≡ suc (rank n r) → rank n (update c.rpc i r' i) ≡ suc (rank n r)
    further r r' e = ap (rank n) (update_self c.rpc i r') ∙ e

    from_waiting :
        (s : ℕ) → c.rpc i ≡ waiting s → AllReached n clients c.node n s → Advances (waiting s)
    from_waiting s e all =
        let one = subst (λ r. busy r s ≤ c.opt_count s) e (busy-count n clients inv i s low all) in
        let up = (standing n clients inv s all (ground arith) i low).1 in
        (_, see_local i s low e up, inr (further (waiting s) (polling s 0) (omega arith)))

    from_polling :
        (s k : ℕ) → c.rpc i ≡ polling s k → AllReached n clients c.node n s → Advances (polling s k)
    from_polling s k e all = elim (Bool-cases (ltb k n)) [
      | inl below ↦
          let one =
            subst (λ r. busy r s ≤ c.opt_count s) e (busy-count n clients inv i s low all) in
          let klow = ltb→lt k n below in
          let up = (standing n clients inv s all (ground arith) k klow).1 in
          (
            _,
            poll i s k low klow e (inr ((inv.nodes k klow).stands_key s up)),
            inr (further (polling s k) (polling s (suc k)) (omega arith)),
          )
      | inr last ↦
          let p : Polls n clients c.node i s k =
            subst (Place n clients c.node c.opt_count i) e (inv.places i low) in
          let at_n : k ≡ n = ground (arith, p.within) in
          (
            _,
            begin i s low (e ∙ ap (polling s) at_n),
            inr (further (polling s k) (working s) (omega arith)),
          )
    ]

    from_working : (s : ℕ) → c.rpc i ≡ working s → Advances (working s)
    from_working s e =
        let counted = (working-count n clients inv i s low e).1 in
        elim (Bool-cases (c.opt_count s == 1)) [
          | inl last ↦ (
            _,
            finish_last i s low e ((==_iff (c.opt_count s) 1).0 last),
            inr (further (working s) (deleting s 0) (omega arith)),
          )
          | inr more ↦ (
            _,
            finish_more i s (c.opt_count s - 2) low e (ground arith),
            inl (update_self c.rpc i idle),
          )
        ]

    from_deleting : (s k : ℕ) → c.rpc i ≡ deleting s k → Advances (deleting s k)
    from_deleting s k e =
        let d : Deletes n clients c.node c.opt_count i s k =
          subst (Place n clients c.node c.opt_count i) e (inv.places i low) in
        elim (Bool-cases (ltb k n)) [
          | inr last ↦
              let at_n : k ≡ n = ground (arith, d.within) in
              (_, deleted i s low (e ∙ ap (deleting s) at_n), inl (update_self c.rpc i idle))
          | inl below ↦ elim (Bool-cases (k == i)) [
            | inl own ↦
                let at_i = (==_iff k i).0 own in
                (
                  _,
                  skip i s low (e ∙ ap (deleting s) at_i),
                  inr (further (deleting s k) (deleting s (suc i)) (omega (arith, at_i))),
                )
            | inr other ↦ (
              _,
              tell i s k low (ltb→lt k n below) (λ q. ground arith) e,
              inr (further (deleting s k) (deleting s (suc k)) (omega arith)),
            )
          ]
        ]

    advances :
        (r : Rpc)
        → c.rpc i ≡ r
        → r ≢ idle
        → ((s : ℕ) → busy r s ≡ 1 → AllReached n clients c.node n s)
        → Advances r
    advances idle e some all = absurd (some refl)
    advances (waiting s) e some all = from_waiting s e (all s (ground arith))
    advances (polling s k) e some all = from_polling s k e (all s (ground arith))
    advances (working s) e some all = from_working s e
    advances (deleting s k) e some all = from_deleting s k e

-- In every state that is reached with no server overlapping, a request whose slot has all its messages
-- at all servers has a step that ends it or brings it one further, up to the end: it waits for no
-- other request and no commit.
pub request-Advances :
    {n : ℕ} {clients : ℕ → ℕ} {ops : ℕ → ℕ → ℕ}
    → ((j : ℕ) → j < n → 0 < clients j)
    → (c : Cluster) (i : ℕ) → Reach false n clients ops c
    → i < n
    → c.rpc i ≢ idle
    → ((s : ℕ) → busy (c.rpc i) s ≡ 1 → AllReached n clients c.node n s)
    → Advances n clients c i (c.rpc i)
request-Advances {n} {clients} some c i r low busy_now all =
    advances n clients c i (Reach-Inv some r) low (c.rpc i) refl busy_now all
