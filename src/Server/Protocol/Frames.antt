-- ===== src/Server/Protocol/Frames.antt =====
-- What a step leaves as it is.
use pacon.Base.{
  ℕ, ◌+◌, ◌<◌, ◌≡◌, ◌≢◌, refl, sym, ap, subst, Bool, true, false, ◌==◌, arith, if◌then◌else◌,
  Bool-cases, inl, inr, ==_iff,
}
use pacon.Server.State.{Barriers}
use pacon.Server.Barriers.{update}
use pacon.Server.Protocol.{Rpc, idle, waiting, polling, working, deleting}
use pacon.Server.Protocol.Sums.{sum_to, sum_to-agree}
use pacon.Server.Protocol.Invariant.{busy, owed, NodeInv, Place, Stops}

pub update_self {ℓ} : {A : Type ℓ} (f : ℕ → A) (i : ℕ) (a : A) → update f i a i ≡ a
update_self f i a = ground arith

pub update_other {ℓ} :
    {A : Type ℓ} (f : ℕ → A) (i : ℕ) (a : A) (j : ℕ) → j ≢ i → update f i a j ≡ f j
update_other f i a j other = ground arith

-- A statement for each server, after a change of one.
pub for_update {ℓ κ} :
    {A : Type ℓ} (P : ℕ → A → Type κ) (f : ℕ → A) (i : ℕ) (a : A)
    → P i a
    → (j : ℕ) → (j ≢ i → P j (f j))
    → P j (update f i a j)
for_update P f i a at_i j others = elim (Bool-cases (i == j)) [
  | inl e ↦
      subst (λ b. P j (if b then a else f j)) (sym e) (subst (λ k. P k a) ((==_iff i j).0 e) at_i)
  | inr e ↦ subst (λ b. P j (if b then a else f j)) (sym e) (others (λ q. ground arith))
]

pub for_update₂ {ℓ κ μ} :
    {A : Type ℓ} {B : Type κ} (P : ℕ → A → B → Type μ) (f : ℕ → A) (g : ℕ → B) (i : ℕ) (a : A)
    (b : B)
    → P i a b
    → (j : ℕ) → (j ≢ i → P j (f j) (g j))
    → P j (update f i a j) (update g i b j)
for_update₂ P f g i a b at_i j others = elim (Bool-cases (i == j)) [
  | inl e ↦
      subst (λ t. P j (if t then a else f j) (if t then b else g j)) (sym e)
        (subst (λ k. P k a b) ((==_iff i j).0 e) at_i)
  | inr e ↦
      subst (λ t. P j (if t then a else f j) (if t then b else g j)) (sym e)
        (others (λ q. ground arith))
]

pub with_committing :
    {clients : ℕ} {b : Barriers} {key : ℕ → Bool} {left : ℕ → ℕ} {was now : Bool}
    → NodeInv clients b key left was
    → (now ≡ true → b.barrier b.waiting_barrier_id ≡ false)
    → NodeInv clients b key left now
with_committing v h = record {
  bounded = v.bounded;
  ordered = v.ordered;
  past = v.past;
  future = v.future;
  stands = v.stands;
  stands_reached = v.stands_reached;
  stands_key = v.stands_key;
  key_reached = v.key_reached;
  announced = v.announced;
  commits = h;
}

module _ (n : ℕ) (clients : ℕ → ℕ) where
  -- The places after a change of one request thread.
  pub Place-update :
      (node : ℕ → Barriers) (opt_count : ℕ → ℕ) (rpc : ℕ → Rpc) (i : ℕ) (r : Rpc)
      → Place n clients node opt_count i r
      → ((j : ℕ) → j < n → j ≢ i → Place n clients node opt_count j (rpc j))
      → (j : ℕ) → j < n
      → Place n clients node opt_count j (update rpc i r j)
  Place-update node opt_count rpc i r at_i others j low =
      for_update (Place n clients node opt_count) rpc i r at_i j (others j low)

  pub Stops-update :
      (node : ℕ → Barriers) (rpc : ℕ → Rpc) (i : ℕ) (r : Rpc)
      → Stops (node i) (clients i) r
      → ((j : ℕ) → j < n → j ≢ i → Stops (node j) (clients j) (rpc j))
      → (j : ℕ) → j < n
      → Stops (node j) (clients j) (update rpc i r j)
  Stops-update node rpc i r at_i others j low =
      for_update (λ j r. Stops (node j) (clients j) r) rpc i r at_i j (others j low)

  -- The sum of what is owed in a slot, where the thread is as busy there as before.
  pub owed-update :
      (unasked : ℕ → ℕ → ℕ) (rpc : ℕ → Rpc) (i : ℕ) (r : Rpc) (s : ℕ)
      → busy r s ≡ busy (rpc i) s
      → sum_to n (owed unasked (update rpc i r) s) ≡ sum_to n (owed unasked rpc s)
  owed-update unasked rpc i r s same =
      sum_to-agree n (owed unasked rpc s) (owed unasked (update rpc i r) s) (λ j low.
        ap (λ b. unasked j s + b)
          (for_update (λ j x. busy x s ≡ busy (rpc j) s) rpc i r same j (λ _. refl)))

  -- A place that is no deletion, where all messages and the own barrier stay.
  pub Place-keeps :
      (node node' : ℕ → Barriers) (opt_count opt_count' : ℕ → ℕ) (j : ℕ) (r : Rpc)
      → ((i s : ℕ) → i < n → (node i).reached s ≡ clients i → (node' i).reached s ≡ clients i)
      → ((s : ℕ) → 0 < busy r s → (node j).barrier s ≡ true → (node' j).barrier s ≡ true)
      → ((s k : ℕ) → r ≡ deleting s k → ⊥)
      → Place n clients node opt_count j r
      → Place n clients node' opt_count' j r
  Place-keeps node node' oc oc' j idle full up no_deletion p = p
  Place-keeps node node' oc oc' j (waiting s) full up no_deletion p = p
  Place-keeps node node' oc oc' j (polling s k) full up no_deletion p = record {
    within = p.within;
    own = up s (ground arith) p.own;
    seen = λ i below low. full i s low (p.seen i below low);
  }
  Place-keeps node node' oc oc' j (working s) full up no_deletion p = record {
    within = p.within;
    own = up s (ground arith) p.own;
    seen = λ i below low. full i s low (p.seen i below low);
  }
  Place-keeps node node' oc oc' j (deleting s k) full up no_deletion p =
      absurd (no_deletion s k refl)
