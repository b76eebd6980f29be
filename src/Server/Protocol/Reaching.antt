-- ===== src/Server/Protocol/Reaching.antt =====
-- A client's barrier message keeps the invariant, at a server that is not deleting a barrier.
use pacon.Base.{
  ℕ, zero, suc, ◌+◌, ◌<◌, ◌≡◌, subst, Bool, true, false, arith, Bool-cases, inl, inr, ltb, ltb→lt,
}
use pacon.Server.State.{Barriers}
use pacon.Server.Barriers.{update, count_reached, set_barrier}
use pacon.Server.Protocol.{Rpc, is_deleting, InOrder}
use pacon.Server.Protocol.Invariant.{NodeInv, Stops}

-- The message of slot `s`, when it is not the last one.
pub one_more :
    {clients : ℕ} {b : Barriers} {key : ℕ → Bool} {left : ℕ → ℕ} {committing : Bool} (s l : ℕ)
    → NodeInv clients b key left committing
    → InOrder b s
    → b.reached s + 1 < clients
    → NodeInv clients (count_reached s b) key (update left s l) committing
unfolding count_reached
one_more {b} s l v in_order more = record {
  bounded = λ t. ground (arith, v.bounded t);
  ordered = λ t. ground (arith, v.ordered t, in_order_at t);
  past = λ t low. ground (arith, v.past t low);
  future = λ t high. ground (arith, v.future t high);
  stands = v.stands;
  stands_reached = λ t up. ground (arith, v.stands_reached t up);
  stands_key = v.stands_key;
  key_reached = λ t set. ground (arith, v.key_reached t set);
  announced = λ t all. ground (arith, v.announced t);
  commits = v.commits;
}
  where
    in_order_at : (t : ℕ) → s ≡ suc t → b.reached (suc t) < b.reached t
    in_order_at t e = subst (InOrder b) e in_order

-- The last message comes in the slot that the server waits in.
pub last_slot :
    {clients : ℕ} {b : Barriers} {key : ℕ → Bool} {left : ℕ → ℕ} {committing : Bool} (r : Rpc)
    (s : ℕ)
    → NodeInv clients b key left committing
    → Stops b clients r
    → is_deleting r ≡ false
    → b.barrier b.waiting_barrier_id ≡ false
    → InOrder b s
    → b.reached s + 1 ≡ clients
    → s ≡ b.waiting_barrier_id
last_slot {b} r zero v stop no_deletion down in_order last =
    elim (Bool-cases (ltb 0 b.waiting_barrier_id)) [
      | inl after ↦ absurd (omega (arith, v.past 0 (ltb→lt _ _ after)))
      | inr at ↦ ground arith
    ]
last_slot {clients} {b} r (suc s) v stop no_deletion down in_order last =
    elim (Bool-cases (ltb (suc s) b.waiting_barrier_id)) [
      | inl after ↦ absurd (omega (arith, v.past (suc s) (ltb→lt _ _ after)))
      | inr here ↦ elim (Bool-cases (ltb b.waiting_barrier_id (suc s))) [
        | inr at ↦ ground arith
        | inl before ↦
            let full : b.reached s ≡ clients = omega (arith, v.bounded s, in_order) in
            absurd (elim (Bool-cases (ltb b.waiting_barrier_id s)) [
              | inl far ↦ omega (arith, v.future s (ltb→lt _ _ far))
              | inr near ↦
                  let e : s ≡ b.waiting_barrier_id = ground arith in
                  let deleting? = stop (subst (λ t. b.reached t ≡ clients) e full) down in cc
            ])
      ]
    ]

pub last_one :
    {clients : ℕ} {b : Barriers} {key : ℕ → Bool} {left : ℕ → ℕ} {committing : Bool} (s : ℕ)
    → NodeInv clients b key left committing
    → committing ≡ false
    → InOrder b s
    → b.reached s + 1 ≡ clients
    → s ≡ b.waiting_barrier_id
    → NodeInv clients
        (set_barrier s true (count_reached s b))
        (update key s true)
        (update left s 0)
        committing
unfolding count_reached set_barrier
last_one {b} s v free in_order last here = record {
  bounded = λ t. ground (arith, v.bounded t);
  ordered = λ t. ground (arith, v.ordered t, in_order_at t);
  past = λ t low. ground (arith, v.past t low);
  future = λ t high. ground (arith, v.future t high);
  stands = λ t up. ground (arith, v.stands t);
  stands_reached = λ t up. ground (arith, v.stands_reached t);
  stands_key = λ t up. ground (arith, v.stands_key t);
  key_reached = λ t set. ground (arith, v.key_reached t);
  announced = λ t all. ground (arith, v.announced t);
  commits = λ busy. cc;
}
  where
    in_order_at : (t : ℕ) → s ≡ suc t → b.reached (suc t) < b.reached t
    in_order_at t e = subst (InOrder b) e in_order
