-- ===== src/Server/Protocol.antt =====
-- The barriers of a cluster of pacon servers as a step relation: the commit thread, the thread for
-- local requests and the thread for other servers' messages of each server, interleaved in any order,
-- over the keys and counts in the cache. The steps change `Barriers` by the functions of
-- Server/Barriers, of server/pacon_server.c.
pub mod Sums
pub mod Invariant
pub mod Frames
pub mod Reaching
pub mod Hearing
pub mod Serving
pub mod Finishing
pub mod Deleting
pub mod Safety
pub mod Progress
pub mod Tests
use pacon.Base.{
  ℕ, zero, suc, ◌+◌, ◌-◌, ◌≤◌, ◌<◌, ◌≡◌, ◌≢◌, ◌⊎◌, Bool, true, false, ◌==◌, if◌then◌else◌,
}
use pacon.Server.State.{Barriers}
use pacon.Server.Barriers.{update, count_reached, set_barrier, next_waiting, del_barrier, must_wait}

-- Where the thread of a server's local requests is in commit_to_fs_barrier, and in which slot: it
-- waits for its own barrier, has seen the keys of the nodes before `k`, works on the request, or has
-- told the servers before `k` that the barrier is gone.
pub data Rpc : Type 0 where
  idle : Rpc
  waiting : (s : ℕ) → Rpc
  polling : (s k : ℕ) → Rpc
  working : (s : ℕ) → Rpc
  deleting : (s k : ℕ) → Rpc

-- By server; `key`, `left` and `unasked` also by slot, `opt_count` by slot only. `key` is whether the
-- server's key holds "1"; `left` and `unasked` count the operations that the clients of a server have
-- in a slot and that are not yet announced to it, and not yet requested.
pub record Cluster : Type 0 where
  pub node : ℕ → Barriers
  pub rpc : ℕ → Rpc
  pub committing : ℕ → Bool
  pub key : ℕ → ℕ → Bool
  pub opt_count : ℕ → ℕ
  pub left : ℕ → ℕ → ℕ
  pub unasked : ℕ → ℕ → ℕ

abbrev pub update₂ {ℓ} : {A : Type ℓ} → (ℕ → ℕ → A) → ℕ → ℕ → A → ℕ → ℕ → A
update₂ f i s a = update f i (update (f i) s a)

-- The clients of a server pass the barriers in order: slot `s` has come from fewer than the one
-- before.
abbrev pub InOrder : Barriers → ℕ → Type 0
InOrder b zero = Unit {0}
InOrder b (suc s) = b.reached (suc s) < b.reached s

abbrev pub is_deleting : Rpc → Bool
is_deleting (deleting _ _) = true
is_deleting _ = false

-- `overlap` allows a server to take barrier messages while its own request thread deletes a barrier.
module _ (overlap : Bool) (n : ℕ) (clients : ℕ → ℕ) where
  -- The commit thread may take its next message.
  pub record Takes (c : Cluster) (i : ℕ) : Type 0 where
    pub server : i < n
    pub free : c.committing i ≡ false
    pub passes : must_wait (c.node i) ≡ false

  -- Its next message is a client's barrier in slot `s`, which announces `ops` operations.
  pub record Hears (c : Cluster) (i s ops : ℕ) : Type 0 where
    pub takes : Takes c i
    pub in_order : InOrder (c.node i) s
    pub announced : ops ≤ c.left i s
    pub apart : (overlap ≡ true) ⊎ (is_deleting (c.rpc i) ≡ false)

  pub data Step (c : Cluster) : Cluster → Type 0 where
    -- a change is committed to the file system
    commit : (i : ℕ) → Takes c i → Step c (record c { committing = update c.committing i true })
    committed :
        (i : ℕ)
        → i < n
        → c.committing i ≡ true
        → Step c (record c { committing = update c.committing i false })
    -- the case BARRIER: one message more, and the last one
    reach_some :
        (i s ops : ℕ)
        → Hears c i s ops
        → (c.node i).reached s + 1 < clients i
        → Step c (record c {
          node = update c.node i (count_reached s (c.node i));
          opt_count = update c.opt_count s (c.opt_count s + ops);
          left = update₂ c.left i s (c.left i s - ops);
        })
    reach_last :
        (i s ops : ℕ)
        → Hears c i s ops
        → (c.node i).reached s + 1 ≡ clients i
        → ops ≡ c.left i s
        → Step c (record c {
          node = update c.node i (set_barrier s true (count_reached s (c.node i)));
          key = update₂ c.key i s true;
          opt_count = update c.opt_count s (c.opt_count s + ops);
          left = update₂ c.left i s 0;
        })
    -- a client's request
    request :
        (i s left : ℕ)
        → i < n
        → c.rpc i ≡ idle
        → c.unasked i s ≡ suc left
        → Step c
            (record c { rpc = update c.rpc i (waiting s); unasked = update₂ c.unasked i s left })
    -- broadcast_barrier_begin_new
    see_local :
        (i s : ℕ)
        → i < n
        → c.rpc i ≡ waiting s
        → (c.node i).barrier s ≡ true
        → Step c (record c { rpc = update c.rpc i (polling s 0) })
    poll :
        (i s k : ℕ)
        → i < n
        → k < n
        → c.rpc i ≡ polling s k
        → (k ≡ i) ⊎ (c.key k s ≡ true)
        → Step c (record c { rpc = update c.rpc i (polling s (suc k)) })
    begin :
        (i s : ℕ)
        → i < n
        → c.rpc i ≡ polling s n
        → Step c (record c { rpc = update c.rpc i (working s) })
    -- broadcast_barrier_end_new: the count goes down, and at 0 the barrier goes
    finish_more :
        (i s count : ℕ)
        → i < n
        → c.rpc i ≡ working s
        → c.opt_count s ≡ suc (suc count)
        → Step c
            (record c { rpc = update c.rpc i idle; opt_count = update c.opt_count s (suc count) })
    finish_last :
        (i s : ℕ)
        → i < n
        → c.rpc i ≡ working s
        → c.opt_count s ≡ 1
        → Step c (record c {
          node = update c.node i (set_barrier s false (c.node i));
          rpc = update c.rpc i (deleting s 0);
          key = update₂ c.key i s false;
          opt_count = update c.opt_count s 0;
        })
    -- server_broadcast of DEL_BARRIER, which server `k` handles, and the own number of the sender
    tell :
        (i s k : ℕ)
        → i < n
        → k < n
        → k ≢ i
        → c.rpc i ≡ deleting s k
        → Step c (record c {
          node = update c.node k (del_barrier (c.node k));
          rpc = update c.rpc i (deleting s (suc k));
        })
    skip :
        (i s : ℕ)
        → i < n
        → c.rpc i ≡ deleting s i
        → Step c (record c { rpc = update c.rpc i (deleting s (suc i)) })
    deleted :
        (i s : ℕ)
        → i < n
        → c.rpc i ≡ deleting s n
        → Step c (record c {
          node = update c.node i (next_waiting (c.node i));
          rpc = update c.rpc i idle;
        })

  -- All servers started, with the operations that each server's clients will have in each slot.
  abbrev pub start : (ℕ → ℕ → ℕ) → Cluster
  start ops = record {
    node = λ i. record { barrier = λ s. false; reached = λ s. 0; waiting_barrier_id = 0 };
    rpc = λ i. idle;
    committing = λ i. false;
    key = λ i s. false;
    opt_count = λ s. 0;
    left = ops;
    unasked = ops;
  }

  pub data Reach (ops : ℕ → ℕ → ℕ) : Cluster → Type 0 where
    started : Reach ops (start ops)
    later : {c d : Cluster} → Reach ops c → Step c d → Reach ops d
