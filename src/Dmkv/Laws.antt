-- ===== src/Dmkv/Laws.antt =====
-- What the wrappers do to a quiet cluster, at a path that is its own key.
use pacon.Base.{ℕ, ◌≡◌, ◌≢◌, refl, ap, true, none, some, arith, if◌then◌else◌, Bytes, done}
use pacon.System.{Item, Memcached}
use pacon.System.Quiet.{Quiet, same_key}
use pacon.Dmkv.{
  ret_ok, ret_exists, ret_error, memc_put, memc_add, memc_cas, memc_get, memc_get_cas, memc_del,
}
use pacon.Dmkv.Keys.{ends_plain, key_of-plain, put_key_of-plain}

module _ {m : Memcached} (q : Quiet m) where
  -- `t` holds what `s` holds.
  pub record Kept (s t : m.State) : Type 0 where
    pub same : (h : ℕ) (k : Bytes) → q.item t h k ≡ q.item s h k

  -- `t` holds what `s` holds, but `v` at one key, with the next CAS number.
  pub record Wrote (h : ℕ) (k v : Bytes) (s t : m.State) : Type 0 where
    pub at_keys :
        (h' : ℕ) (k' : Bytes)
        → q.item t h' k' ≡ (
            if same_key h k h' k'
            then some (record { value = v; item_cas = q.next_cas s })
            else q.item s h' k')

  pub record Dropped (h : ℕ) (k : Bytes) (s t : m.State) : Type 0 where
    pub at_keys :
        (h' : ℕ) (k' : Bytes)
        → q.item t h' k' ≡ (if same_key h k h' k' then none else q.item s h' k')

  module _ (h : ℕ) (p : Bytes) (plain : ends_plain p ≡ true) (s : m.State) where
    pub memc_get_cas-item :
        (t : m.State) × (memc_get_cas m h p s ≡ done (q.item s h p, t)) × Kept s t
    unfolding memc_get_cas
    memc_get_cas-item = (
      (m.get h p s).1,
      rw (key_of-plain p plain) (ap (λ i. done (i, (m.get h p s).1)) (q.get_value h p s)),
      record { same = q.get_keeps h p s },
    )

    pub memc_get-none :
        q.item s h p ≡ none → (t : m.State) × (memc_get m h p s ≡ done (none, t)) × Kept s t
    unfolding memc_get
    memc_get-none e = (
      (m.get h p s).1,
      rw (key_of-plain p plain) (ground (arith, q.get_value h p s)),
      record { same = q.get_keeps h p s },
    )

    pub memc_get-some :
        (i : Item)
        → q.item s h p ≡ some i
        → (t : m.State) × (memc_get m h p s ≡ done (some i.value, t)) × Kept s t
    unfolding memc_get
    memc_get-some i e = (
      (m.get h p s).1,
      rw (key_of-plain p plain) (ground (arith, q.get_value h p s)),
      record { same = q.get_keeps h p s },
    )

    pub memc_put-writes :
        (v : Bytes) → (t : m.State) × (memc_put m h p v s ≡ done (ret_ok, t)) × Wrote h p v s t
    unfolding memc_put
    memc_put-writes v = (
      (m.set h p v s).1,
      rw (put_key_of-plain p plain) (ground (arith, q.set_succeeds h p v s)),
      record { at_keys = q.set_writes h p v s },
    )

    pub memc_add-new :
        (v : Bytes)
        → q.item s h p ≡ none
        → (t : m.State) × (memc_add m h p v s ≡ done (ret_ok, t)) × Wrote h p v s t
    unfolding memc_add
    memc_add-new v e = (
      (m.add h p v s).1,
      rw (key_of-plain p plain) (ground (arith, q.add_succeeds h p v s e)),
      record { at_keys = λ h' k'. q.add_writes h p v s h' k' e },
    )

    pub memc_add-old :
        (v : Bytes) (i : Item)
        → q.item s h p ≡ some i
        → (t : m.State) × (memc_add m h p v s ≡ done (ret_error, t)) × Kept s t
    unfolding memc_add
    memc_add-old v i e = (
      (m.add h p v s).1,
      rw (key_of-plain p plain) (ground (arith, q.add_refuses h p v s i e)),
      record { same = λ h' k'. q.add_keeps h p v s h' k' i e },
    )

    pub memc_cas-fresh :
        (v : Bytes) (i : Item)
        → q.item s h p ≡ some i
        → (t : m.State) × (memc_cas m h p v i.item_cas s ≡ done (ret_ok, t)) × Wrote h p v s t
    unfolding memc_cas
    memc_cas-fresh v i e = (
      (m.cas h p v i.item_cas s).1,
      rw (key_of-plain p plain) (ground (arith, q.cas_succeeds h p v i.item_cas s i e refl)),
      record { at_keys = λ h' k'. q.cas_writes h p v i.item_cas s i h' k' e refl },
    )

    pub memc_cas-stale :
        (v : Bytes) (c : ℕ) (i : Item)
        → q.item s h p ≡ some i
        → i.item_cas ≢ c
        → (t : m.State) × (memc_cas m h p v c s ≡ done (ret_exists, t)) × Kept s t
    unfolding memc_cas
    memc_cas-stale v c i e old = (
      (m.cas h p v c s).1,
      rw (key_of-plain p plain) (ground (arith, q.cas_refuses h p v c s i e old)),
      record { same = λ h' k'. q.cas_keeps h p v c s i h' k' e old },
    )

    pub memc_del-drops :
        (i : Item)
        → q.item s h p ≡ some i
        → (t : m.State) × (memc_del m h p s ≡ done (ret_ok, t)) × Dropped h p s t
    unfolding memc_del
    memc_del-drops i e = (
      (m.delete h p s).1,
      rw (key_of-plain p plain) (ground (arith, q.delete_succeeds h p s i e)),
      record { at_keys = λ h' k'. q.delete_drops h p s i h' k' e },
    )
