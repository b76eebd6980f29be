-- ===== src/Dmkv.antt =====
-- The cache client of kv/dmkv.c: the memcached wrappers (`memc_*`) that cut a trailing slash from the
-- key and turn return codes into numbers, behind the `dmkv_*` names. They act on the state of the
-- clusters; `fault` is a read in front of the key.
pub mod Keys
pub mod Laws
pub mod Tests
use pacon.Base.{
  ℕ, Bool, true, false, Option, none, some, List, [], ◌∷◌, ◌==◌, if◌then◌else◌, Bytes, is_empty,
  Outcome, done, fault, Cmd, pure, crash, ◌>>=◌,
}
use pacon.Paths.{slash}
use pacon.System.{
  Rc, success, memory_allocation_failure, timeout, data_exists, other_error, Item, Memcached,
}

-- The return values: 0, 1, -1, -2 and -3.
pub data KvRet : Type 0 where
  ret_ok : KvRet
  ret_exists : KvRet
  ret_error : KvRet
  ret_no_memory : KvRet
  ret_timeout : KvRet

-- if (key[key_len-1] == '/') key_len--;
unfoldable pub cut_slash : Bytes → Bytes
cut_slash [] = []
cut_slash (c ∷ []) = if c == slash then [] else c ∷ []
cut_slash (c ∷ d ∷ s) = c ∷ cut_slash (d ∷ s)

-- while (key[t_key_len-i] == '/') { i++; key_len--; }: every slash at the end goes.
unfoldable pub cut_slashes : Bytes → Bytes
cut_slashes [] = []
cut_slashes (c ∷ s) = elim (cut_slashes s) [
  | [] ↦ if c == slash then [] else c ∷ []
  | d ∷ r ↦ c ∷ d ∷ r
]

-- The key that most wrappers use: one slash less, and a read in front of an empty key.
unfoldable pub key_of : Bytes → Option Bytes
unfolding cut_slash
key_of key = if is_empty key then none else some (cut_slash key)

-- The key of `memc_put`, which reads on in front of a key that is slashes only.
unfoldable pub put_key_of : Bytes → Option Bytes
unfolding cut_slashes
put_key_of key = if is_empty (cut_slashes key) then none else some (cut_slashes key)

module _ {S : Type 0} where
  -- Run a library call on the key, if the code finds one.
  abbrev pub at_key : {A : Type 0} → Option Bytes → (Bytes → S → A × S) → Cmd S A
  at_key none call s = fault
  at_key (some k) call s = done (call k s)

abbrev put_ret : Rc → KvRet
put_ret success = ret_ok
put_ret memory_allocation_failure = ret_no_memory
put_ret _ = ret_error

abbrev add_ret : Rc → KvRet
add_ret success = ret_ok
add_ret memory_allocation_failure = ret_no_memory
add_ret timeout = ret_timeout
add_ret _ = ret_error

abbrev cas_ret : Rc → KvRet
cas_ret data_exists = ret_exists
cas_ret success = ret_ok
cas_ret memory_allocation_failure = ret_no_memory
cas_ret _ = ret_error

abbrev del_ret : Rc → KvRet
del_ret success = ret_ok
del_ret _ = ret_error

module _ (m : Memcached) where
  unfoldable pub memc_put : ℕ → Bytes → Bytes → Cmd m.State KvRet
  unfolding put_key_of
  memc_put memc key val = do rc ← at_key (put_key_of key) (λ k. m.set memc k val); pure (put_ret rc)

  unfoldable pub memc_add : ℕ → Bytes → Bytes → Cmd m.State KvRet
  unfolding key_of
  memc_add memc key val = do rc ← at_key (key_of key) (λ k. m.add memc k val); pure (add_ret rc)

  unfoldable pub memc_cas : ℕ → Bytes → Bytes → ℕ → Cmd m.State KvRet
  unfolding key_of
  memc_cas memc key val cas = do
    rc ← at_key (key_of key) (λ k. m.cas memc k val cas)
    pure (cas_ret rc)

  -- The value, or NULL.
  unfoldable pub memc_get : ℕ → Bytes → Cmd m.State (Option Bytes)
  unfolding key_of
  memc_get memc key = do
    found ← at_key (key_of key) (m.get memc)
    pure (elim found [ none ↦ none | some i ↦ some i.value ])

  -- The value with its CAS number, or NULL.
  unfoldable pub memc_get_cas : ℕ → Bytes → Cmd m.State (Option Item)
  unfolding key_of
  memc_get_cas memc key = at_key (key_of key) (m.get memc)

  unfoldable pub memc_del : ℕ → Bytes → Cmd m.State KvRet
  unfolding key_of
  memc_del memc key = do rc ← at_key (key_of key) (m.delete memc); pure (del_ret rc)

  -- The interface: the handle of a `struct dmkv` stands for its `memc`.
  abbrev pub dmkv_set : ℕ → Bytes → Bytes → Cmd m.State KvRet
  dmkv_set dmkv key value = memc_put dmkv key value

  abbrev pub dmkv_add : ℕ → Bytes → Bytes → Cmd m.State KvRet
  dmkv_add dmkv key value = memc_add dmkv key value

  abbrev pub dmkv_cas : ℕ → Bytes → Bytes → ℕ → Cmd m.State KvRet
  dmkv_cas dmkv key val cas = memc_cas dmkv key val cas

  abbrev pub dmkv_get : ℕ → Bytes → Cmd m.State (Option Bytes)
  dmkv_get dmkv key = memc_get dmkv key

  abbrev pub dmkv_get_cas : ℕ → Bytes → Cmd m.State (Option Item)
  dmkv_get_cas dmkv key = memc_get_cas dmkv key

  abbrev pub dmkv_del : ℕ → Bytes → Cmd m.State KvRet
  dmkv_del dmkv key = memc_del dmkv key
