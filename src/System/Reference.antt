-- ===== src/System/Reference.antt =====
-- A cluster in memory, one client's worth: it shows that the laws of `Quiet` can be met.
use pacon.Base.{ℕ, suc, refl, Option, none, some, List, [], ◌∷◌, arith, ◌==◌, if◌then◌else◌, Bytes}
use pacon.System.{Rc, success, data_exists, other_error, Item, Memcached}
use pacon.System.Quiet.{Quiet, same_key}

pub record Entry : Type 0 where
  pub handle : ℕ
  pub key : Bytes
  pub held : Option Item

-- Newest write first; `counter` is the next CAS number.
pub record Store : Type 0 where
  pub entries : List Entry
  pub counter : ℕ

unfoldable pub find : List Entry → ℕ → Bytes → Option Item
find [] h k = none
find (e ∷ es) h k = if same_key e.handle e.key h k then e.held else find es h k

write : Store → ℕ → Bytes → Option Item → Store
write s h k i = record {
  entries = record { handle = h; key = k; held = i } ∷ s.entries;
  counter = suc s.counter;
}

put : ℕ → Bytes → Bytes → Store → Store
unfolding write
put h k v s = write s h k (some (record { value = v; item_cas = s.counter }))

store_add : Option Item → ℕ → Bytes → Bytes → Store → Rc × Store
unfolding put
store_add none h k v s = (success, put h k v s)
store_add (some i) h k v s = (other_error, s)

store_cas : Option Item → ℕ → Bytes → Bytes → ℕ → Store → Rc × Store
unfolding put
store_cas none h k v c s = (other_error, s)
store_cas (some i) h k v c s = if i.item_cas == c then (success, put h k v s) else (data_exists, s)

store_delete : Option Item → ℕ → Bytes → Store → Rc × Store
unfolding write
store_delete none h k s = (other_error, s)
store_delete (some i) h k s = (success, write s h k none)

unfoldable pub reference : Memcached
unfolding find put store_add store_cas store_delete
reference = record {
  State = Store;
  get = λ h k s. (find s.entries h k, s);
  set = λ h k v s. (success, put h k v s);
  add = λ h k v s. store_add (find s.entries h k) h k v s;
  cas = λ h k v c s. store_cas (find s.entries h k) h k v c s;
  delete = λ h k s. store_delete (find s.entries h k) h k s;
}

unfoldable pub reference-Quiet : Quiet reference
unfolding reference
reference-Quiet = record {
  item = λ s h k. find s.entries h k;
  next_cas = λ s. s.counter;
  get_value = λ h k s. refl;
  get_keeps = λ h k s h' k'. refl;
  set_succeeds = λ h k v s. refl;
  set_writes = λ h k v s h' k'. refl;
  add_succeeds = λ h k v s e. ground arith;
  add_writes = λ h k v s h' k' e. ground arith;
  add_refuses = λ h k v s i e. ground arith;
  add_keeps = λ h k v s h' k' i e. ground arith;
  cas_succeeds = λ h k v c s i e q. ground arith;
  cas_writes = λ h k v c s i h' k' e q. ground arith;
  cas_refuses = λ h k v c s i e q. ground arith;
  cas_keeps = λ h k v c s i h' k' e q. ground arith;
  delete_succeeds = λ h k s i e. ground arith;
  delete_drops = λ h k s i h' k' e. ground arith;
}
