-- ===== src/System/Quiet.antt =====
-- What libmemcached documents of a cluster that is up, has memory, and has no other client at work.
-- Keys are paths of less than PATH_MAX bytes, below the 250 bytes that memcached allows.
use pacon.Base.{ℕ, ◌≡◌, ◌≢◌, Bool, ◌&&◌, Option, none, some, ◌==◌, if◌then◌else◌, Bytes, bytes_eq}
use pacon.System.{success, data_exists, other_error, Item, Memcached}

abbrev pub same_key : ℕ → Bytes → ℕ → Bytes → Bool
same_key h k h' k' = (h == h') && bytes_eq k k'

pub record Quiet (m : Memcached) : Type 0 where
  pub item : m.State → ℕ → Bytes → Option Item
  -- the CAS number that the next write gets
  pub next_cas : m.State → ℕ
  pub get_value : (h : ℕ) (k : Bytes) (s : m.State) → (m.get h k s).0 ≡ item s h k
  pub get_keeps :
      (h : ℕ) (k : Bytes) (s : m.State) (h' : ℕ) (k' : Bytes)
      → item (m.get h k s).1 h' k' ≡ item s h' k'
  pub set_succeeds : (h : ℕ) (k v : Bytes) (s : m.State) → (m.set h k v s).0 ≡ success
  pub set_writes :
      (h : ℕ) (k v : Bytes) (s : m.State) (h' : ℕ) (k' : Bytes)
      → item (m.set h k v s).1 h' k' ≡ (
          if same_key h k h' k'
          then some (record { value = v; item_cas = next_cas s })
          else item s h' k')
  pub add_succeeds :
      (h : ℕ) (k v : Bytes) (s : m.State) → item s h k ≡ none → (m.add h k v s).0 ≡ success
  pub add_writes :
      (h : ℕ) (k v : Bytes) (s : m.State) (h' : ℕ) (k' : Bytes)
      → item s h k ≡ none
      → item (m.add h k v s).1 h' k' ≡ (
          if same_key h k h' k'
          then some (record { value = v; item_cas = next_cas s })
          else item s h' k')
  pub add_refuses :
      (h : ℕ) (k v : Bytes) (s : m.State) (i : Item)
      → item s h k ≡ some i
      → (m.add h k v s).0 ≡ other_error
  pub add_keeps :
      (h : ℕ) (k v : Bytes) (s : m.State) (h' : ℕ) (k' : Bytes) (i : Item)
      → item s h k ≡ some i
      → item (m.add h k v s).1 h' k' ≡ item s h' k'
  pub cas_succeeds :
      (h : ℕ) (k v : Bytes) (c : ℕ) (s : m.State) (i : Item)
      → item s h k ≡ some i
      → i.item_cas ≡ c
      → (m.cas h k v c s).0 ≡ success
  pub cas_writes :
      (h : ℕ) (k v : Bytes) (c : ℕ) (s : m.State) (i : Item) (h' : ℕ) (k' : Bytes)
      → item s h k ≡ some i
      → i.item_cas ≡ c
      → item (m.cas h k v c s).1 h' k' ≡ (
          if same_key h k h' k'
          then some (record { value = v; item_cas = next_cas s })
          else item s h' k')
  pub cas_refuses :
      (h : ℕ) (k v : Bytes) (c : ℕ) (s : m.State) (i : Item)
      → item s h k ≡ some i
      → i.item_cas ≢ c
      → (m.cas h k v c s).0 ≡ data_exists
  pub cas_keeps :
      (h : ℕ) (k v : Bytes) (c : ℕ) (s : m.State) (i : Item) (h' : ℕ) (k' : Bytes)
      → item s h k ≡ some i
      → i.item_cas ≢ c
      → item (m.cas h k v c s).1 h' k' ≡ item s h' k'
  pub delete_succeeds :
      (h : ℕ) (k : Bytes) (s : m.State) (i : Item)
      → item s h k ≡ some i
      → (m.delete h k s).0 ≡ success
  pub delete_drops :
      (h : ℕ) (k : Bytes) (s : m.State) (i : Item) (h' : ℕ) (k' : Bytes)
      → item s h k ≡ some i
      → item (m.delete h k s).1 h' k' ≡ (if same_key h k h' k' then none else item s h' k')
