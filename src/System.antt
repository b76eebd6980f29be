-- ===== src/System.antt =====
-- What pacon calls and does not implement: the memcached cluster (libmemcached), the distributed file
-- system (POSIX calls), the pacon servers behind the local and the cluster's request sockets, the clock and the user ids.
-- Every call takes the state of the service and returns a new one, so other clients and the server
-- may have changed it; only the laws of `Quiet` exclude that.
pub mod Quiet
pub mod Reference
use pacon.Base.{ℕ, Bool, Option, List, Bytes}

-- The values of `memcached_return_t` that the code tells apart.
pub data Rc : Type 0 where
  success : Rc
  memory_allocation_failure : Rc
  timeout : Rc
  data_exists : Rc
  other_error : Rc

-- A cached value and its CAS number.
pub record Item : Type 0 where
  pub value : Bytes
  pub item_cas : ℕ

-- The first argument of each call is the handle of a cluster.
pub record Memcached : Type 1 where
  pub State : Type 0
  -- `none` when the return code is not MEMCACHED_SUCCESS
  pub get : ℕ → Bytes → State → Option Item × State
  pub set : ℕ → Bytes → Bytes → State → Rc × State
  pub add : ℕ → Bytes → Bytes → State → Rc × State
  pub cas : ℕ → Bytes → Bytes → ℕ → State → Rc × State
  pub delete : ℕ → Bytes → State → Rc × State

-- The fields of `struct stat` that the code reads; `is_dir` is S_ISDIR(st_mode).
pub record Stat : Type 0 where
  pub st_mode : ℕ
  pub is_dir : Bool
  pub st_ctime : ℕ
  pub st_atime : ℕ
  pub st_mtime : ℕ
  pub st_size : ℕ
  pub st_uid : ℕ
  pub st_gid : ℕ
  pub st_nlink : ℕ

-- `d_name`, and whether `d_type` is DT_DIR
pub record Dirent : Type 0 where
  pub d_name : Bytes
  pub d_dir : Bool

pub record Posix : Type 1 where
  pub State : Type 0
  pub stat : Bytes → State → Option Stat × State
  -- the entries that `readdir` gives between `opendir` and `closedir`; `none` is the NULL of `opendir`
  pub list_dir : Bytes → State → Option (List Dirent) × State
  -- the others answer whether they succeed
  pub mkdir : Bytes → ℕ → State → Bool × State
  pub creat : Bytes → ℕ → State → Bool × State
  pub remove : Bytes → State → Bool × State
  pub rmdir : Bytes → State → Bool × State
  pub rename : Bytes → Bytes → State → Bool × State
  -- the descriptor, and `none` for a negative one; the number is the flags
  pub open_file : Bytes → ℕ → State → Option ℕ × State
  -- open with flags and mode
  pub open_mode : Bytes → ℕ → ℕ → State → Option ℕ × State
  -- descriptor, size and offset; `none` is -1
  pub pread : ℕ → ℕ → ℕ → State → Option Bytes × State
  pub pwrite : ℕ → Bytes → ℕ → State → Option ℕ × State
  -- at the end of what has been written to the descriptor
  pub write : ℕ → Bytes → State → Option ℕ × State
  pub fsync : ℕ → State → Bool × State
  pub close : ℕ → State → State

pub record System : Type 1 where
  pub kv : Memcached
  pub dfs : Posix
  -- the server's reply byte to a request on the local socket, and what it did meanwhile
  pub local_rpc : Bytes → kv.State → dfs.State → ℕ × kv.State × dfs.State
  -- the reply byte of another server, by its address, to a message of this one
  pub cluster_rpc : Bytes → Bytes → kv.State → dfs.State → ℕ × kv.State × dfs.State
  -- what `time(NULL)` gives at the next call
  pub later : ℕ → ℕ
  pub uid : ℕ
  pub gid : ℕ
  -- what an automatic variable holds that is read before it is written
  pub indeterminate : ℕ
  -- how many bytes behind the server's `struct pacon_stat_server st1` the compiler leaves unused
  pub slack : ℕ
  -- the bytes of the address that posix_memalign gives for a size, and `none` when it fails
  pub memalign : dfs.State → ℕ → Option Bytes
