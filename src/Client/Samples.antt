-- ===== src/Client/Samples.antt =====
-- A client of a small region: one cluster, an empty file system, and the root "/p".
use pacon.Base.{
  ℕ, ◌+◌, ◌≡◌, ◌≢◌, refl, true, false, none, some, List, [], ◌∷◌, arith, Bytes, bytes_eq, replicate,
  if◌then◌else◌, ◌∙◌,
}
use pacon.Stat.{
  PaconStat, IsStat, stat_rm, stat_existedin_dfs, set_stat_flag, get_stat_flag, seri_val,
  has_flag-with_flag, has_flag_zero,
}
use pacon.Paths.{slash}
use pacon.System.{Posix, System}
use pacon.System.Reference.{Entry, find, reference, reference-Quiet}
use pacon.Client.State.{Status, succeeded, failed, Pacon, Client, word}
use pacon.Client.Parent.{parent_dir}
use pacon.Client.Evict.{evict_lock, evict_record}
use pacon.Client.Create.{new_stat, created_stat}
use pacon.Client.Placing.{Put}
use pacon.Client.Namespace.{is_path, unused, entry, Namespace, Known, Known-live, Holds, Holds-Put}
use pacon.Client.Refine.{Ready, Shows}
use pacon.Client.NewStats.{
  new_stat-IsStat, set_stat_flag-IsStat, created_stat-IsStat, created_stat-live,
}

abbrev pub empty_dfs : Posix
empty_dfs = record {
  State = Unit {0};
  stat = λ path s. (none, s);
  list_dir = λ path s. (none, s);
  mkdir = λ path mode s. (true, s);
  creat = λ path mode s. (true, s);
  remove = λ path s. (false, s);
  rmdir = λ path s. (false, s);
  rename = λ path newpath s. (false, s);
  open_file = λ path flags s. (none, s);
  open_mode = λ path flags mode s. (none, s);
  pread = λ fd size offset s. (none, s);
  pwrite = λ fd buf offset s. (none, s);
  write = λ fd buf s. (none, s);
  fsync = λ fd s. (true, s);
  close = λ fd s. s;
}

abbrev pub small : System
small = record {
  kv = reference;
  dfs = empty_dfs;
  local_rpc = λ mesg s d. (b'0', s, d);
  cluster_rpc = λ addr mesg s d. (b'0', s, d);
  later = λ t. t + 1;
  uid = 1000;
  gid = 1000;
  indeterminate = 7;
  slack = 8;
  memalign = λ d n. some (0 ∷ 16 ∷ 3 ∷ 2 ∷ 1 ∷ 127 ∷ 0 ∷ 0 ∷ []);
}

abbrev pub region : Pacon
region = record {
  kv_handle = 0;
  mount_path = slash ∷ b'p' ∷ [];
  perm_info = none;
  df_dir_mode = 16877;
  df_f_mode = 33188;
  remotes = [];
  fsync_logfile_path = slash ∷ b'l' ∷ [];
  fsync_log_fd = 5;
}

-- "/p/f"
abbrev pub file_path : Bytes
file_path = slash ∷ b'p' ∷ slash ∷ b'f' ∷ []

unfoldable pub store_of : List Entry → reference.State
unfolding reference
store_of cached = record { entries = cached; counter = 5 }

abbrev pub client_of : List Entry → Client small
client_of cached = record {
  kv = store_of cached;
  dfs = tt;
  now = 1500000000;
  sent = [];
  dir_check_table = (slash ∷ b'p' ∷ []) ∷ [];
  fd_table = [];
  current_barrier_id = 2;
  log_size = 0;
}

-- What init_pacon puts beside the paths: ten bytes for the lock, of which "0" and its NUL are set, and
-- the record of the last eviction; and the key of a barrier, as the server writes it.
abbrev pub locks : List Entry
locks =
    record {
      handle = 0;
      key = evict_lock;
      held = some (record { value = b'0' ∷ 0 ∷ replicate 8 7; item_cas = 1 });
    }
    ∷ record {
      handle = 0;
      key = evict_record;
      held = some (record { value = b'?' ∷ []; item_cas = 2 });
    }
    ∷ record {
      handle = 0;
      key = b'1' ∷ b'0' ∷ [];
      held = some (record { value = b'0' ∷ []; item_cas = 3 });
    }
    ∷ []

find-locks : (k : Bytes) → is_path k ≡ true → find locks 0 k ≡ none
unfolding find bytes_eq
find-locks [] p = cc
find-locks (c ∷ s) p = ground arith

pub locks-Holds : Holds reference-Quiet 0 (store_of locks) (λ k. unused)
unfolding reference reference-Quiet store_of
locks-Holds = record { known = λ k p. Known.absent (find-locks k p) refl }

-- A stat that is cached at a path.
abbrev pub cached_stat : Bytes → PaconStat → Entry
cached_stat k st = record {
  handle = 0;
  key = k;
  held = some (record { value = seri_val st; item_cas = 4 });
}

pub cached_stat-Put :
    (k : Bytes) (st : PaconStat) (es : List Entry)
    → Put reference-Quiet 0 k (seri_val st) (store_of es) (store_of (cached_stat k st ∷ es))
unfolding reference reference-Quiet find store_of
cached_stat-Put k st es = record { put_cas = 4; at_keys = λ h' k'. refl }

-- "/p"
abbrev pub root : Bytes
root = slash ∷ b'p' ∷ []

abbrev pub root_stat : PaconStat
root_stat =
    set_stat_flag (new_stat small 16877 1300000000 1300000000 1300000000 4096) stat_existedin_dfs
      true

root_stat-IsStat : IsStat root_stat
root_stat-IsStat =
    set_stat_flag-IsStat _ stat_existedin_dfs true
      (new_stat-IsStat small 16877 1300000000 1300000000 1300000000 4096)

root_stat-live : get_stat_flag root_stat stat_rm ≡ false
unfolding get_stat_flag set_stat_flag new_stat
root_stat-live = has_flag-with_flag 0 stat_existedin_dfs stat_rm true ∙ has_flag_zero stat_rm

-- A client that has just been set up: the root of its region is cached.
abbrev pub fresh : Client small
fresh = client_of (cached_stat root root_stat ∷ locks)

abbrev pub nothing : Namespace
nothing = record { names = λ k. if bytes_eq root k then entry root_stat else unused; queue = [] }

pub fresh-Shows : Shows reference-Quiet region fresh nothing
fresh-Shows = record {
  holds =
      Holds-Put reference-Quiet 0 root (seri_val root_stat) (entry root_stat)
        (λ cas. Known-live root_stat cas root_stat-IsStat root_stat-live) locks-Holds
        (cached_stat-Put root root_stat locks);
  queued = refl;
}

abbrev pub file : PaconStat
file = created_stat small 33188 1400000000

abbrev pub used : Client small
used = client_of (cached_stat file_path file ∷ cached_stat root root_stat ∷ locks)

abbrev pub one_file : Namespace
one_file = record {
  names = λ k. if bytes_eq file_path k then entry file else nothing.names k;
  queue = [];
}

pub used-Shows : Shows reference-Quiet region used one_file
used-Shows = record {
  holds =
      Holds-Put reference-Quiet 0 file_path (seri_val file) (entry file)
        (λ cas.
          Known-live file cas (created_stat-IsStat small 33188 1400000000)
            (created_stat-live small 33188 1400000000))
        fresh-Shows.holds (cached_stat-Put file_path file (cached_stat root root_stat ∷ locks));
  queued = refl;
}

pub file_path-Ready : Ready region file_path ((slash ∷ b'p' ∷ []) ∷ [])
unfolding parent_dir pacon.Client.Parent.last_slash pacon.Dmkv.cut_slash pacon.Dmkv.Keys.ends_plain
    bytes_eq pacon.Client.State.contains
file_path-Ready = record {
  unrestricted = refl;
  absolute = refl;
  plain = refl;
  parent = slash ∷ b'p' ∷ [];
  below_parent = refl;
  not_root = refl;
  short = omega arith;
  checked = refl;
}

-- 1500000000
abbrev pub begun : ℕ
begun = 1500000000

pub file_path-used : one_file.names file_path ≢ unused
unfolding bytes_eq
file_path-used = λ e. cc
