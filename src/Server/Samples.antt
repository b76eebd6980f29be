-- ===== src/Server/Samples.antt =====
-- A server for the tests: one cluster, and a file system whose removals succeed after some failures.
use pacon.Base.{
  ℕ, length, ◌+◌, ◌-◌, true, false, none, some, List, [], ◌∷◌, arith, Bytes, bytes_eq,
  if◌then◌else◌, ◌==◌,
}
use pacon.Stat.{PaconStat, stat_rm, seri_val, get_stat_flag, has_flag_zero, IsStat}
use pacon.Paths.{slash}
use pacon.System.{Posix, System}
use pacon.System.Reference.{Entry, reference, reference-Quiet}
use pacon.Client.Namespace.{unused, entry, Namespace, Known-live, Holds, Holds-Put}
use pacon.Client.Samples.{store_of, locks, locks-Holds, cached_stat, cached_stat-Put}
use pacon.Server.State.{Server, none_set}

-- The state counts the removals that will fail.
abbrev pub busy_dfs : Posix
busy_dfs = record {
  State = ℕ;
  stat = λ path s. (none, s);
  list_dir = λ path s. (none, s);
  mkdir = λ path mode s. (true, s);
  creat = λ path mode s. (true, s);
  remove = λ path s. (s == 0, s - 1);
  rmdir = λ path s. (false, s);
  rename = λ path newpath s. (false, s);
  open_file = λ path flags s. (some 3, s);
  open_mode = λ path flags mode s. (some 3, s);
  pread = λ fd size offset s. (none, s);
  pwrite = λ fd buf offset s. (some (length buf), s);
  write = λ fd buf s. (some (length buf), s);
  fsync = λ fd s. (true, s);
  close = λ fd s. s;
}

abbrev pub node : System
node = record {
  kv = reference;
  dfs = busy_dfs;
  local_rpc = λ mesg s d. (b'0', s, d);
  cluster_rpc = λ addr mesg s d. (b'0', s, d);
  later = λ t. t + 1;
  uid = 0;
  gid = 0;
  indeterminate = 0;
  slack = 8;
  memalign = λ d n. some (0 ∷ 16 ∷ 3 ∷ 2 ∷ 1 ∷ 127 ∷ 0 ∷ 0 ∷ []);
}

-- "/f"
abbrev pub file_path : Bytes
file_path = slash ∷ b'f' ∷ []

abbrev pub plain_file : PaconStat
plain_file = record {
  flags = 0;
  mode = 33188;
  ctime = 1400000000;
  atime = 1400000000;
  mtime = 1400000000;
  size = 0;
  uid = 0;
  gid = 0;
  nlink = 0;
  open_counter = 0;
  fd = 0;
}

pub plain_file-IsStat : IsStat plain_file
plain_file-IsStat = record {
  flags = omega arith;
  mode = omega arith;
  ctime = omega arith;
  atime = omega arith;
  mtime = omega arith;
  size = omega arith;
  uid = omega arith;
  gid = omega arith;
  nlink = omega arith;
  open_counter = omega arith;
  fd = omega arith;
}

unfoldable pub server_of : List Entry → ℕ → Server node
unfolding store_of
server_of cached failures = record {
  kv = store_of cached;
  dfs = failures;
  now = 0;
  handle = 0;
  handle_for_barrier = 1;
  node_list = [];
  local_ip = [];
  client_num = 1;
  server_list = [];
  sent = [];
  removing_dirs = record { list = []; count = 0 };
  sp_permission = none_set;
  perm_info = record {
    nom_dir_mode = 0;
    nom_f_mode = 0;
    sp_path = λ i. [];
    sp_dir_modes = λ i. 0;
    sp_f_modes = λ i. 0;
    sp_num = 0;
  };
  barriers = record { barrier = λ s. false; reached = λ s. 0; waiting_barrier_id = 0 };
  reach_barrier = 0;
  commit_barrier = 0;
  remote_reach_barrier = 0;
  mesg_count = 0;
  batch_dir_mode = 16877;
}

abbrev pub with_file : Server node
with_file = server_of (cached_stat file_path plain_file ∷ locks) 0

abbrev pub one_file : Namespace
one_file = record {
  names = λ k. if bytes_eq file_path k then entry plain_file else unused;
  queue = [];
}

-- Beside the file there are the locks and the key of a barrier.
pub with_file-Holds : Holds reference-Quiet 0 with_file.kv one_file.names
unfolding get_stat_flag server_of store_of
with_file-Holds =
    Holds-Put reference-Quiet 0 file_path (seri_val plain_file) (entry plain_file)
      (λ cas. Known-live plain_file cas plain_file-IsStat (has_flag_zero stat_rm)) locks-Holds
      (cached_stat-Put file_path plain_file locks)
