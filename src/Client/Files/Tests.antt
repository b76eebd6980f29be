-- ===== src/Client/Files/Tests.antt =====
-- The file "/p/f" of the region of `Client/Samples`, with "ab" in the cache, and a file system that
-- takes everything.
use pacon.Base.{
  ℕ, zero, suc, false, true, ◌+◌, ◌≡◌, refl, true, none, some, [], ◌∷◌, ◌++◌, arith, Bytes,
  bytes_eq, length, take, drop, replicate, length-replicate, lacks, done,
}
use pacon.Base.Decimal.{decimal}
use pacon.Stat.{PaconStat, stat_inline, get_stat_flag, seri_val, IsStat, inline_max}
use pacon.System.{Item}
use pacon.System.Reference.{find, reference, reference-Quiet}
use pacon.Message.{write, fsync, fsync_path, mesg_text}
use pacon.Client.State.{succeeded, word, Client}
use pacon.Client.Placing.{Put}
use pacon.Client.Samples.{region, file_path, file_path-Ready}
use pacon.Dmkv.Laws.{Kept}
use pacon.Server.State.{ok}
use pacon.Server.Inline.{commit_write}
use pacon.Server.Samples.{node, server_of}
use pacon.Client.Create.{created_stat}
use pacon.Client.NewStats.{created_stat-IsStat}
use pacon.Client.Files.{in_dfs, PaconFile, unset_inline}
use pacon.Client.Files.Read.{pacon_read_new}
use pacon.Client.Files.Write.{pacon_write_new}
use pacon.Client.Files.Splices.{written}
use pacon.Client.Files.Cached.{InCache, NoDescriptor, pacon_read_new-part}
use pacon.Client.Files.Inlines.{written_stat, pacon_write_new-written}
use pacon.Client.Files.Histories.{
  written_stat-IsStat, written_stat-inline, write_new-read_new, write_new-commit_write,
}
use pacon.Client.Files.Logs.{pacon_fsync-logs}
use pacon.Client.Files.Sync.{pacon_fsync}
use pacon.Client.Files.Lost.{write_new-read_spilled}
use pacon.Client.Files.Spills.{Room, after_takes}

abbrev text : Bytes
text = b'a' ∷ b'b' ∷ []

abbrev more : Bytes
more = b'x' ∷ b'y' ∷ b'z' ∷ []

abbrev large_buf : Bytes
large_buf = replicate 4060 b'x'

-- "/p/f" after a first write
abbrev short_stat : PaconStat
short_stat = written_stat (created_stat node 33188 1400000000) 1400000000 2

short_stat-IsStat : IsStat short_stat
short_stat-IsStat =
    written_stat-IsStat _ 1400000000 2 (created_stat-IsStat node 33188 1400000000) (omega arith)

abbrev short_item : Item
short_item = record { value = seri_val short_stat ++ text; item_cas = 4 }

unfoldable holding : Item → Client node
unfolding reference
holding i = record {
  kv = record { entries = record { handle = 0; key = file_path; held = some i } ∷ []; counter = 5 };
  dfs = 0;
  now = 1500000000;
  sent = [];
  dir_check_table = [];
  fd_table = [];
  current_barrier_id = 2;
  log_size = 0;
}

abbrev holder : Client node
holder = holding short_item

abbrev new_file : PaconFile
new_file = record {
  flags = 0;
  mode = 0;
  size = 0;
  open_flags = 2;
  open_mode = 420;
  fd = none;
  hit_remote_cr = 0;
}

new_file-NoDescriptor : NoDescriptor node new_file
new_file-NoDescriptor = record { no_fd = refl; local = refl }

short_item-InCache : InCache reference-Quiet region holder.kv file_path short_item short_stat text
unfolding reference reference-Quiet find holding written_stat pacon.Stat.set_stat_flag lacks
    bytes_eq
short_item-InCache = record {
  unrestricted = refl;
  plain = file_path-Ready.plain;
  held = refl;
  value = refl;
  stat = short_stat-IsStat;
  no_nul = refl;
  sized = refl;
  small = omega arith;
}

pacon_read_new-part_example :
    (t : reference.State) × (pacon_read_new node region file_path new_file 1 1 holder
      ≡ done ((some (b'b' ∷ []), new_file), record holder { kv = t }))
    × Kept reference-Quiet holder.kv t
unfolding holding
pacon_read_new-part_example =
    pacon_read_new-part reference-Quiet region holder file_path new_file short_item short_stat text
      short_item-InCache new_file-NoDescriptor 1 1 (written_stat-inline _ 1400000000 2)

pacon_write_new-written_example :
    (t : reference.State) × (pacon_write_new node 2 region file_path new_file more 3 1 holder
      ≡ done (
        (some 3, record new_file { size = 4 }),
        record holder {
          kv = t;
          now = 1500000002;
          sent = mesg_text file_path write 1500000001 ∷ [];
        },
      ))
    × Put reference-Quiet 0 file_path
        (seri_val (written_stat short_stat 1500000000 4) ++ written text 1 more)
        holder.kv
        t
unfolding holding written lacks
pacon_write_new-written_example =
    pacon_write_new-written reference-Quiet region holder file_path new_file short_item short_stat
      text short_item-InCache new_file-NoDescriptor 1 1 more refl (omega arith) (omega arith)
      (omega arith) (omega arith)

write_new-read_new_example :
    (t u : reference.State) × (pacon_write_new node 2 region file_path new_file more 3 1 holder
      ≡ done (
        (some 3, record new_file { size = 4 }),
        record holder {
          kv = t;
          now = 1500000002;
          sent = mesg_text file_path write 1500000001 ∷ [];
        },
      ))
    × (pacon_read_new node region file_path
          (record new_file { size = 4 })
          3
          1
          (record holder {
            kv = t;
            now = 1500000002;
            sent = mesg_text file_path write 1500000001 ∷ [];
          })
        ≡ done (
          (some more, record new_file { size = 4 }),
          record holder {
            kv = u;
            now = 1500000002;
            sent = mesg_text file_path write 1500000001 ∷ [];
          },
        ))
unfolding holding written lacks
write_new-read_new_example =
    write_new-read_new reference-Quiet region holder file_path new_file short_item short_stat text
      short_item-InCache new_file-NoDescriptor 1 1 more refl (omega arith) (omega arith)
      (omega arith) (omega arith)

write_new-commit_write_example :
    (t u : reference.State) × (pacon_write_new node 2 region file_path new_file more 3 1 holder
      ≡ done (
        (some 3, record new_file { size = 4 }),
        record holder {
          kv = t;
          now = 1500000002;
          sent = mesg_text file_path write 1500000001 ∷ [];
        },
      ))
    × (commit_write node file_path (record (server_of [] 0) { kv = t; handle = 0 })
        ≡ done (ok, record (server_of [] 0) { kv = u; handle = 0 }))
unfolding holding written lacks server_of
write_new-commit_write_example =
    write_new-commit_write reference-Quiet region holder file_path new_file short_item short_stat
      text short_item-InCache new_file-NoDescriptor 1 1 more refl (omega arith) (omega arith)
      (omega arith) (omega arith) (server_of [] 0) 3 4 refl (omega arith) refl

large_buf-lacks : (n : ℕ) → lacks 0 (replicate n b'x') ≡ true
unfolding lacks
large_buf-lacks zero = refl
large_buf-lacks (suc n) = large_buf-lacks n

-- Room for what the cache cannot hold.
taken : Room node 0 file_path text large_buf 2
taken = record { fd = 3; opens = refl; takes_text = refl; takes_buf = refl }

write_new-read_spilled_example :
    (t u : reference.State) × (pacon_write_new node 2 region file_path new_file large_buf
        (length large_buf)
        2
        holder
      ≡ done (
        (some (length large_buf), record new_file { fd = some 3; size = 2 + length large_buf }),
        record holder { kv = t; dfs = after_takes taken; now = 1500000001 },
      ))
    × (pacon_read_new node region file_path new_file 2 0
          (record holder { kv = t; dfs = after_takes taken; now = 1500000001 })
        ≡ done (
          (some (0 ∷ take 1 (drop 1 (unset_inline node))), new_file),
          record holder { kv = u; dfs = after_takes taken; now = 1500000001 },
        ))
unfolding holding taken
write_new-read_spilled_example =
    write_new-read_spilled reference-Quiet region holder file_path new_file new_file short_item
      short_stat text short_item-InCache new_file-NoDescriptor new_file-NoDescriptor
      (written_stat-inline _ 1400000000 2) 0 2 1 large_buf taken (large_buf-lacks 4060)
      (omega arith) (omega (arith, length-replicate {A = ℕ} 4060 b'x'))
      (omega (arith, length-replicate {A = ℕ} 4060 b'x')) (omega arith)

-- "abcdefghij"
abbrev long_text : Bytes
long_text = b'a' ∷ b'b' ∷ b'c' ∷ b'd' ∷ b'e' ∷ b'f' ∷ b'g' ∷ b'h' ∷ b'i' ∷ b'j' ∷ []

abbrev long_stat : PaconStat
long_stat = written_stat (created_stat node 33188 1400000000) 1400000000 10

abbrev long_item : Item
long_item = record { value = seri_val long_stat ++ long_text; item_cas = 4 }

long_item-InCache :
    InCache reference-Quiet region (holding long_item).kv file_path long_item long_stat long_text
unfolding reference reference-Quiet find holding written_stat pacon.Stat.set_stat_flag lacks
    bytes_eq
long_item-InCache = record {
  unrestricted = refl;
  plain = file_path-Ready.plain;
  held = refl;
  value = refl;
  stat =
      written_stat-IsStat _ 1400000000 10 (created_stat-IsStat node 33188 1400000000) (omega arith);
  no_nul = refl;
  sized = refl;
  small = omega arith;
}

not_in_dfs : in_dfs long_stat ≡ false
unfolding in_dfs
not_in_dfs = ground (arith, written_stat-inline (created_stat node 33188 1400000000) 1400000000 10)

-- The log gets 14 bytes.
pacon_fsync-logs_example :
    (t : reference.State) × (pacon_fsync node region file_path new_file (holding long_item)
      ≡ done (
        succeeded,
        record (holding long_item) {
          kv = t;
          log_size = 14;
          sent =
              mesg_text
                (fsync_path file_path region.fsync_logfile_path 0 14)
                fsync
                (word long_stat.ctime)
              ∷ [];
        },
      ))
    × Kept reference-Quiet (holding long_item).kv t
unfolding holding fsync_path decimal written_stat pacon.Stat.set_stat_flag created_stat
pacon_fsync-logs_example =
    pacon_fsync-logs reference-Quiet region (holding long_item) file_path new_file long_item
      long_stat long_text long_item-InCache new_file-NoDescriptor 13
      (0 ∷ 16 ∷ 3 ∷ 2 ∷ 1 ∷ 127 ∷ 0 ∷ 0 ∷ []) refl not_in_dfs (omega arith) (omega arith) refl refl
      refl (omega arith) (omega arith) (omega arith)
