-- ===== src/Client/Tests.antt =====
-- The operations at work on the region of `Samples`.
use pacon.Base.{
  ◌∙◌, ◌≡◌, refl, true, none, some, [], ◌∷◌, ◌++◌, arith, Bytes, bytes_eq, lacks, done,
}
use pacon.Stat.{seri_val}
use pacon.Paths.{slash}
use pacon.System.Reference.{find, reference, reference-Quiet}
use pacon.Message.{
  create, mkdir, rm, barrier, mesg_text, opt_code, Parsed, parse_mesg, parse_barrier, slot,
}
use pacon.Client.State.{succeeded, Client}
use pacon.Client.Parent.{parent_dir}
use pacon.Client.Create.{new_stat, created_stat, pacon_create, pacon_mkdir}
use pacon.Client.Remove.{pacon_rm}
use pacon.Client.Attr.{pacon_getattr, stat_of_value}
use pacon.Client.Names.{pacon_barrier}
use pacon.Client.Namespace.{entry, with_name, insert, insert_silent, remove}
use pacon.Client.Refine.{Does}
use pacon.Client.Refine.Creates.{pacon_create-insert, pacon_mkdir-insert_silent}
use pacon.Client.Refine.Removes.{pacon_rm-remove}
use pacon.Client.Refine.Looks.{looked_up, pacon_getattr-looked_up}
use pacon.Client.Refine.Histories.{create-getattr, rm-getattr, rm-mkdir}
use pacon.Client.Parents.{parent_dir-child}
use pacon.Client.Barriers.{pacon_barrier-read}
use pacon.Client.Samples.{
  small, region, file_path, store_of, fresh, nothing, fresh-Shows, file, used, one_file, used-Shows,
  file_path-Ready, begun, file_path-used,
}
use pacon.Client.Create.{pacon_create_write}
use pacon.Client.Remove.{pacon_rmdir}
use pacon.Client.Refine.Writes.{pacon_create_write-entry}
use pacon.Client.Refine.Rmdirs.{pacon_rmdir-drops}
use pacon.Dmkv.Laws.{Kept, Dropped}
use pacon.System.{Item, System}

pacon_create-insert_example :
    Does reference-Quiet region fresh
      (pacon_create small 3 region file_path 420 fresh)
      succeeded
      (with_name file_path
        (entry (created_stat small 33188 begun))
        (mesg_text file_path create begun)
        nothing)
      1500000001
unfolding insert bytes_eq
pacon_create-insert_example =
    pacon_create-insert reference-Quiet region fresh file_path 2 nothing file_path-Ready fresh-Shows
      (omega arith) 420

pacon_rm-remove_example :
    Does reference-Quiet region used
      (pacon_rm small 3 region file_path used)
      succeeded
      (remove file_path (mesg_text file_path rm begun) one_file)
      1500000001
pacon_rm-remove_example =
    pacon_rm-remove reference-Quiet region used file_path 2 one_file refl file_path-Ready.absolute
      file_path-Ready.plain (omega arith) used-Shows (omega arith) file_path-used

pacon_getattr-looked_up_example :
    Does reference-Quiet region used
      (pacon_getattr small 3 region file_path file used)
      (looked_up small used file_path file one_file)
      one_file
      begun
pacon_getattr-looked_up_example =
    pacon_getattr-looked_up reference-Quiet region used file_path 3 one_file refl
      file_path-Ready.absolute file_path-Ready.plain used-Shows file file_path-used

pacon_mkdir-insert_silent_example :
    Does reference-Quiet region fresh
      (pacon_mkdir small 3 region file_path 420 fresh)
      succeeded
      (with_name file_path
        (entry (new_stat small 16877 begun 1500000001 1500000002 0))
        (mesg_text file_path mkdir begun)
        nothing)
      1500000003
unfolding insert_silent bytes_eq
pacon_mkdir-insert_silent_example =
    pacon_mkdir-insert_silent reference-Quiet region fresh file_path 2 nothing file_path-Ready
      fresh-Shows (omega arith) 420

create-getattr_example :
    (c' : Client small) × (c'' : Client small) × (pacon_create small 3 region file_path 420 fresh
      ≡ done (succeeded, c'))
    × (pacon_getattr small 2 region file_path file c'
        ≡ done (some (stat_of_value small file (created_stat small 33188 begun)), c''))
unfolding bytes_eq
create-getattr_example =
    create-getattr reference-Quiet region fresh file_path 2 nothing file_path-Ready fresh-Shows 420
      file (omega arith) refl

rm-getattr_example :
    (c' : Client small) × (c'' : Client small) × (pacon_rm small 3 region file_path used
      ≡ done (succeeded, c'))
    × (pacon_getattr small 2 region file_path file c' ≡ done (none, c''))
rm-getattr_example =
    rm-getattr reference-Quiet region used file_path 2 one_file file_path-Ready used-Shows file
      (omega arith) file_path-used

rm-mkdir_example :
    (c' : Client small) × (c'' : Client small) × (pacon_rm small 3 region file_path used
      ≡ done (succeeded, c'))
    × (pacon_mkdir small 3 region file_path 493 c' ≡ done (succeeded, c''))
    × (c''.sent ≡ mesg_text file_path rm begun ∷ [])
rm-mkdir_example =
    rm-mkdir reference-Quiet region used file_path 2 one_file file_path-Ready used-Shows 493
      (omega arith) (omega arith) file_path-used

parent_dir-child_example :
    (parent_dir file_path ≡ some (slash ∷ b'p' ∷ []))
    × (parent_dir (file_path ++ slash ∷ []) ≡ some (slash ∷ b'p' ∷ []))
unfolding lacks
parent_dir-child_example = parent_dir-child (slash ∷ b'p' ∷ []) b'f' [] refl

pacon_barrier-read_example :
    (mesg : Bytes) × (pacon_barrier small region 4 fresh
      ≡ done (tt, record fresh { current_barrier_id = 3; now = 1500000001; sent = mesg ∷ [] }))
    × ((m : Parsed) × (parse_mesg mesg ≡ some m)
        × (m.opt ≡ opt_code barrier)
        × (parse_barrier m.path ≡ record { opt_num = some 4; reached = slot 2 }))
pacon_barrier-read_example =
    pacon_barrier-read small region fresh 4 (omega arith) (omega arith) (omega arith) (omega arith)

pacon_create_write-entry_example :
    Does reference-Quiet region used
      (pacon_create_write small 3 region file_path 420 (b'h' ∷ b'i' ∷ []) 2 used)
      (succeeded, true)
      (record { names = one_file.names; queue = mesg_text file_path create begun ∷ [] })
      1500000003
unfolding lacks bytes_eq
pacon_create_write-entry_example =
    pacon_create_write-entry reference-Quiet region used file_path 2 one_file file_path-Ready
      used-Shows (omega arith) 420 (b'h' ∷ b'i' ∷ []) 2 file refl (omega arith) (omega arith) refl

-- A server that keeps its count in the cluster of the barriers.
abbrev serving : System
serving = record small {
  local_rpc = λ mesg s d. (b'0', (reference.set 1 (b'n' ∷ []) (b'0' ∷ []) s).1, d);
}

abbrev asking : Client serving
asking = record {
  kv = used.kv;
  dfs = tt;
  now = used.now;
  sent = [];
  dir_check_table = [];
  fd_table = file_path ∷ [];
  current_barrier_id = 2;
  log_size = 0;
}

file_path-item :
    reference-Quiet.item used.kv 0 file_path ≡ some (record { value = seri_val file; item_cas = 4 })
unfolding reference reference-Quiet store_of find bytes_eq
file_path-item = refl

abbrev replied : reference.State → reference.State
replied s = (reference.set 1 (b'n' ∷ []) (b'0' ∷ []) s).1

item_stays :
    (s : reference.State)
    → Kept reference-Quiet used.kv s
    → (j : Item) × (reference-Quiet.item (replied s) 0 file_path ≡ some j)
item_stays s kept = (
  record { value = seri_val file; item_cas = 4 },
  reference-Quiet.set_writes 1 (b'n' ∷ []) (b'0' ∷ []) s 0 file_path
      ∙ (kept.same 0 file_path ∙ file_path-item),
)

pacon_rmdir-drops_example :
    (s t : reference.State) × Kept reference-Quiet used.kv s
    × (pacon_rmdir serving 2 region file_path asking
        ≡ done (succeeded, record asking { kv = t; now = 1500000001; fd_table = [] }))
    × Dropped reference-Quiet 0 file_path (replied s) t
pacon_rmdir-drops_example =
    pacon_rmdir-drops reference-Quiet region asking file_path 2
      (record { value = seri_val file; item_cas = 4 }) refl file_path-Ready.plain (omega arith)
      (omega arith) (omega arith) (omega arith) file_path-item (λ s kept. refl) item_stays
