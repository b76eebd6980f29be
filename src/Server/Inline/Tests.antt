-- ===== src/Server/Inline/Tests.antt =====
-- An item with two bytes of data behind its struct.
use pacon.Base.{
  ℕ, ◌≡◌, refl, true, none, some, [], ◌∷◌, ◌++◌, arith, Bytes, length, lacks, replicate, done,
  fault, ltb, if◌then◌else◌,
}
use pacon.System.{Item}
use pacon.System.Reference.{reference, reference-Quiet}
use pacon.Dmkv.Keys.{ends_plain}
use pacon.Dmkv.Laws.{Kept}
use pacon.Stat.{PaconStat, seri_val, IsStat}
use pacon.Server.State.{Server, ok}
use pacon.Server.Samples.{node, file_path, plain_file, server_of}
use pacon.Server.Inline.{commit_write}
use pacon.Server.Inline.Laws.{commit_write-writes}

abbrev short_file : PaconStat
short_file = record plain_file { size = 2 }

short_file-IsStat : IsStat short_file
short_file-IsStat = record {
  flags = omega arith;
  mode = omega arith;
  ctime = omega arith;
  atime = omega arith;
  mtime = omega arith;
  size = omega arith;
  uid = omega arith;
  gid = omega arith;
  nlink = omega arith;
  open_counter = omega arith;
  fd = omega arith;
}

abbrev short_text : Bytes
short_text = b'h' ∷ b'i' ∷ []

abbrev short_item : Item
short_item = record { value = seri_val short_file ++ short_text; item_cas = 4 }

abbrev with_data : Server node
with_data = server_of (record { handle = 0; key = file_path; held = some short_item } ∷ []) 0

commit_write-writes_example :
    (t : reference.State) × Kept reference-Quiet with_data.kv t
    × (commit_write node file_path with_data
        ≡ (if true then done (ok, record with_data { kv = t; dfs = 0 }) else fault))
unfolding server_of ends_plain lacks reference-Quiet pacon.Base.bytes_eq
commit_write-writes_example =
    commit_write-writes reference-Quiet with_data file_path 3 2 short_item short_file short_text
      refl short_file-IsStat refl refl refl refl refl (λ e. omega arith) refl
