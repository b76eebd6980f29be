-- ===== src/Stat/Tests.antt =====
-- The stat and the data behind it, at concrete values.
use pacon.Base.{◌≡◌, refl, true, some, [], ◌∷◌, ◌++◌, arith, Bytes, take, lacks, replicate}
use pacon.Stat.{
  PaconStat, stat_type, stat_rm, with_flag, has_flag, has_flag-with_flag, seri_val, deseri_val,
  IsStat, deseri_val-seri_val, seri_inline_data, deseri_inline_data,
  deseri_inline_data-seri_inline_data,
}

abbrev sample : PaconStat
sample = record {
  flags = 3;
  mode = 33188;
  ctime = 1400000000;
  atime = 1400000000;
  mtime = 1400000001;
  size = 2;
  uid = 1000;
  gid = 100;
  nlink = 1;
  open_counter = 0;
  fd = 0;
}

sample-IsStat : IsStat sample
sample-IsStat = record {
  flags = omega arith;
  mode = omega arith;
  ctime = omega arith;
  atime = omega arith;
  mtime = omega arith;
  size = omega arith;
  uid = omega arith;
  gid = omega arith;
  nlink = omega arith;
  open_counter = omega arith;
  fd = omega arith;
}

has_flag-with_flag_example : has_flag (with_flag 3 stat_rm true) stat_type ≡ has_flag 3 stat_type
has_flag-with_flag_example = has_flag-with_flag 3 stat_rm stat_type true

deseri_val-seri_val_example : deseri_val (seri_val sample ++ b'h' ∷ b'i' ∷ []) ≡ some sample
deseri_val-seri_val_example = deseri_val-seri_val sample (b'h' ∷ b'i' ∷ []) sample-IsStat

abbrev buffer : Bytes
buffer = replicate 50 7

deseri_inline_data-seri_inline_data_example :
    (v : Bytes) × (seri_inline_data sample (b'h' ∷ b'i' ∷ []) buffer ≡ some v)
    × (deseri_inline_data (take 46 v) ≡ some (sample, b'h' ∷ b'i' ∷ []))
unfolding lacks
deseri_inline_data-seri_inline_data_example =
    deseri_inline_data-seri_inline_data sample (b'h' ∷ b'i' ∷ []) buffer sample-IsStat refl
      (omega arith) (omega arith)
