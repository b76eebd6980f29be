-- ===== src/Client/NewStats.antt =====
-- The stats that creations make: every field fits, and the entry is not a removed one.
use pacon.Base.{ℕ, ◌≡◌, ◌∙◌, Bool, true, false, arith}
use pacon.Stat.{
  PaconStat, StatFlag, stat_type, stat_rm, set_stat_flag, get_stat_flag, IsStat, with_flag_lt,
  has_flag-with_flag, has_flag_zero,
}
use pacon.System.{System}
use pacon.Client.Create.{new_stat, created_stat}

pub new_stat-IsStat : (sys : System) (mode a b t size : ℕ) → IsStat (new_stat sys mode a b t size)
unfolding new_stat
new_stat-IsStat sys mode a b t size = record {
  flags = omega arith;
  mode = omega arith;
  ctime = omega arith;
  atime = omega arith;
  mtime = omega arith;
  size = omega arith;
  uid = omega arith;
  gid = omega arith;
  nlink = omega arith;
  open_counter = omega arith;
  fd = omega arith;
}

pub new_stat-live :
    (sys : System) (mode a b t size : ℕ)
    → get_stat_flag (new_stat sys mode a b t size) stat_rm ≡ false
unfolding get_stat_flag new_stat
new_stat-live sys mode a b t size = has_flag_zero stat_rm

-- Setting a flag keeps a stat one.
pub set_stat_flag-IsStat :
    (st : PaconStat) (flag : StatFlag) (val : Bool) → IsStat st → IsStat (set_stat_flag st flag val)
unfolding set_stat_flag
set_stat_flag-IsStat st flag val fits = record {
  flags = with_flag_lt st.flags flag val fits.flags;
  mode = fits.mode;
  ctime = fits.ctime;
  atime = fits.atime;
  mtime = fits.mtime;
  size = fits.size;
  uid = fits.uid;
  gid = fits.gid;
  nlink = fits.nlink;
  open_counter = fits.open_counter;
  fd = fits.fd;
}

pub created_stat-IsStat : (sys : System) (f_mode t : ℕ) → IsStat (created_stat sys f_mode t)
unfolding created_stat
created_stat-IsStat sys f_mode t =
    set_stat_flag-IsStat _ stat_type true (new_stat-IsStat sys f_mode t t t 0)

pub created_stat-live :
    (sys : System) (f_mode t : ℕ) → get_stat_flag (created_stat sys f_mode t) stat_rm ≡ false
unfolding created_stat get_stat_flag set_stat_flag new_stat
created_stat-live sys f_mode t = has_flag-with_flag 0 stat_type stat_rm true ∙ has_flag_zero stat_rm
