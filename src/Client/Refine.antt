-- ===== src/Client/Refine.antt =====
-- The operations of a client on a quiet cluster, against insertion, lookup and removal in the
-- namespace that the cluster holds.
pub mod Creates
pub mod Removes
pub mod Looks
pub mod Histories
pub mod Writes
pub mod Rmdirs
use pacon.Base.{
  ℕ, zero, suc, ◌+◌, ◌^◌, ◌≤◌, ◌<◌, ◌≡◌, refl, ap, sym, ◌∙◌, ◌⊎◌, inl, inr, Bool, true, false, not,
  ◌&&◌, Option, none, some, List, [], ◌∷◌, ◌++◌, arith, Bytes, bytes_eq, leb, length, Outcome, done,
  Cmd, if◌then◌else◌, subst,
}
use pacon.Stat.{
  PaconStat, StatFlag, stat_type, stat_rm, set_stat_flag, get_stat_flag, seri_val, deseri_val,
  IsStat, with_flag_lt, has_flag-with_flag, has_flag_zero,
}
use pacon.System.{Item, System}
use pacon.System.Quiet.{Quiet}
use pacon.Paths.{slash}
use pacon.Dmkv.{cut_slash}
use pacon.Dmkv.Keys.{ends_plain, cut_slash-plain}
use pacon.Dmkv.Laws.{Kept}
use pacon.Message.{Opt, create, mkdir, rm, mesg_text, built, mq_mesg, path_max}
use pacon.Message.Sizes.{mq_mesg_total}
use pacon.Client.State.{
  Status, succeeded, failed, Pacon, Client, contains, word, with_kv, add_to_mq, permit,
  dir_check_local,
}
use pacon.Client.Load.{place, mode_at}
use pacon.Permission.{PermOpt, PermissionInfo}
use pacon.Client.Parent.{parent_dir, check_parent_dir}
use pacon.Client.Create.{new_stat, created_stat, pacon_create, pacon_mkdir}
use pacon.Client.Placing.{Put, place-new, place-removed, place-occupied}
use pacon.Client.Namespace.{
  Name, is_path, entry, Namespace, renamed, with_name, Known, Known-live, Holds, Holds-Kept,
  Holds-Put,
}

-- A path below a parent that the process has checked, short enough for a message, in a region
-- without batch permissions.
pub record Ready (p : Pacon) (path : Bytes) (dir_check_table : List Bytes) : Type 0 where
  pub unrestricted : p.perm_info ≡ none
  pub absolute : is_path path ≡ true
  pub plain : ends_plain path ≡ true
  pub parent : Bytes
  pub below_parent : parent_dir path ≡ some parent
  pub not_root : bytes_eq path (slash ∷ []) ≡ false
  pub short : length path ≤ 125
  pub checked : contains dir_check_table parent ≡ true

-- `c` holds the namespace, and its clock is before 2038.
pub record Shows {sys : System} (q : Quiet sys.kv) (p : Pacon) (c : Client sys) (ns : Namespace)
    : Type 0 where
  pub holds : Holds q p.kv_handle c.kv ns.names
  pub queued : c.sent ≡ ns.queue

pub add_to_mq-sends :
    (sys : System) (path : Bytes) (opt : Opt) (t : ℕ) (c : Client sys)
    → length path ≤ 125
    → t < 2 ^ 31
    → add_to_mq sys path opt t c
      ≡ done (succeeded, record c { sent = c.sent ++ mesg_text path opt (word t) ∷ [] })
unfolding add_to_mq
add_to_mq-sends sys path opt t c short early =
    ground (arith, mq_mesg_total path opt (word t) (omega arith))

module _ (sys : System) (p : Pacon) where
  pub permit-unrestricted :
      (path : Bytes) (opt : PermOpt) (c : Client sys)
      → p.perm_info ≡ none
      → permit sys p path opt c ≡ done (some 0, c)
  unfolding permit
  permit-unrestricted path opt c free = cc

  pub mode_at-unrestricted :
      (modes : PermissionInfo → List ℕ) (mode i : ℕ) (c : Client sys)
      → p.perm_info ≡ none
      → mode_at sys p.perm_info modes mode i c ≡ done (mode, c)
  unfolding mode_at
  mode_at-unrestricted modes mode i c free = cc

pub with_kv-runs :
    (sys : System) {A : Type 0} (m : Cmd sys.kv.State A) (c : Client sys) (a : A) (t : sys.kv.State)
    → m c.kv ≡ done (a, t)
    → with_kv sys m c ≡ done (a, record c { kv = t })
with_kv-runs sys m c a t ran = cc

module _ {sys : System} where
  pub check_parent_dir-Ready :
      (fuel : ℕ) (p : Pacon) (path : Bytes) (c : Client sys)
      → Ready p path c.dir_check_table
      → check_parent_dir sys fuel p path c ≡ done (succeeded, c)
  unfolding check_parent_dir dir_check_local ends_plain
  check_parent_dir-Ready fuel p [] c ready = cc
  check_parent_dir-Ready fuel p (x ∷ s) c ready =
      ground (arith, cut_slash-plain (x ∷ s) ready.plain)

  module _ (q : Quiet sys.kv) (p : Pacon) (c : Client sys) where
    -- The run ends with `s` in a client that shows `ns` and has the same table of parents.
    pub record Does {A : Type 0} (run : Outcome (A × Client sys)) (s : A) (ns : Namespace) (now : ℕ)
        : Type 0 where
      pub after : Client sys
      pub ran : run ≡ done (s, after)
      pub shows : Shows q p after ns
      pub same_table : after.dir_check_table ≡ c.dir_check_table
      pub clock : after.now ≡ now

    -- Reading the cluster and the file system changes nothing that is shown.
    pub Does-reads :
        (ns : Namespace) {A : Type 0} {run : Outcome (A × Client sys)} {a : A}
        → Shows q p c ns
        → (t : sys.kv.State) (d : sys.dfs.State) → Kept q c.kv t
        → run ≡ done (a, record c { kv = t; dfs = d })
        → Does run a ns c.now
    Does-reads ns shown t d kept ran = record {
      after = record c { kv = t; dfs = d };
      ran = ran;
      shows = record { holds = Holds-Kept q p.kv_handle shown.holds kept; queued = shown.queued };
      same_table = refl;
      clock = refl;
    }

    module _ (path : Bytes) (ns : Namespace) {run : Outcome (Status × Client sys)} (mesg : Bytes)
        (shown : Shows q p c ns) (now : ℕ) (t : sys.kv.State) where
      -- A value is put at the path and a message is queued.
      pub Does-Put :
          (v : Bytes) (n : Name)
          → ((cas : ℕ) → Known (some (record { value = v; item_cas = cas })) n)
          → Put q p.kv_handle path v c.kv t
          → run ≡ done (succeeded, record c { kv = t; now = now; sent = c.sent ++ mesg ∷ [] })
          → Does run succeeded (with_name path n mesg ns) now
      Does-Put v n new put ran = record {
        after = record c { kv = t; now = now; sent = c.sent ++ mesg ∷ [] };
        ran = ran;
        shows = record {
          holds = Holds-Put q p.kv_handle path v n new shown.holds put;
          queued = ap (λ l. l ++ mesg ∷ []) shown.queued;
        };
        same_table = refl;
        clock = refl;
      }

      pub Does-add :
          (st : PaconStat)
          → IsStat st
          → get_stat_flag st stat_rm ≡ false
          → Put q p.kv_handle path (seri_val st) c.kv t
          → run ≡ done (succeeded, record c { kv = t; now = now; sent = c.sent ++ mesg ∷ [] })
          → Does run succeeded (with_name path (entry st) mesg ns) now
      Does-add st fits alive put ran =
          Does-Put (seri_val st) (entry st) (λ cas. Known-live st cas fits alive) put ran

      -- The stat is put at the path, and no message is queued.
      pub Does-set :
          (st : PaconStat)
          → IsStat st
          → get_stat_flag st stat_rm ≡ false
          → Put q p.kv_handle path (seri_val st) c.kv t
          → run ≡ done (succeeded, record c { kv = t; now = now })
          → Does run succeeded (record { names = renamed path (entry st) ns; queue = ns.queue }) now
      Does-set st fits alive put ran = record {
        after = record c { kv = t; now = now };
        ran = ran;
        shows = record {
          holds =
              Holds-Put q p.kv_handle path (seri_val st) (entry st)
                (λ cas. Known-live st cas fits alive) shown.holds put;
          queued = shown.queued;
        };
        same_table = refl;
        clock = refl;
      }

      -- Nothing changes but the clock.
      pub Does-nothing :
          {s : Status}
          → Kept q c.kv t
          → run ≡ done (s, record c { kv = t; now = now })
          → Does run s ns now
      Does-nothing kept ran = record {
        after = record c { kv = t; now = now };
        ran = ran;
        shows = record { holds = Holds-Kept q p.kv_handle shown.holds kept; queued = shown.queued };
        same_table = refl;
        clock = refl;
      }
