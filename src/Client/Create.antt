-- ===== src/Client/Create.antt =====
-- `pacon_create`, `pacon_create_write` and `pacon_mkdir` of pacon.c.
use pacon.Base.{
  ℕ, ◌+◌, ◌-◌, ◌%◌, Bool, true, false, none, some, ltb, if◌then◌else◌, Bytes, take, replicate, pure,
  crash, ◌>>=◌,
}
use pacon.Stat.{
  PaconStat, stat_type, stat_inline, set_stat_flag, seri_val, seri_inline_data, pstat_size,
  inline_max,
}
use pacon.System.{System}
use pacon.Message.{create, mkdir}
use pacon.Permission.{create_pc, mkdir_pc}
use pacon.Client.State.{Status, succeeded, failed, Pacon, word, Act, time, add_to_mq, permit}
use pacon.Client.Load.{added, replaced, occupied, broken, place, mode_at}
use pacon.Client.Parent.{check_parent_dir}

-- The default mode of the operation's kind, or that of the location found by the permission check.
-- `mode` is the caller's, which none of the three uses.
module _ (sys : System) where
  -- A stat with no flags; `fd` is not set.
  unfoldable pub new_stat : ℕ → ℕ → ℕ → ℕ → ℕ → PaconStat
  new_stat mode ctime atime mtime size = record {
    flags = 0;
    mode = word mode;
    ctime = word ctime;
    atime = word atime;
    mtime = word mtime;
    size = word size;
    uid = word sys.uid;
    gid = word sys.gid;
    nlink = 0;
    open_counter = 0;
    fd = word sys.indeterminate;
  }

  -- The stat of a file that is made at `timestamp`.
  unfoldable pub created_stat : ℕ → ℕ → PaconStat
  unfolding new_stat
  created_stat f_mode timestamp =
      set_stat_flag (new_stat f_mode timestamp timestamp timestamp 0) stat_type true

  unfoldable pub pacon_create : ℕ → Pacon → Bytes → ℕ → Act sys Status
  unfolding check_parent_dir place permit mode_at created_stat add_to_mq
  pacon_create fuel p path mode = do
    location ← permit sys p path create_pc
    elim location [
      | none ↦ pure failed
      | some i ↦ do
        f_mode ← mode_at sys p.perm_info (λ info. info.sp_f_modes) p.df_f_mode i
        timestamp ← time sys
        parent ← check_parent_dir sys fuel p path
        elim parent [
          | failed ↦ pure failed
          | succeeded ↦ do
            placed ← place sys fuel p path (seri_val (created_stat f_mode timestamp))
            elim placed [
              | broken ↦ pure failed
              | occupied ↦ pure failed
              | _ ↦ add_to_mq sys path create timestamp
            ]
        ]
    ]

  -- The buffer of the value holds anything before it is filled. The second part of the result says
  -- whether `p_file->fd` is set to -1.
  unfoldable pub pacon_create_write : ℕ → Pacon → Bytes → ℕ → Bytes → ℕ → Act sys (Status × Bool)
  unfolding check_parent_dir place permit mode_at new_stat add_to_mq seri_inline_data
  pacon_create_write fuel p path mode buf size = do
    location ← permit sys p path create_pc
    elim location [
      | none ↦ pure (failed, false)
      | some i ↦ do
        f_mode ← mode_at sys p.perm_info (λ info. info.sp_f_modes) p.df_f_mode i
        parent ← check_parent_dir sys fuel p path
        elim parent [
          | failed ↦ pure (failed, false)
          | succeeded ↦
              if ltb size (inline_max - 1)
              then (do
                ctime ← time sys
                atime ← time sys
                mtime ← time sys
                let typed = set_stat_flag (new_stat f_mode ctime atime mtime size) stat_type true
                let p_st = set_stat_flag typed stat_inline true
                let uninitialised = replicate (pstat_size + inline_max) (sys.indeterminate % 256)
                elim (seri_inline_data p_st buf uninitialised) [
                  | none ↦ crash
                  | some val ↦ do
                    placed ← place sys fuel p path (take (pstat_size + size) val)
                    elim placed [
                      | broken ↦ pure (failed, false)
                      -- for `occupied` the source sets ret to -1 and goes on
                      | _ ↦ do ret ← add_to_mq sys path create ctime; pure (ret, true)
                    ]
                ])
              else pure (failed, false)
        ]
    ]

  unfoldable pub pacon_mkdir : ℕ → Pacon → Bytes → ℕ → Act sys Status
  unfolding check_parent_dir place permit mode_at new_stat add_to_mq
  pacon_mkdir fuel p path mode = do
    location ← permit sys p path mkdir_pc
    elim location [
      | none ↦ pure failed
      | some i ↦ do
        dir_mode ← mode_at sys p.perm_info (λ info. info.sp_dir_modes) p.df_dir_mode i
        parent ← check_parent_dir sys fuel p path
        elim parent [
          | failed ↦ pure failed
          | succeeded ↦ do
            ctime ← time sys
            atime ← time sys
            mtime ← time sys
            placed ← place sys fuel p path (seri_val (new_stat dir_mode ctime atime mtime 0))
            elim placed [
              | broken ↦ pure failed
              | occupied ↦ pure failed
              -- return ret; in front of the message
              | replaced ↦ pure succeeded
              | added ↦ add_to_mq sys path mkdir ctime
            ]
        ]
    ]
