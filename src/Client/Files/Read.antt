-- ===== src/Client/Files/Read.antt =====
-- `pacon_read` and `pacon_read_new` of pacon.c. The answer has the bytes that are put into the caller's
-- buffer, or `none` for -1; the caller's buffer has room for them and the NUL behind.
use pacon.Base.{
  ℕ, ◌+◌, ◌==◌, Option, none, some, ltb, if◌then◌else◌, Bytes, length, take, drop, pure, crash,
  ◌>>=◌,
}
use pacon.Stat.{PaconStat, stat_inline, get_stat_flag, deseri_inline_data}
use pacon.System.{System}
use pacon.Dmkv.{dmkv_get_cas}
use pacon.Permission.{read_pc}
use pacon.Client.State.{Pacon, Act, with_kv, with_dfs, permit}
use pacon.Client.Files.{PaconFile, in_dfs, strcpy, unset_inline, open_counted}

module _ (sys : System) where
  abbrev pub Got : Type 0
  Got = Act sys (Option Bytes × PaconFile)

  -- ret = pread(p_file->fd, buf, size, offset); return ret;
  unfoldable pub pread_file : PaconFile → ℕ → ℕ → Got
  pread_file p_file size offset = elim p_file.fd [
    | none ↦ pure (none, p_file)
    | some fd ↦ do got ← with_dfs sys (sys.dfs.pread fd size offset); pure (got, p_file)
  ]

  -- The part of a file in the cache, up to the size in its struct.
  unfoldable pub read_inline : PaconStat → Bytes → PaconFile → ℕ → ℕ → Got
  read_inline new_st text p_file size offset =
      if ltb new_st.size (offset + size)
      then pure (none, p_file)
      else (let inline_data = strcpy (unset_inline sys) text in
          if ltb (length inline_data) (offset + size)
          then crash
          else pure (some (take size (drop offset inline_data)), p_file))

  unfoldable pub pacon_read : ℕ → Pacon → Bytes → PaconFile → ℕ → ℕ → Got
  unfolding pread_file read_inline in_dfs open_counted deseri_inline_data
  pacon_read fuel p path p_file size offset = do
    location ← permit sys p path read_pc
    elim location [
      | none ↦ pure (none, p_file)
      -- the call for another region looks into that region's list of regions, which is never filled
      | some _ ↦ if ltb 0 p_file.hit_remote_cr then crash else elim p_file.fd [
        | some fd ↦ pread_file p_file size offset
        | none ↦ do
          val ← with_kv sys (dmkv_get_cas sys.kv p.kv_handle path)
          elim val [
            | none ↦ pure (none, p_file)
            | some i ↦ elim (deseri_inline_data i.value) [
              | none ↦ crash
              | some (new_st, text) ↦
                  if in_dfs new_st
                  then (do
                    opened ← open_counted sys fuel p path p_file.flags p_file.mode new_st i.item_cas
                    elim opened [
                      | none ↦ pure (none, p_file)
                      | some fd ↦ pread_file (record p_file { fd = some fd }) size offset
                    ])
                  else read_inline new_st text p_file size offset
            ]
          ]
      ]
    ]

  -- dfs: p_file->fd = open(path, O_RDWR); ...
  unfoldable pub read_dfs : Bytes → PaconFile → ℕ → ℕ → Got
  unfolding pread_file
  read_dfs path p_file size offset = do
    opened ← with_dfs sys (sys.dfs.open_file path 2)
    pread_file (record p_file { fd = opened }) size offset

  -- A descriptor of 0 counts as none.
  abbrev pub open_fd : PaconFile → Option ℕ
  open_fd p_file = elim p_file.fd [ none ↦ none | some fd ↦ if fd == 0 then none else some fd ]

  unfoldable pub read_new_here : Pacon → Bytes → PaconFile → ℕ → ℕ → Got
  unfolding pread_file read_inline read_dfs deseri_inline_data
  read_new_here p path p_file size offset = elim (open_fd p_file) [
    | some fd ↦ pread_file p_file size offset
    | none ↦ do
      val ← with_kv sys (dmkv_get_cas sys.kv p.kv_handle path)
      elim val [
        | none ↦ pure (none, p_file)
        | some i ↦ elim (deseri_inline_data i.value) [
          | none ↦ crash
          | some (new_st, text) ↦
              if get_stat_flag new_st stat_inline
              then read_inline new_st text p_file size offset
              else read_dfs path p_file size offset
        ]
      ]
  ]

  unfoldable pub pacon_read_new : Pacon → Bytes → PaconFile → ℕ → ℕ → Got
  unfolding read_new_here
  pacon_read_new p path p_file size offset = do
    location ← permit sys p path read_pc
    elim location [
      | none ↦ pure (none, p_file)
      -- as in `pacon_read`
      | some _ ↦
          if ltb 0 p_file.hit_remote_cr then crash else read_new_here p path p_file size offset
    ]
