-- ===== src/Client/Files/Sync.antt =====
-- `pacon_fsync` of pacon.c.
use pacon.Base.{
  ℕ, zero, suc, ◌+◌, none, some, ltb, leb, ◌||◌, if◌then◌else◌, Bytes, length, take, done, fault,
  ◌^◌, Option, pure, crash, gets, ◌>>=◌,
}
use pacon.Stat.{copy_into, PaconStat, deseri_inline_data, inline_max}
use pacon.System.{System}
use pacon.Message.{fsync, path_max, fsync_path}
use pacon.Dmkv.{dmkv_get_cas}
use pacon.Permission.{write_pc}
use pacon.Client.State.{
  Status, succeeded, failed, Pacon, Act, with_kv, with_dfs, add_to_mq, permit, into_path,
}
use pacon.Client.Files.{PaconFile, in_dfs, strcpy, unset_inline}

module _ (sys : System) where
  -- An `int`: the sum may overflow.
  unfoldable pub add_log_size : ℕ → Act sys (Unit {0})
  add_log_size n c =
      if leb (2 ^ 31) (c.log_size + n)
      then fault
      else done (tt, record c { log_size = c.log_size + n })

  -- posix_memalign(&inline_data, SECTOR_SIZE, n) writes the address of new memory over the start of
  -- the array; when it fails, it writes nothing.
  unfoldable pub overwritten : Bytes → Option Bytes → Option Bytes
  overwritten inline_data none = some inline_data
  overwritten inline_data (some address) = copy_into inline_data 0 address

  -- As many bytes of inline_data as path and text have together go to the log.
  unfoldable pub log_data : Pacon → Bytes → PaconStat → ℕ → Bytes → Act sys Status
  unfolding add_log_size fsync_path add_to_mq
  log_data p path st n inline_data = do
    offset ← gets (λ c. c.log_size)
    ret ← with_dfs sys (sys.dfs.write p.fsync_log_fd (take n inline_data))
    elim ret [
      | none ↦ pure failed
      | some zero ↦ pure failed
      | some (suc m) ↦ do
        _ ← add_log_size (suc m)
        tmp_path ← into_path sys (fsync_path path p.fsync_logfile_path offset (suc m))
        add_to_mq sys tmp_path fsync st.ctime
    ]

  -- The text is put behind the path in `buf`, of which only the length is used.
  unfoldable pub sync_inline : Pacon → Bytes → PaconStat → Bytes → Act sys Status
  unfolding overwritten log_data
  sync_inline p path st text =
      let n = length path + length text in
      let inline_data = strcpy (unset_inline sys) text in
      if leb (path_max + inline_max) n || ltb inline_max n then crash else (do
        address ← gets (λ c. sys.memalign c.dfs n)
        elim (overwritten inline_data address) [
          | none ↦ crash
          | some changed ↦ log_data p path st n changed
        ])

  -- open(path, 0, 0), fsync and close, whose answers are not looked at
  unfoldable pub sync_dfs : Bytes → Act sys Status
  sync_dfs path = do
    opened ← with_dfs sys (sys.dfs.open_mode path 0 0)
    elim opened [
      | none ↦ pure succeeded
      | some fd ↦ do
        _ ← with_dfs sys (sys.dfs.fsync fd)
        _ ← with_dfs sys (λ d. (tt, sys.dfs.close fd d))
        pure succeeded
    ]

  unfoldable pub pacon_fsync : Pacon → Bytes → PaconFile → Act sys Status
  unfolding sync_inline sync_dfs in_dfs deseri_inline_data
  pacon_fsync p path p_file = do
    location ← permit sys p path write_pc
    elim location [
      | none ↦ pure failed
      | some _ ↦ elim p_file.fd [
        | some fd ↦ do
          synced ← with_dfs sys (sys.dfs.fsync fd)
          pure (if synced then succeeded else failed)
        | none ↦ do
          val ← with_kv sys (dmkv_get_cas sys.kv p.kv_handle path)
          elim val [
            | none ↦ pure failed
            | some i ↦ elim (deseri_inline_data i.value) [
              | none ↦ crash
              | some (st, text) ↦ if in_dfs st then sync_dfs path else sync_inline p path st text
            ]
          ]
      ]
    ]
