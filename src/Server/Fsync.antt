-- ===== src/Server/Fsync.antt =====
-- `fsync_from_log` of server/pacon_server.c: data that a client has logged is copied into its file.
pub mod Laws
pub mod Tests
use pacon.Base.{
  ℕ, zero, suc, ◌+◌, ◌-◌, ◌%◌, Bool, false, not, ◌&&◌, ◌||◌, ◌^◌, Outcome, done, fault, spin,
  Option, none, some, [], ◌∷◌, ◌++◌, ltb, ◌==◌, if◌then◌else◌, Bytes, length, take, replicate,
  c_string, pure, crash, exhausted, ◌>>=◌, ◌>>◌,
}
use pacon.Base.Int.{ℤ, pos, negsuc, is_int, atoi_int}
use pacon.System.{System}
use pacon.Message.{bar, path_max}
use pacon.Server.State.{Server, Serve, Committed, ok, error, with_dfs, modify}

-- What the loop over the text has found: the path, the bytes written to `log_path` and how many bytes
-- behind them stay unset up to its NUL, the offset and the size.
pub record LogMesg : Type 0 where
  pub f_path : Bytes
  pub log_text : Bytes
  pub gap : ℕ
  pub offset : ℤ
  pub size : ℤ

abbrev no_log_mesg : LogMesg
no_log_mesg = record { f_path = []; log_text = []; gap = 0; offset = pos 0; size = pos 0 }

-- One byte `c` at index `i`, with `flag` bars before it; `behind` says that the last byte was a bar,
-- and `number` is what `atoi` reads from here on.
unfoldable pub log_byte : ℕ → ℕ → Bool → ℤ → ℕ → LogMesg → LogMesg
log_byte i flag behind number c m =
    if c == bar
    then (if flag == 1 then record m { gap = i - length m.log_text } else m)
    else if flag == 0
    then record m { f_path = m.f_path ++ c ∷ [] }
    else if flag == 1
    then record m { log_text = m.log_text ++ c ∷ [] }
    else if not behind
    then m
    else if flag == 2
    then record m { offset = number }
    else record m { size = number }

-- The byte, or the NUL, is written inside f_path[PATH_MAX] or log_path[PATH_MAX], and the number that
-- is read is an `int`.
unfoldable pub log_fits : ℕ → ℕ → Bool → ℤ → ℕ → LogMesg → Bool
log_fits i flag behind number c m =
    if c == bar
    then ltb 1 flag || ltb i path_max
    else if flag == 0
    then ltb i path_max
    else if flag == 1
    then ltb (length m.log_text) path_max
    else not behind || is_int number

-- The loop, with what it has found and the number of bars; `none` is the return of -1.
unfoldable pub log_loop : ℕ → ℕ → Bool → LogMesg → Bytes → Outcome (Option (LogMesg × ℕ))
unfolding log_byte log_fits
log_loop i flag behind m [] = done (some (m, flag))
log_loop i flag behind m (c ∷ rest) =
    let number = atoi_int (c ∷ rest) in
    let m' = log_byte i flag behind number c m in
    let next = log_loop (i + 1) (if c == bar then flag + 1 else flag) (c == bar) m' rest in
    if not (c == bar) && ltb 3 flag
    then done none
    else if log_fits i flag behind number c m
    then next
    else fault

unfoldable pub parse_log_mesg : Bytes → Outcome (Option (LogMesg × ℕ))
unfolding log_loop
parse_log_mesg path = log_loop 0 0 false no_log_mesg path

-- INLINE_DATA_MAX
abbrev pub inline_data_max : ℕ
inline_data_max = 468

module _ (sys : System) (meanwhile : Server sys → Server sys) where
  -- The bytes of `log_path` that are not set, as the system leaves them.
  unfoldable pub log_path : LogMesg → Bytes
  log_path m = c_string (m.log_text ++ replicate m.gap (sys.indeterminate % 256))

  -- while ((fp = open(f_path, O_RDWR)) < 0);
  unfoldable pub open_retry : ℕ → Bytes → Serve sys ℕ
  open_retry zero path = exhausted
  open_retry (suc fuel) path = do
    let again = modify sys meanwhile >> open_retry fuel path
    fp ← with_dfs sys (sys.dfs.open_file path 2)
    elim fp [ none ↦ again | some fd ↦ pure fd ]

  -- pwrite of `size` bytes, of which `pread` has set the first, then fsync and close
  unfoldable pub write_back : ℕ → ℕ → Bytes → Serve sys Committed
  write_back fp size log = do
    ret ← with_dfs sys (sys.dfs.pwrite fp (take size (log ++ replicate size sys.indeterminate)) 0)
    elim ret [
      | none ↦ pure error
      | some _ ↦ do
        synced? ← with_dfs sys (sys.dfs.fsync fp)
        if not synced?
            then pure error
            else (do with_dfs sys (λ d. (tt, sys.dfs.close fp d)); pure ok)
    ]

  -- pread into char data[INLINE_DATA_MAX], and the writing back. A negative size is a huge `size_t`,
  -- and pread fails at a negative offset.
  unfoldable pub copy_log : ℕ → LogMesg → Serve sys Committed
  unfolding log_path open_retry write_back
  copy_log fuel m = do
    log_fp ← with_dfs sys (sys.dfs.open_file (log_path m) 0)
    elim log_fp [
      | none ↦ pure error
      | some log_fd ↦ elim m.size [
        | negsuc _ ↦ crash
        | pos size ↦ if ltb inline_data_max size then crash else (elim m.offset [
          | negsuc _ ↦ pure error
          | pos offset ↦ do
            read ← with_dfs sys (sys.dfs.pread log_fd size offset)
            elim read [
              | none ↦ pure error
              | some log ↦ do
                with_dfs sys (λ d. (tt, sys.dfs.close log_fd d))
                fp ← open_retry fuel m.f_path
                write_back fp size log
            ]
        ])
      ]
    ]

  -- A text with fewer than two bars leaves a path without its NUL.
  unfoldable pub fsync_from_log : ℕ → Bytes → Serve sys Committed
  unfolding parse_log_mesg copy_log
  fsync_from_log fuel path = elim (parse_log_mesg path) [
    | fault ↦ crash
    | spin ↦ exhausted
    | done none ↦ pure error
    | done (some (m, flag)) ↦ if ltb flag 2 then crash else copy_log fuel m
  ]
