-- ===== src/Server/Inline.antt =====
-- `server_deseri_inline_data` of server/pacon_server.c and the case WRITE of commit_to_fs, which writes
-- the data that a client keeps in the cached item to the file.
pub mod Laws
pub mod Tests
use pacon.Base.{
  ℕ, ◌+◌, Option, none, some, ◌∷◌, ◌++◌, ltb, ◌==◌, if◌then◌else◌, Bytes, length, take, drop,
  replicate, c_string, pure, crash, gets, ◌>>=◌, ◌>>◌,
}
use pacon.Stat.{PaconStat, pstat_size, deseri_val}
use pacon.System.{System}
use pacon.Dmkv.{dmkv_get}
use pacon.Server.State.{Serve, Committed, ok, error, with_cache, with_dfs}

-- The server's INLINE_MAX, which is not the client's.
abbrev pub server_inline_max : ℕ
server_inline_max = 468

-- sizeof(struct pacon_stat_server): ten words, where a stored struct has eleven.
abbrev pub server_stat_size : ℕ
server_stat_size = 40

-- The struct and the text behind it; `none` when the copy of PSTAT_SIZE bytes overruns the struct by
-- more than the `slack` behind it, when the value is shorter than that, or when the text and its NUL
-- overrun the buffer. The last word, the client's `fd`, is not looked at again.
unfoldable pub server_deseri_inline_data : ℕ → Bytes → Option (PaconStat × Bytes)
server_deseri_inline_data slack val =
    let text = c_string (drop pstat_size val) in
    if ltb (server_stat_size + slack) pstat_size then none else elim (deseri_val val) [
      | none ↦ none
      | some s ↦ if ltb (length text) server_inline_max then some (s, text) else none
    ]

module _ (sys : System) where
  -- pwrite(fd, inline_data1, st1.size, 0): the buffer behind the text's NUL is not set.
  unfoldable pub write_inline : ℕ → PaconStat → Bytes → Serve sys Committed
  write_inline fd st1 inline_data1 = if ltb server_inline_max st1.size then crash else (do
    let unset = replicate server_inline_max sys.indeterminate
    ret ← with_dfs sys (sys.dfs.pwrite fd (take st1.size (inline_data1 ++ 0 ∷ unset)) 0)
    with_dfs sys (λ d. (tt, sys.dfs.close fd d))
    elim ret [ none ↦ pure error | some n ↦ pure (if n == 0 then error else ok) ])

  -- The case WRITE: nothing when the file is not there yet or the item is gone.
  unfoldable pub commit_write : Bytes → Serve sys Committed
  unfolding server_deseri_inline_data write_inline
  commit_write path = do
    opened ← with_dfs sys (sys.dfs.open_file path 2)
    elim opened [
      | none ↦ pure ok
      | some fd ↦ do
        kv ← gets (λ w. w.handle)
        val1 ← with_cache sys (dmkv_get sys.kv kv path)
        elim val1 [
          | none ↦ pure ok
          | some val ↦ elim (server_deseri_inline_data sys.slack val) [
            | none ↦ crash
            | some (st1, inline_data1) ↦ write_inline fd st1 inline_data1
          ]
        ]
    ]
