-- ===== src/Client/Files/Write.antt =====
-- `pacon_write_new` and `pacon_write` of pacon.c. The answer is the number of bytes, or `none` for -1.
-- `buf` is what the caller's buffer holds; a NUL stands behind it, and a read beyond that is a fault.
use pacon.Base.{
  ℕ, zero, suc, ◌+◌, ◌-◌, ◌%◌, ◌^◌, ◌==◌, ◌||◌, not, true, false, Option, none, some, [], ◌∷◌, ◌++◌,
  ltb, leb, if◌then◌else◌, Bytes, length, take, drop, c_string, replicate, pure, crash, exhausted,
  ◌>>=◌, Bool,
}
use pacon.Stat.{
  PaconStat, stat_inline, set_stat_flag, get_stat_flag, seri_inline_data, deseri_inline_data,
  pstat_size, inline_max,
}
use pacon.System.{Item, System}
use pacon.Message.{write}
use pacon.Dmkv.{ret_exists, ret_error, dmkv_get_cas, dmkv_cas}
use pacon.Permission.{write_pc}
use pacon.Client.State.{Pacon, word, Act, with_kv, with_dfs, time, add_to_mq, permit}
use pacon.Client.Files.{PaconFile, memcpy, strcpy, unset_inline}
use pacon.Client.Files.Read.{open_fd}

-- The three calls of memcpy into `new_data`, and the NUL at `end`.
unfoldable pub splice : Bytes → Bytes → Bytes → ℕ → ℕ → ℕ → ℕ → Option Bytes
unfolding memcpy
splice new_data inline_data mem size offset old_size end =
    elim (memcpy new_data 0 inline_data offset) [
      | none ↦ none
      | some first ↦ elim (memcpy first offset mem size) [
        | none ↦ none
        | some second ↦
            let behind = drop (offset + size) inline_data in
            let tail =
              if ltb (offset + size) old_size
              then memcpy second (offset + size) behind (old_size - (offset + size))
              else some second in
            elim tail [ none ↦ none | some third ↦ memcpy third end (0 ∷ []) 1 ]
      ]
    ]

-- `new_size < INLINE_MAX - 1` for the `int` with these 32 bits.
unfoldable pub fits_inline : ℕ → Bool
fits_inline new_size = ltb new_size (inline_max - 1) || leb (2 ^ 31) new_size

module _ (sys : System) where
  abbrev pub Writing : Type 0
  Writing = Act sys (Option ℕ × PaconFile)

  -- pwrite of the caller's buffer
  unfoldable pub pwrite_buf : Option ℕ → Bytes → ℕ → ℕ → Act sys (Option ℕ)
  pwrite_buf none buf size offset = pure none
  pwrite_buf (some fd) buf size offset =
      let mem = buf ++ 0 ∷ [] in
      if ltb (length mem) size
      then crash
      else with_dfs sys (sys.dfs.pwrite fd (take size mem) offset)

  -- fd = -1; while (fd < 0) fd = open(path, O_RDWR);
  unfoldable pub open_until : ℕ → Bytes → Act sys ℕ
  open_until zero path = exhausted
  open_until (suc fuel) path = do
    let again = open_until fuel path
    opened ← with_dfs sys (sys.dfs.open_file path 2)
    elim opened [ none ↦ again | some fd ↦ pure fd ]

  -- update: the struct gets the new size and times and is then not serialised; `val`, the struct as it
  -- was read, is swapped in, without the text behind it.
  unfoldable pub update_dfs :
      Writing → Pacon → Bytes → PaconFile → Item → PaconStat → ℕ → ℕ → ℕ → Writing
  update_dfs again p path p_file i new_st exetime new_size size = do
    let timed = record new_st { atime = exetime; mtime = exetime; size = new_size }
    let updated = set_stat_flag timed stat_inline false
    ret ← with_kv sys (dmkv_cas sys.kv p.kv_handle path (take pstat_size i.value) i.item_cas)
    let finished : Writing = pure (some size, record p_file { size = new_size })
    elim ret [
      | ret_exists ↦
          if ltb updated.atime exetime || ltb updated.size new_size then again else finished
      | _ ↦ finished
    ]

  -- The inline data that is there already goes to the file first.
  unfoldable pub spill : ℕ → PaconStat → Bytes → Act sys Bool
  spill fd new_st inline_data =
      if get_stat_flag new_st stat_inline
      then (if ltb (length inline_data) new_st.size then crash else (do
        ret ← with_dfs sys (sys.dfs.pwrite fd (take new_st.size inline_data) 0)
        elim ret [ none ↦ pure false | some n ↦ pure (n == new_st.size) ]))
      else pure true

  unfoldable pub write_dfs :
      Writing
      → ℕ
      → Pacon
      → Bytes
      → PaconFile
      → Item
      → PaconStat
      → Bytes
      → Bytes
      → ℕ
      → ℕ
      → ℕ
      → Writing
  unfolding open_until spill pwrite_buf update_dfs
  write_dfs again fuel p path p_file i new_st inline_data buf size offset new_size = do
    fd ← open_until fuel path
    let f = record p_file { fd = some fd }
    spilled ← spill fd new_st inline_data
    if not spilled then pure (none, f) else (do
      ret ← pwrite_buf (some fd) buf size offset
      elim ret [
        | none ↦ pure (none, f)
        | some n ↦
            if n == size
            then (do
              exetime ← time sys
              update_dfs again p path f i new_st (word exetime) new_size size)
            else pure (none, f)
      ])

  -- INLINE_ASYNC_WB is 1. What add_to_mq answers is not looked at.
  unfoldable pub queue_write : Bytes → PaconFile → ℕ → Writing
  unfolding add_to_mq
  queue_write path p_file size = do
    t ← time sys
    _ ← add_to_mq sys path write t
    pure (some size, p_file)

  -- What both functions do with the text that is to be stored: the swap, and the message.
  unfoldable pub store_inline :
      Writing → Pacon → Bytes → PaconFile → ℕ → PaconStat → Bytes → ℕ → ℕ → ℕ → Writing
  unfolding queue_write seri_inline_data
  store_inline again p path p_file cas new_st text stored_size file_size size = do
    let val = replicate (pstat_size + inline_max) (sys.indeterminate % 256)
    elim (seri_inline_data new_st text val) [
      | none ↦ crash
      | some v ↦ do
        ret ← with_kv sys (dmkv_cas sys.kv p.kv_handle path (take stored_size v) cas)
        elim ret [
          | ret_exists ↦ again
          | ret_error ↦ pure (none, p_file)
          | _ ↦ queue_write path (record p_file { size = file_size }) size
        ]
    ]

  unfoldable pub write_cached :
      Writing → Pacon → Bytes → PaconFile → ℕ → PaconStat → Bytes → Bytes → ℕ → ℕ → ℕ → Writing
  unfolding splice store_inline
  write_cached again p path p_file cas new_st inline_data buf size offset new_size =
      elim (splice (unset_inline sys) inline_data (buf ++ 0 ∷ []) size offset new_st.size
        new_size) [
          | none ↦ crash
          | some new_data ↦ do
            t ← time sys
            let timed = record new_st { atime = word t; mtime = word t; size = new_size }
            let inline_st = set_stat_flag timed stat_inline true
            store_inline again p path p_file cas inline_st new_data (pstat_size + new_size) new_size
                size
        ]

  -- A file with a descriptor: what pwrite answers is not looked at, and `unset`, what new_size holds,
  -- becomes the size.
  unfoldable pub write_open :
      Writing → Pacon → Bytes → PaconFile → ℕ → Item → PaconStat → Bytes → ℕ → ℕ → ℕ → Writing
  unfolding pwrite_buf update_dfs
  write_open again p path p_file fd i new_st buf size offset unset = do
    _ ← pwrite_buf (some fd) buf size offset
    exetime ← time sys
    update_dfs again p path p_file i new_st (word exetime) unset size

  -- retry: with what inline_data and new_size hold.
  unfoldable pub write_loop : ℕ → Pacon → Bytes → PaconFile → Bytes → ℕ → ℕ → Bytes → ℕ → Writing
  unfolding fits_inline write_open write_cached write_dfs deseri_inline_data
  write_loop zero p path p_file buf size offset old_data old_size = exhausted
  write_loop (suc fuel) p path p_file buf size offset old_data old_size = do
    val ← with_kv sys (dmkv_get_cas sys.kv p.kv_handle path)
    elim val [
      | none ↦ do
        fd_1 ← with_dfs sys (sys.dfs.open_file path 2)
        ret ← pwrite_buf fd_1 buf size offset
        pure (ret, p_file)
      | some i ↦ elim (deseri_inline_data i.value) [
        | none ↦ crash
        | some (new_st, text) ↦
            let inline_data = strcpy old_data text in
            let end = offset + size in
            let new_size = word (if ltb new_st.size end then end else new_st.size) in
            elim (open_fd sys p_file) [
              | some fd ↦
                  let again = write_loop fuel p path p_file buf size offset inline_data old_size in
                  write_open again p path p_file fd i new_st buf size offset old_size
              | none ↦
                  if ltb new_st.size offset
                  then pure (none, p_file)
                  else (let again =
                        write_loop fuel p path p_file buf size offset inline_data new_size in
                      if fits_inline new_size
                      then write_cached again p path p_file i.item_cas new_st inline_data buf size
                          offset new_size
                      else write_dfs again fuel p path p_file i new_st inline_data buf size offset
                          new_size)
            ]
      ]
    ]

  unfoldable pub pacon_write_new : ℕ → Pacon → Bytes → PaconFile → Bytes → ℕ → ℕ → Writing
  unfolding write_loop
  pacon_write_new fuel p path p_file buf size offset = do
    location ← permit sys p path write_pc
    elim location [
      | none ↦ pure (none, p_file)
      | some _ ↦
          if ltb size (length (c_string buf))
          then pure (none, p_file)
          else write_loop fuel p path p_file buf size offset (unset_inline sys)
              (word sys.indeterminate)
    ]
