-- ===== src/Client/Files/Counted.antt =====
-- `pacon_write` of pacon.c, which counts the openings of a file in its struct.
use pacon.Base.{
  ℕ, zero, suc, ◌+◌, ◌-◌, ◌%◌, ◌^◌, true, none, some, [], ◌∷◌, ◌++◌, ltb, if◌then◌else◌, Bytes,
  length, c_string, pure, crash, exhausted, ◌>>=◌,
}
use pacon.Stat.{
  PaconStat, stat_inline, stat_file_created, set_stat_flag, get_stat_flag, deseri_inline_data,
  pstat_size, inline_max,
}
use pacon.System.{System}
use pacon.Message.{write}
use pacon.Dmkv.{dmkv_get_cas}
use pacon.Permission.{write_pc}
use pacon.Client.State.{Pacon, word, with_kv, time, add_to_mq, permit}
use pacon.Client.Files.{PaconFile, strcpy, unset_inline, open_counted}
use pacon.Client.Files.Write.{Writing, splice, fits_inline, pwrite_buf, store_inline}

-- The 32 bits of new_size: the longer one of the old size and (size of the struct - offset) + size,
-- which is computed with 64 bits.
unfoldable pub grown_size : ℕ → ℕ → ℕ → ℕ
grown_size old_size size offset =
    let moved = (old_size + 2 ^ 64 - offset + size) % 2 ^ 64 in
    word (if ltb old_size moved then moved else old_size)

module _ (sys : System) where
  -- A file without data: the text of the caller's buffer is stored, wherever it belongs.
  unfoldable pub write_first :
      Writing sys → Pacon → Bytes → PaconFile → ℕ → PaconStat → Bytes → ℕ → ℕ → Writing sys
  unfolding store_inline
  write_first again p path p_file cas new_st buf size offset =
      if ltb (size + offset) (inline_max - 1)
      then (do
        atime ← time sys
        mtime ← time sys
        let flagged = set_stat_flag (record new_st { flags = p_file.flags }) stat_inline true
        let sized = record flagged { atime = word atime; mtime = word mtime; size = size + offset }
        store_inline sys again p path p_file cas sized buf (pstat_size + size) (size + offset) size)
      else pure (none, p_file)

  -- A file with data in the cache; the NUL is written one byte behind the end.
  unfoldable pub write_again :
      Writing sys → Pacon → Bytes → PaconFile → ℕ → PaconStat → Bytes → Bytes → ℕ → ℕ → Writing sys
  unfolding splice fits_inline grown_size store_inline
  write_again again p path p_file cas new_st inline_data buf size offset =
      let new_size = grown_size new_st.size size offset in
      let end = word (new_size + 1) in
      if fits_inline new_size
      then elim (splice (unset_inline sys) inline_data (buf ++ 0 ∷ []) size offset new_st.size
          end) [
            | none ↦ crash
            | some new_data ↦ do
              atime ← time sys
              mtime ← time sys
              let timed = record new_st { atime = word atime; mtime = word mtime; size = new_size }
              store_inline sys again p path p_file cas timed new_data (word (pstat_size + new_size))
                  (word (size + offset)) size
          ]
      else pure (none, p_file)

  -- A file that the server has made: it is opened, and written to as an open one.
  unfoldable pub write_created :
      ℕ → Pacon → Bytes → PaconFile → ℕ → PaconStat → Bytes → ℕ → ℕ → Writing sys
  unfolding open_counted pwrite_buf add_to_mq
  write_created fuel p path p_file cas new_st buf size offset = do
    opened ← open_counted sys fuel p path p_file.flags p_file.mode new_st cas
    elim opened [
      | none ↦ pure (none, p_file)
      | some fd ↦ do
        t ← time sys
        _ ← add_to_mq sys path write t
        ret ← pwrite_buf sys (some fd) buf size offset
        pure (ret, record p_file { fd = some fd })
    ]

  -- retry: with what inline_data holds.
  unfoldable pub counted_loop : ℕ → Pacon → Bytes → PaconFile → Bytes → ℕ → ℕ → Bytes → Writing sys
  unfolding write_first write_again write_created deseri_inline_data
  counted_loop zero p path p_file buf size offset old_data = exhausted
  counted_loop (suc fuel) p path p_file buf size offset old_data = do
    val ← with_kv sys (dmkv_get_cas sys.kv p.kv_handle path)
    elim val [
      | none ↦ crash
      | some i ↦ elim (deseri_inline_data i.value) [
        | none ↦ crash
        | some (new_st, text) ↦
            let inline_data = strcpy old_data text in
            let again = counted_loop fuel p path p_file buf size offset inline_data in
            if get_stat_flag new_st stat_inline
            then (if get_stat_flag new_st stat_file_created
                then pure (none, p_file)
                else write_again again p path p_file i.item_cas new_st inline_data buf size offset)
            else (if get_stat_flag new_st stat_file_created
                then write_created fuel p path p_file i.item_cas new_st buf size offset
                else write_first again p path p_file i.item_cas new_st buf size offset)
      ]
    ]

  unfoldable pub pacon_write : ℕ → Pacon → Bytes → PaconFile → Bytes → ℕ → ℕ → Writing sys
  unfolding counted_loop pwrite_buf
  pacon_write fuel p path p_file buf size offset = do
    location ← permit sys p path write_pc
    elim location [
      | none ↦ pure (none, p_file)
      | some _ ↦ if ltb size (length (c_string buf)) then pure (none, p_file) else elim p_file.fd [
        | some fd ↦ do ret ← pwrite_buf sys (some fd) buf size offset; pure (ret, p_file)
        | none ↦ counted_loop fuel p path p_file buf size offset (unset_inline sys)
      ]
    ]
