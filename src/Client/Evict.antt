-- ===== src/Client/Evict.antt =====
-- Eviction, the retry after a full cache, and loading an entry of the file system: `load_to_pacon`,
-- `pacon_opendir`, `flush_dir`, `flush_file` and `evict_metadata` of pacon.c. They call one another
-- in a circle, so each takes what it calls, and `evict_metadata` ties the knot on fuel.
use pacon.Base.{
  ℕ, zero, suc, ◌+◌, Bool, true, false, ◌||◌, Option, none, some, List, [], ◌∷◌, ◌++◌, ◌==◌,
  if◌then◌else◌, Bytes, bytes_eq, char_at, get_elem?, pure, crash, exhausted, gets, ◌>>=◌, ◌>>◌,
}
use pacon.Base.Decimal.{decimal, atoi}
use pacon.Stat.{
  PaconStat, stat_type, stat_file_created, stat_existedin_dfs, set_stat_flag, seri_val,
}
use pacon.System.{Stat, Dirent, System}
use pacon.Paths.{slash, unrelated, child_cmp_new}
use pacon.Dmkv.{
  KvRet, ret_ok, ret_exists, ret_no_memory, dmkv_set, dmkv_add, dmkv_cas, dmkv_get, dmkv_get_cas,
  dmkv_del,
}
use pacon.Message.{readdir, flushdir, request_path}
use pacon.Permission.{readdir_pc}
use pacon.Client.State.{
  Status, succeeded, failed, Pacon, word, Act, with_kv, stat, list_dir, time, add_to_mq,
  add_to_local_rpc, permit, into_path,
}

-- The value of a `DIR *`: -1, NULL, or an open directory.
pub data Dir : Type 0 where
  minus_one : Dir
  null : Dir
  entries : List Dirent → Dir

-- The name of an entry that is neither "." nor "..".
unfoldable pub is_dot : Bytes → Bool
is_dot name = bytes_eq name (b'.' ∷ []) || bytes_eq name (b'.' ∷ b'.' ∷ [])

unfoldable pub without_dots : List Dirent → List Dirent
unfolding is_dot
without_dots [] = []
without_dots (e ∷ es) = let rest = without_dots es in if is_dot e.d_name then rest else e ∷ rest

-- "evict_lock" and "evict_record"
abbrev pub evict_lock : Bytes
evict_lock = b'e' ∷ b'v' ∷ b'i' ∷ b'c' ∷ b't' ∷ b'_' ∷ b'l' ∷ b'o' ∷ b'c' ∷ b'k' ∷ []

abbrev pub evict_record : Bytes
evict_record =
    b'e' ∷ b'v' ∷ b'i' ∷ b'c' ∷ b't' ∷ b'_' ∷ b'r' ∷ b'e' ∷ b'c' ∷ b'o' ∷ b'r' ∷ b'd' ∷ []

module _ (sys : System) where
  -- The stat that `load_to_pacon` makes of `struct stat`; `fd` is not set.
  unfoldable pub loaded_stat : Stat → PaconStat
  loaded_stat buf =
      let blank : PaconStat = record {
        flags = 0;
        mode = word buf.st_mode;
        ctime = word buf.st_ctime;
        atime = word buf.st_atime;
        mtime = word buf.st_mtime;
        size = word buf.st_size;
        uid = word buf.st_uid;
        gid = word buf.st_gid;
        nlink = word buf.st_nlink;
        open_counter = 0;
        fd = word sys.indeterminate;
      } in
      let typed =
        if buf.is_dir
        then set_stat_flag blank stat_type false
        else set_stat_flag (set_stat_flag blank stat_type true) stat_file_created true in
      set_stat_flag typed stat_existedin_dfs true

  module _ (evict : Act sys Status) where
    -- evict_ok: ret = dmkv_add(...); if (ret == -2) { evict_metadata(pacon); goto evict_ok; }
    unfoldable pub add_or_evict : ℕ → ℕ → Bytes → Bytes → Act sys KvRet
    add_or_evict zero handle path val = exhausted
    add_or_evict (suc fuel) handle path val = do
      ret ← with_kv sys (dmkv_add sys.kv handle path val)
      elim ret [ ret_no_memory ↦ evict >> add_or_evict fuel handle path val | r ↦ pure r ]

    unfoldable pub load_with : ℕ → Pacon → Bytes → Act sys Status
    unfolding add_or_evict
    load_with fuel p path = elim (child_cmp_new path p.mount_path) [
      | unrelated ↦ pure failed
      | _ ↦ do
        buf ← stat sys path
        elim buf [
          | none ↦ pure failed
          | some st ↦ do
            ret ← add_or_evict fuel p.kv_handle path (seri_val (loaded_stat st))
            pure succeeded
        ]
    ]

    -- The server commits everything before the directory is opened.
    unfoldable pub opendir_with : ℕ → Pacon → Bytes → Act sys Dir
    unfolding load_with
    opendir_with fuel p path = do
      location ← permit sys p path readdir_pc
      elim location [
        | none ↦ pure minus_one
        | some i ↦ do
          val ← with_kv sys (dmkv_get sys.kv p.kv_handle path)
          loaded ← elim val [ none ↦ load_with fuel p path | some v ↦ pure succeeded ]
          elim loaded [
            | failed ↦ pure minus_one
            | succeeded ↦ do
              -- `val` is read again and not used
              _ ← elim val [
                | none ↦ with_kv sys (dmkv_get sys.kv p.kv_handle path)
                | some v ↦ pure (some v)
              ]
              id ← gets (λ c. c.current_barrier_id)
              path_new ← into_path sys (request_path id path)
              t ← time sys
              ret ← add_to_local_rpc sys path_new readdir t
              elim ret [
                | failed ↦ pure minus_one
                | succeeded ↦ do
                  found ← list_dir sys path
                  pure (elim found [ none ↦ null | some es ↦ entries es ])
              ]
          ]
      ]

  -- Two messages with the time: one on the commit queue, one to the server, which answers.
  unfoldable pub flush_dir : Bytes → Act sys Status
  flush_dir path = do
    t ← time sys
    _ ← add_to_mq sys path flushdir t
    t' ← time sys
    add_to_local_rpc sys path flushdir t'

  -- while (stat(path, &buf) != 0) ret = dmkv_del(...): `ret` is not set when the first `stat`
  -- succeeds.
  flush_file_loop : ℕ → Pacon → Bytes → Bool → Act sys Status
  flush_file_loop zero p path ret_zero = exhausted
  flush_file_loop (suc fuel) p path ret_zero = do
    buf ← stat sys path
    elim buf [
      | some st ↦ pure (if ret_zero then succeeded else failed)
      | none ↦ do
        ret ← with_kv sys (dmkv_del sys.kv p.kv_handle path)
        flush_file_loop fuel p path (elim ret [ ret_ok ↦ true | _ ↦ false ])
    ]

  unfoldable pub flush_file : ℕ → Pacon → Bytes → Act sys Status
  unfolding flush_file_loop
  flush_file fuel p path = flush_file_loop fuel p path (word sys.indeterminate == 0)

  -- The lock is taken when its value is "0" and the swap to "1" does not conflict.
  unfoldable pub take_evict_lock : ℕ → Pacon → Act sys Status
  take_evict_lock zero p = exhausted
  take_evict_lock (suc fuel) p = do
    val ← with_kv sys (dmkv_get_cas sys.kv p.kv_handle evict_lock)
    elim val [
      | none ↦ pure failed
      | some i ↦
          if char_at i.value 0 == b'0'
          then (do
            ret ← with_kv sys (dmkv_cas sys.kv p.kv_handle evict_lock (b'1' ∷ []) i.item_cas)
            elim ret [ ret_exists ↦ take_evict_lock fuel p | _ ↦ pure succeeded ])
          else elim (char_at i.value 0 == b'1') [
            | true ↦ take_evict_lock fuel p
            | false ↦ pure failed
          ]
    ]

  module _ (opendir : Pacon → Bytes → Act sys Dir) where
    -- Evict entry number `rr` of the root; past the last entry, start again at 0. The answer is the
    -- next number, or `none` for -1.
    unfoldable pub evict_entry : ℕ → Pacon → ℕ → Act sys (Option ℕ)
    unfolding flush_dir flush_file without_dots
    evict_entry zero p rr = exhausted
    evict_entry (suc fuel) p rr = do
      dir ← opendir p p.mount_path
      elim dir [
        | minus_one ↦ crash
        | null ↦ crash
        | entries es ↦ elim (get_elem? (without_dots es) rr) [
          | none ↦ evict_entry fuel p 0
          | some e ↦ do
            evict_path ← into_path sys (p.mount_path ++ slash ∷ e.d_name)
            ret ← if e.d_dir then flush_dir evict_path else flush_file fuel p evict_path
            pure (elim ret [ failed ↦ none | succeeded ↦ some (rr + 1) ])
        ]
      ]

    unfoldable pub evict_with : ℕ → Pacon → Act sys Status
    unfolding take_evict_lock evict_entry
    evict_with fuel p = do
      locked ← take_evict_lock fuel p
      elim locked [
        | failed ↦ pure failed
        | succeeded ↦ do
          record_val ← with_kv sys (dmkv_get sys.kv p.kv_handle evict_record)
          elim record_val [
            | none ↦ pure failed
            | some v ↦ do
              next ← evict_entry fuel p (atoi v)
              elim next [
                | none ↦ pure failed
                | some rr ↦ do
                  ret ← with_kv sys (dmkv_set sys.kv p.kv_handle evict_record (decimal rr))
                  elim ret [
                    | ret_ok ↦ do
                      unlocked ← with_kv sys (dmkv_set sys.kv p.kv_handle evict_lock (b'0' ∷ []))
                      pure (elim unlocked [ ret_ok ↦ succeeded | _ ↦ failed ])
                    | _ ↦ pure failed
                  ]
              ]
          ]
      ]

  -- Each round of fuel is one level of the circle eviction, opendir, load.
  unfoldable pub evict_metadata : ℕ → Pacon → Act sys Status
  unfolding evict_with opendir_with
  evict_metadata zero p = exhausted
  evict_metadata (suc fuel) p =
      evict_with (λ q path. opendir_with (evict_metadata fuel p) fuel q path) fuel p
