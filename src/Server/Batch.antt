-- ===== src/Server/Batch.antt =====
-- The reading of the batch permissions at the head of commit_to_fs of server/pacon_server.c, from the
-- items that `pacon_set_permission` has put into the cache.
use pacon.Base.{
  ℕ, ◌+◌, Bool, not, ◌&&◌, ◌||◌, Option, none, some, [], ◌∷◌, ◌++◌, ltb, leb, ◌==◌, if◌then◌else◌,
  Bytes, length, drop, pure, crash, gets, ◌>>=◌,
}
use pacon.Base.Decimal.{atoi}
use pacon.System.{System}
use pacon.Dmkv.{dmkv_get}
use pacon.Message.{colon, bar}
use pacon.Permission.{sp_list_max}
use pacon.Server.State.{Serve, PermInfo, not_read, none_set, set_up, with_cache, modify}
use pacon.Server.Barriers.{update}

-- "nom_dir_mode" and "sp_path"
abbrev pub nom_dir_mode_key : Bytes
nom_dir_mode_key =
    b'n' ∷ b'o' ∷ b'm' ∷ b'_' ∷ b'd' ∷ b'i' ∷ b'r' ∷ b'_' ∷ b'm' ∷ b'o' ∷ b'd' ∷ b'e' ∷ []

abbrev pub sp_path_key : Bytes
sp_path_key = b's' ∷ b'p' ∷ b'_' ∷ b'p' ∷ b'a' ∷ b't' ∷ b'h' ∷ []

-- perm_info.sp_path[sp_num][pos] = c, where `pos` stays 0
unfoldable pub put_path_byte : ℕ → PermInfo → PermInfo
put_path_byte c p = record p {
  sp_path = update p.sp_path p.sp_num (c ∷ drop 1 (p.sp_path p.sp_num));
}

-- The mode behind a colon, for directories or for files; the other one is 999.
unfoldable pub put_mode : Bool → ℕ → PermInfo → PermInfo
put_mode for_dirs mode p = record p {
  sp_dir_modes = update p.sp_dir_modes p.sp_num (if for_dirs then mode else 999);
  sp_f_modes = update p.sp_f_modes p.sp_num (if for_dirs then 999 else mode);
}

-- The loop over `sp_val`; the option holds `mode_tmp` while a mode is read. `none`: the loop leaves the
-- text, `mode_tmp` of 5 bytes or the arrays of SP_LIST_MAX.
unfoldable pub sp_loop : PermInfo → Option Bytes → Bytes → Option PermInfo
unfolding put_path_byte put_mode
sp_loop p none [] = some p
sp_loop p (some mode_tmp) [] = none
sp_loop p none (c ∷ rest) =
    let over = leb sp_list_max p.sp_num && not (c == bar) in
    let next =
      sp_loop
        (if c == colon
          then p
          else if c == bar
          then record p { sp_num = p.sp_num + 1 }
          else put_path_byte c p)
        (if c == colon then some [] else none) rest in
    if over then none else next
sp_loop p (some mode_tmp) (c ∷ rest) =
    let last = (c == b'd') || (c == b'f') in
    let next =
      sp_loop (if last then put_mode (c == b'd') (atoi mode_tmp) p else p)
        (if last then none else some (mode_tmp ++ c ∷ [])) rest in
    if ltb (length mode_tmp) 5 then next else none

unfoldable pub parse_sp : PermInfo → Bytes → Option PermInfo
unfolding sp_loop
parse_sp p sp_val = elim (sp_loop (record p { sp_num = 0 }) none sp_val) [
  | none ↦ none
  | some p' ↦ some (record p' { sp_num = p'.sp_num + 1 })
]

module _ (sys : System) where
  abbrev item_at : Bytes → Serve sys (Option Bytes)
  item_at key = do kv ← gets (λ w. w.handle); with_cache sys (dmkv_get sys.kv kv key)

  -- The three items: the second is read under the key of the first, and a missing one is a NULL.
  unfoldable pub read_permission : Serve sys (Unit {0})
  unfolding parse_sp
  read_permission = do
    dir_mode ← item_at nom_dir_mode_key
    elim dir_mode [
      | none ↦ modify sys (λ w. record w { sp_permission = none_set })
      | some dir_text ↦ do
        f_mode ← item_at nom_dir_mode_key
        elim f_mode [
          | none ↦ crash
          | some f_text ↦ do
            sp ← item_at sp_path_key
            p ←
                gets (λ w. record w.perm_info {
                  nom_dir_mode = atoi dir_text;
                  nom_f_mode = atoi f_text;
                })
            elim sp [
              | none ↦ crash
              | some sp_val ↦ elim (parse_sp p sp_val) [
                | none ↦ crash
                | some p' ↦ modify sys (λ w. record w { perm_info = p'; sp_permission = set_up })
              ]
            ]
        ]
    ]

  -- if (sp_permission == -1)
  unfoldable pub batch_permission : Serve sys (Unit {0})
  unfolding read_permission
  batch_permission = do
    found ← gets (λ w. w.sp_permission)
    elim found [ not_read ↦ read_permission | _ ↦ pure tt ]
