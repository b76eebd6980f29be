-- ===== src/Server/Removing.antt =====
-- `removing_dirs` of server/pacon_server.c, the directories whose removal is under way: their entry
-- and deletion in commit_to_fs_barrier and handle_cluster_mesg, and the test of commit_to_fs.
pub mod Laws
pub mod Tests
use pacon.Base.{
  ℕ, zero, suc, ◌+◌, ◌-◌, Bool, true, false, Option, none, some, List, [], ◌∷◌, ltb, ◌==◌,
  if◌then◌else◌, Bytes, length, get_or, set,
}
use pacon.Paths.{Ancestry, unrelated, below, same, server_child_cmp}

-- An array of paths of which the first `count` are in use.
pub record RemovingDirs : Type 0 where
  pub list : List Bytes
  pub count : ℕ

-- sprintf(list[count], "%s", path); count++: `none` when the array is full.
unfoldable pub add_removing : Bytes → RemovingDirs → Option RemovingDirs
add_removing path r =
    if ltb r.count (length r.list)
    then some (record { list = set r.list r.count path; count = r.count + 1 })
    else none

-- The body of the loop that has found the path at `at`: the last entry is copied there, and then the
-- same slot is emptied.
unfoldable pub drop_removing : ℕ → RemovingDirs → RemovingDirs
drop_removing at r =
    let moved =
      if at + 1 == r.count then r.list else set r.list at (get_or r.list (r.count - 1) []) in
    record { list = set moved at []; count = r.count - 1 }

-- for (pos = count; pos > 0; --pos)
unfoldable pub del_loop : ℕ → Bytes → RemovingDirs → RemovingDirs
unfolding drop_removing
del_loop zero path r = r
del_loop (suc at) path r = elim (server_child_cmp (get_or r.list at []) path) [
  | same ↦ drop_removing at r
  | _ ↦ del_loop at path r
]

unfoldable pub del_removing : Bytes → RemovingDirs → RemovingDirs
unfolding del_loop
del_removing path r = del_loop r.count path r

-- for (pos = 0; i < count - 1; ++i) if (child_cmp(path, list[pos], 1) == 1) return 0; with `left`
-- rounds. `i` starts at the length of the path, and `pos` stays 0.
unfoldable pub skip_loop : ℕ → Bytes → RemovingDirs → Bool
skip_loop zero path r = false
skip_loop (suc left) path r = elim (server_child_cmp path (get_or r.list 0 [])) [
  | below ↦ true
  | _ ↦ skip_loop left path r
]

-- Whether commit_to_fs skips the creation of `path`.
unfoldable pub skips : Bytes → RemovingDirs → Bool
unfolding skip_loop
skips path r = if ltb 0 r.count then skip_loop (r.count - 1 - length path) path r else false
