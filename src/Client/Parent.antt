-- ===== src/Client/Parent.antt =====
-- `check_parent_dir` of pacon.c: the parent must be a directory, and the entries that it has in the
-- file system are loaded before the first entry is made in it.
use pacon.Base.{
  ℕ, zero, suc, ◌+◌, ◌-◌, not, ◌&&◌, Option, none, some, List, [], ◌∷◌, ◌++◌, leb, ◌==◌,
  if◌then◌else◌, Bytes, bytes_eq, length, take, pure, crash, ◌>>=◌,
}
use pacon.Stat.{stat_type, stat_existedin_dfs, stat_child_check, get_stat_flag, deseri_val}
use pacon.System.{Dirent, System}
use pacon.Paths.{slash}
use pacon.Dmkv.{ret_error, cut_slash}
use pacon.Message.{path_max}
use pacon.Client.State.{
  Status, succeeded, failed, Pacon, Act, list_dir, add_to_dir_check_table, dir_check_local,
}
use pacon.Client.Evict.{is_dot}
use pacon.Client.Load.{load_to_pacon, fetch_item, mark_item}

-- The index of the last slash.
unfoldable pub last_slash : Bytes → Option ℕ
last_slash [] = none
last_slash (c ∷ s) = elim (last_slash s) [
  | some i ↦ some (suc i)
  | none ↦ if c == slash then some 0 else none
]

-- `p_dir`; without a slash the source writes in front of it.
unfoldable pub parent_dir : Bytes → Option Bytes
unfolding last_slash cut_slash
parent_dir path = elim (last_slash (cut_slash path)) [
  | none ↦ none
  | some zero ↦ some (slash ∷ [])
  | some (suc i) ↦ some (take (suc i) path)
]

module _ (sys : System) where
  unfoldable pub load_children : ℕ → Pacon → Bytes → List Dirent → Act sys Status
  unfolding is_dot load_to_pacon
  load_children fuel p p_dir [] = pure succeeded
  load_children fuel p p_dir (e ∷ es) =
      let rest = load_children fuel p p_dir es in
      if is_dot e.d_name
      then rest
      else if leb (path_max - 1) (length p_dir + length e.d_name)
      then pure failed
      else (do
        loaded ← load_to_pacon sys fuel p (p_dir ++ slash ∷ e.d_name)
        elim loaded [ failed ↦ pure failed | succeeded ↦ rest ])

  -- The part behind the local table.
  unfoldable pub check_dir : ℕ → Pacon → Bytes → Act sys Status
  unfolding fetch_item load_children mark_item
  check_dir fuel p p_dir = do
    val ← fetch_item sys fuel p p_dir
    elim val [
      | none ↦ pure failed
      | some i ↦ elim (deseri_val i.value) [
        | none ↦ crash
        | some p_st ↦ if get_stat_flag p_st stat_type then pure failed else (do
          checked ←
              (if get_stat_flag p_st stat_existedin_dfs && not (get_stat_flag p_st stat_child_check)
                then (do
                  pd ← list_dir sys p_dir
                  elim pd [
                    | none ↦ crash
                    | some es ↦ do
                      loaded ← load_children fuel p p_dir es
                      elim loaded [
                        | failed ↦ pure failed
                        | succeeded ↦ do
                          ret ← mark_item sys fuel p p_dir stat_child_check i
                          pure (elim ret [ ret_error ↦ failed | _ ↦ succeeded ])
                      ]
                  ])
                else pure succeeded)
          elim checked [
            | failed ↦ pure failed
            | succeeded ↦ do _ ← add_to_dir_check_table sys p_dir; pure succeeded
          ])
      ]
    ]

  unfoldable pub check_parent_dir : ℕ → Pacon → Bytes → Act sys Status
  unfolding check_dir parent_dir
  check_parent_dir fuel p [] = crash
  check_parent_dir fuel p (c ∷ s) =
      let path = c ∷ s in
      if bytes_eq path (slash ∷ [])
      then pure succeeded
      else if leb path_max (length (cut_slash path))
      then pure failed
      else elim (parent_dir path) [
        | none ↦ crash
        | some p_dir ↦ do
          hit ← dir_check_local sys p_dir
          if hit then pure succeeded else check_dir fuel p p_dir
      ]
