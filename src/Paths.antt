-- ===== src/Paths.antt =====
-- The tests on paths: `child_cmp` and `child_cmp_new` of pacon.c, the server's `child_cmp`, and
-- `is_loacl_addr` of comm.c.
pub mod Compare
pub mod Child
pub mod Tests
use pacon.Base.{
  ℕ, zero, suc, ◌+◌, Bool, true, false, not, ◌&&◌, [], ◌∷◌, ltb, leb, ◌==◌, if◌then◌else◌, Bytes,
  length, char_at, drop,
}

-- '/'
abbrev pub slash : ℕ
slash = b'/'

-- for (i = 0; i < p_len; ++i) if (path[i] != p_path[i]) return 0;
unfoldable pub agrees : Bytes → Bytes → Bool
agrees path [] = true
agrees [] (d ∷ p_path) = false
agrees (c ∷ path) (d ∷ p_path) = (c == d) && agrees path p_path

-- What `child_cmp_new` returns: 0, 1 and 2.
pub data Ancestry : Type 0 where
  unrelated : Ancestry
  below : Ancestry
  same : Ancestry

unfoldable pub child_cmp_new : Bytes → Bytes → Ancestry
unfolding agrees
child_cmp_new path p_path =
    let len = length path in
    let p_len = length p_path in
    if ltb len p_len
    then unrelated
    else if not (agrees path p_path)
    then unrelated
    else if not (char_at path p_len == slash) && not (p_len == len)
    then unrelated
    else if not (p_len == len)
    then below
    else same

-- The server's `child_cmp`, a copy under another name.
unfoldable pub server_child_cmp : Bytes → Bytes → Ancestry
unfolding agrees
server_child_cmp path p_path =
    let len = length path in
    let p_len = length p_path in
    if ltb len p_len
    then unrelated
    else if not (agrees path p_path)
    then unrelated
    else if not (char_at path p_len == slash) && not (p_len == len)
    then unrelated
    else if not (p_len == len)
    then below
    else same

-- for (; i < len; ++i) if (path[i] == '/') return 0;
unfoldable pub no_slash : Bytes → Bool
no_slash [] = true
no_slash (c ∷ s) = if c == slash then false else no_slash s

-- The client's older `child_cmp`, with `recursive` 0 or 1, as a Boolean: 1 is `true`. After the
-- prefix it skips the byte at `p_len`, a slash but for the root.
unfoldable pub child_cmp : Bytes → Bytes → Bool → Bool
unfolding agrees no_slash
child_cmp path p_path recursive =
    let len = length path in
    let p_len = length p_path in
    if leb len p_len
    then false
    else if not (agrees path p_path)
    then false
    else if recursive
    then char_at path p_len == slash
    else if ltb 1 p_len && not (char_at path p_len == slash)
    then false
    else no_slash (drop (p_len + 1) path)

-- for (i = 0; i < l_len; ++i) if (l_addr[i] != t_addr[i]) return 0;
unfoldable pub is_loacl_addr : Bytes → Bytes → Bool
unfolding agrees
is_loacl_addr l_addr t_addr =
    if not (length l_addr == length t_addr) then false else agrees t_addr l_addr
