-- ===== src/Config.antt =====
-- The configuration files: `get_cluster_info` and `get_remote_cluster_info` of kv/dmkv.c,
-- `get_cluster_info_comm` and `get_local_addr_comm` of comm/comm.c, and `get_local_addr` and
-- `get_local_addr_cnum` of server/pacon_server.c. A file is its bytes.
pub mod Laws
pub mod Tests
use pacon.Base.{
  ℕ, zero, suc, ◌+◌, Bool, true, false, ◌&&◌, ◌||◌, Option, none, some, List, [], ◌∷◌, ◌++◌, ltb,
  leb, ◌==◌, if◌then◌else◌, Bytes, length, char_at, take, before, after, lacks, c_string, is_empty,
}
use pacon.Base.Decimal.{atoi, is_digit}

abbrev pub newline : ℕ
newline = 10

-- (c >= '0' && c <= '9') || c == '.'
unfoldable pub is_addr : ℕ → Bool
unfolding is_digit
is_addr c = is_digit c || (c == b'.')

-- What successive calls of fgets give, with `room` bytes for the text; `line` holds what the current
-- call has read.
unfoldable pub fgets_all : ℕ → Bytes → Bytes → List Bytes
fgets_all room line [] = if is_empty line then [] else line ∷ []
fgets_all room line (c ∷ s) =
    let line' = line ++ c ∷ [] in
    let ends = (c == newline) || leb room (length line') in
    let rest = fgets_all room (if ends then [] else line') s in if ends then line' ∷ rest else rest

-- The bytes up to the first that belongs to no address.
unfoldable pub addr_prefix : Bytes → Bytes
unfolding is_addr
addr_prefix [] = []
addr_prefix (c ∷ s) = if is_addr c then c ∷ addr_prefix s else []

-- NODE_MAX
abbrev pub node_max : ℕ
node_max = 64

-- for (c = 0; i < 16; ++c): the test is on the number of the node, so from the 16th on nothing is read.
unfoldable pub node_at : ℕ → Bytes → Bytes
unfolding addr_prefix
node_at i ip = if ltb i 16 then addr_prefix ip else []

-- The loop over the lines, with `i` nodes read; `none` is the return of -1.
unfoldable pub nodes_from : ℕ → List Bytes → Option (List Bytes)
unfolding node_at
nodes_from i [] = if i == 0 then none else some []
nodes_from i (ip ∷ lines) =
    let comment = char_at ip 0 == b'#' in
    let others = nodes_from (if comment then i else i + 1) lines in
    if comment
    then others
    else if leb node_max (i + 1)
    then none
    else elim others [ none ↦ none | some nodes ↦ some (node_at i ip ∷ nodes) ]

-- The bodies of the three readers, a copy each; the file is opened for them.
unfoldable pub get_cluster_info : Bytes → Option (List Bytes)
unfolding nodes_from fgets_all
get_cluster_info file = nodes_from 0 (fgets_all 16 [] file)

unfoldable pub get_remote_cluster_info : Bytes → Option (List Bytes)
unfolding nodes_from fgets_all
get_remote_cluster_info file = nodes_from 0 (fgets_all 16 [] file)

unfoldable pub get_cluster_info_comm : Bytes → Option (List Bytes)
unfolding nodes_from fgets_all
get_cluster_info_comm file = nodes_from 0 (fgets_all 16 [] file)

-- fgets(temp, 24, fp)
first_line : Bytes → Bytes
first_line file = take 23 (before newline file)

-- The address at the head of the file; `none` when it overruns char local_ip[17].
unfoldable pub get_local_addr : Bytes → Option Bytes
unfolding first_line addr_prefix
get_local_addr file =
    let ip = addr_prefix (first_line file) in if ltb (length ip) 17 then some ip else none

unfoldable pub get_local_addr_comm : Bytes → Option Bytes
unfolding first_line addr_prefix
get_local_addr_comm file =
    let ip = addr_prefix (first_line file) in if ltb (length ip) 17 then some ip else none

-- local_ip[i] = temp[i], where other bytes leave the NUL of a static array.
unfoldable pub addr_bytes : Bytes → Bytes
unfolding is_addr
addr_bytes [] = []
addr_bytes (c ∷ s) = (if is_addr c then c else 0) ∷ addr_bytes s

-- The address before the colon and the number of clients behind it; `none` when there is no colon, or
-- it stands past the array.
unfoldable pub get_local_addr_cnum : Bytes → Option (Bytes × ℕ)
unfolding first_line addr_bytes
get_local_addr_cnum file =
    let temp = first_line file in
    let ip = before b':' temp in
    if lacks b':' temp
    then none
    else if ltb (length ip) 17
    then some (c_string (addr_bytes ip), atoi (after b':' temp))
    else none
