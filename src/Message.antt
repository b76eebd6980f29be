-- ===== src/Message.antt =====
-- The texts that clients and servers exchange: the client builds `path:op<time>` in `add_to_mq` and
-- `add_to_local_rpc` of pacon.c, and the server takes it apart at the head of `commit_to_fs`,
-- `commit_to_fs_barrier` and `handle_cluster_mesg`. A barrier id in front of the path, the pair
-- `count|id` of a barrier and the pair `old-new` of a rename are texts inside that path.
pub mod Commit
pub mod Rpc
pub mod Pairs
pub mod Sizes
pub mod Tests
use pacon.Base.{
  ℕ, zero, suc, ◌+◌, ◌-◌, ◌^◌, Bool, true, false, not, ◌&&◌, ◌||◌, Option, none, some, List, [],
  ◌∷◌, ◌++◌, ltb, leb, ◌==◌, if◌then◌else◌, Bytes, length, char_at, drop, before, lacks, c_string,
}
use pacon.Base.Decimal.{decimal, decimal32, atoi}
use pacon.Base.Int.{ℤ, pos, negsuc, is_int, atoi_int, atoi32}
use pacon.Paths.{slash}

-- PATH_MAX and TIMESTAMP_SIZE
abbrev pub path_max : ℕ
path_max = 128

abbrev pub timestamp_size : ℕ
timestamp_size = 11

-- BARRIER_ID_MAX
abbrev pub barrier_id_max : ℕ
barrier_id_max = 1024

abbrev pub colon : ℕ
colon = b':'

abbrev pub bar : ℕ
bar = b'|'

abbrev pub dash : ℕ
dash = b'-'

-- The operation types CHECKPOINT to FLUSHDIR.
pub data Opt : Type 0 where
  checkpoint : Opt
  mkdir : Opt
  create : Opt
  rm : Opt
  rmdir : Opt
  readdir : Opt
  owrite : Opt
  fsync : Opt
  write : Opt
  barrier : Opt
  rename : Opt
  flushdir : Opt

abbrev pub opt_code : Opt → ℕ
opt_code checkpoint = b'0'
opt_code mkdir = b'1'
opt_code create = b'2'
opt_code rm = b'3'
opt_code rmdir = b'4'
opt_code readdir = b'5'
opt_code owrite = b'6'
opt_code fsync = b'7'
opt_code write = b'8'
opt_code barrier = b'9'
opt_code rename = b'A'
opt_code flushdir = b'B'

abbrev pub opt_type : Opt → Bytes
opt_type o = colon ∷ opt_code o ∷ []

-- What building a message comes to: a refusal, a text longer than its buffer, or the text.
pub data Built : Type 0 where
  too_long : Built
  overrun : Built
  built : Bytes → Built

-- sprintf(mesg, "%s%s%s", path, opt_type, ts)
unfoldable pub mesg_text : Bytes → Opt → ℕ → Bytes
mesg_text path opt timestamp = path ++ (opt_type opt ++ decimal32 timestamp)

-- The common part of both builders: `ts` has TIMESTAMP_SIZE bytes and `mesg` has `room`.
build : ℕ → Bytes → Opt → ℕ → Built
unfolding mesg_text
build room path opt timestamp =
    if ltb path_max (length path + 3)
    then too_long
    else if leb timestamp_size (length (decimal32 timestamp))
    then overrun
    else if leb room (length (mesg_text path opt timestamp))
    then overrun
    else built (mesg_text path opt timestamp)

-- The text of `add_to_mq`, in char mesg[PATH_MAX+TIMESTAMP_SIZE].
unfoldable pub mq_mesg : Bytes → Opt → ℕ → Built
unfolding build
mq_mesg path opt timestamp = build (path_max + timestamp_size) path opt timestamp

-- The text of `add_to_local_rpc`, in char mesg[PATH_MAX].
unfoldable pub rpc_mesg : Bytes → Opt → ℕ → Built
unfolding build
rpc_mesg path opt timestamp = build path_max path opt timestamp

-- What the server reads of a message: the text before the first colon, and the byte behind it.
pub record Parsed : Type 0 where
  pub path : Bytes
  pub opt : ℕ

-- `none` when the text overruns char path[PATH_MAX].
unfoldable pub parse_mesg : Bytes → Option Parsed
parse_mesg mesg =
    let path = before colon mesg in
    let i = length path in
    if leb path_max i then none else some (record { path = path; opt = char_at mesg (i + 1) })

-- `atoi(..) - 1` as an index: in front of the array when the number is 0 or less.
pub data Slot : Type 0 where
  slot : ℕ → Slot
  minus_one : Slot
  unset : Slot

abbrev pub slot_of : ℕ → Slot
slot_of zero = minus_one
slot_of (suc n) = slot n

abbrev slot_at : ℤ → Slot
slot_at (pos n) = slot_of n
slot_at (negsuc n) = minus_one

-- What `commit_to_fs_barrier` reads: a barrier id before the first slash (its variable is not set
-- when there is none), then the same parts, and the time.
pub record Request : Type 0 where
  pub barrier_id : Slot
  pub parsed : Parsed
  pub timestamp : ℕ

-- `none` when there is no slash to end the search, when a text overruns b_id[PATH_MAX] or
-- path[PATH_MAX], and when a number is no `int`.
unfoldable pub parse_request : Bytes → Option Request
unfolding parse_mesg
parse_request mesg =
    let b_id = before slash mesg in
    let i = length b_id in
    let rest = drop i mesg in
    if lacks slash mesg || leb path_max i || not (is_int (atoi_int b_id))
    then none
    else elim (parse_mesg rest) [
      | none ↦ none
      | some m ↦ elim (atoi32 (drop (length m.path + 2) rest)) [
        | none ↦ none
        | some t ↦ some (record {
          barrier_id = if i == 0 then unset else slot_at (atoi_int b_id);
          parsed = m;
          timestamp = t;
        })
      ]
    ]

-- sprintf(path_new, "%d%s", current_barrier_id, path)
unfoldable pub request_path : ℕ → Bytes → Bytes
request_path current_barrier_id path = decimal current_barrier_id ++ path

-- sprintf(barrier_id, "%d%c%d", opt_num, '|', current_barrier_id)
unfoldable pub barrier_path : ℕ → ℕ → Bytes
barrier_path opt_num current_barrier_id = decimal opt_num ++ bar ∷ decimal current_barrier_id

-- What the server reads of such a path: the count before the bar, none if the text begins with 0,
-- and the slot from its third byte on.
pub record BarrierMesg : Type 0 where
  pub opt_num : Option ℕ
  pub reached : Slot

unfoldable pub parse_barrier : Bytes → BarrierMesg
parse_barrier path = record {
  opt_num = if char_at path 0 == b'0' then none else some (atoi (before bar path));
  reached = slot_of (atoi (drop 2 path));
}

-- The path of a message for fsync:
-- sprintf(tmp_path, "%s%s%s%s%d%s%d", path, "|", fsync_logfile_path, "|", offset, "|", ret)
unfoldable pub fsync_path : Bytes → Bytes → ℕ → ℕ → Bytes
fsync_path path logfile offset size =
    path ++ bar ∷ (logfile ++ bar ∷ (decimal offset ++ bar ∷ decimal size))

-- sprintf(joint_path, "%s%c%s", path, '-', newpath)
unfoldable pub joint_path : Bytes → Bytes → Bytes
joint_path path newpath = path ++ dash ∷ newpath

-- The loop of `rename_update_dc` at index `i`: `old` is what `oldpath` holds up to `i`, and `new`
-- what has been written to `newpath`.
split_loop : ℕ → ℕ → Bytes → Bytes → Bytes → Bytes × Bytes
split_loop i loc old new [] = (c_string old, new)
split_loop i loc old new (c ∷ rest) =
    let first = (loc == 0) && not (c == dash) in
    split_loop (i + 1) (if first then loc else if c == dash then i else loc)
      (if first then old ++ c ∷ [] else if c == dash then old ++ 0 ∷ [] else old)
      (if first then new else if c == dash then [] else new ++ c ∷ []) rest

unfoldable pub split_joint : Bytes → Bytes × Bytes
unfolding split_loop
split_joint path = split_loop 0 0 [] [] path
