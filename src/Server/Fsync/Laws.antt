-- ===== src/Server/Fsync/Laws.antt =====
-- What the server reads of the text that `pacon_fsync` of pacon.c queues.
use pacon.Base.{
  ℕ, ◌+◌, ◌-◌, ◌≤◌, ◌<◌, ◌^◌, ◌≡◌, refl, ap, ◌∙◌, Bool, true, false, some, [], ◌∷◌, ◌++◌,
  append_assoc, append-nil, arith, Bytes, length, lacks, length-append, lacks-append, done, ltb,
  ◌==◌,
}
use pacon.Base.Decimal.{
  length-decimal_pos, decimal, atoi-decimal, ends_number, decimal-lacks, is_digit,
}
use pacon.Base.Int.{ℤ, pos, atoi_int, unsigned, atoi-decimal_alone}
use pacon.Message.{bar, path_max, fsync_path}
use pacon.Server.Fsync.{LogMesg, log_byte, log_fits, log_loop, parse_log_mesg}

abbrev found : Bytes → Bytes → ℕ → ℤ → ℤ → LogMesg
found f_path log_text gap offset size = record {
  f_path = f_path;
  log_text = log_text;
  gap = gap;
  offset = offset;
  size = size;
}

-- The path goes up to the first bar.
path_part :
    (i : ℕ) (behind : Bool) (p l : Bytes) (g : ℕ) (o z : ℤ) (s rest : Bytes)
    → lacks bar s ≡ true
    → i + length s < path_max
    → log_loop i 0 behind (found p l g o z) (s ++ bar ∷ rest)
      ≡ log_loop (i + length s + 1) 1 true (found (p ++ s) l g o z) rest
unfolding log_loop log_byte log_fits lacks
path_part i behind p l g o z [] rest h room = ground (arith, append-nil p)
path_part i behind p l g o z (c ∷ s) rest h room =
    let more = path_part (i + 1) false (p ++ c ∷ []) l g o z s rest (ground arith) (omega arith) in
    ground (arith, more, append_assoc p (c ∷ []) s)

-- The log's path goes up to the second bar, whose index is where its NUL is written.
log_part :
    (i : ℕ) (behind : Bool) (p l : Bytes) (g : ℕ) (o z : ℤ) (s rest : Bytes)
    → lacks bar s ≡ true
    → length l ≤ i
    → i + length s < path_max
    → log_loop i 1 behind (found p l g o z) (s ++ bar ∷ rest)
      ≡ log_loop
          (i + length s + 1)
          2
          true
          (found p (l ++ s) (i + length s - length (l ++ s)) o z)
          rest
unfolding log_loop log_byte log_fits lacks
log_part i behind p l g o z [] rest h low room = ground (arith, append-nil l)
log_part i behind p l g o z (c ∷ s) rest h low room =
    let longer = length-append l (c ∷ []) in
    let more =
      log_part (i + 1) false p (l ++ c ∷ []) g o z s rest (ground arith) (omega arith)
        (omega arith) in
    ground (arith, more, append_assoc l (c ∷ []) s)

-- A number is read at its first digit; the digits behind it change nothing.
digits_offset :
    (i : ℕ) (m : LogMesg) (s rest : Bytes)
    → lacks bar s ≡ true
    → log_loop i 2 false m (s ++ bar ∷ rest) ≡ log_loop (i + length s + 1) 3 true m rest
unfolding log_loop log_byte log_fits lacks
digits_offset i m [] rest h = ground arith
digits_offset i m (c ∷ s) rest h = ground (arith, digits_offset (i + 1) m s rest (ground arith))

digits_size :
    (i : ℕ) (m : LogMesg) (s : Bytes)
    → lacks bar s ≡ true
    → log_loop i 3 false m s ≡ done (some (m, 3))
unfolding log_loop log_byte log_fits lacks
digits_size i m [] h = refl
digits_size i m (c ∷ s) h = ground (arith, digits_size (i + 1) m s (ground arith))

number_offset :
    (i n : ℕ) (p l : Bytes) (g : ℕ) (o z : ℤ) (s rest : Bytes)
    → n < 2 ^ 31
    → 1 ≤ length s
    → lacks bar s ≡ true
    → atoi_int (s ++ bar ∷ rest) ≡ pos n
    → log_loop i 2 true (found p l g o z) (s ++ bar ∷ rest)
      ≡ log_loop (i + length s + 1) 3 true (found p l g (pos n) z) rest
unfolding log_loop log_byte log_fits lacks
number_offset i n p l g o z [] rest low has h e = absurd (omega arith)
number_offset i n p l g o z (c ∷ s) rest low has h e =
    let more = digits_offset (i + 1) (found p l g (pos n) z) s rest (ground arith) in
    let miss : (c == bar) ≡ false = ground arith in
    let fits : ltb n (2 ^ 31) ≡ true = ground arith in
    rw (e, miss, fits)
      (more ∙ ap (λ k. log_loop k 3 true (found p l g (pos n) z) rest) (omega arith))

number_size :
    (i n : ℕ) (p l : Bytes) (g : ℕ) (o z : ℤ) (s : Bytes)
    → n < 2 ^ 31
    → 1 ≤ length s
    → lacks bar s ≡ true
    → atoi_int s ≡ pos n
    → log_loop i 3 true (found p l g o z) s ≡ done (some (found p l g o (pos n), 3))
unfolding log_loop log_byte log_fits lacks
number_size i n p l g o z [] low has h e = absurd (omega arith)
number_size i n p l g o z (c ∷ s) low has h e =
    let more = digits_size (i + 1) (found p l g o (pos n)) s (ground arith) in
    let miss : (c == bar) ≡ false = ground arith in
    let fits : ltb n (2 ^ 31) ≡ true = ground arith in rw (e, miss, fits) more

decimal-lacks-bar : (n : ℕ) → lacks bar (decimal n) ≡ true
unfolding is_digit
decimal-lacks-bar n = decimal-lacks bar n refl

-- A number that is printed without a sign is read up to the bar behind it.
atoi_int-decimal_first : (n m : ℕ) → atoi_int (decimal n ++ bar ∷ decimal m) ≡ pos n
unfolding ends_number is_digit lacks
atoi_int-decimal_first n m =
    unsigned (decimal n ++ bar ∷ decimal m)
      (ground (
        arith,
        lacks-append b'-' (decimal n) (bar ∷ decimal m),
        decimal-lacks b'-' n refl,
        decimal-lacks b'-' m refl,
      ))
      n (atoi-decimal n (bar ∷ decimal m) refl)

-- If path and log path have no bar, the second bar is among the first PATH_MAX bytes, and offset and
-- size are below 2^31, then the server finds the path, the offset and the size that a client has
-- queued for fsync, and the path of its log, but it ends that one behind as many unset bytes as the
-- first path has, and one more.
pub parse_log_mesg-fsync_path :
    (path logfile : Bytes) (offset size : ℕ)
    → lacks bar path ≡ true
    → lacks bar logfile ≡ true
    → length path + 1 + length logfile < path_max
    → offset < 2 ^ 31
    → size < 2 ^ 31
    → parse_log_mesg (fsync_path path logfile offset size)
      ≡ done (
          some (
            record {
              f_path = path;
              log_text = logfile;
              gap = length path + 1;
              offset = pos offset;
              size = pos size;
            },
            3,
          ))
unfolding parse_log_mesg fsync_path is_digit
parse_log_mesg-fsync_path path logfile offset size plain logplain room offset_int size_int =
    path_part 0 false [] [] 0 (pos 0) (pos 0) path _ plain (omega arith)
    ∙ (log_part _ true path [] 0 (pos 0) (pos 0) logfile _ logplain (omega arith) (omega arith)
        ∙ (number_offset _ offset path logfile _ (pos 0) (pos 0) (decimal offset) (decimal size)
              offset_int (length-decimal_pos offset) (decimal-lacks-bar offset)
              (atoi_int-decimal_first offset size)
            ∙ (number_size _ size path logfile _ (pos offset) (pos 0) (decimal size) size_int
                  (length-decimal_pos size) (decimal-lacks-bar size)
                  (unsigned (decimal size) (decimal-lacks b'-' size refl) size
                    (atoi-decimal_alone size))
                ∙ ap (λ g. done (some (found path logfile g (pos offset) (pos size), 3)))
                    (omega arith))))
