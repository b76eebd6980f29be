-- ===== src/Message/Rpc.antt =====
-- The server reads back the barrier id that the client puts in front of a path.
use pacon.Base.{
  ℕ, ◌+◌, ◌^◌, ◌<◌, ◌≡◌, refl, ap, ◌∙◌, true, some, ◌∷◌, ◌++◌, append_assoc, arith, length-append,
  Bytes, length, drop, drop-append, drop_past, lacks, lacks-append, before-append,
}
use pacon.Base.Decimal.{
  decimal, decimal32, is_digit, decimal-lacks, length-decimal_le, length-decimal_pos,
}
use pacon.Base.Int.{pos, atoi_int, unsigned, atoi-decimal_alone, atoi32-decimal32}
use pacon.Paths.{slash}
use pacon.Message.{
  Opt, opt_code, opt_type, colon, path_max, mesg_text, parse_mesg, slot_of, parse_request,
  request_path,
}
use pacon.Message.Commit.{parse_mesg-append}

decimal-lacks-slash : (n : ℕ) → lacks slash (decimal n) ≡ true
unfolding is_digit
decimal-lacks-slash n = decimal-lacks slash n refl

unsigned_id : (n : ℕ) → atoi_int (decimal n) ≡ pos n
unfolding is_digit
unsigned_id n = unsigned (decimal n) (decimal-lacks b'-' n refl) n (atoi-decimal_alone n)

module _ (rest : Bytes) (opt : Opt) (t : ℕ) (no_colon : lacks colon (slash ∷ rest) ≡ true)
    (short : length (slash ∷ rest) < path_max) (word : t < 2 ^ 32) where
  abbrev sent : Bytes
  sent = slash ∷ rest ++ colon ∷ opt_code opt ∷ decimal32 t

  read_parsed : parse_mesg sent ≡ some (record { path = slash ∷ rest; opt = opt_code opt })
  read_parsed = parse_mesg-append (slash ∷ rest) (decimal32 t) (opt_code opt) no_colon short

  read_time : drop (length (slash ∷ rest) + 2) sent ≡ decimal32 t
  read_time = drop_past (slash ∷ rest) (colon ∷ opt_code opt ∷ decimal32 t) 2

  parse_request-append :
      (id : ℕ)
      → id < 2 ^ 31
      → parse_request (decimal id ++ sent)
        ≡ some (record {
          barrier_id = slot_of id;
          parsed = record { path = slash ∷ rest; opt = opt_code opt };
          timestamp = t;
        })
  unfolding parse_request lacks
  parse_request-append id int = ground (
    arith,
    before-append slash (decimal id) (rest ++ colon ∷ opt_code opt ∷ decimal32 t)
        (decimal-lacks-slash id),
    drop-append (decimal id) sent,
    length-decimal_pos id,
    length-decimal_le 9 id (omega arith),
    unsigned_id id,
    lacks-append slash (decimal id) sent,
    read_parsed,
    read_time,
    atoi32-decimal32 t word,
  )

-- A request that is sent with a barrier id for a path comes back in all four parts, if the whole text
-- has less than PATH_MAX bytes, as the client's and the server's buffers demand, the path is absolute
-- and has no colon, the id is an `int` and the time a `uint32_t`; the id counts from 1, and 0 lands in
-- front of the slots.
pub parse_request-request_path :
    (rest : Bytes) (opt : Opt) (t id : ℕ)
    → lacks colon (slash ∷ rest) ≡ true
    → t < 2 ^ 32
    → id < 2 ^ 31
    → length (mesg_text (request_path id (slash ∷ rest)) opt t) < path_max
    → parse_request (mesg_text (request_path id (slash ∷ rest)) opt t)
      ≡ some (record {
        barrier_id = slot_of id;
        parsed = record { path = slash ∷ rest; opt = opt_code opt };
        timestamp = t;
      })
unfolding mesg_text request_path
parse_request-request_path rest opt t id no_colon word int fits =
    let short : length (slash ∷ rest) < path_max = omega (
      arith,
      fits,
      length-append (decimal id ++ slash ∷ rest) (opt_type opt ++ decimal32 t),
      length-append (decimal id) (slash ∷ rest),
    ) in
    ap parse_request (append_assoc (decimal id) (slash ∷ rest) (opt_type opt ++ decimal32 t))
    ∙ parse_request-append rest opt t no_colon short word id int
