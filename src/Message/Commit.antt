-- ===== src/Message/Commit.antt =====
-- The server reads back what the client put into a message for the commit queue.
use pacon.Base.{
  ℕ, suc, ◌+◌, ◌-◌, ◌≤◌, ◌<◌, ◌≡◌, ap, ◌∙◌, true, some, ◌∷◌, ◌++◌, arith, Bytes, length, take,
  take_past, get_or_past, lacks, before-append,
}
use pacon.Base.Decimal.{decimal32}
use pacon.Message.{Opt, opt_code, opt_type, colon, path_max, mesg_text, parse_mesg}

-- Whatever stands behind the operation.
pub parse_mesg-append :
    (path rest : Bytes) (code : ℕ)
    → lacks colon path ≡ true
    → length path < path_max
    → parse_mesg (path ++ colon ∷ code ∷ rest) ≡ some (record { path = path; opt = code })
unfolding parse_mesg
parse_mesg-append path rest code no_colon short = ground (
  arith,
  before-append colon path (code ∷ rest) no_colon,
  get_or_past path (colon ∷ code ∷ rest) 1 0,
)

module _ (path : Bytes) (opt : Opt) (t : ℕ) (no_colon : lacks colon path ≡ true)
    (short : length path ≤ 125) where
  take-mesg_text :
      take path_max (mesg_text path opt t)
      ≡ path ++ colon ∷ opt_code opt ∷ take (126 - length path) (decimal32 t)
  unfolding mesg_text
  take-mesg_text =
      let e : path_max ≡ length path + suc (suc (126 - length path)) = omega arith in
      ap (λ n. take n (path ++ (opt_type opt ++ decimal32 t))) e
      ∙ take_past path (opt_type opt ++ decimal32 t) (suc (suc (126 - length path)))

  -- From the first PATH_MAX bytes of a commit message, all that its buffer takes, the server reads the
  -- path and the operation that the client put in, if the path has no colon and at most 125 bytes, as add_to_mq
  -- demands. The time at the end, which may be cut, is not read.
  pub parse_mesg-mesg_text :
      parse_mesg (take path_max (mesg_text path opt t))
      ≡ some (record { path = path; opt = opt_code opt })
  parse_mesg-mesg_text =
      ap parse_mesg take-mesg_text
      ∙ parse_mesg-append path (take (126 - length path) (decimal32 t)) (opt_code opt) no_colon
          (omega arith)
