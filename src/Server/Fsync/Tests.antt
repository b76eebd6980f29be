-- ===== src/Server/Fsync/Tests.antt =====
-- The text of an fsync of "/f" with the log "/l".
use pacon.Base.{◌≡◌, refl, some, [], ◌∷◌, Bytes, lacks, done, arith}
use pacon.Base.Int.{pos}
use pacon.Paths.{slash}
use pacon.Server.Fsync.{parse_log_mesg}
use pacon.Message.{fsync_path}
use pacon.Server.Fsync.Laws.{parse_log_mesg-fsync_path}

abbrev f_path : Bytes
f_path = slash ∷ b'f' ∷ []

abbrev log_file : Bytes
log_file = slash ∷ b'l' ∷ []

parse_log_mesg-fsync_path_example :
    parse_log_mesg (fsync_path f_path log_file 40 12)
    ≡ done (
        some (
          record { f_path = f_path; log_text = log_file; gap = 3; offset = pos 40; size = pos 12 },
          3,
        ))
unfolding lacks
parse_log_mesg-fsync_path_example =
    parse_log_mesg-fsync_path f_path log_file 40 12 refl refl (ground arith) (ground arith)
      (ground arith)
