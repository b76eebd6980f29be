-- ===== src/Client/Files/Histories.antt =====
-- What follows a write to a file in the cache: a read, and the commit on the server.
use pacon.Base.{
  ℕ, suc, ◌+◌, ◌-◌, ◌^◌, ◌≤◌, ◌<◌, ◌≡◌, ◌≢◌, refl, ap, ◌∙◌, true, none, some, [], ◌∷◌, ◌++◌, arith,
  ltb, if◌then◌else◌, Bytes, length, take, drop, lacks, done, fault,
}
use pacon.Stat.{
  PaconStat, stat_inline, set_stat_flag, get_stat_flag, seri_val, IsStat, inline_max,
  has_flag-with_flag,
}
use pacon.System.{Item, System}
use pacon.System.Quiet.{Quiet}
use pacon.Message.{write, mesg_text}
use pacon.Client.State.{Pacon, Client, word}
use pacon.Client.Placing.{Put, Put-item}
use pacon.Client.NewStats.{set_stat_flag-IsStat}
use pacon.Client.Files.{PaconFile}
use pacon.Client.Files.Read.{pacon_read_new}
use pacon.Client.Files.Write.{pacon_write_new}
use pacon.Client.Files.Splices.{written, length-written, written-lacks, written-part}
use pacon.Client.Files.Cached.{InCache, NoDescriptor, pacon_read_new-part}
use pacon.Client.Files.Inlines.{written_stat, pacon_write_new-written}
use pacon.Server.State.{Server, ok}
use pacon.Server.Inline.{commit_write}
use pacon.Server.Inline.Laws.{server_holds, commit_write-writes}

pub written_stat-IsStat :
    (st : PaconStat) (t n : ℕ) → IsStat st → n < 2 ^ 32 → IsStat (written_stat st t n)
unfolding written_stat
written_stat-IsStat st t n is small =
    set_stat_flag-IsStat (record st { atime = word t; mtime = word t; size = n }) stat_inline true
      (record {
        flags = is.flags;
        mode = is.mode;
        ctime = is.ctime;
        atime = omega arith;
        mtime = omega arith;
        size = small;
        uid = is.uid;
        gid = is.gid;
        nlink = is.nlink;
        open_counter = is.open_counter;
        fd = is.fd;
      })

pub written_stat-inline :
    (st : PaconStat) (t n : ℕ) → get_stat_flag (written_stat st t n) stat_inline ≡ true
unfolding written_stat set_stat_flag get_stat_flag
written_stat-inline st t n = has_flag-with_flag st.flags stat_inline stat_inline true

written_stat-size : (st : PaconStat) (t n : ℕ) → (written_stat st t n).size ≡ n
unfolding written_stat set_stat_flag
written_stat-size st t n = refl

module _ {sys : System} (q : Quiet sys.kv) (p : Pacon) (c : Client sys) (path : Bytes)
    (f : PaconFile) (i : Item) (st : PaconStat) (text : Bytes)
    (cached : InCache q p c.kv path i st text) (unopened : NoDescriptor sys f) (fuel offset : ℕ)
    (buf : Bytes) (plain_buf : lacks 0 buf ≡ true) (inside : offset ≤ length text)
    (small : length (written text offset buf) < inline_max - 1) (short : length path ≤ 125)
    (early : sys.later c.now < 2 ^ 31) where
  abbrev after_file : PaconFile
  after_file = record f { size = length (written text offset buf) }

  abbrev after_write : sys.kv.State → Client sys
  after_write t = record c {
    kv = t;
    now = sys.later (sys.later c.now);
    sent = c.sent ++ mesg_text path write (word (sys.later c.now)) ∷ [];
  }

  abbrev stat_after : PaconStat
  stat_after = written_stat st c.now (length (written text offset buf))

  InCache-written :
      {t : sys.kv.State}
      → (put : Put q p.kv_handle path (seri_val stat_after ++ written text offset buf) c.kv t)
      → InCache q p t path
          (record {
            value = seri_val stat_after ++ written text offset buf;
            item_cas = put.put_cas;
          })
          stat_after
          (written text offset buf)
  InCache-written put = record {
    unrestricted = cached.unrestricted;
    plain = cached.plain;
    held = Put-item q put;
    value = refl;
    stat =
        written_stat-IsStat st c.now (length (written text offset buf)) cached.stat (omega arith);
    no_nul = written-lacks text buf offset inside cached.no_nul plain_buf;
    sized = written_stat-size st c.now (length (written text offset buf));
    small = omega arith;
  }

  -- A process reads what it has written, under the conditions of such a write: a quiet cluster, no
  -- batch permissions, a file without a descriptor, of this region and with a path of at most 125
  -- bytes without a slash at its end, whose data is in the cache, a write that begins in the data
  -- or at its end and leaves less than 4051 bytes, no NUL in the data or in the bytes written, and
  -- a time before 2038.
  pub write_new-read_new :
      (t u : sys.kv.State) × (pacon_write_new sys (suc fuel) p path f buf (length buf) offset c
        ≡ done (
          (some (length buf), record f { size = length (written text offset buf) }),
          record c {
            kv = t;
            now = sys.later (sys.later c.now);
            sent = c.sent ++ mesg_text path write (word (sys.later c.now)) ∷ [];
          },
        ))
      × (pacon_read_new sys p path
            (record f { size = length (written text offset buf) })
            (length buf)
            offset
            (record c {
              kv = t;
              now = sys.later (sys.later c.now);
              sent = c.sent ++ mesg_text path write (word (sys.later c.now)) ∷ [];
            })
          ≡ done (
            (some buf, record f { size = length (written text offset buf) }),
            record c {
              kv = u;
              now = sys.later (sys.later c.now);
              sent = c.sent ++ mesg_text path write (word (sys.later c.now)) ∷ [];
            },
          ))
  write_new-read_new =
      let (t, ran, put) =
        pacon_write_new-written q p c path f i st text cached unopened fuel offset buf plain_buf
          inside small short early in
      let stored = InCache-written put in
      let (u, read, kept) =
        pacon_read_new-part q p (after_write t) path after_file _ stat_after
          (written text offset buf) stored
          (record { no_fd = unopened.no_fd; local = unopened.local }) (length buf) offset
          (written_stat-inline st c.now (length (written text offset buf))) in
      let whole : (if ltb (length (written text offset buf)) (offset + length buf)
            then none
            else some (take (length buf) (drop offset (written text offset buf))))
          ≡ some buf =
        ground
          (arith, length-written text buf offset inside, written-part text buf offset inside) in
      (t, u, ran, read ∙ ap (λ o. done ((o, after_file), after_write u)) whole)

  -- The commit of a write, under the same conditions, on a server that sees the cache of the
  -- writer, opens the file and writes to it: with four bytes of slack behind the server's struct
  -- and less than 468 bytes of data, exactly the data of the file goes to the file; otherwise the
  -- server overruns its struct or its buffer.
  pub write_new-commit_write :
      (w : Server sys) (fd n : ℕ)
      → (sys.dfs.open_file path 2 w.dfs).0 ≡ some fd
      → n ≢ 0
      → (sys.dfs.pwrite fd (written text offset buf) 0 (sys.dfs.open_file path 2 w.dfs).1).0
        ≡ some n
      → (t u : sys.kv.State) × (pacon_write_new sys (suc fuel) p path f buf (length buf) offset c
          ≡ done (
            (some (length buf), record f { size = length (written text offset buf) }),
            record c {
              kv = t;
              now = sys.later (sys.later c.now);
              sent = c.sent ++ mesg_text path write (word (sys.later c.now)) ∷ [];
            },
          ))
        × (commit_write sys path (record w { kv = t; handle = p.kv_handle }) ≡ (
            if server_holds sys.slack (written text offset buf)
            then done (
              ok,
              record w {
                kv = u;
                handle = p.kv_handle;
                dfs =
                    sys.dfs.close fd
                      (sys.dfs.pwrite fd
                        (written text offset buf)
                        0
                        (sys.dfs.open_file path 2 w.dfs).1).1;
              },
            )
            else fault))
  write_new-commit_write w fd n opens some_bytes wrote =
      let (t, ran, put) =
        pacon_write_new-written q p c path f i st text cached unopened fuel offset buf plain_buf
          inside small short early in
      let stored = InCache-written put in
      let (u, kept, commits) =
        commit_write-writes q (record w { kv = t; handle = p.kv_handle }) path fd n _ stat_after
          (written text offset buf) cached.plain stored.stat stored.no_nul stored.sized opens
          stored.held refl some_bytes wrote in
      (t, u, ran, commits)
