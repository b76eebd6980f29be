-- ===== src/Client/Files/Logs.antt =====
-- What `pacon_fsync` puts into the log.
use pacon.Base.{
  ℕ, suc, ◌+◌, ◌^◌, ◌≤◌, ◌<◌, ◌≡◌, ap, ◌∙◌, false, none, some, [], ◌∷◌, ◌++◌, arith, ltb, leb, ◌||◌,
  Bytes, length, take, drop, length-append, length-drop, refl, take_past, drop_within, run, done,
  when_false, when_some, when_none,
}
use pacon.Stat.{copy_into-eq, PaconStat, inline_max, deseri_inline_data}
use pacon.System.{Item, System}
use pacon.System.Quiet.{Quiet}
use pacon.Message.{fsync, path_max, fsync_path, mesg_text}
use pacon.Permission.{write_pc}
use pacon.Dmkv.{dmkv_get_cas}
use pacon.Dmkv.Laws.{Kept, memc_get_cas-item}
use pacon.Client.State.{succeeded, Pacon, Client, word, into_path}
use pacon.Client.Refine.{add_to_mq-sends, permit-unrestricted, with_kv-runs}
use pacon.Client.Files.{PaconFile, in_dfs, strcpy, unset_inline}
use pacon.Client.Files.Sync.{add_log_size, overwritten, log_data, sync_inline, pacon_fsync}
use pacon.Client.Files.Cached.{InCache, NoDescriptor, reads}

module _ (sys : System) (path text address : Bytes) where
  -- The address, the data from its ninth byte on, and what lies behind it.
  abbrev pub logged : Bytes
  logged =
      address ++ (drop 8 text ++ take (length path) (0 ∷ drop (length text + 1) (unset_inline sys)))

module _ (sys : System) (path text address : Bytes) (eight : length address ≡ 8)
    (enough : 8 ≤ length text) where
  overwritten-address :
      overwritten sys (strcpy (unset_inline sys) text) (some address)
      ≡ some (address ++ drop 8 (strcpy (unset_inline sys) text))
  unfolding overwritten
  overwritten-address =
      let old = strcpy (unset_inline sys) text in
      let room : length address ≤ length old =
        omega (arith, length-append text (0 ∷ drop (length text + 1) (unset_inline sys))) in
      copy_into-eq [] old address room ∙ ap (λ n. some (address ++ drop n old)) eight

  logged-eq :
      take (length path + length text) (address ++ drop 8 (strcpy (unset_inline sys) text))
      ≡ logged sys path text address
  logged-eq =
      let behind = 0 ∷ drop (length text + 1) (unset_inline sys) in
      let lengths : length path + length text
          ≡ length address + (length (drop 8 text) + length path) =
        omega (arith, length-drop 8 text) in
      ap (λ l. take (length path + length text) (address ++ l)) (drop_within 8 text behind enough)
      ∙ (ap (λ k. take k (address ++ (drop 8 text ++ behind))) lengths
          ∙ (take_past address (drop 8 text ++ behind) (length (drop 8 text) + length path)
              ∙ ap (λ l. address ++ l) (take_past (drop 8 text) behind (length path))))

  into_path-fits : (s : Bytes) (d : Client sys) → length s ≤ 125 → into_path sys s d ≡ done (s, d)
  into_path-fits s d short = ground arith

  add_log_size-adds :
      (n : ℕ) (d : Client sys)
      → d.log_size + n < 2 ^ 31
      → add_log_size sys n d ≡ done (tt, record d { log_size = d.log_size + n })
  unfolding add_log_size
  add_log_size-adds n d int =
      let e : leb (2 ^ 31) (d.log_size + n) ≡ false = ground arith in rw (e, add_log_size) refl

  sync_inline-logs :
      (p : Pacon) (st : PaconStat) (m : ℕ) (d : Client sys)
      → sys.memalign d.dfs (length path + length text) ≡ some address
      → length path + length text ≤ inline_max
      → (sys.dfs.write p.fsync_log_fd (logged sys path text address) d.dfs).0 ≡ some (suc m)
      → d.log_size + suc m < 2 ^ 31
      → length (fsync_path path p.fsync_logfile_path d.log_size (suc m)) ≤ 125
      → st.ctime < 2 ^ 31
      → sync_inline sys p path st text d
        ≡ done (
          succeeded,
          record d {
            dfs = (sys.dfs.write p.fsync_log_fd (logged sys path text address) d.dfs).1;
            log_size = d.log_size + suc m;
            sent =
                d.sent
                ++ mesg_text
                    (fsync_path path p.fsync_logfile_path d.log_size (suc m))
                    fsync
                    (word st.ctime)
                  ∷ [];
          },
        )
  unfolding sync_inline log_data
  sync_inline-logs p st m d given fits wrote int short early =
      let room : (leb (path_max + inline_max) (length path + length text)
            || ltb inline_max (length path + length text))
          ≡ false =
        ground arith in
      let mesg = fsync_path path p.fsync_logfile_path d.log_size (suc m) in
      let d₁ = record d {
        dfs = (sys.dfs.write p.fsync_log_fd (logged sys path text address) d.dfs).1;
      } in
      let d₂ = record d₁ { log_size = d.log_size + suc m } in
      let changed =
        ap (overwritten sys (strcpy (unset_inline sys) text)) given ∙ overwritten-address in
      when_false _ _ _ room (
        when_some _ _ _ changed (
          rw logged-eq (
            when_some _ _ _ wrote (
              run _ (add_log_size-adds (suc m) d₁ int) (
                run _ (into_path-fits mesg d₂ short)
                  (add_to_mq-sends sys mesg fsync st.ctime d₂ short early))))))

module _ {sys : System} (q : Quiet sys.kv) (p : Pacon) (c : Client sys) (path : Bytes)
    (f : PaconFile) (i : Item) (st : PaconStat) (text : Bytes)
    (cached : InCache q p c.kv path i st text) (unopened : NoDescriptor sys f) where
  -- A sync of a file without a descriptor whose data, at least eight bytes without a NUL, is in the
  -- cache, on a quiet cluster and without batch permissions: the log takes the data without its first
  -- eight bytes, in whose place it gets the address that posix_memalign gives, and as many bytes
  -- behind it as the path has. One message goes to the servers, with the size that the log had, an
  -- `int` like the new size, and the number of bytes that it has taken. The message's path has at most
  -- 125 bytes, path and data have at most 4052 bytes, and the file was made before 2038.
  pub pacon_fsync-logs :
      (m : ℕ) (address : Bytes)
      → f.fd ≡ none
      → in_dfs st ≡ false
      → 8 ≤ length text
      → length path + length text ≤ inline_max
      → sys.memalign c.dfs (length path + length text) ≡ some address
      → length address ≡ 8
      → (sys.dfs.write p.fsync_log_fd (logged sys path text address) c.dfs).0 ≡ some (suc m)
      → c.log_size + suc m < 2 ^ 31
      → length (fsync_path path p.fsync_logfile_path c.log_size (suc m)) ≤ 125
      → st.ctime < 2 ^ 31
      → (t : sys.kv.State) × (pacon_fsync sys p path f c
          ≡ done (
            succeeded,
            record c {
              kv = t;
              dfs = (sys.dfs.write p.fsync_log_fd (logged sys path text address) c.dfs).1;
              log_size = c.log_size + suc m;
              sent =
                  c.sent
                  ++ mesg_text
                      (fsync_path path p.fsync_logfile_path c.log_size (suc m))
                      fsync
                      (word st.ctime)
                    ∷ [];
            },
          ))
        × Kept q c.kv t
  unfolding pacon_fsync
  pacon_fsync-logs m address no_fd here enough fits given eight wrote int short early =
      let (t, got, kept) = memc_get_cas-item q p.kv_handle path cached.plain c.kv in
      let c₁ = record c { kv = t } in
      let logs =
        sync_inline-logs sys path text address eight enough p st m c₁ given fits wrote int short
          early in
      (
        t,
        run _ (permit-unrestricted sys p path write_pc c cached.unrestricted) (
            when_none f.fd _ _ no_fd (
              run _
                (with_kv-runs sys (dmkv_get_cas sys.kv p.kv_handle path) c (some i) t
                  (got ∙ ap (λ o. done (o, t)) cached.held))
                (when_some (deseri_inline_data i.value) _ _
                  (reads q p c path f i st text cached unopened) (when_false _ _ _ here logs)))),
        kept,
      )
