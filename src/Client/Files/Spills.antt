-- ===== src/Client/Files/Spills.antt =====
-- A write after which a file no longer fits the cache.
use pacon.Base.{
  ℕ, suc, ◌+◌, ◌-◌, ◌^◌, ◌≤◌, ◌<◌, ◌==◌, ◌≡◌, refl, sym, ap, ◌∙◌, subst, true, false, some, [], ◌∷◌,
  ◌++◌, arith, ltb, if◌then◌else◌, Bytes, length, take, drop, length-append, take-append, lacks,
  c_string, c_string-lacks, run, done, when_true, when_false, when_some, when_none,
}
use pacon.Stat.{
  PaconStat, stat_inline, get_stat_flag, seri_val, length-seri_val, pstat_size, inline_max,
  deseri_inline_data,
}
use pacon.System.{Item, System}
use pacon.System.Quiet.{Quiet}
use pacon.Permission.{write_pc}
use pacon.Dmkv.{ret_ok, dmkv_get_cas, dmkv_cas}
use pacon.Dmkv.Keys.{ends_plain}
use pacon.Dmkv.Laws.{memc_get_cas-item, memc_cas-fresh}
use pacon.Client.State.{Pacon, Client, word, time}
use pacon.Client.Placing.{Put, Wrote-Put, Kept-Put}
use pacon.Client.Refine.{permit-unrestricted, with_kv-runs}
use pacon.Client.Files.{PaconFile, unset_inline}
use pacon.Client.Files.Read.{open_fd}
use pacon.Client.Files.Write.{
  Writing, fits_inline, open_until, pwrite_buf, spill, update_dfs, write_dfs, write_loop,
  pacon_write_new,
}
use pacon.Client.Files.Cached.{InCache, NoDescriptor, reads}

-- A file system that opens the path, and takes the data of the cache and then the new data.
pub record Room (sys : System) (d : sys.dfs.State) (path text buf : Bytes) (offset : ℕ)
    : Type 0 where
  pub fd : ℕ
  pub opens : (sys.dfs.open_file path 2 d).0 ≡ some fd
  pub takes_text : (sys.dfs.pwrite fd text 0 (sys.dfs.open_file path 2 d).1).0 ≡ some (length text)
  pub takes_buf :
      (sys.dfs.pwrite fd buf offset (sys.dfs.pwrite fd text 0 (sys.dfs.open_file path 2 d).1).1).0
      ≡ some (length buf)

abbrev pub after_takes :
    {sys : System} {d : sys.dfs.State} {path text buf : Bytes} {offset : ℕ}
    → Room sys d path text buf offset
    → sys.dfs.State
after_takes {sys} {d} {path} {text} {buf} {offset} k =
    (sys.dfs.pwrite k.fd buf offset (sys.dfs.pwrite k.fd text 0 (sys.dfs.open_file path 2 d).1).1).1

module _ {sys : System} (q : Quiet sys.kv) (p : Pacon) (path : Bytes) (f : PaconFile)
    (again : Writing sys) (fuel : ℕ) (i : Item) (st : PaconStat) (text junk buf : Bytes)
    (offset : ℕ) (flagged : get_stat_flag st stat_inline ≡ true)
    (sized : st.size ≡ length text) where
  spill-all :
      (d : Client sys) (fd : ℕ)
      → (sys.dfs.pwrite fd text 0 d.dfs).0 ≡ some (length text)
      → spill sys fd st (text ++ 0 ∷ junk) d
        ≡ done (true, record d { dfs = (sys.dfs.pwrite fd text 0 d.dfs).1 })
  unfolding spill
  spill-all d fd wrote =
      let room : ltb (length (text ++ 0 ∷ junk)) st.size ≡ false =
        ground (arith, length-append text (0 ∷ junk), sized) in
      let whole : take st.size (text ++ 0 ∷ junk) ≡ text =
        subst (λ k. take k (text ++ 0 ∷ junk) ≡ text) (sym sized) (take-append text (0 ∷ junk)) in
      let same : (length text == st.size) ≡ true = ground (arith, sized) in
      when_true _ _ _ flagged (
        when_false _ _ _ room (
          rw whole (
            when_some _ _ _ wrote
              (ap (λ b. done (b, record d { dfs = (sys.dfs.pwrite fd text 0 d.dfs).1 })) same))))

  pwrite_buf-all :
      (d : Client sys) (fd : ℕ)
      → (sys.dfs.pwrite fd buf offset d.dfs).0 ≡ some (length buf)
      → pwrite_buf sys (some fd) buf (length buf) offset d
        ≡ done (some (length buf), record d { dfs = (sys.dfs.pwrite fd buf offset d.dfs).1 })
  unfolding pwrite_buf
  pwrite_buf-all d fd wrote =
      let room : ltb (length (buf ++ 0 ∷ [])) (length buf) ≡ false =
        ground (arith, length-append buf (0 ∷ [])) in
      when_false _ _ _ room (
        rw (take-append buf (0 ∷ []))
          (ap (λ o. done (o, record d { dfs = (sys.dfs.pwrite fd buf offset d.dfs).1 })) wrote))

  update_dfs-updates :
      (d : Client sys) (g : PaconFile) (exetime new_size size : ℕ)
      → q.item d.kv p.kv_handle path ≡ some i
      → i.value ≡ seri_val st ++ text
      → ends_plain path ≡ true
      → (t : sys.kv.State) × (update_dfs sys again p path g i st exetime new_size size d
          ≡ done ((some size, record g { size = new_size }), record d { kv = t }))
        × Put q p.kv_handle path (seri_val st) d.kv t
  unfolding update_dfs
  update_dfs-updates d g exetime new_size size held value plain =
      let cut : take pstat_size i.value ≡ seri_val st =
        ap (take pstat_size) value
        ∙ subst (λ k. take k (seri_val st ++ text) ≡ seri_val st) (length-seri_val st)
            (take-append (seri_val st) text) in
      let (t, ran, wrote) =
        memc_cas-fresh q p.kv_handle path plain d.kv (take pstat_size i.value) i held in
      (
        t,
        run _
            (with_kv-runs sys
              (dmkv_cas sys.kv p.kv_handle path (take pstat_size i.value) i.item_cas) d ret_ok t
              ran)
            refl,
        subst (λ v. Put q p.kv_handle path v d.kv t) cut (Wrote-Put q wrote),
      )

  write_dfs-spills :
      (d : Client sys) (new_size : ℕ)
      → (k : Room sys d.dfs path text buf offset) → q.item d.kv p.kv_handle path ≡ some i
      → i.value ≡ seri_val st ++ text
      → ends_plain path ≡ true
      → (t : sys.kv.State) × (write_dfs sys again
            (suc fuel)
            p
            path
            f
            i
            st
            (text ++ 0 ∷ junk)
            buf
            (length buf)
            offset
            new_size
            d
          ≡ done (
            (some (length buf), record f { fd = some k.fd; size = new_size }),
            record d { kv = t; dfs = after_takes k; now = sys.later d.now },
          ))
        × Put q p.kv_handle path (seri_val st) d.kv t
  unfolding write_dfs open_until time
  write_dfs-spills d new_size k held value plain =
      let d₁ = record d { dfs = (sys.dfs.open_file path 2 d.dfs).1 } in
      let d₂ = record d { dfs = (sys.dfs.pwrite k.fd text 0 d₁.dfs).1 } in
      let d₃ = record d { dfs = after_takes k; now = sys.later d.now } in
      let opened : open_until sys (suc fuel) path d ≡ done (k.fd, d₁) =
        when_some _ _ _ k.opens refl in
      let (t, updates, put) =
        update_dfs-updates d₃ (record f { fd = some k.fd }) (word d.now) new_size (length buf) held
          value plain in
      let whole : (length buf == length buf) ≡ true = ground arith in
      (
        t,
        run _ opened (
            run _ (spill-all d₁ k.fd k.takes_text)
              (run _ (pwrite_buf-all d₂ k.fd k.takes_buf) (when_true _ _ _ whole updates))),
        put,
      )

fits_inline-large : (n : ℕ) → inline_max - 1 ≤ n → n < 2 ^ 31 → fits_inline n ≡ false
unfolding fits_inline
fits_inline-large n large int = ground arith

module _ {sys : System} (q : Quiet sys.kv) (p : Pacon) (c : Client sys) (path : Bytes)
    (f : PaconFile) (i : Item) (st : PaconStat) (text : Bytes)
    (cached : InCache q p c.kv path i st text) (unopened : NoDescriptor sys f)
    (flagged : get_stat_flag st stat_inline ≡ true) where
  pub pacon_write_new-spills :
      (fuel offset : ℕ) (buf : Bytes) (k : Room sys c.dfs path text buf offset)
      → lacks 0 buf ≡ true
      → offset ≤ length text
      → inline_max - 1 ≤ offset + length buf
      → offset + length buf < 2 ^ 31
      → (t : sys.kv.State) × (pacon_write_new sys
            (suc (suc fuel))
            p
            path
            f
            buf
            (length buf)
            offset
            c
          ≡ done (
            (some (length buf), record f { fd = some k.fd; size = offset + length buf }),
            record c { kv = t; dfs = after_takes k; now = sys.later c.now },
          ))
        × Put q p.kv_handle path (seri_val st) c.kv t
  unfolding pacon_write_new write_loop
  pacon_write_new-spills fuel offset buf k plain_buf inside large int =
      let (t₁, got, kept) = memc_get_cas-item q p.kv_handle path cached.plain c.kv in
      let junk = drop (length text + 1) (unset_inline sys) in
      let new_size =
        word (if ltb st.size (offset + length buf) then offset + length buf else st.size) in
      let again =
        write_loop sys (suc fuel) p path f buf (length buf) offset (text ++ 0 ∷ junk) new_size in
      let (t, writes, put) =
        write_dfs-spills q p path f again fuel i st text junk buf offset flagged cached.sized
          (record c { kv = t₁ }) new_size k (kept.same p.kv_handle path ∙ cached.held) cached.value
          cached.plain in
      let sum : new_size ≡ offset + length buf = ground (arith, cached.sized, cached.small) in
      let plain_size : ltb (length buf) (length (c_string buf)) ≡ false =
        ground (arith, c_string-lacks buf plain_buf) in
      let before_end : ltb st.size offset ≡ false = ground (arith, cached.sized) in
      let too_large : fits_inline new_size ≡ false =
        ap fits_inline sum ∙ fits_inline-large (offset + length buf) large int in
      (
        t,
        run _ (permit-unrestricted sys p path write_pc c cached.unrestricted) (
              when_false (ltb (length buf) (length (c_string buf))) _ _ plain_size (
                run _
                  (with_kv-runs sys (dmkv_get_cas sys.kv p.kv_handle path) c (some i) t₁
                    (got ∙ ap (λ o. done (o, t₁)) cached.held))
                  (when_some (deseri_inline_data i.value) _ _
                    (reads q p c path f i st text cached unopened)
                    (when_none (open_fd sys f) _ _ unopened.no_fd
                      (when_false _ _ _ before_end (when_false _ _ _ too_large writes))))))
            ∙ ap
                (λ n. done (
                  (some (length buf), record f { fd = some k.fd; size = n }),
                  record c { kv = t; dfs = after_takes k; now = sys.later c.now },
                ))
                sum,
        Kept-Put q kept put,
      )
