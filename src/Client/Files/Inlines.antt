-- ===== src/Client/Files/Inlines.antt =====
-- Writing a file whose data is in the cache.
use pacon.Base.{
  ℕ, suc, ◌+◌, ◌-◌, ◌%◌, ◌^◌, ◌≤◌, ◌<◌, ◌≡◌, refl, sym, ap, ◌∙◌, subst, true, false, some, [], ◌∷◌,
  ◌++◌, arith, ltb, if◌then◌else◌, Bytes, length, take, drop, length-replicate, replicate, lacks,
  c_string, c_string-lacks, run, done, when_true, when_false, when_some, when_none,
}
use pacon.Stat.{
  PaconStat, stat_inline, set_stat_flag, seri_val, pstat_size, inline_max, deseri_inline_data,
  seri_inline_data, seri_inline_data-take, seri_inline_data_cut,
}
use pacon.System.{Item, System}
use pacon.System.Quiet.{Quiet}
use pacon.Message.{write, mesg_text}
use pacon.Permission.{write_pc}
use pacon.Dmkv.{ret_ok, dmkv_get_cas, dmkv_cas}
use pacon.Dmkv.Keys.{ends_plain}
use pacon.Dmkv.Laws.{memc_get_cas-item, memc_cas-fresh}
use pacon.Client.State.{Pacon, Client, word, time}
use pacon.Client.Placing.{Put, Wrote-Put, Kept-Put}
use pacon.Client.Refine.{add_to_mq-sends, permit-unrestricted, with_kv-runs}
use pacon.Client.Files.{PaconFile, unset_inline}
use pacon.Client.Files.Read.{open_fd}
use pacon.Client.Files.Write.{
  Writing, splice, fits_inline, queue_write, store_inline, write_cached, write_loop,
  pacon_write_new,
}
use pacon.Client.Files.Splices.{written, length-written, written-lacks, splice-written}
use pacon.Client.Files.Cached.{InCache, NoDescriptor, reads}

-- The stat of a file in the cache after a write at `t` that leaves `n` bytes.
unfoldable pub written_stat : PaconStat → ℕ → ℕ → PaconStat
written_stat st t n =
    set_stat_flag (record st { atime = word t; mtime = word t; size = n }) stat_inline true

fits_inline-small : (n : ℕ) → n < inline_max - 1 → fits_inline n ≡ true
unfolding fits_inline
fits_inline-small n small = ground arith

module _ {sys : System} (q : Quiet sys.kv) (p : Pacon) (path : Bytes) (f : PaconFile)
    (again : Writing sys) (plain : ends_plain path ≡ true) (short : length path ≤ 125) where
  store_inline-stores :
      (d : Client sys) (i : Item) (st : PaconStat) (text more : Bytes) (size : ℕ)
      → q.item d.kv p.kv_handle path ≡ some i
      → lacks 0 text ≡ true
      → length text < inline_max
      → d.now < 2 ^ 31
      → (t : sys.kv.State) × (store_inline sys again p path f i.item_cas st
            (text ++ 0 ∷ more)
            (pstat_size + length text)
            (length text)
            size
            d
          ≡ done (
            (some size, record f { size = length text }),
            record d {
              kv = t;
              now = sys.later d.now;
              sent = d.sent ++ mesg_text path write (word d.now) ∷ [];
            },
          ))
        × Put q p.kv_handle path (seri_val st ++ text) d.kv t
  unfolding store_inline queue_write time
  store_inline-stores d i st text more size held no_nul small early =
      let val = replicate (pstat_size + inline_max) (sys.indeterminate % 256) in
      let (v, made, kept_part) =
        seri_inline_data-take st text val no_nul
          (omega (arith, length-replicate (pstat_size + inline_max) (sys.indeterminate % 256))) in
      let (t, ran, wrote) =
        memc_cas-fresh q p.kv_handle path plain d.kv (take (pstat_size + length text) v) i held in
      let sends =
        add_to_mq-sends sys path write d.now (record d { kv = t; now = sys.later d.now }) short
          early in
      (
        t,
        when_some (seri_inline_data st (text ++ 0 ∷ more) val) _ _
            (seri_inline_data_cut st text more val no_nul ∙ made)
            (run _
              (with_kv-runs sys
                (dmkv_cas sys.kv p.kv_handle path (take (pstat_size + length text) v) i.item_cas) d
                ret_ok t ran)
              (run _ sends refl)),
        subst (λ u. Put q p.kv_handle path u d.kv t) kept_part (Wrote-Put q wrote),
      )

  write_cached-writes :
      (d : Client sys) (i : Item) (st : PaconStat) (text junk buf : Bytes) (offset : ℕ)
      → q.item d.kv p.kv_handle path ≡ some i
      → lacks 0 text ≡ true
      → lacks 0 buf ≡ true
      → st.size ≡ length text
      → offset ≤ length text
      → length (written text offset buf) < inline_max
      → sys.later d.now < 2 ^ 31
      → (t : sys.kv.State) × (write_cached sys again p path f i.item_cas st
            (text ++ 0 ∷ junk)
            buf
            (length buf)
            offset
            (length (written text offset buf))
            d
          ≡ done (
            (some (length buf), record f { size = length (written text offset buf) }),
            record d {
              kv = t;
              now = sys.later (sys.later d.now);
              sent = d.sent ++ mesg_text path write (word (sys.later d.now)) ∷ [];
            },
          ))
        × Put q p.kv_handle path
            (seri_val (written_stat st d.now (length (written text offset buf)))
              ++ written text offset buf)
            d.kv
            t
  unfolding write_cached time written_stat
  write_cached-writes d i st text junk buf offset held no_nul plain_buf sized inside small early =
      let unset = unset_inline sys in
      let n = length (written text offset buf) in
      let (rest, spliced) =
        splice-written text buf junk unset offset inside
          (omega (arith, length-replicate inline_max (sys.indeterminate % 256))) in
      let made : splice unset (text ++ 0 ∷ junk) (buf ++ 0 ∷ []) (length buf) offset st.size n
          ≡ some (written text offset buf ++ 0 ∷ rest) =
        subst
          (λ k.
            splice unset (text ++ 0 ∷ junk) (buf ++ 0 ∷ []) (length buf) offset k n
            ≡ some (written text offset buf ++ 0 ∷ rest))
          (sym sized) spliced in
      let (t, stores, put) =
        store_inline-stores (record d { now = sys.later d.now }) i (written_stat st d.now n)
          (written text offset buf) rest (length buf) held
          (written-lacks text buf offset inside no_nul plain_buf) small early in
      (t, when_some _ _ _ made stores, put)

module _ {sys : System} (q : Quiet sys.kv) (p : Pacon) (c : Client sys) (path : Bytes)
    (f : PaconFile) (i : Item) (st : PaconStat) (text : Bytes)
    (cached : InCache q p c.kv path i st text) (unopened : NoDescriptor sys f) where
  -- On a quiet cluster, in a region without batch permissions, before 2038: a write to a file
  -- without a descriptor, of this region and with a path of at most 125 bytes without a slash at
  -- its end, whose data is in the cache, that begins in the data or at its end, and leaves less
  -- than 4051 bytes, puts the file with the bytes written over it into the cache, with the new size
  -- and times, and queues one message for the servers. Neither the data nor the bytes written hold
  -- a NUL.
  pub pacon_write_new-written :
      (fuel offset : ℕ) (buf : Bytes)
      → lacks 0 buf ≡ true
      → offset ≤ length text
      → length (written text offset buf) < inline_max - 1
      → length path ≤ 125
      → sys.later c.now < 2 ^ 31
      → (t : sys.kv.State) × (pacon_write_new sys (suc fuel) p path f buf (length buf) offset c
          ≡ done (
            (some (length buf), record f { size = length (written text offset buf) }),
            record c {
              kv = t;
              now = sys.later (sys.later c.now);
              sent = c.sent ++ mesg_text path write (word (sys.later c.now)) ∷ [];
            },
          ))
        × Put q p.kv_handle path
            (seri_val (written_stat st c.now (length (written text offset buf)))
              ++ written text offset buf)
            c.kv
            t
  unfolding pacon_write_new write_loop
  pacon_write_new-written fuel offset buf plain_buf inside small short early =
      let n = length (written text offset buf) in
      let (t₁, got, kept) = memc_get_cas-item q p.kv_handle path cached.plain c.kv in
      let junk = drop (length text + 1) (unset_inline sys) in
      let new_size =
        word (if ltb st.size (offset + length buf) then offset + length buf else st.size) in
      let again =
        write_loop sys fuel p path f buf (length buf) offset (text ++ 0 ∷ junk) new_size in
      let (t, writes, put) =
        write_cached-writes q p path f again cached.plain short (record c { kv = t₁ }) i st text
          junk buf offset (kept.same p.kv_handle path ∙ cached.held) cached.no_nul plain_buf
          cached.sized inside (omega arith) early in
      let grown : new_size ≡ n =
        ground (arith, length-written text buf offset inside, cached.sized) in
      let plain_size : ltb (length buf) (length (c_string buf)) ≡ false =
        ground (arith, c_string-lacks buf plain_buf) in
      let before_end : ltb st.size offset ≡ false = ground (arith, cached.sized) in
      let fitting : fits_inline new_size ≡ true =
        ap fits_inline grown ∙ fits_inline-small n small in
      let grown_writes =
        subst
          (λ k.
            write_cached sys again p path f i.item_cas st (text ++ 0 ∷ junk) buf (length buf) offset
              k (record c { kv = t₁ })
            ≡ done (
              (some (length buf), record f { size = n }),
              record c {
                kv = t;
                now = sys.later (sys.later c.now);
                sent = c.sent ++ mesg_text path write (word (sys.later c.now)) ∷ [];
              },
            ))
          (sym grown) writes in
      (
        t,
        run _ (permit-unrestricted sys p path write_pc c cached.unrestricted) (
            when_false (ltb (length buf) (length (c_string buf))) _ _ plain_size (
              run _
                (with_kv-runs sys (dmkv_get_cas sys.kv p.kv_handle path) c (some i) t₁
                  (got ∙ ap (λ o. done (o, t₁)) cached.held))
                (when_some (deseri_inline_data i.value) _ _
                  (reads q p c path f i st text cached unopened)
                  (when_none (open_fd sys f) _ _ unopened.no_fd
                    (when_false _ _ _ before_end (when_true _ _ _ fitting grown_writes)))))),
        Kept-Put q kept put,
      )
