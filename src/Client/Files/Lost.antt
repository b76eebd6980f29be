-- ===== src/Client/Files/Lost.antt =====
-- Reading a file after a write with which it no longer fits the cache.
use pacon.Base.{
  ℕ, suc, ◌+◌, ◌-◌, ◌%◌, ◌^◌, ◌≤◌, ◌<◌, ◌≡◌, refl, sym, ap, ◌∙◌, true, false, none, some, [], ◌∷◌,
  append-nil, arith, ltb, Bytes, length, take, drop, length-replicate, length-drop, lacks, run,
  done, when_true, when_false, when_some, when_none,
}
use pacon.Stat.{
  PaconStat, stat_inline, get_stat_flag, seri_val, IsStat, inline_max, deseri_inline_data,
  deseri_inline_data-parts,
}
use pacon.System.{Item, System}
use pacon.System.Quiet.{Quiet}
use pacon.Permission.{read_pc}
use pacon.Dmkv.{dmkv_get_cas}
use pacon.Dmkv.Keys.{ends_plain}
use pacon.Dmkv.Laws.{memc_get_cas-item}
use pacon.Client.State.{Pacon, Client}
use pacon.Client.Placing.{Put-item}
use pacon.Client.Refine.{permit-unrestricted, with_kv-runs}
use pacon.Client.Files.{PaconFile, strcpy, unset_inline}
use pacon.Client.Files.Read.{open_fd, read_inline, read_new_here, pacon_read_new}
use pacon.Client.Files.Write.{pacon_write_new}
use pacon.Client.Files.Cached.{InCache, NoDescriptor}
use pacon.Client.Files.Spills.{Room, after_takes, pacon_write_new-spills}

module _ {sys : System} (q : Quiet sys.kv) (p : Pacon) (c : Client sys) (path : Bytes)
    (g : PaconFile) (cas : ℕ) (st : PaconStat) (is : IsStat st)
    (flagged : get_stat_flag st stat_inline ≡ true) (unrestricted : p.perm_info ≡ none)
    (plain : ends_plain path ≡ true) (unopened : NoDescriptor sys g)
    (held : q.item c.kv p.kv_handle path
      ≡ some (record { value = seri_val st; item_cas = cas })) where
  bare : deseri_inline_data (seri_val st) ≡ some (st, [])
  unfolding lacks
  bare =
      ap deseri_inline_data (sym (append-nil (seri_val st)))
      ∙ deseri_inline_data-parts st [] is refl (omega arith)

  -- A read from the start of a file whose struct has no data behind it.
  read_new-bare :
      (m : ℕ)
      → m < st.size
      → m < inline_max
      → (t : sys.kv.State) × (pacon_read_new sys p path g (suc m) 0 c
          ≡ done ((some (0 ∷ take m (drop 1 (unset_inline sys))), g), record c { kv = t }))
  unfolding pacon_read_new read_new_here read_inline
  read_new-bare m inside small =
      let (t, got, kept) = memc_get_cas-item q p.kv_handle path plain c.kv in
      let whole : ltb st.size (0 + suc m) ≡ false = ground arith in
      let stored = strcpy (unset_inline sys) [] in
      let room : ltb (length stored) (0 + suc m) ≡ false = ground (
        arith,
        length-drop 1 (unset_inline sys),
        length-replicate inline_max (sys.indeterminate % 256),
      ) in
      (
        t,
        run _ (permit-unrestricted sys p path read_pc c unrestricted) (
            when_false (ltb 0 g.hit_remote_cr) _ _ (ground (arith, unopened.local)) (
              when_none (open_fd sys g) _ _ unopened.no_fd (
                run _
                  (with_kv-runs sys (dmkv_get_cas sys.kv p.kv_handle path) c
                    (some (record { value = seri_val st; item_cas = cas })) t
                    (got ∙ ap (λ o. done (o, t)) held))
                  (when_some (deseri_inline_data (seri_val st)) _ _ bare (
                    when_true _ _ _ flagged
                      (when_false _ _ _ whole (when_false _ _ _ room refl))))))),
      )

module _ {sys : System} (q : Quiet sys.kv) (p : Pacon) (c : Client sys) (path : Bytes)
    (f g : PaconFile) (i : Item) (st : PaconStat) (text : Bytes)
    (cached : InCache q p c.kv path i st text) (unopened : NoDescriptor sys f)
    (other : NoDescriptor sys g) (flagged : get_stat_flag st stat_inline ≡ true) where
  -- A write to a file in the cache with which it no longer fits there goes to the file system, behind
  -- the data of the cache, if the file system takes both. The cache then has the old struct without
  -- the data: whoever opened the file before and reads from its start gets a NUL and bytes that were
  -- never set.
  pub write_new-read_spilled :
      (fuel offset m : ℕ) (buf : Bytes) (k : Room sys c.dfs path text buf offset)
      → lacks 0 buf ≡ true
      → offset ≤ length text
      → inline_max - 1 ≤ offset + length buf
      → offset + length buf < 2 ^ 31
      → m < length text
      → (t u : sys.kv.State) × (pacon_write_new sys
            (suc (suc fuel))
            p
            path
            f
            buf
            (length buf)
            offset
            c
          ≡ done (
            (some (length buf), record f { fd = some k.fd; size = offset + length buf }),
            record c { kv = t; dfs = after_takes k; now = sys.later c.now },
          ))
        × (pacon_read_new sys p path g
              (suc m)
              0
              (record c { kv = t; dfs = after_takes k; now = sys.later c.now })
            ≡ done (
              (some (0 ∷ take m (drop 1 (unset_inline sys))), g),
              record c { kv = u; dfs = after_takes k; now = sys.later c.now },
            ))
  write_new-read_spilled fuel offset m buf k plain_buf inside large int low =
      let (t, ran, put) =
        pacon_write_new-spills q p c path f i st text cached unopened flagged fuel offset buf k
          plain_buf inside large int in
      let (u, read) =
        read_new-bare q p (record c { kv = t; dfs = after_takes k; now = sys.later c.now }) path g
          put.put_cas st cached.stat flagged cached.unrestricted cached.plain other (Put-item q put)
          m (omega (arith, cached.sized)) (omega (arith, cached.small)) in
      (t, u, ran, read)
