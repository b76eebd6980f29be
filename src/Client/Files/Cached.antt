-- ===== src/Client/Files/Cached.antt =====
-- Files whose data is in the cache, and reading them.
use pacon.Base.{
  ℕ, ◌+◌, ◌≤◌, ◌<◌, ◌≡◌, ap, ◌∙◌, true, false, none, some, ◌∷◌, ◌++◌, arith, ltb, if◌then◌else◌,
  Bytes, length, take, drop, length-append, length-drop, take_within, drop_within, lacks,
  Bool-cases, inl, inr, run, done, when_true, when_false, when_some, when_none,
}
use pacon.Stat.{
  PaconStat, stat_inline, get_stat_flag, seri_val, IsStat, inline_max, deseri_inline_data,
  deseri_inline_data-parts,
}
use pacon.System.{Item, Memcached, System}
use pacon.System.Quiet.{Quiet}
use pacon.Permission.{read_pc}
use pacon.Dmkv.{dmkv_get_cas}
use pacon.Dmkv.Keys.{ends_plain}
use pacon.Dmkv.Laws.{Kept, memc_get_cas-item}
use pacon.Client.State.{Pacon, Client}
use pacon.Client.Refine.{permit-unrestricted, with_kv-runs}
use pacon.Client.Files.{PaconFile, strcpy, unset_inline}
use pacon.Client.Files.Read.{open_fd, read_inline, read_new_here, pacon_read_new}

-- A file with its data in the cache, in a region without batch permissions.
pub record InCache {m : Memcached} (q : Quiet m) (p : Pacon) (s : m.State) (path : Bytes) (i : Item)
    (st : PaconStat) (text : Bytes) : Type 0 where
  pub unrestricted : p.perm_info ≡ none
  pub plain : ends_plain path ≡ true
  pub held : q.item s p.kv_handle path ≡ some i
  pub value : i.value ≡ seri_val st ++ text
  pub stat : IsStat st
  pub no_nul : lacks 0 text ≡ true
  pub sized : st.size ≡ length text
  pub small : length text < inline_max

-- A file that is open, and not in the file system.
pub record NoDescriptor (sys : System) (f : PaconFile) : Type 0 where
  pub no_fd : open_fd sys f ≡ none
  pub local : f.hit_remote_cr ≡ 0

module _ {sys : System} (q : Quiet sys.kv) (p : Pacon) (c : Client sys) (path : Bytes)
    (f : PaconFile) (i : Item) (st : PaconStat) (text : Bytes)
    (cached : InCache q p c.kv path i st text) (unopened : NoDescriptor sys f) where
  pub reads : deseri_inline_data i.value ≡ some (st, text)
  reads =
      ap deseri_inline_data cached.value
      ∙ deseri_inline_data-parts st text cached.stat cached.no_nul cached.small

  read_inline-part :
      (size offset : ℕ) (d : Client sys)
      → read_inline sys st text f size offset d
        ≡ done (
          (
            if ltb (length text) (offset + size) then none else some (take size (drop offset text)),
            f,
          ),
          d,
        )
  unfolding read_inline
  read_inline-part size offset d =
      let stored = strcpy (unset_inline sys) text in
      elim (Bool-cases (ltb (length text) (offset + size))) [
        | inl out ↦
            let e : ltb st.size (offset + size) ≡ true = ground (arith, cached.sized, out) in
            when_true _ _ _ e (cc)
        | inr part ↦
            let within : offset + size ≤ length text = ground arith in
            let e : ltb st.size (offset + size) ≡ false = ground (arith, cached.sized, part) in
            let room : ltb (length stored) (offset + size) ≡ false =
              ground (arith, length-append text (0 ∷ drop (length text + 1) (unset_inline sys))) in
            let same : take size (drop offset stored) ≡ take size (drop offset text) =
              ap (take size) (
                drop_within offset text (0 ∷ drop (length text + 1) (unset_inline sys))
                  (omega arith))
              ∙ take_within size (drop offset text) (0 ∷ drop (length text + 1) (unset_inline sys))
                  (omega (arith, length-drop offset text)) in
            when_false _ _ _ e (when_false _ _ _ room (cc))
      ]

  -- Of a file in the cache, `pacon_read_new` reads any part that lies in it, and refuses the others.
  pub pacon_read_new-part :
      (size offset : ℕ)
      → get_stat_flag st stat_inline ≡ true
      → (t : sys.kv.State) × (pacon_read_new sys p path f size offset c
          ≡ done (
            (
              if ltb (length text) (offset + size)
                  then none
                  else some (take size (drop offset text)),
              f,
            ),
            record c { kv = t },
          ))
        × Kept q c.kv t
  unfolding pacon_read_new read_new_here
  pacon_read_new-part size offset flagged =
      let (t, got, kept) = memc_get_cas-item q p.kv_handle path cached.plain c.kv in
      (
        t,
        run _ (permit-unrestricted sys p path read_pc c cached.unrestricted) (
            when_false (ltb 0 f.hit_remote_cr) _ _ (ground (arith, unopened.local)) (
              let e = read_inline-part size offset (record c { kv = t }) in
              when_none (open_fd sys f) _ _ unopened.no_fd (
                run _
                  (with_kv-runs sys (dmkv_get_cas sys.kv p.kv_handle path) c (some i) t
                    (got ∙ ap (λ o. done (o, t)) cached.held))
                  (when_some (deseri_inline_data i.value) _ _ reads (when_true _ _ _ flagged e))))),
        kept,
      )
