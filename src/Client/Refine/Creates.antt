-- ===== src/Client/Refine/Creates.antt =====
-- `pacon_create` and `pacon_mkdir` against insertion.
use pacon.Base.{ℕ, suc, ◌^◌, ◌<◌, refl, sym, Bytes, run, subst}
use pacon.Stat.{seri_val}
use pacon.System.{System}
use pacon.System.Quiet.{Quiet}
use pacon.Message.{create, mkdir, mesg_text}
use pacon.Client.State.{Status, Pacon, Client, word, time}
use pacon.Permission.{create_pc, mkdir_pc}
use pacon.Client.Create.{new_stat, created_stat, pacon_create, pacon_mkdir}
use pacon.Client.Placing.{place-new, place-removed, place-occupied}
use pacon.Client.Namespace.{
  Namespace, insert, insert-unused, insert-deleted, insert-entry, insert_silent,
  insert_silent-unused, insert_silent-deleted, insert_silent-entry, absent, removed, live,
}
use pacon.Client.Refine.{
  Ready, Shows, Does, Does-nothing, add_to_mq-sends, check_parent_dir-Ready, Does-set, Does-add,
  permit-unrestricted, mode_at-unrestricted,
}
use pacon.Client.NewStats.{created_stat-IsStat, created_stat-live, new_stat-IsStat, new_stat-live}

module _ {sys : System} (q : Quiet sys.kv) (p : Pacon) (c : Client sys) (path : Bytes) (fuel : ℕ)
    (ns : Namespace) (ready : Ready p path c.dir_check_table) (shown : Shows q p c ns)
    (early : c.now < 2 ^ 31) where
  -- `pacon_create` on a quiet cluster, in a region without batch permissions whose items under keys
  -- that begin with a slash are stats, before 2038, of an absolute path of at most 125 bytes
  -- without a slash at its end, whose parent is checked: a path in use is refused and nothing
  -- changes; where nothing is cached, or a removed entry, the new file is there and its message is
  -- queued.
  pub pacon_create-insert :
      (mode : ℕ)
      → let (s, ns') =
          insert path
            (created_stat sys p.df_f_mode c.now)
            (mesg_text path create (word c.now))
            ns in
        Does q p c (pacon_create sys (suc fuel) p path mode c) s ns' (sys.later c.now)
  unfolding pacon_create time
  pacon_create-insert mode =
      let st = created_stat sys p.df_f_mode c.now in
      let mesg = mesg_text path create (word c.now) in
      let fits = created_stat-IsStat sys p.df_f_mode c.now in
      let alive = created_stat-live sys p.df_f_mode c.now in
      let c₁ = record c { now = sys.later c.now } in
      let checked = check_parent_dir-Ready (suc fuel) p path c₁ ready in
      let sends = λ (t : sys.kv.State).
        add_to_mq-sends sys path create c.now (record c₁ { kv = t }) ready.short early in
      let free = permit-unrestricted sys p path create_pc c ready.unrestricted in
      let mode_free =
        mode_at-unrestricted sys p (λ info. info.sp_f_modes) p.df_f_mode 0 c ready.unrestricted in
      let Goal = λ (r : Status × Namespace).
        Does q p c (pacon_create sys (suc fuel) p path mode c) r.0 r.1 (sys.later c.now) in
      elim (shown.holds.known path ready.absolute) [
        | absent e n ↦
            let (t, ran, put) = place-new q p path ready.plain fuel c₁ (seri_val st) e in
            subst Goal (sym (insert-unused path st mesg ns n)) (
              Does-add q p c path ns mesg shown (sys.later c.now) t st fits alive put
                (run _ free (run _ mode_free (run _ checked (run _ ran (sends t))))))
        | removed j old e read _ r n ↦
            let (t, ran, put) =
              place-removed q p path ready.plain fuel c₁ (seri_val st) j old e read r in
            subst Goal (sym (insert-deleted path st mesg ns n)) (
              Does-add q p c path ns mesg shown (sys.later c.now) t st fits alive put
                (run _ free (run _ mode_free (run _ checked (run _ ran (sends t))))))
        | live j old e read _ r n ↦
            let (t, ran, kept) =
              place-occupied q p path ready.plain fuel c₁ (seri_val st) j old e read r in
            subst Goal (sym (insert-entry path st mesg ns n)) (
              Does-nothing q p c path ns mesg shown (sys.later c.now) t kept
                (run _ free (run _ mode_free (run _ checked (run _ ran refl)))))
      ]

  -- `pacon_mkdir` on a quiet cluster, in a region without batch permissions whose items under keys
  -- that begin with a slash are stats, before 2038, of an absolute path of at most 125 bytes
  -- without a slash at its end, whose parent is checked: a directory where nothing is cached is
  -- made, and its message is queued; where a name is there, it is refused. Over a removed entry it
  -- is made and success is returned, but no message is queued.
  pub pacon_mkdir-insert_silent :
      (mode : ℕ)
      → let st =
          new_stat sys p.df_dir_mode c.now (sys.later c.now) (sys.later (sys.later c.now)) 0 in
        let (s, ns') = insert_silent path st (mesg_text path mkdir (word c.now)) ns in
        Does q p c
          (pacon_mkdir sys (suc fuel) p path mode c)
          s
          ns'
          (sys.later (sys.later (sys.later c.now)))
  unfolding pacon_mkdir time insert_silent
  pacon_mkdir-insert_silent mode =
      let now = sys.later (sys.later (sys.later c.now)) in
      let st = new_stat sys p.df_dir_mode c.now (sys.later c.now) (sys.later (sys.later c.now)) 0 in
      let mesg = mesg_text path mkdir (word c.now) in
      let fits =
        new_stat-IsStat sys p.df_dir_mode c.now (sys.later c.now) (sys.later (sys.later c.now)) 0 in
      let alive =
        new_stat-live sys p.df_dir_mode c.now (sys.later c.now) (sys.later (sys.later c.now)) 0 in
      let c₁ = record c { now = now } in
      let free = permit-unrestricted sys p path mkdir_pc c ready.unrestricted in
      let mode_free =
        mode_at-unrestricted sys p (λ info. info.sp_dir_modes) p.df_dir_mode 0 c
          ready.unrestricted in
      let checked = check_parent_dir-Ready (suc fuel) p path c ready in
      let sends = λ (t : sys.kv.State).
        add_to_mq-sends sys path mkdir c.now (record c₁ { kv = t }) ready.short early in
      let Goal = λ (r : Status × Namespace).
        Does q p c (pacon_mkdir sys (suc fuel) p path mode c) r.0 r.1 now in
      elim (shown.holds.known path ready.absolute) [
        | absent e n ↦
            let (t, ran, put) = place-new q p path ready.plain fuel c₁ (seri_val st) e in
            subst Goal (sym (insert_silent-unused path st mesg ns n)) (
              Does-add q p c path ns mesg shown now t st fits alive put
                (run _ free (run _ mode_free (run _ checked (run _ ran (sends t))))))
        | removed j old e read _ r n ↦
            let (t, ran, put) =
              place-removed q p path ready.plain fuel c₁ (seri_val st) j old e read r in
            subst Goal (sym (insert_silent-deleted path st mesg ns n)) (
              Does-set q p c path ns mesg shown now t st fits alive put
                (run _ free (run _ mode_free (run _ checked (run _ ran refl)))))
        | live j old e read _ r n ↦
            let (t, ran, kept) =
              place-occupied q p path ready.plain fuel c₁ (seri_val st) j old e read r in
            subst Goal (sym (insert_silent-entry path st mesg ns n)) (
              Does-nothing q p c path ns mesg shown now t kept
                (run _ free (run _ mode_free (run _ checked (run _ ran refl)))))
      ]
