-- ===== src/Client/Refine/Writes.antt =====
-- `pacon_create_write` over a file that is there.
use pacon.Base.{
  when_true, when_some, ℕ, suc, ◌+◌, ◌-◌, ◌%◌, ◌^◌, ◌<◌, ◌≡◌, refl, ap, true, [], ◌∷◌, ◌++◌, arith,
  Bytes, length, lacks, length-replicate, replicate, take, lt→ltb, run, ◌≢◌,
}
use pacon.Stat.{
  PaconStat, set_stat_flag, stat_type, stat_inline, seri_inline_data,
  deseri_inline_data-seri_inline_data, pstat_size, inline_max,
}
use pacon.System.{System}
use pacon.System.Quiet.{Quiet}
use pacon.Message.{create, mesg_text}
use pacon.Permission.{create_pc}
use pacon.Client.State.{succeeded, Pacon, Client, word, time}
use pacon.Client.Create.{new_stat, pacon_create_write}
use pacon.Client.Placing.{place-occupied}
use pacon.Client.Namespace.{
  Name, unused, deleted, entry, Namespace, absent, removed, live, Holds-Kept,
}
use pacon.Client.Refine.{
  Ready, Shows, Does, add_to_mq-sends, check_parent_dir-Ready, permit-unrestricted,
  mode_at-unrestricted,
}
use pacon.Client.NewStats.{new_stat-IsStat, set_stat_flag-IsStat}

entry_used : {n : Name} {st : PaconStat} → n ≡ entry st → n ≢ unused
entry_used e u = cc

entry_kept : {n : Name} {st : PaconStat} → n ≡ entry st → n ≢ deleted
entry_kept e u = cc

module _ {sys : System} (q : Quiet sys.kv) (p : Pacon) (c : Client sys) (path : Bytes) (fuel : ℕ)
    (ns : Namespace) (ready : Ready p path c.dir_check_table) (shown : Shows q p c ns)
    (early : c.now < 2 ^ 31) where
  -- `pacon_create_write` on a quiet cluster, in a region without batch permissions whose items
  -- under keys that begin with a slash are stats, before 2038, of an absolute path of at most 125
  -- bytes without a slash at its end, whose parent is checked, with a text without a NUL and a size
  -- both below 4051: over a file that is there, it leaves the file as it is, reports success and
  -- queues the message of a creation.
  pub pacon_create_write-entry :
      (mode : ℕ) (buf : Bytes) (size : ℕ) (old : PaconStat)
      → lacks 0 buf ≡ true
      → length buf < inline_max - 1
      → size < inline_max - 1
      → ns.names path ≡ entry old
      → Does q p c
          (pacon_create_write sys (suc fuel) p path mode buf size c)
          (succeeded, true)
          (record { names = ns.names; queue = ns.queue ++ mesg_text path create (word c.now) ∷ [] })
          (sys.later (sys.later (sys.later c.now)))
  unfolding pacon_create_write time
  pacon_create_write-entry mode buf size old no_nul small fits there =
      let now = sys.later (sys.later (sys.later c.now)) in
      let c₁ = record c { now = now } in
      let blank =
        new_stat sys p.df_f_mode c.now (sys.later c.now) (sys.later (sys.later c.now)) size in
      let st = set_stat_flag (set_stat_flag blank stat_type true) stat_inline true in
      let is = set_stat_flag-IsStat _ stat_inline true (
        set_stat_flag-IsStat _ stat_type true (
          new_stat-IsStat sys p.df_f_mode c.now (sys.later c.now) (sys.later (sys.later c.now))
            size)) in
      let buffer = replicate (pstat_size + inline_max) (sys.indeterminate % 256) in
      let (v, written, _) =
        deseri_inline_data-seri_inline_data st buf buffer is no_nul (omega arith)
          (omega (arith, length-replicate (pstat_size + inline_max) (sys.indeterminate % 256))) in
      let free = permit-unrestricted sys p path create_pc c ready.unrestricted in
      let mode_free =
        mode_at-unrestricted sys p (λ info. info.sp_f_modes) p.df_f_mode 0 c ready.unrestricted in
      let checked = check_parent_dir-Ready (suc fuel) p path c ready in
      elim (shown.holds.known path ready.absolute) [
        | absent e n ↦ elim (entry_used there n) [ ]
        | removed j _ e read _ r n ↦ elim (entry_kept there n) [ ]
        | live j st' e read _ r n ↦
            let (t, ran, kept) =
              place-occupied q p path ready.plain fuel c₁ (take (pstat_size + size) v) j st' e read
                r in
            let sends =
              add_to_mq-sends sys path create c.now (record c₁ { kv = t }) ready.short early in
            record {
              after = record c₁ {
                kv = t;
                sent = c.sent ++ mesg_text path create (word c.now) ∷ [];
              };
              ran = run _ free (
                  run _ mode_free (
                    run _ checked (
                      when_true _ _ _ (lt→ltb size (inline_max - 1) fits) (
                        when_some (seri_inline_data st buf buffer) _ _ written
                          (run _ ran (run _ sends refl))))));
              shows = record {
                holds = Holds-Kept q p.kv_handle shown.holds kept;
                queued = ap (λ l. l ++ mesg_text path create (word c.now) ∷ []) shown.queued;
              };
              same_table = refl;
              clock = refl;
            }
      ]
