-- ===== src/Client/Refine/Histories.antt =====
-- Runs of several operations of one client on one path of a quiet cluster.
use pacon.Base.{
  ℕ, suc, ◌^◌, ◌<◌, ◌≡◌, ◌≢◌, ◌∙◌, sym, ap, subst, true, none, some, List, [], ◌∷◌, ◌++◌, arith,
  Bytes, bytes_eq_refl, done,
}
use pacon.Stat.{
  PaconStat, stat_type, stat_file_created, get_stat_flag, has_flag-with_flag, has_flag_zero,
  set_stat_flag,
}
use pacon.System.{System}
use pacon.System.Quiet.{Quiet}
use pacon.Message.{create, mkdir, rm, mesg_text}
use pacon.Client.State.{succeeded, Pacon, Client, word}
use pacon.Client.Create.{new_stat, created_stat, pacon_create, pacon_mkdir}
use pacon.Client.Remove.{pacon_rm}
use pacon.Client.Attr.{pacon_getattr, stat_of_value}
use pacon.Client.Namespace.{
  Name, unused, deleted, entry, Namespace, renamed, with_name, insert-unused, insert_silent-deleted,
  remove,
}
use pacon.Client.Refine.{Ready, Shows, Does}
use pacon.Client.Refine.Creates.{pacon_create-insert, pacon_mkdir-insert_silent}
use pacon.Client.Refine.Removes.{pacon_rm-remove}
use pacon.Client.Refine.Looks.{
  looked_up-entry, looked_up-deleted, shown_stat, pacon_getattr-looked_up,
}

-- The path itself has been renamed.
renamed_self : (path : Bytes) (n : Name) (ns : Namespace) → renamed path n ns path ≡ n
renamed_self path n ns = ground (arith, bytes_eq_refl path)

deleted_used : {n : Name} → n ≡ deleted → n ≢ unused
deleted_used e u = cc

entry_used : {n : Name} {st : PaconStat} → n ≡ entry st → n ≢ unused
entry_used e u = cc

-- A new file has nothing in the file system.
created_stat-shown :
    (sys : System) (c : Client sys) (path : Bytes) (st : PaconStat) (mode t : ℕ)
    → shown_stat sys c path st (created_stat sys mode t)
      ≡ stat_of_value sys st (created_stat sys mode t)
unfolding shown_stat created_stat new_stat set_stat_flag get_stat_flag
created_stat-shown sys c path st mode t =
    ground (
      arith,
      has_flag-with_flag 0 stat_type stat_file_created true,
      has_flag_zero stat_file_created,
    )

module _ {sys : System} (q : Quiet sys.kv) (p : Pacon) (c : Client sys) (path : Bytes) (fuel : ℕ)
    (ns : Namespace) (ready : Ready p path c.dir_check_table) (shown : Shows q p c ns) where
  -- Ready after a run that keeps the table.
  still : {table : List Bytes} → table ≡ c.dir_check_table → Ready p path table
  still e = subst (λ t. Ready p path t) (sym e) ready

  -- On a quiet cluster, in a region without batch permissions whose items under keys that begin
  -- with a slash are stats, before 2038, for an absolute path of at most 125 bytes without a slash
  -- at its end, whose parent is checked: a file that is made over nothing is seen by
  -- `pacon_getattr` as it was made, with the mode and the time of the creation, its type flag set
  -- and no size; the caller keeps its `open_counter` and `fd`.
  pub create-getattr :
      (mode : ℕ) (st : PaconStat)
      → c.now < 2 ^ 31
      → ns.names path ≡ unused
      → (c' : Client sys) × (c'' : Client sys) × (pacon_create sys (suc fuel) p path mode c
          ≡ done (succeeded, c'))
        × (pacon_getattr sys fuel p path st c'
            ≡ done (some (stat_of_value sys st (created_stat sys p.df_f_mode c.now)), c''))
  create-getattr mode st early free =
      let file = created_stat sys p.df_f_mode c.now in
      let mesg = mesg_text path create (word c.now) in
      let made =
        subst
          (λ r. Does q p c (pacon_create sys (suc fuel) p path mode c) r.0 r.1 (sys.later c.now))
          (insert-unused path file mesg ns free)
          (pacon_create-insert q p c path fuel ns ready shown early mode) in
      let ns' = with_name path (entry file) mesg ns in
      let there = renamed_self path (entry file) ns in
      let looked =
        pacon_getattr-looked_up q p made.after path fuel ns' ready.unrestricted ready.absolute
          ready.plain made.shows st (entry_used there) in
      (
        made.after,
        looked.after,
        made.ran,
        looked.ran
            ∙ ap (λ r. done (r, looked.after))
                (sym (looked_up-entry sys made.after path st file ns' there)
                  ∙ ap some (created_stat-shown sys made.after path st p.df_f_mode c.now)),
      )

  -- On a quiet cluster, in a region without batch permissions whose items under keys that begin
  -- with a slash are stats, before 2038, for an absolute path of at most 125 bytes without a slash
  -- at its end, whose parent is checked and of which the cache has an entry: after `pacon_rm`,
  -- `pacon_getattr` finds nothing.
  pub rm-getattr :
      (st : PaconStat)
      → c.now < 2 ^ 31
      → ns.names path ≢ unused
      → (c' : Client sys) × (c'' : Client sys) × (pacon_rm sys (suc fuel) p path c
          ≡ done (succeeded, c'))
        × (pacon_getattr sys fuel p path st c' ≡ done (none, c''))
  rm-getattr st early cached =
      let rmd =
        pacon_rm-remove q p c path fuel ns ready.unrestricted ready.absolute ready.plain ready.short
          shown early cached in
      let ns' = remove path (mesg_text path rm (word c.now)) ns in
      let gone = renamed_self path deleted ns in
      let looked =
        pacon_getattr-looked_up q p rmd.after path fuel ns' ready.unrestricted ready.absolute
          ready.plain rmd.shows st (deleted_used gone) in
      (
        rmd.after,
        looked.after,
        rmd.ran,
        looked.ran
            ∙ ap (λ r. done (r, looked.after))
                (sym (looked_up-deleted sys rmd.after path st ns' gone)),
      )

  -- On a quiet cluster, in a region without batch permissions whose items under keys that begin
  -- with a slash are stats, before 2038, for an absolute path of at most 125 bytes without a slash
  -- at its end, whose parent is checked and of which the cache has an entry: `pacon_rm` and then
  -- `pacon_mkdir` of it both succeed, but of the two only the removal is queued.
  pub rm-mkdir :
      (mode : ℕ)
      → c.now < 2 ^ 31
      → sys.later c.now < 2 ^ 31
      → ns.names path ≢ unused
      → (c' : Client sys) × (c'' : Client sys) × (pacon_rm sys (suc fuel) p path c
          ≡ done (succeeded, c'))
        × (pacon_mkdir sys (suc fuel) p path mode c' ≡ done (succeeded, c''))
        × (c''.sent ≡ c.sent ++ mesg_text path rm (word c.now) ∷ [])
  rm-mkdir mode early early' cached =
      let rmd =
        pacon_rm-remove q p c path fuel ns ready.unrestricted ready.absolute ready.plain ready.short
          shown early cached in
      let ns' = remove path (mesg_text path rm (word c.now)) ns in
      let gone = renamed_self path deleted ns in
      let at = rmd.after.now in
      let dir = new_stat sys p.df_dir_mode at (sys.later at) (sys.later (sys.later at)) 0 in
      let mesg = mesg_text path mkdir (word at) in
      let made =
        subst
          (λ r.
            Does q p rmd.after (pacon_mkdir sys (suc fuel) p path mode rmd.after) r.0 r.1
              (sys.later (sys.later (sys.later at))))
          (insert_silent-deleted path dir mesg ns' gone)
          (pacon_mkdir-insert_silent q p rmd.after path fuel ns' (still rmd.same_table) rmd.shows
            (subst (λ t. t < 2 ^ 31) (sym rmd.clock) early') mode) in
      (
        rmd.after,
        made.after,
        rmd.ran,
        made.ran,
        made.shows.queued ∙ ap (λ l. l ++ mesg_text path rm (word c.now) ∷ []) (sym shown.queued),
      )
