-- ===== src/Client/Refine/Removes.antt =====
-- `pacon_rm` against removal from the namespace.
use pacon.Base.{ℕ, suc, ◌^◌, ◌≤◌, ◌<◌, ◌≡◌, ◌≢◌, ◌∙◌, true, none, some, Bytes, length, run}
use pacon.Stat.{
  PaconStat, stat_rm, seri_val, deseri_val, set_stat_flag, get_stat_flag, has_flag-with_flag,
  IsStat,
}
use pacon.System.{Item, System}
use pacon.System.Quiet.{Quiet}
use pacon.Dmkv.Keys.{ends_plain}
use pacon.Message.{rm, mesg_text}
use pacon.Permission.{rm_pc}
use pacon.Client.State.{succeeded, Pacon, Client, word, time}
use pacon.Client.Remove.{pacon_rm}
use pacon.Client.Placing.{Kept-Put, fetch_item-cached, mark_item-writes}
use pacon.Client.Namespace.{
  Namespace, is_path, deleted, remove, unused, Known-removed, absent, removed, live,
}
use pacon.Client.Refine.{Shows, Does, Does-Put, add_to_mq-sends, permit-unrestricted}
use pacon.Client.NewStats.{set_stat_flag-IsStat}

marked-removed : (st : PaconStat) → get_stat_flag (set_stat_flag st stat_rm true) stat_rm ≡ true
unfolding get_stat_flag set_stat_flag
marked-removed st = has_flag-with_flag st.flags stat_rm stat_rm true

module _ {sys : System} (q : Quiet sys.kv) (p : Pacon) (c : Client sys) (path : Bytes) (fuel : ℕ)
    (ns : Namespace) (free : p.perm_info ≡ none) (absolute : is_path path ≡ true)
    (plain : ends_plain path ≡ true) (short : length path ≤ 125) (shown : Shows q p c ns)
    (early : c.now < 2 ^ 31) where
  marks :
      (j : Item) (st : PaconStat)
      → q.item c.kv p.kv_handle path ≡ some j
      → deseri_val j.value ≡ some st
      → IsStat st
      → Does q p c
          (pacon_rm sys (suc fuel) p path c)
          succeeded
          (remove path (mesg_text path rm (word c.now)) ns)
          (sys.later c.now)
  unfolding pacon_rm time
  marks j st e read fits =
      let (t₁, got, kept) = fetch_item-cached q p path plain (suc fuel) c j e in
      let c₁ = record c { kv = t₁ } in
      let (t₂, ran, put) =
        mark_item-writes q p path plain fuel c₁ stat_rm j st (kept.same p.kv_handle path ∙ e)
          read in
      let st' = set_stat_flag st stat_rm true in
      let fits' = set_stat_flag-IsStat st stat_rm true fits in
      let sends =
        add_to_mq-sends sys path rm c.now (record c { kv = t₂; now = sys.later c.now }) short
          early in
      Does-Put q p c path ns (mesg_text path rm (word c.now)) shown (sys.later c.now) t₂
        (seri_val st') deleted (λ cas. Known-removed st' cas fits' (marked-removed st))
        (Kept-Put q kept put)
        (run _ (permit-unrestricted sys p path rm_pc c free) (run _ got (run _ ran sends)))

  -- `pacon_rm` on a quiet cluster, in a region without batch permissions whose items under keys
  -- that begin with a slash are stats, before 2038, of an absolute path of at most 125 bytes
  -- without a slash at its end, of which the cache has an entry, removed or not: it is a removed
  -- one afterwards, and its message is queued.
  pub pacon_rm-remove :
      ns.names path ≢ unused
      → Does q p c
          (pacon_rm sys (suc fuel) p path c)
          succeeded
          (remove path (mesg_text path rm (word c.now)) ns)
          (sys.later c.now)
  pacon_rm-remove cached = elim (shown.holds.known path absolute) [
    | absent e n ↦ elim (cached n) [ ]
    | removed j st e read fits _ _ ↦ marks j st e read fits
    | live j st e read fits _ _ ↦ marks j st e read fits
  ]
