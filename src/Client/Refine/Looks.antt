-- ===== src/Client/Refine/Looks.antt =====
-- `pacon_getattr` against lookup in the namespace.
use pacon.Base.{
  ℕ, ◌≡◌, ◌≢◌, true, false, not, ◌&&◌, Option, none, some, arith, Bytes, done, run, subst,
  if◌then◌else◌, Bool-cases, inl, inr,
}
use pacon.Stat.{PaconStat, stat_rm, stat_inline, stat_file_created, deseri_val, get_stat_flag}
use pacon.System.{System}
use pacon.System.Quiet.{Quiet}
use pacon.Dmkv.{dmkv_get}
use pacon.Dmkv.Keys.{ends_plain}
use pacon.Dmkv.Laws.{memc_get-some}
use pacon.Permission.{read_pc}
use pacon.Client.State.{Pacon, Client, stat}
use pacon.Client.Attr.{stat_of_value, refreshed, getattr_cached, getattr_here, pacon_getattr}
use pacon.Client.Namespace.{Namespace, is_path, unused, deleted, entry, absent, removed, live}
use pacon.Client.Refine.{Shows, Does, Does-reads, permit-unrestricted, with_kv-runs}

-- What the caller sees of an entry: its own `open_counter` and `fd` stay, and the times and size of a
-- file that has been made in the file system and has no inline data come from there.
unfoldable pub shown_stat : (sys : System) → Client sys → Bytes → PaconStat → PaconStat → PaconStat
unfolding stat_of_value refreshed
shown_stat sys c path st found =
    if not (get_stat_flag found stat_inline) && get_stat_flag found stat_file_created
    then refreshed sys (stat_of_value sys st found) (sys.dfs.stat path c.dfs).0
    else stat_of_value sys st found

unfoldable pub looked_up :
    (sys : System) → Client sys → Bytes → PaconStat → Namespace → Option PaconStat
unfolding shown_stat
looked_up sys c path st ns = elim (ns.names path) [
  | entry found ↦ some (shown_stat sys c path st found)
  | _ ↦ none
]

pub looked_up-entry :
    (sys : System) (c : Client sys) (path : Bytes) (st found : PaconStat) (ns : Namespace)
    → ns.names path ≡ entry found
    → some (shown_stat sys c path st found) ≡ looked_up sys c path st ns
unfolding looked_up
looked_up-entry sys c path st found ns n = cc

pub looked_up-deleted :
    (sys : System) (c : Client sys) (path : Bytes) (st : PaconStat) (ns : Namespace)
    → ns.names path ≡ deleted
    → none ≡ looked_up sys c path st ns
unfolding looked_up
looked_up-deleted sys c path st ns n = cc

-- The stored struct decides the answer.
module _ (sys : System) (path : Bytes) (st : PaconStat) (v : Bytes) (found : PaconStat)
    (c : Client sys) where
  cached-removed :
      deseri_val v ≡ some found
      → get_stat_flag found stat_rm ≡ true
      → getattr_cached sys path st v c ≡ done (none, c)
  unfolding getattr_cached stat_of_value get_stat_flag
  cached-removed read gone = ground arith

  cached-live :
      deseri_val v ≡ some found
      → get_stat_flag found stat_rm ≡ false
      → (d : sys.dfs.State) × (getattr_cached sys path st v c
          ≡ done (some (shown_stat sys c path st found), record c { dfs = d }))
  unfolding getattr_cached stat_of_value get_stat_flag shown_stat stat
  cached-live read alive =
      elim (Bool-cases
        (not (get_stat_flag found stat_inline) && get_stat_flag found stat_file_created)) [
          | inl e ↦ ((sys.dfs.stat path c.dfs).1, ground arith)
          | inr e ↦ (c.dfs, ground arith)
        ]

module _ {sys : System} (q : Quiet sys.kv) (p : Pacon) (c : Client sys) (path : Bytes) (fuel : ℕ)
    (ns : Namespace) (free : p.perm_info ≡ none) (absolute : is_path path ≡ true)
    (plain : ends_plain path ≡ true) (shown : Shows q p c ns) where
  -- `pacon_getattr` on a quiet cluster, in a region without batch permissions whose items under
  -- keys that begin with a slash are stats, of an absolute path without a slash at its end, of
  -- which the cache has an entry: the answer is the entry, with the times and the size that the
  -- file system gives if it has been made there and has no inline data, or -1 if it is a removed
  -- one. Names and queue stay. The caller keeps its `open_counter` and `fd`.
  pub pacon_getattr-looked_up :
      (st : PaconStat)
      → ns.names path ≢ unused
      → Does q p c (pacon_getattr sys fuel p path st c) (looked_up sys c path st ns) ns c.now
  unfolding pacon_getattr getattr_here shown_stat
  pacon_getattr-looked_up st cached = elim (shown.holds.known path absolute) [
    | absent e n ↦ elim (cached n) [ ]
    | removed j found e read fits gone n ↦
        let (t, got, kept) = memc_get-some q p.kv_handle path plain c.kv j e in
        let c₁ = record c { kv = t } in
        subst (λ r. Does q p c (pacon_getattr sys fuel p path st c) r ns c.now)
          (looked_up-deleted sys c path st ns n)
          (Does-reads q p c ns shown t c.dfs kept (
            run _ (permit-unrestricted sys p path read_pc c free) (
              run _ (with_kv-runs sys (dmkv_get sys.kv p.kv_handle path) c (some j.value) t got)
                (cached-removed sys path st j.value found c₁ read gone))))
    | live j found e read fits alive n ↦
        let (t, got, kept) = memc_get-some q p.kv_handle path plain c.kv j e in
        let (d, answer) = cached-live sys path st j.value found (record c { kv = t }) read alive in
        subst (λ r. Does q p c (pacon_getattr sys fuel p path st c) r ns c.now)
          (looked_up-entry sys c path st found ns n)
          (Does-reads q p c ns shown t d kept (
            run _ (permit-unrestricted sys p path read_pc c free) (
              run _ (with_kv-runs sys (dmkv_get sys.kv p.kv_handle path) c (some j.value) t got)
                answer)))
  ]
