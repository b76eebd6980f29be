-- ===== src/Server/Inline/Laws.antt =====
-- What the server reads and writes of the data that a client has put into an item.
use pacon.Base.{
  ℕ, ◌+◌, ◌<◌, ◌≡◌, ◌≢◌, refl, sym, ap, ◌∙◌, subst, Bool, true, false, ◌&&◌, some, none, ◌∷◌, ◌++◌,
  arith, ltb, leb, if◌then◌else◌, Bytes, length, take, take-append, lacks, c_string-lacks,
  replicate, pure, crash, when_some, done, fault, run, Bool-cases, inl, inr, ◌==◌, Outcome,
}
use pacon.System.{Item, System}
use pacon.System.Quiet.{Quiet}
use pacon.Dmkv.{dmkv_get}
use pacon.Dmkv.Keys.{ends_plain}
use pacon.Dmkv.Laws.{Kept, memc_get-some}
use pacon.Stat.{PaconStat, pstat_size, seri_val, IsStat, deseri_val-seri_val, drop-text}
use pacon.Server.State.{Server, Serve, Committed, ok, error}
use pacon.Server.Runs.{with_cache-runs}
use pacon.Server.Inline.{
  server_inline_max, server_stat_size, server_deseri_inline_data, write_inline, commit_write,
}

-- The server can hold the struct and a text of this length.
abbrev pub server_holds : ℕ → Bytes → Bool
server_holds slack text = leb 4 slack && ltb (length text) server_inline_max

module _ (slack : ℕ) (s : PaconStat) (text : Bytes) (is : IsStat s)
    (no_nul : lacks 0 text ≡ true) where
  server-reads :
      server_deseri_inline_data slack (seri_val s ++ text)
      ≡ (if server_holds slack text then some (s, text) else none)
  unfolding server_deseri_inline_data
  server-reads = elim (Bool-cases (leb 4 slack)) [
    | inl room ↦
        let e : ltb (server_stat_size + slack) pstat_size ≡ false = ground arith in
        rw (e, server_deseri_inline_data)
          (rw (deseri_val-seri_val s text is)
            (rw (drop-text s text) (rw (c_string-lacks text no_nul) (rw room refl))))
    | inr no_room ↦
        let e : ltb (server_stat_size + slack) pstat_size ≡ true = ground arith in
        rw (e, server_deseri_inline_data) (rw no_room refl)
  ]

module _ (sys : System) (w : Server sys) (fd n : ℕ) (s : PaconStat) (text : Bytes)
    (sized : s.size ≡ length text) (small : length text < server_inline_max) (some_bytes : n ≢ 0)
    (wrote : (sys.dfs.pwrite fd text 0 w.dfs).0 ≡ some n) where
  nonzero :
      {r : Outcome (Committed × Server sys)} {w : Server sys}
      → done (ok, w) ≡ r
      → pure (if n == 0 then error else ok) w ≡ r
  nonzero e = ground arith

  written : (unset : Bytes) → take s.size (text ++ 0 ∷ unset) ≡ text
  written unset =
      subst (λ k. take k (text ++ 0 ∷ unset) ≡ text) (sym sized) (take-append text (0 ∷ unset))

  write_inline-writes :
      write_inline sys fd s text w
      ≡ done (ok, record w { dfs = sys.dfs.close fd (sys.dfs.pwrite fd text 0 w.dfs).1 })
  unfolding write_inline
  write_inline-writes =
      let unset = replicate server_inline_max sys.indeterminate in
      let fits : ltb server_inline_max s.size ≡ false = ground arith in
      rw (fits, write_inline) (rw (written unset) (when_some _ _ _ wrote (nonzero refl)))

write_value :
    (sys : System) (w : Server sys) (fd n : ℕ) (s : PaconStat) (text : Bytes)
    → s.size ≡ length text
    → n ≢ 0
    → (sys.dfs.pwrite fd text 0 w.dfs).0 ≡ some n
    → (val : Bytes)
    → server_deseri_inline_data sys.slack val
      ≡ (if server_holds sys.slack text then some (s, text) else none)
    → (elim (server_deseri_inline_data sys.slack val) as (λ _. Serve sys Committed) [
      | none ↦ crash
      | some (st1, inline_data1) ↦ write_inline sys fd st1 inline_data1
    ])
        w
      ≡ (if server_holds sys.slack text
          then done (ok, record w { dfs = sys.dfs.close fd (sys.dfs.pwrite fd text 0 w.dfs).1 })
          else fault)
write_value sys w fd n s text sized some_bytes wrote val reads =
    elim (Bool-cases (server_holds sys.slack text)) [
      | inl holds ↦
          let writes =
            write_inline-writes sys w fd n s text sized (ground arith) some_bytes wrote in
          cc
      | inr large ↦ cc
    ]

module _ {sys : System} (q : Quiet sys.kv) (w : Server sys) (path : Bytes) (fd n : ℕ) (i : Item)
    (s : PaconStat) (text : Bytes) (plain : ends_plain path ≡ true) (is : IsStat s)
    (no_nul : lacks 0 text ≡ true) (sized : s.size ≡ length text)
    (opens : (sys.dfs.open_file path 2 w.dfs).0 ≡ some fd)
    (cached : q.item w.kv w.handle path ≡ some i) (holds : i.value ≡ seri_val s ++ text) where
  abbrev opened : sys.dfs.State
  opened = (sys.dfs.open_file path 2 w.dfs).1

  -- The commit of a write on a quiet cluster, for a file that opens and whose item holds a struct and
  -- as many bytes of data, without a NUL, as the struct says: with four bytes of slack behind the
  -- server's struct and less than 468 bytes of data, exactly the data is written at the start of the
  -- file, which is closed; otherwise the server overruns its struct or its buffer.
  pub commit_write-writes :
      n ≢ 0
      → (sys.dfs.pwrite fd text 0 (sys.dfs.open_file path 2 w.dfs).1).0 ≡ some n
      → (t : sys.kv.State) × Kept q w.kv t
        × (commit_write sys path w ≡ (
            if server_holds sys.slack text
            then done (
              ok,
              record w {
                kv = t;
                dfs =
                    sys.dfs.close fd
                      (sys.dfs.pwrite fd text 0 (sys.dfs.open_file path 2 w.dfs).1).1;
              },
            )
            else fault))
  unfolding commit_write
  commit_write-writes some_bytes wrote =
      let (t, got, kept) = memc_get-some q w.handle path plain w.kv i cached in
      let w₁ = record w { kv = t; dfs = (sys.dfs.open_file path 2 w.dfs).1 } in
      (
        t,
        kept,
        when_some _ _ _ opens (
            run _
              (with_cache-runs sys (dmkv_get sys.kv w.handle path)
                (record w { dfs = (sys.dfs.open_file path 2 w.dfs).1 }) (some i.value) t got)
              (write_value sys w₁ fd n s text sized some_bytes wrote i.value (
                ap (server_deseri_inline_data sys.slack) holds
                ∙ server-reads sys.slack s text is no_nul))),
      )
