-- ===== src/Server/Commit/Effects.antt =====
-- What a committed change does to the cache and to the file system.
use pacon.Base.{
  ℕ, zero, suc, ◌<◌, ◌≡◌, ◌≢◌, refl, sym, ◌∙◌, subst, Bool, true, false, Option, none, some, arith,
  Bytes, bytes_eq, done, run, if◌then◌else◌, ==_refl, Bool-cases, inl, inr, Cmd, pure,
}
use pacon.System.{Item, System, Memcached}
use pacon.System.Quiet.{Quiet}
use pacon.Dmkv.{dmkv_get, dmkv_del, ret_ok}
use pacon.Dmkv.Keys.{ends_plain}
use pacon.Dmkv.Laws.{Dropped, memc_get-some, memc_get-none, memc_del-drops}
use pacon.Client.Namespace.{
  Name, is_path, unused, Namespace, renamed, Known, absent, removed, live, Holds, Holds-Kept,
}
use pacon.Server.State.{Server, Committed, ok}
use pacon.Server.Runs.{with_cache-runs}
use pacon.Server.Commit.{rm_change, attempt, retry_commit, commit_rm}

-- The file system after `n` attempts at a removal.
abbrev pub after_tries : (sys : System) → Bytes → ℕ → sys.dfs.State → sys.dfs.State
after_tries sys path zero d = d
after_tries sys path (suc n) d = after_tries sys path n (sys.dfs.remove path d).1

module _ (sys : System) (path : Bytes) where
  -- A retried removal ends with the first attempt that succeeds: with `n` failures before it, any
  -- fuel above `n` is enough.
  pub retry_commit-ends :
      (n fuel : ℕ) (w : Server sys)
      → n < fuel
      → ((j : ℕ) → j < n → (sys.dfs.remove path (after_tries sys path j w.dfs)).0 ≡ false)
      → (sys.dfs.remove path (after_tries sys path n w.dfs)).0 ≡ true
      → retry_commit sys fuel rm_change path w
        ≡ done (ok, record w { dfs = after_tries sys path (suc n) w.dfs })
  unfolding retry_commit attempt
  retry_commit-ends n zero w enough fails succeeds = ground arith
  retry_commit-ends zero (suc fuel) w enough fails succeeds = ground arith
  retry_commit-ends (suc n) (suc fuel) w enough fails succeeds =
      let w₁ = record w { dfs = (sys.dfs.remove path w.dfs).1 } in
      let rest =
        retry_commit-ends n fuel w₁ (omega arith) (λ j low. fails (suc j) (omega arith)) succeeds in
      ground (arith, fails zero (omega arith), rest)

module _ {m : Memcached} (q : Quiet m) (h : ℕ) (path : Bytes) (ns : Namespace) where
  Holds-Dropped :
      {s t : m.State}
      → Holds q h s ns.names
      → Dropped q h path s t
      → Holds q h t (renamed path unused ns)
  Holds-Dropped {s} {t} holds dropped = record {
    known = λ k p. elim (Bool-cases (bytes_eq path k)) [
      | inl e ↦ Known.absent (dropped.at_keys h k ∙ ground (arith, ==_refl h)) (ground arith)
      | inr e ↦
          subst (λ n. Known (q.item t h k) n) (ground arith)
            (subst (λ i. Known i (ns.names k))
              (sym (dropped.at_keys h k ∙ ground (arith, ==_refl h))) (holds.known k p))
    ];
  }

at_first :
    (sys : System) (b : Bool) (again : Cmd (Server sys) Committed) (w : Server sys)
    → b ≡ true
    → (if b then pure ok else again) w ≡ done (ok, w)
at_first sys b again w e = cc

module _ {sys : System} (q : Quiet sys.kv) (w : Server sys) (path : Bytes) (fuel : ℕ)
    (ns : Namespace) (absolute : is_path path ≡ true) (plain : ends_plain path ≡ true)
    (holds : Holds q w.handle w.kv ns.names) where
  -- With the item in hand, the file goes and then the item.
  removes :
      (i : Item)
      → q.item w.kv w.handle path ≡ some i
      → (sys.dfs.remove path w.dfs).0 ≡ true
      → (t : sys.kv.State) × (commit_rm sys fuel path w
          ≡ done (ok, record w { kv = t; dfs = (sys.dfs.remove path w.dfs).1 }))
        × Holds q w.handle t (renamed path unused ns)
  unfolding commit_rm
  removes i e succeeds =
      let (t₁, got, kept) = memc_get-some q w.handle path plain w.kv i e in
      let (t₂, ran, dropped) =
        memc_del-drops q w.handle path plain t₁ i (kept.same w.handle path ∙ e) in
      let d = (sys.dfs.remove path w.dfs).1 in
      (
        t₂,
        run _ (with_cache-runs sys (dmkv_get sys.kv w.handle path) w (some i.value) t₁ got) (
            run _
              (at_first sys _ (retry_commit sys fuel rm_change path) (record w { kv = t₁; dfs = d })
                succeeds)
              (run _
                (with_cache-runs sys (dmkv_del sys.kv w.handle path) (record w { kv = t₁; dfs = d })
                  ret_ok t₂ ran)
                refl)),
        Holds-Dropped q w.handle path ns (Holds-Kept q w.handle holds kept) dropped,
      )

  -- On a quiet cluster whose items under keys that begin with a slash are stats, for an absolute
  -- path without a slash at its end, of which anything is cached: the commit of a removal whose
  -- file is there removes the file, and the path is unused afterwards, also when it stood for an
  -- entry that a client has made since the removal.
  pub commit_rm-forgets :
      ns.names path ≢ unused
      → (sys.dfs.remove path w.dfs).0 ≡ true
      → (t : sys.kv.State) × (commit_rm sys fuel path w
          ≡ done (ok, record w { kv = t; dfs = (sys.dfs.remove path w.dfs).1 }))
        × Holds q w.handle t (renamed path unused ns)
  commit_rm-forgets cached succeeds = elim (holds.known path absolute) [
    | absent e n ↦ elim (cached n) [ ]
    | removed j st e read fits gone n ↦ removes j e succeeds
    | live j st e read fits alive n ↦ removes j e succeeds
  ]

  -- On a quiet cluster whose items under keys that begin with a slash are stats, for an absolute
  -- path without a slash at its end, of which nothing is cached: the commit of a removal removes no
  -- file, and the namespace stays as it is.
  pub commit_rm-nothing :
      ns.names path ≡ unused
      → (t : sys.kv.State) × (commit_rm sys fuel path w ≡ done (ok, record w { kv = t }))
        × Holds q w.handle t ns.names
  unfolding commit_rm
  commit_rm-nothing n =
      let (t, got, kept) =
        memc_get-none q w.handle path plain w.kv (uncached (holds.known path absolute) n) in
      (
        t,
        run _ (with_cache-runs sys (dmkv_get sys.kv w.handle path) w none t got) refl,
        Holds-Kept q w.handle holds kept,
      )
    where
      uncached : {i : Option Item} {n : Name} → Known i n → n ≡ unused → i ≡ none
      uncached (absent e _) u = e
      uncached (removed j st e read fits gone n) u = cc
      uncached (live j st e read fits alive n) u = cc
