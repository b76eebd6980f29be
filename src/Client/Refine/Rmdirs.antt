-- ===== src/Client/Refine/Rmdirs.antt =====
-- `pacon_rmdir` with a server that answers success.
use pacon.Base.{
  ℕ, ◌+◌, ◌^◌, ◌≤◌, ◌<◌, ◌≡◌, refl, true, none, some, [], arith, Bytes, length, length-append, done,
  run,
}
use pacon.Base.Decimal.{decimal, length-decimal_le}
use pacon.System.{Item, System}
use pacon.System.Quiet.{Quiet}
use pacon.Dmkv.{dmkv_get, dmkv_del, ret_ok}
use pacon.Dmkv.Keys.{ends_plain}
use pacon.Dmkv.Laws.{Kept, Dropped, memc_get-some, memc_del-drops}
use pacon.Message.{Opt, rmdir, request_path, mesg_text}
use pacon.Message.Sizes.{rpc_mesg_total}
use pacon.Permission.{rmdir_pc}
use pacon.Client.State.{succeeded, Pacon, Client, word, time, into_path, add_to_local_rpc}
use pacon.Client.Remove.{pacon_rmdir, fdht_clean}
use pacon.Client.Refine.{permit-unrestricted, with_kv-runs}

length-request_path :
    (id : ℕ) (path : Bytes) → id < 10 ^ 4 → length (request_path id path) ≤ 4 + length path
unfolding request_path
length-request_path id path h =
    omega (arith, length-append (decimal id) path, length-decimal_le 3 id h)

into_path-fits :
    (sys : System) (text : Bytes) (c : Client sys)
    → length text < 128
    → into_path sys text c ≡ done (text, c)
into_path-fits sys text c h = ground arith

module _ (sys : System) (path : Bytes) (opt : Opt) (t : ℕ) (c : Client sys) where
  add_to_local_rpc-answered :
      length path ≤ 115
      → 10 ^ 9 ≤ t
      → t < 2 ^ 31
      → (sys.local_rpc (mesg_text path opt (word t)) c.kv c.dfs).0 ≡ b'0'
      → add_to_local_rpc sys path opt t c
        ≡ done (
          succeeded,
          record c {
            kv = (sys.local_rpc (mesg_text path opt (word t)) c.kv c.dfs).1;
            dfs = (sys.local_rpc (mesg_text path opt (word t)) c.kv c.dfs).2;
          },
        )
  unfolding add_to_local_rpc
  add_to_local_rpc-answered short late early answer =
      ground (arith, rpc_mesg_total path opt (word t) (omega arith) (omega arith))

module _ {sys : System} (q : Quiet sys.kv) (p : Pacon) (c : Client sys) (path : Bytes) (fuel : ℕ)
    (i : Item) (free : p.perm_info ≡ none) (plain : ends_plain path ≡ true)
    (short : length path ≤ 111) (few : c.current_barrier_id < 1024) (late : 10 ^ 9 ≤ c.now)
    (early : c.now < 2 ^ 31) (cached : q.item c.kv p.kv_handle path ≡ some i)
    (answer : (s : sys.kv.State)
      → Kept q c.kv s
      → (sys.local_rpc
          (mesg_text (request_path c.current_barrier_id path) rmdir (word c.now))
          s
          c.dfs).0
        ≡ b'0')
    (stays : (s : sys.kv.State)
      → Kept q c.kv s
      → (j : Item) × (q.item
            (sys.local_rpc
              (mesg_text (request_path c.current_barrier_id path) rmdir (word c.now))
              s
              c.dfs).1
            p.kv_handle
            path
          ≡ some j)) where
  -- On a quiet cluster, with the item of the path cached, when the server answers success, whatever
  -- it has done but for dropping that item: `pacon_rmdir` drops the item from what the server has
  -- left, and succeeds. It empties the table of open files; that of checked parents stays. The path
  -- has at most 111 bytes and no slash at its end, the region no batch permissions, the process
  -- fewer than 1024 barriers before, and the times have ten digits and are before 2038.
  pub pacon_rmdir-drops :
      (s t : sys.kv.State) × Kept q c.kv s
      × (pacon_rmdir sys fuel p path c
          ≡ done (
            succeeded,
            record c {
              kv = t;
              dfs =
                  (sys.local_rpc
                    (mesg_text (request_path c.current_barrier_id path) rmdir (word c.now))
                    s
                    c.dfs).2;
              now = sys.later c.now;
              fd_table = [];
            },
          ))
      × Dropped q p.kv_handle path
          (sys.local_rpc
            (mesg_text (request_path c.current_barrier_id path) rmdir (word c.now))
            s
            c.dfs).1
          t
  unfolding pacon_rmdir time fdht_clean
  pacon_rmdir-drops =
      let (t₁, got, kept) = memc_get-some q p.kv_handle path plain c.kv i cached in
      let asked = request_path c.current_barrier_id path in
      let size = length-request_path c.current_barrier_id path (omega arith) in
      let c₁ = record c { kv = t₁ } in
      let c₂ = record c₁ { now = sys.later c.now } in
      let replied = sys.local_rpc (mesg_text asked rmdir (word c.now)) t₁ c.dfs in
      let (j, left) = stays t₁ kept in
      let (t₂, ran, dropped) = memc_del-drops q p.kv_handle path plain replied.1 j left in
      (
        t₁,
        t₂,
        kept,
        run _ (permit-unrestricted sys p path rmdir_pc c free) (
            run _ (with_kv-runs sys (dmkv_get sys.kv p.kv_handle path) c (some i.value) t₁ got) (
              run _ (into_path-fits sys asked c₁ (omega (arith, size))) (
                run _
                  (add_to_local_rpc-answered sys asked rmdir c.now c₂ (omega (arith, size)) late
                    early (answer t₁ kept))
                  (run _
                    (with_kv-runs sys (dmkv_del sys.kv p.kv_handle path)
                      (record c₂ { kv = replied.1; dfs = replied.2 }) ret_ok t₂ ran)
                    refl)))),
        dropped,
      )
