-- ===== src/Server/Dispatch/Laws.antt =====
-- How commit_to_fs gets past its wait.
use pacon.Base.{
  ℕ, zero, suc, ◌<◌, ◌≡◌, ◌≢◌, refl, Bool, true, false, Option, none, some, ◌>>◌, done, run, crash,
  arith, leb, when_false, Bytes,
}
use pacon.System.{System}
use pacon.Message.{Parsed, parse_mesg, barrier_id_max}
use pacon.Server.State.{
  Server, Serve, Committed, SpPermission, not_read, none_set, set_up, wait_while,
}
use pacon.Server.Barriers.{must_wait}
use pacon.Server.Batch.{batch_permission}
use pacon.Server.Dispatch.{await_barrier, commit_opt, commit_to_fs}

-- The state at the look after `n` others.
abbrev pub after_looks : {sys : System} → (Server sys → Server sys) → ℕ → Server sys → Server sys
after_looks meanwhile zero w = w
after_looks meanwhile (suc n) w = after_looks meanwhile n (meanwhile w)

module _ (sys : System) (meanwhile : Server sys → Server sys) where
  -- A wait ends at the first look at which its test fails.
  pub wait_while-first :
      (n fuel : ℕ) (test : Server sys → Bool) (w : Server sys)
      → n < fuel
      → ((j : ℕ) → j < n → test (after_looks meanwhile j w) ≡ true)
      → test (after_looks meanwhile n w) ≡ false
      → wait_while sys meanwhile fuel test w ≡ done (tt, after_looks meanwhile n w)
  unfolding wait_while
  wait_while-first n zero test w enough stands over = absurd (omega arith)
  wait_while-first zero (suc fuel) test w enough stands over =
      let down : test w ≡ false = over in rw (down, wait_while)
  wait_while-first (suc n) (suc fuel) test w enough stands over =
      let first : test w ≡ true = stands zero (omega arith) in
      rw (first, wait_while)
        (wait_while-first n fuel test (meanwhile w) (omega arith)
          (λ j low. stands (suc j) (omega arith)) over)

  permission-read :
      (w : Server sys) → w.sp_permission ≢ not_read → batch_permission sys w ≡ done (tt, w)
  unfolding batch_permission
  permission-read w known = by_case w.sp_permission refl
    where
      by_case : (p : SpPermission) → w.sp_permission ≡ p → batch_permission sys w ≡ done (tt, w)
      by_case not_read e = absurd (known e)
      by_case none_set e = rw e
      by_case set_up e = rw e

  -- A message that meets a barrier waits for it: with `n` looks at which the barrier stands, and any
  -- fuel above that, its case runs on the first state in which the barrier is down, and on no earlier
  -- one, or it faults when its path overruns the buffer. The batch permissions have been read before.
  pub commit_to_fs-waits :
      (n fuel : ℕ) (mesg : Bytes) (w : Server sys)
      → n < fuel
      → w.sp_permission ≢ not_read
      → w.barriers.waiting_barrier_id < barrier_id_max
      → ((j : ℕ) → j < n → must_wait (after_looks meanwhile j w).barriers ≡ true)
      → must_wait (after_looks meanwhile n w).barriers ≡ false
      → commit_to_fs sys meanwhile fuel mesg w
        ≡ (elim (parse_mesg mesg) as (λ _. Serve sys Committed) [
          | none ↦ crash
          | some m ↦ commit_opt sys meanwhile fuel m.opt m.path
        ])
            (after_looks meanwhile n w)
  unfolding commit_to_fs await_barrier
  commit_to_fs-waits n fuel mesg w enough known inside stands over = waits (parse_mesg mesg)
    where
      waits :
          (parsed : Option Parsed)
          → (elim parsed as (λ _. Serve sys Committed) [
            | none ↦ crash
            | some m ↦ do
              batch_permission sys
              await_barrier sys meanwhile fuel
              commit_opt sys meanwhile fuel m.opt m.path
          ])
              w
            ≡ (elim parsed as (λ _. Serve sys Committed) [
              | none ↦ crash
              | some m ↦ commit_opt sys meanwhile fuel m.opt m.path
            ])
                (after_looks meanwhile n w)
      waits none = refl
      waits (some m) = run _ (permission-read w known) (
          run _
            (when_false (leb barrier_id_max w.barriers.waiting_barrier_id) crash
              (wait_while sys meanwhile fuel (λ v. must_wait v.barriers)) (ground arith)
              (wait_while-first n fuel (λ v. must_wait v.barriers) w enough stands over))
            refl)
