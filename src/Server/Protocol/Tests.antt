-- ===== src/Server/Protocol/Tests.antt =====
-- Two servers with one client each: the first one's client makes a request in slot 0, the second
-- one's in slot 1.
use pacon.Base.{
  ℕ, zero, suc, ◌<◌, ◌≡◌, ◌≢◌, refl, Bool, true, false, ◌==◌, arith, if◌then◌else◌, inl, inr, ◌&&◌,
}
use pacon.Server.Barriers.{count_reached, set_barrier, next_waiting, del_barrier, must_wait}
use pacon.Server.Protocol.{
  idle, working, Cluster, Reach, started, later, commit, reach_last, request, see_local, poll,
  begin, finish_last, tell, skip,
}
use pacon.Server.Protocol.Sums.{sum_to}
use pacon.Server.Protocol.Invariant.{busy, owed, AllReached}
use pacon.Server.Protocol.Safety.{working-stops, opt_count-owed}
use pacon.Server.Protocol.Progress.{Advances, request-Advances}

abbrev one_client : ℕ → ℕ
one_client i = 1

abbrev sample_ops : ℕ → ℕ → ℕ
sample_ops i s = if (i == s) && (s == 0) then 1 else if (i == s) && (s == 1) then 1 else 0

one_client-pos : (j : ℕ) → j < 2 → 0 < one_client j
one_client-pos j low = omega arith

-- A reachable state.
record Run (overlap : Bool) : Type 0 where
  last : Cluster
  reach : Reach overlap 2 one_client sample_ops last

both_reached : (overlap : Bool) → Run overlap
unfolding must_wait count_reached set_barrier
both_reached overlap = record {
  last = _;
  reach =
      later
        (later started (
          reach_last 0 0 1
            (record {
              takes = record { server = omega arith; free = refl; passes = refl };
              in_order = tt;
              announced = omega arith;
              apart = inr refl;
            })
            refl refl))
        (reach_last 1 0 0
          (record {
            takes = record { server = omega arith; free = refl; passes = refl };
            in_order = tt;
            announced = omega arith;
            apart = inr refl;
          })
          refl refl);
}

asked : (overlap : Bool) → Run overlap
unfolding both_reached
asked overlap = record {
  last = _;
  reach = later (both_reached overlap).reach (request 0 0 0 (omega arith) refl refl);
}

at_work : (overlap : Bool) → Run overlap
unfolding asked both_reached count_reached set_barrier
at_work overlap = record {
  last = _;
  reach =
      later
        (later
          (later (later (asked overlap).reach (see_local 0 0 (omega arith) refl refl))
            (poll 0 0 0 (omega arith) (omega arith) refl (inl refl)))
          (poll 0 0 1 (omega arith) (omega arith) refl (inr refl)))
        (begin 0 0 (omega arith) refl);
}

working-stops_example :
    (((at_work false).last.node 1).reached 0 ≡ 1)
    × (((at_work false).last.node 1).waiting_barrier_id ≡ 0)
    × (must_wait ((at_work false).last.node 1) ≡ true)
    × ((at_work false).last.committing 1 ≡ false)
unfolding at_work asked both_reached
working-stops_example =
    working-stops one_client-pos (at_work false).reach 0 0 (omega arith) refl 1 (omega arith)

all_reached : AllReached 2 one_client (asked false).last.node 2 0
unfolding asked both_reached count_reached set_barrier
all_reached zero below low = refl
all_reached (suc zero) below low = refl
all_reached (suc (suc j)) below low = absurd (omega arith)

opt_count-owed_example :
    ((asked false).last.opt_count 0
      ≡ sum_to 2 (owed (asked false).last.unasked (asked false).last.rpc 0))
    × ((i : ℕ) → i < 2 → (asked false).last.rpc i ≡ working 0 → 0 < (asked false).last.opt_count 0)
unfolding asked
opt_count-owed_example = opt_count-owed one_client-pos (asked false).reach 0 all_reached

asked-ready :
    (s : ℕ)
    → busy ((asked false).last.rpc 0) s ≡ 1
    → AllReached 2 one_client (asked false).last.node 2 s
unfolding asked
asked-ready zero e = all_reached
asked-ready (suc s) e = absurd (ground arith)

asked-busy : (asked false).last.rpc 0 ≢ idle
unfolding asked
asked-busy = λ e. cc

request-Advances_example : Advances 2 one_client (asked false).last 0 ((asked false).last.rpc 0)
unfolding asked
request-Advances_example =
    request-Advances one_client-pos (asked false).last 0 (asked false).reach (omega arith)
      asked-busy asked-ready

-- The barrier of slot 0 is gone at server 1, and server 0 has not moved on.
told_one : Run true
unfolding at_work asked both_reached count_reached set_barrier
told_one = record {
  last = _;
  reach =
      later
        (later (later (at_work true).reach (finish_last 0 0 (omega arith) refl refl))
          (skip 0 0 (omega arith) refl))
        (tell 0 0 1 (omega arith) (omega arith) (λ e. omega arith) refl);
}

-- The messages of slot 1 come, at server 0 while its request thread is still at the deletion.
next_slot : Run true
unfolding told_one at_work asked both_reached count_reached set_barrier del_barrier next_waiting
    must_wait
next_slot = record {
  last = _;
  reach =
      later
        (later told_one.reach (
          reach_last 0 1 0
            (record {
              takes = record { server = omega arith; free = refl; passes = refl };
              in_order = omega arith;
              announced = omega arith;
              apart = inl refl;
            })
            refl refl))
        (reach_last 1 1 1
          (record {
            takes = record { server = omega arith; free = refl; passes = refl };
            in_order = omega arith;
            announced = omega arith;
            apart = inl refl;
          })
          refl refl);
}

-- A commit beside a request that the barrier of slot 1 protects.
overlap_races :
    (c : Cluster) × Reach true 2 one_client sample_ops c
    × (c.rpc 1 ≡ working 1)
    × (c.committing 0 ≡ true)
unfolding next_slot told_one at_work asked both_reached count_reached set_barrier del_barrier
    next_waiting must_wait
overlap_races = (
  _,
  later
      (later
        (later
          (later
            (later (later next_slot.reach (request 1 1 0 (omega arith) refl refl))
              (see_local 1 1 (omega arith) refl refl))
            (poll 1 1 0 (omega arith) (omega arith) refl (inr refl)))
          (poll 1 1 1 (omega arith) (omega arith) refl (inl refl)))
        (begin 1 1 (omega arith) refl))
      (commit 0 (record { server = omega arith; free = refl; passes = refl })),
  refl,
  refl,
)
