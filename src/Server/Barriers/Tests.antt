-- ===== src/Server/Barriers/Tests.antt =====
-- A server with one client, whose slot 0 has a count of 0, and then of 1 and of 2.
use pacon.Base.{
  ℕ, ◌+◌, ◌≡◌, ◌≢◌, refl, true, false, some, List, [], ◌∷◌, arith, ◌==◌, if◌then◌else◌, Bytes,
  bytes_eq, char_at, done,
}
use pacon.Base.Decimal.{decimal, is_digit}
use pacon.Base.Int.{pos, add_nat, int_text, atoi_int}
use pacon.System.{Item}
use pacon.System.Reference.{reference, reference-Quiet}
use pacon.Message.{slot, barrier_path}
use pacon.Server.State.{Server, ok}
use pacon.Server.Samples.{node, server_of}
use pacon.Server.Barriers.{
  opt_key, b_key, count_reached, set_barrier, next_waiting, commit_barrier,
  broadcast_barrier_end_new,
}
use pacon.Server.Barriers.Laws.{Holds, broadcast_barrier_end_new-more}
use pacon.Server.Barriers.Reaches.{commit_barrier-reaches}
use pacon.Server.Barriers.Ends.{broadcast_barrier_end_new-last}

abbrev count_item : ℕ → Item
count_item n = record { value = (b'0' + n) ∷ []; item_cas = 4 }

-- The count is kept at the handle for barriers.
abbrev counting : ℕ → Server node
counting n =
    server_of (record { handle = 1; key = opt_key (slot 0); held = some (count_item n) } ∷ []) 0

commit_barrier-reaches_example :
    (t : reference.State) × (commit_barrier node (λ w. w) 1 (barrier_path 2 1) (counting 0)
      ≡ done (
        ok,
        record (counting 0) {
          kv = t;
          barriers =
              if (counting 0).barriers.reached 0 + 1 == (counting 0).client_num
              then set_barrier 0 true (count_reached 0 (counting 0).barriers)
              else count_reached 0 (counting 0).barriers;
        },
      ))
    × ((c : ℕ) × (reference-Quiet.item t (counting 0).handle_for_barrier (opt_key (slot 0))
          ≡ some (record {
            value = int_text (add_nat (atoi_int (count_item 0).value) 2);
            item_cas = c;
          })))
    × ((counting 0).barriers.reached 0 + 1 ≡ (counting 0).client_num
        → (c : ℕ) × (reference-Quiet.item t (counting 0).handle (b_key (counting 0).local_ip 0)
            ≡ some (record { value = b'1' ∷ []; item_cas = c })))
unfolding server_of reference-Quiet bytes_eq opt_key decimal
commit_barrier-reaches_example =
    commit_barrier-reaches reference-Quiet (λ w. w) (counting 0) 0 2 0 (count_item 0) (omega arith)
      (omega arith) (omega arith) refl (λ e. cc)

broadcast_barrier_end_new-more_example :
    (t : reference.State) × (broadcast_barrier_end_new node (λ w. w) 1 0 (counting 2)
      ≡ done (tt, record (counting 2) { kv = t }))
    × Holds node reference-Quiet
        (counting 2).handle_for_barrier
        (opt_key (slot 0))
        (int_text (pos 1))
        (counting 2).kv
        t
unfolding server_of reference-Quiet bytes_eq opt_key decimal atoi_int pacon.Base.Decimal.atoi
broadcast_barrier_end_new-more_example =
    broadcast_barrier_end_new-more reference-Quiet (λ w. w) (counting 2) 0 0 0 (count_item 2) refl
      refl

broadcast_barrier_end_new-last_example :
    (w' : Server node) × (broadcast_barrier_end_new node (λ w. w) 1 0 (counting 1) ≡ done (tt, w'))
    × (w'.barriers ≡ next_waiting (set_barrier 0 false (counting 1).barriers))
unfolding server_of reference-Quiet bytes_eq opt_key decimal atoi_int pacon.Base.Decimal.atoi
broadcast_barrier_end_new-last_example =
    broadcast_barrier_end_new-last reference-Quiet (λ w. w) (counting 1) 0 0 (count_item 1) refl
      refl
