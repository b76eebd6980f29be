-- ===== src/Server/Barriers/Reaches.antt =====
-- The case BARRIER of commit_to_fs.
use pacon.Base.{
  ℕ, suc, ◌+◌, ◌≤◌, ◌<◌, ◌≡◌, ◌≢◌, refl, ap, ◌∙◌, true, false, some, [], ◌∷◌, arith, ◌==◌,
  if◌then◌else◌, Bytes, bytes_eq, char_at, Outcome, done, run, Bool-cases, inl, inr, when_true,
  lt→ltb, ltb,
}
use pacon.Base.Int.{add_nat, int_text, atoi_int}
use pacon.System.{Item, System}
use pacon.System.Quiet.{Quiet}
use pacon.Message.{slot, barrier_id_max, barrier_path, parse_barrier}
use pacon.Message.Pairs.{parse_barrier-barrier_path}
use pacon.Server.State.{Server, Committed, ok}
use pacon.Server.Barriers.{
  opt_key, b_key, handle_barrier, count_reached, set_barrier, change_opt_count, reach_slot,
  commit_barrier,
}
use pacon.Server.Barriers.Laws.{
  Holds, opt_key-ends_plain, change_opt_count-changes, reach_slot-some, reach_slot-last,
}

-- The key of an address that does not begin like the counts' keys is none of these.
keys_differ :
    (ip : Bytes) (s t : ℕ) → char_at ip 0 ≢ b'b' → bytes_eq (b_key ip s) (opt_key (slot t)) ≡ false
unfolding bytes_eq b_key opt_key
keys_differ [] s t h = refl
keys_differ (c ∷ ip) s t h = ground arith

module _ {sys : System} (q : Quiet sys.kv) (meanwhile : Server sys → Server sys) (w : Server sys)
    (fuel n s : ℕ) (i : Item) (few : n < 10) (has : 1 ≤ n) (inside : s < barrier_id_max)
    (held : q.item w.kv w.handle_for_barrier (opt_key (slot s)) ≡ some i) where
  counts :
      (t : sys.kv.State) × (change_opt_count sys meanwhile
          (suc fuel)
          (λ c. add_nat c n)
          (opt_key (slot s))
          w
        ≡ done (add_nat (atoi_int i.value) n, record w { kv = t }))
      × Holds sys q w.handle_for_barrier
          (opt_key (slot s))
          (int_text (add_nat (atoi_int i.value) n))
          w.kv
          t
  counts =
      change_opt_count-changes q meanwhile w fuel (λ c. add_nat c n) (opt_key (slot s)) i
        (opt_key-ends_plain s) held

  parsed : parse_barrier (barrier_path n (suc s)) ≡ record { opt_num = some n; reached = slot s }
  parsed = parse_barrier-barrier_path n (suc s) few ∙ ground arith

  inside_slot : ltb s barrier_id_max ≡ true
  inside_slot = lt→ltb s barrier_id_max inside

  -- The message is counted, and then comes in its slot.
  then_reach :
      (r : Outcome (Committed × Server sys))
      → reach_slot sys meanwhile s (record w { kv = counts.0 }) ≡ r
      → handle_barrier sys meanwhile (suc fuel) (record { opt_num = some n; reached = slot s }) w
        ≡ r
  unfolding handle_barrier
  then_reach r e = run _ (run _ counts.1 refl) (when_true _ _ _ inside_slot e)

  -- A barrier message of a client with one to nine operations, with the count of its slot in the
  -- cache: the count goes up by the operations and the message is counted; with the last message of
  -- the server's clients the barrier of the slot stands, and the server's key holds "1". The server's
  -- address does not begin with a `b`.
  pub commit_barrier-reaches :
      char_at w.local_ip 0 ≢ b'b'
      → (t : sys.kv.State) × (commit_barrier sys meanwhile (suc fuel) (barrier_path n (suc s)) w
          ≡ done (
            ok,
            record w {
              kv = t;
              barriers =
                  if w.barriers.reached s + 1 == w.client_num
                  then set_barrier s true (count_reached s w.barriers)
                  else count_reached s w.barriers;
            },
          ))
        × ((c : ℕ) × (q.item t w.handle_for_barrier (opt_key (slot s))
              ≡ some (record { value = int_text (add_nat (atoi_int i.value) n); item_cas = c })))
        × (w.barriers.reached s + 1 ≡ w.client_num
            → (c : ℕ) × (q.item t w.handle (b_key w.local_ip s)
                ≡ some (record { value = b'1' ∷ []; item_cas = c })))
  unfolding commit_barrier
  commit_barrier-reaches no_b =
      let (t₁, ran, counted) = counts in
      let w₁ = record w { kv = t₁ } in
      elim (Bool-cases (w.barriers.reached s + 1 == w.client_num)) [
        | inr more ↦
            let reached = reach_slot-some q meanwhile w₁ s more in
            (
              t₁,
              ap (λ m. handle_barrier sys meanwhile (suc fuel) m w) parsed
                  ∙ (then_reach _ reached
                      ∙ ap (λ b. done (ok, record w { kv = t₁; barriers = b })) (ground arith)),
              (counted.item_cas, counted.here),
              λ all. absurd (ground arith),
            )
        | inl last ↦
            let (t₂, reached, keyed) = reach_slot-last q meanwhile w₁ s last in
            (
              t₂,
              ap (λ m. handle_barrier sys meanwhile (suc fuel) m w) parsed
                  ∙ (then_reach _ reached
                      ∙ ap (λ b. done (ok, record w { kv = t₂; barriers = b })) (ground arith)),
              (
                counted.item_cas,
                keyed.elsewhere w.handle_for_barrier (opt_key (slot s))
                      (ground (arith, keys_differ w.local_ip s s no_b))
                    ∙ counted.here,
              ),
              λ all. (keyed.item_cas, keyed.here),
            )
      ]
