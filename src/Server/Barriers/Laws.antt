-- ===== src/Server/Barriers/Laws.antt =====
-- What the two halves of a barrier do to the count in the cache and to the server's own barrier, when
-- the cluster is quiet.
use pacon.Base.{
  ℕ, suc, ◌+◌, ◌≤◌, ◌≡◌, refl, ap, ◌∙◌, subst, true, false, not, some, [], ◌∷◌, ◌++◌, arith, ◌==◌,
  Bytes, bytes_eq_refl, lacks, length, done, run, when_true, when_false,
}
use pacon.Base.Decimal.{decimal, is_digit, decimal-lacks, length-decimal_pos}
use pacon.Base.Int.{ℤ, pos, pred, is_zero, int_text, atoi_int}
use pacon.Paths.{slash}
use pacon.System.{Item, System}
use pacon.System.Quiet.{Quiet, same_key}
use pacon.Dmkv.{ret_ok, dmkv_set, dmkv_get_cas, dmkv_cas}
use pacon.Dmkv.Keys.{ends_plain}
use pacon.Dmkv.Laws.{Wrote, memc_get_cas-item, memc_cas-fresh, memc_put-writes}
use pacon.Message.{slot}
use pacon.Server.State.{Server, ok}
use pacon.Server.Runs.{with_cache-runs}
use pacon.Server.Barriers.{
  opt_key, b_key, barrier_opt_count_key, dot, slot_text, count_reached, set_barrier,
  change_opt_count, reach_slot, broadcast_barrier_end_new,
}

lacks-ends_plain : (s : Bytes) → lacks slash s ≡ true → 1 ≤ length s → ends_plain s ≡ true
unfolding lacks ends_plain
lacks-ends_plain [] h has = absurd (omega arith)
lacks-ends_plain (c ∷ []) h has = ground arith
lacks-ends_plain (c ∷ d ∷ s) h has = lacks-ends_plain (d ∷ s) (ground arith) (omega arith)

ends_plain-append : (s t : Bytes) → ends_plain t ≡ true → ends_plain (s ++ t) ≡ true
unfolding ends_plain
ends_plain-append [] t h = h
ends_plain-append (c ∷ []) [] h = cc
ends_plain-append (c ∷ []) (d ∷ t) h = h
ends_plain-append (c ∷ d ∷ s) t h = ends_plain-append (d ∷ s) t h

decimal-ends_plain : (n : ℕ) → ends_plain (decimal n) ≡ true
unfolding is_digit
decimal-ends_plain n =
    lacks-ends_plain (decimal n) (decimal-lacks slash n refl) (length-decimal_pos n)

dotted-ends_plain : (n : ℕ) → ends_plain (dot ∷ decimal n) ≡ true
dotted-ends_plain n = ends_plain-append (dot ∷ []) (decimal n) (decimal-ends_plain n)

pub opt_key-ends_plain : (s : ℕ) → ends_plain (opt_key (slot s)) ≡ true
unfolding opt_key slot_text
opt_key-ends_plain s =
    ends_plain-append barrier_opt_count_key (dot ∷ decimal s) (dotted-ends_plain s)

pub b_key-ends_plain : (ip : Bytes) (s : ℕ) → ends_plain (b_key ip s) ≡ true
unfolding b_key
b_key-ends_plain ip s = ends_plain-append ip (dot ∷ decimal s) (dotted-ends_plain s)

-- `t` holds what `s` holds, but `v` at one key.
pub record Holds (sys : System) (q : Quiet sys.kv) (h : ℕ) (k v : Bytes) (s t : sys.kv.State)
    : Type 0 where
  pub item_cas : ℕ
  pub here : q.item t h k ≡ some (record { value = v; item_cas = item_cas })
  pub elsewhere :
      (h' : ℕ) (k' : Bytes) → same_key h k h' k' ≡ false → q.item t h' k' ≡ q.item s h' k'

same_key_refl : (h : ℕ) (k : Bytes) → same_key h k h k ≡ true
same_key_refl h k = ground (arith, bytes_eq_refl k)

module _ {sys : System} (q : Quiet sys.kv) where
  Holds-Wrote :
      (h : ℕ) (k v : Bytes) (r s t : sys.kv.State)
      → ((h' : ℕ) (k' : Bytes) → q.item s h' k' ≡ q.item r h' k')
      → Wrote q h k v s t
      → Holds sys q h k v r t
  Holds-Wrote h k v r s t same wrote = record {
    item_cas = q.next_cas s;
    here = wrote.at_keys h k ∙ ground (arith, same_key_refl h k);
    elsewhere = λ h' k' other. wrote.at_keys h' k' ∙ ground (arith, same h' k');
  }

module _ {sys : System} (q : Quiet sys.kv) (meanwhile : Server sys → Server sys)
    (w : Server sys) where
  -- The count is changed in the first round.
  pub change_opt_count-changes :
      (fuel : ℕ) (change : ℤ → ℤ) (key : Bytes) (i : Item)
      → ends_plain key ≡ true
      → q.item w.kv w.handle_for_barrier key ≡ some i
      → (t : sys.kv.State) × (change_opt_count sys meanwhile (suc fuel) change key w
          ≡ done (change (atoi_int i.value), record w { kv = t }))
        × Holds sys q w.handle_for_barrier key (int_text (change (atoi_int i.value))) w.kv t
  unfolding change_opt_count
  change_opt_count-changes fuel change key i plain held =
      let h = w.handle_for_barrier in
      let v = int_text (change (atoi_int i.value)) in
      let (t₁, got, kept) = memc_get_cas-item q h key plain w.kv in
      let (t₂, ran, wrote) = memc_cas-fresh q h key plain t₁ v i (kept.same h key ∙ held) in
      (
        t₂,
        run _
            (with_cache-runs sys (dmkv_get_cas sys.kv h key) w (some i) t₁
              (got ∙ ap (λ o. done (o, t₁)) held))
            (run _
              (with_cache-runs sys (dmkv_cas sys.kv h key v i.item_cas) (record w { kv = t₁ })
                ret_ok t₂ ran)
              refl),
        Holds-Wrote q h key v w.kv t₁ t₂ kept.same wrote,
      )

  -- The end of a request that is not the last one of its slot: the count goes down by one, and the
  -- barrier stands.
  pub broadcast_barrier_end_new-more :
      (fuel s count : ℕ) (i : Item)
      → q.item w.kv w.handle_for_barrier (opt_key (slot s)) ≡ some i
      → atoi_int i.value ≡ pos (suc (suc count))
      → (t : sys.kv.State) × (broadcast_barrier_end_new sys meanwhile (suc fuel) s w
          ≡ done (tt, record w { kv = t }))
        × Holds sys q w.handle_for_barrier (opt_key (slot s)) (int_text (pos (suc count))) w.kv t
  unfolding broadcast_barrier_end_new
  broadcast_barrier_end_new-more fuel s count i held e =
      let (t, ran, holds) =
        change_opt_count-changes fuel pred (opt_key (slot s)) i (opt_key-ends_plain s) held in
      let less : pred (atoi_int i.value) ≡ pos (suc count) = ap pred e in
      (
        t,
        run _ ran (
            when_false (is_zero (pred (atoi_int i.value))) _ _ (ap is_zero less ∙ ground arith)
              refl),
        subst (λ z. Holds sys q w.handle_for_barrier (opt_key (slot s)) (int_text z) w.kv t) less
            holds,
      )

  -- Not all messages of the slot are there.
  pub reach_slot-some :
      (s : ℕ)
      → (w.barriers.reached s + 1 == w.client_num) ≡ false
      → reach_slot sys meanwhile s w ≡ done (ok, record w { barriers = count_reached s w.barriers })
  unfolding reach_slot count_reached
  reach_slot-some s more =
      let e : not ((count_reached s w.barriers).reached s == w.client_num) ≡ true = ground arith in
      when_true _ _ _ e refl

  -- The last message of the slot.
  pub reach_slot-last :
      (s : ℕ)
      → (w.barriers.reached s + 1 == w.client_num) ≡ true
      → (t : sys.kv.State) × (reach_slot sys meanwhile s w
          ≡ done
              (ok, record w { kv = t; barriers = set_barrier s true (count_reached s w.barriers) }))
        × Holds sys q w.handle (b_key w.local_ip s) (b'1' ∷ []) w.kv t
  unfolding reach_slot count_reached set_barrier
  reach_slot-last s last =
      let e : not ((count_reached s w.barriers).reached s == w.client_num) ≡ false = ground arith in
      let k = b_key w.local_ip s in
      let (t, ran, wrote) =
        memc_put-writes q w.handle k (b_key-ends_plain w.local_ip s) w.kv (b'1' ∷ []) in
      let w₁ = record w { barriers = set_barrier s true (count_reached s w.barriers) } in
      (
        t,
        when_false _ _ _ e (
            run _ (with_cache-runs sys (dmkv_set sys.kv w.handle k (b'1' ∷ [])) w₁ ret_ok t ran)
              refl),
        Holds-Wrote q w.handle k (b'1' ∷ []) w.kv w.kv t (λ h' k'. refl) wrote,
      )
