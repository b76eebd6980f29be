-- ===== src/Client/Placing.antt =====
-- What placing, fetching and marking an entry do on a quiet cluster.
use pacon.Base.{
  ℕ, suc, ◌≡◌, ap, ◌∙◌, true, false, none, some, arith, Bytes, bytes_eq_refl, done, if◌then◌else◌,
}
use pacon.Stat.{PaconStat, StatFlag, stat_rm, set_stat_flag, get_stat_flag, seri_val, deseri_val}
use pacon.System.{Item, System, Memcached}
use pacon.System.Quiet.{Quiet, same_key}
use pacon.Dmkv.{ret_ok}
use pacon.Dmkv.Keys.{ends_plain}
use pacon.Dmkv.Laws.{
  Kept, Wrote, memc_get_cas-item, memc_get-some, memc_put-writes, memc_add-new, memc_add-old,
  memc_cas-fresh,
}
use pacon.Client.State.{Pacon, Client}
use pacon.Client.Load.{added, replaced, occupied, replace_removed, place, fetch_item, mark_item}

module _ {m : Memcached} (q : Quiet m) where
  -- `t` holds what `s` holds, but `v` at one key, with some CAS number.
  pub record Put (h : ℕ) (k v : Bytes) (s t : m.State) : Type 0 where
    pub put_cas : ℕ
    pub at_keys :
        (h' : ℕ) (k' : Bytes)
        → q.item t h' k' ≡ (
            if same_key h k h' k'
            then some (record { value = v; item_cas = put_cas })
            else q.item s h' k')

  module _ {h : ℕ} {k v : Bytes} {s t : m.State} where
    pub Wrote-Put : Wrote q h k v s t → Put h k v s t
    Wrote-Put w = record { put_cas = q.next_cas s; at_keys = w.at_keys }

    pub Kept-Put : {r : m.State} → Kept q r s → Put h k v s t → Put h k v r t
    Kept-Put kept put = record {
      put_cas = put.put_cas;
      at_keys = λ h' k'.
          put.at_keys h' k'
          ∙ ap
              (λ i.
                if same_key h k h' k'
                then some (record { value = v; item_cas = put.put_cas })
                else i)
              (kept.same h' k');
    }

    pub Put-item :
        (put : Put h k v s t) → q.item t h k ≡ some (record { value = v; item_cas = put.put_cas })
    Put-item put = put.at_keys h k ∙ ground (arith, bytes_eq_refl k)

module _ {sys : System} (q : Quiet sys.kv) (p : Pacon) (path : Bytes)
    (plain : ends_plain path ≡ true) (fuel : ℕ) (c : Client sys) where
  pub place-new :
      (val : Bytes)
      → q.item c.kv p.kv_handle path ≡ none
      → (t : sys.kv.State) × (place sys (suc fuel) p path val c ≡ done (added, record c { kv = t }))
        × Put q p.kv_handle path val c.kv t
  unfolding place
  place-new val e =
      let (t, ran, wrote) = memc_add-new q p.kv_handle path plain c.kv val e in
      (t, cc, Wrote-Put q wrote)

  pub place-removed :
      (val : Bytes) (i : Item) (st : PaconStat)
      → q.item c.kv p.kv_handle path ≡ some i
      → deseri_val i.value ≡ some st
      → get_stat_flag st stat_rm ≡ true
      → (t : sys.kv.State) × (place sys (suc fuel) p path val c
          ≡ done (replaced, record c { kv = t }))
        × Put q p.kv_handle path val c.kv t
  unfolding place replace_removed
  place-removed val i st e read removed =
      let (t₁, refused, kept₁) = memc_add-old q p.kv_handle path plain c.kv val i e in
      let e₁ = kept₁.same p.kv_handle path ∙ e in
      let (t₂, got, kept₂) = memc_get-some q p.kv_handle path plain t₁ i e₁ in
      let (t₃, ran, wrote) = memc_put-writes q p.kv_handle path plain t₂ val in
      (t₃, cc, Kept-Put q kept₁ (Kept-Put q kept₂ (Wrote-Put q wrote)))

  pub place-occupied :
      (val : Bytes) (i : Item) (st : PaconStat)
      → q.item c.kv p.kv_handle path ≡ some i
      → deseri_val i.value ≡ some st
      → get_stat_flag st stat_rm ≡ false
      → (t : sys.kv.State) × (place sys (suc fuel) p path val c
          ≡ done (occupied, record c { kv = t }))
        × Kept q c.kv t
  unfolding place replace_removed
  place-occupied val i st e read live =
      let (t₁, refused, kept₁) = memc_add-old q p.kv_handle path plain c.kv val i e in
      let e₁ = kept₁.same p.kv_handle path ∙ e in
      let (t₂, got, kept₂) = memc_get-some q p.kv_handle path plain t₁ i e₁ in
      (t₂, cc, record { same = λ h k. kept₂.same h k ∙ kept₁.same h k })

  pub fetch_item-cached :
      (i : Item)
      → q.item c.kv p.kv_handle path ≡ some i
      → (t : sys.kv.State) × (fetch_item sys fuel p path c ≡ done (some i, record c { kv = t }))
        × Kept q c.kv t
  unfolding fetch_item
  fetch_item-cached i e =
      let (t, got, kept) = memc_get_cas-item q p.kv_handle path plain c.kv in (t, cc, kept)

  -- The swap meets no other write.
  pub mark_item-writes :
      (flag : StatFlag) (i : Item) (st : PaconStat)
      → q.item c.kv p.kv_handle path ≡ some i
      → deseri_val i.value ≡ some st
      → (t : sys.kv.State) × (mark_item sys (suc fuel) p path flag i c
          ≡ done (ret_ok, record c { kv = t }))
        × Put q p.kv_handle path (seri_val (set_stat_flag st flag true)) c.kv t
  unfolding mark_item
  mark_item-writes flag i st e read =
      let val = seri_val (set_stat_flag st flag true) in
      let (t, ran, wrote) = memc_cas-fresh q p.kv_handle path plain c.kv val i e in
      (t, cc, Wrote-Put q wrote)
