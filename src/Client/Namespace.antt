-- ===== src/Client/Namespace.antt =====
-- The namespace that the cache of a client stands for: what a path names, if the removed entries are
-- taken as absent, and the messages for the servers. The operations of pacon.c are compared with
-- plain insertion, lookup and removal in it.
use pacon.Base.{
  ℕ, ◌≡◌, refl, sym, inl, inr, true, false, Bool, ◌&&◌, Option, none, some, List, [], ◌∷◌, ◌++◌,
  append-nil, subst, Bytes, char_at, bytes_eq, Bool-cases, if◌then◌else◌, ◌==◌, ==_refl,
}
use pacon.Stat.{
  PaconStat, stat_rm, get_stat_flag, seri_val, deseri_val, IsStat, deseri_val-seri_val,
}
use pacon.Paths.{slash}
use pacon.System.{Item, Memcached}
use pacon.System.Quiet.{Quiet}
use pacon.Dmkv.Laws.{Kept}
use pacon.Client.State.{Status, succeeded, failed}
use pacon.Client.Placing.{Put}

-- The keys that are paths: those of the locks, the barriers and the permissions begin otherwise.
abbrev pub is_path : Bytes → Bool
is_path k = char_at k 0 == slash

-- What a path stands for: nothing is cached, a removed entry is, or an entry with its stat.
pub data Name : Type 0 where
  unused : Name
  deleted : Name
  entry : PaconStat → Name

pub record Namespace : Type 0 where
  pub names : Bytes → Name
  pub queue : List Bytes

abbrev pub renamed : Bytes → Name → Namespace → Bytes → Name
renamed path n ns k = if bytes_eq path k then n else ns.names k

abbrev pub with_name : Bytes → Name → Bytes → Namespace → Namespace
with_name path n mesg ns = record { names = renamed path n ns; queue = ns.queue ++ mesg ∷ [] }

-- A name that is in use is refused; otherwise the entry is made and its message queued.
unfoldable pub insert : Bytes → PaconStat → Bytes → Namespace → Status × Namespace
insert path st mesg ns = elim (ns.names path) [
  | entry _ ↦ (failed, ns)
  | _ ↦ (succeeded, with_name path (entry st) mesg ns)
]

-- Insertion as `pacon_mkdir` has it: over a removed entry the message is left out.
unfoldable pub insert_silent : Bytes → PaconStat → Bytes → Namespace → Status × Namespace
insert_silent path st mesg ns = elim (ns.names path) [
  | entry _ ↦ (failed, ns)
  | unused ↦ (succeeded, with_name path (entry st) mesg ns)
  | deleted ↦ (succeeded, record { names = renamed path (entry st) ns; queue = ns.queue })
]

module _ (path : Bytes) (st : PaconStat) (mesg : Bytes) (ns : Namespace) where
  pub insert-unused :
      ns.names path ≡ unused
      → insert path st mesg ns ≡ (succeeded, with_name path (entry st) mesg ns)
  unfolding insert
  insert-unused e = cc

  pub insert-deleted :
      ns.names path ≡ deleted
      → insert path st mesg ns ≡ (succeeded, with_name path (entry st) mesg ns)
  unfolding insert
  insert-deleted e = cc

  pub insert-entry :
      {old : PaconStat} → ns.names path ≡ entry old → insert path st mesg ns ≡ (failed, ns)
  unfolding insert
  insert-entry e = cc

  pub insert_silent-unused :
      ns.names path ≡ unused
      → insert_silent path st mesg ns ≡ (succeeded, with_name path (entry st) mesg ns)
  unfolding insert_silent
  insert_silent-unused e = cc

  pub insert_silent-deleted :
      ns.names path ≡ deleted
      → insert_silent path st mesg ns
        ≡ (succeeded, record { names = renamed path (entry st) ns; queue = ns.queue })
  unfolding insert_silent
  insert_silent-deleted e = cc

  pub insert_silent-entry :
      {old : PaconStat} → ns.names path ≡ entry old → insert_silent path st mesg ns ≡ (failed, ns)
  unfolding insert_silent
  insert_silent-entry e = cc

abbrev pub remove : Bytes → Bytes → Namespace → Namespace
remove path mesg ns = with_name path deleted mesg ns

-- What is cached at a path agrees with what the path stands for.
pub data Known (i : Option Item) (n : Name) : Type 0 where
  absent : i ≡ none → n ≡ unused → Known i n
  removed :
      (j : Item) (st : PaconStat)
      → i ≡ some j
      → deseri_val j.value ≡ some st
      → IsStat st
      → get_stat_flag st stat_rm ≡ true
      → n ≡ deleted
      → Known i n
  live :
      (j : Item) (st : PaconStat)
      → i ≡ some j
      → deseri_val j.value ≡ some st
      → IsStat st
      → get_stat_flag st stat_rm ≡ false
      → n ≡ entry st
      → Known i n

module _ (st : PaconStat) (cas : ℕ) (fits : IsStat st) where
  stored : deseri_val (seri_val st) ≡ some st
  stored =
      subst (λ v. deseri_val v ≡ some st) (append-nil (seri_val st))
        (deseri_val-seri_val st [] fits)

  pub Known-live :
      get_stat_flag st stat_rm ≡ false
      → Known (some (record { value = seri_val st; item_cas = cas })) (entry st)
  Known-live alive = Known.live _ st refl stored fits alive refl

  pub Known-removed :
      get_stat_flag st stat_rm ≡ true
      → Known (some (record { value = seri_val st; item_cas = cas })) deleted
  Known-removed gone = Known.removed _ st refl stored fits gone refl

module _ {m : Memcached} (q : Quiet m) (h : ℕ) where
  -- The cluster holds the namespace; what it has under other keys is left open.
  pub record Holds (s : m.State) (names : Bytes → Name) : Type 0 where
    pub known : (k : Bytes) → is_path k ≡ true → Known (q.item s h k) (names k)

  module _ {s t : m.State} {names : Bytes → Name} where
    pub Holds-Kept : Holds s names → Kept q s t → Holds t names
    Holds-Kept holds kept = record {
      known = λ k p. subst (λ i. Known i (names k)) (sym (kept.same h k)) (holds.known k p);
    }

    -- After a value is put at `k`, the path names what the value stands for.
    pub Holds-Put :
        (k v : Bytes) (n : Name)
        → ((cas : ℕ) → Known (some (record { value = v; item_cas = cas })) n)
        → Holds s names
        → Put q h k v s t
        → Holds t (λ j. if bytes_eq k j then n else names j)
    Holds-Put k v n new holds put = record {
      known = λ j p. elim (Bool-cases (bytes_eq k j)) [
        | inl e ↦
            subst (λ i. Known i (if bytes_eq k j then n else names j)) (sym (put.at_keys h j))
              (subst
                (λ b.
                  Known
                    (if (h == h) && b
                      then some (record { value = v; item_cas = put.put_cas })
                      else q.item s h j)
                    (if b then n else names j))
                (sym e)
                (subst
                  (λ b.
                    Known
                      (if b && true
                        then some (record { value = v; item_cas = put.put_cas })
                        else q.item s h j)
                      n)
                  (sym (==_refl h)) (new put.put_cas)))
        | inr e ↦
            subst (λ i. Known i (if bytes_eq k j then n else names j)) (sym (put.at_keys h j))
              (subst
                (λ b.
                  Known
                    (if (h == h) && b
                      then some (record { value = v; item_cas = put.put_cas })
                      else q.item s h j)
                    (if b then n else names j))
                (sym e)
                (subst
                  (λ b.
                    Known
                      (if b && false
                        then some (record { value = v; item_cas = put.put_cas })
                        else q.item s h j)
                      (names j))
                  (sym (==_refl h)) (holds.known j p)))
      ];
    }
