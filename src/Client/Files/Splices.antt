-- ===== src/Client/Files/Splices.antt =====
-- What the calls of memcpy of `pacon_write_new` make.
use pacon.Base.{
  ℕ, zero, suc, ◌+◌, ◌-◌, ◌≤◌, ◌<◌, ◌≡◌, refl, sym, ap, ◌∙◌, subst, true, some, [], ◌∷◌, ◌++◌,
  append_assoc, append-nil, arith, ltb, leb, if◌then◌else◌, Bytes, length, take, drop,
  length-append, length-take, length-drop, take_within, drop_within, drop_all, take-append,
  drop-append, lacks, lacks-append, Bool-cases, inl, inr,
}
use pacon.Stat.{copy_into, copy_into-eq}
use pacon.Client.Files.{memcpy}
use pacon.Client.Files.Write.{splice}

-- The text with `buf` written over it at `offset`.
unfoldable pub written : Bytes → ℕ → Bytes → Bytes
written text offset buf = take offset text ++ buf ++ drop (offset + length buf) text

take-drop : (n : ℕ) (s : Bytes) → take n s ++ drop n s ≡ s
take-drop zero s = refl
take-drop (suc n) [] = refl
take-drop (suc n) (c ∷ s) = ap (λ l. c ∷ l) (take-drop n s)

parts_lack :
    (n : ℕ) (s : Bytes)
    → lacks 0 s ≡ true
    → (lacks 0 (take n s) ≡ true) × (lacks 0 (drop n s) ≡ true)
parts_lack n s h =
    let e : lacks 0 (take n s ++ drop n s) ≡ true = ap (lacks 0) (take-drop n s) ∙ h in
    (
      ground (arith, lacks-append 0 (take n s) (drop n s)),
      ground (arith, lacks-append 0 (take n s) (drop n s)),
    )

module _ (text buf : Bytes) (offset : ℕ) (inside : offset ≤ length text) where
  pub length-written :
      length (written text offset buf)
      ≡ (if ltb (length text) (offset + length buf) then offset + length buf else length text)
  unfolding written
  length-written = ground (
    arith,
    length-append (take offset text ++ buf) (drop (offset + length buf) text),
    length-append (take offset text) buf,
    length-take offset text inside,
    length-drop (offset + length buf) text,
  )

  pub written-lacks :
      lacks 0 text ≡ true → lacks 0 buf ≡ true → lacks 0 (written text offset buf) ≡ true
  unfolding written
  written-lacks t b =
      let z = drop (offset + length buf) text in
      let ta = (parts_lack offset text t).0 in
      let tz = (parts_lack (offset + length buf) text t).1 in
      ground (
        arith,
        lacks-append 0 (take offset text ++ buf) z,
        lacks-append 0 (take offset text) buf,
        ta,
        tz,
      )

  -- What was written is found there.
  pub written-part : take (length buf) (drop offset (written text offset buf)) ≡ buf
  unfolding written
  written-part =
      let a = take offset text in
      let z = drop (offset + length buf) text in
      subst (λ n. take (length buf) (drop n (a ++ buf ++ z)) ≡ buf) (length-take offset text inside)
        (ap (λ l. take (length buf) (drop (length a) l)) (append_assoc a buf z)
          ∙ (ap (take (length buf)) (drop-append a (buf ++ z)) ∙ take-append buf z))

memcpy-eq :
    (pre old src s : Bytes) (offset n : ℕ)
    → offset ≡ length pre
    → n ≡ length s
    → take n src ≡ s
    → n ≤ length src
    → length s ≤ length old
    → memcpy (pre ++ old) offset src n ≡ some (pre ++ s ++ drop (length s) old)
unfolding memcpy
memcpy-eq pre old src s offset n at_end whole e enough room =
    let fits : leb n (length src) ≡ true = ground arith in
    rw (fits, memcpy)
      (rw e (
        subst (λ o. copy_into (pre ++ old) o s ≡ some (pre ++ s ++ drop (length s) old))
          (sym at_end) (copy_into-eq pre old s room)))

-- The four steps one after the other.
splice_steps :
    (new_data inline_data mem : Bytes) (size offset old_size end : ℕ)
    → {first second third last : Bytes} → memcpy new_data 0 inline_data offset ≡ some first
    → memcpy first offset mem size ≡ some second
    → (if ltb (offset + size) old_size
        then memcpy second
            (offset + size)
            (drop (offset + size) inline_data)
            (old_size - (offset + size))
        else some second)
      ≡ some third
    → memcpy third end (0 ∷ []) 1 ≡ some last
    → splice new_data inline_data mem size offset old_size end ≡ some last
unfolding splice
splice_steps new_data inline_data mem size offset old_size end e1 e2 e3 e4 = cc

module _ (text buf junk new_data : Bytes) (offset : ℕ) (inside : offset ≤ length text)
    (room : length (written text offset buf) < length new_data) where
  abbrev stored : Bytes
  stored = text ++ 0 ∷ junk

  abbrev front : Bytes
  front = take offset text

  abbrev tail : Bytes
  tail = drop (offset + length buf) text

  abbrev behind₁ : Bytes
  behind₁ = drop (length front) new_data

  abbrev behind₂ : Bytes
  behind₂ = drop (length buf) behind₁

  length-front : length front ≡ offset
  length-front = length-take offset text inside

  sizes : length (written text offset buf) ≡ offset + length buf + length tail
  unfolding written
  sizes = omega (arith, length-append (front ++ buf) tail, length-append front buf, length-front)

  length-behind₂ : length behind₂ ≡ length new_data - offset - length buf
  length-behind₂ =
      omega
        (arith, length-drop (length buf) behind₁, length-drop (length front) new_data, length-front)

  first_copy : memcpy new_data 0 stored offset ≡ some (front ++ behind₁)
  first_copy =
      memcpy-eq [] new_data stored front 0 offset refl (sym length-front)
        (take_within offset text (0 ∷ junk) inside) (omega (arith, length-append text (0 ∷ junk)))
        (omega (arith, sizes, length-front))

  second_copy :
      memcpy (front ++ behind₁) offset (buf ++ 0 ∷ []) (length buf) ≡ some (front ++ buf ++ behind₂)
  second_copy =
      memcpy-eq front behind₁ (buf ++ 0 ∷ []) buf offset (length buf) (sym length-front) refl
        (take-append buf (0 ∷ [])) (omega (arith, length-append buf (0 ∷ [])))
        (omega (arith, sizes, length-front, length-drop (length front) new_data))

  third_copy :
      (rest : Bytes) × ((if ltb (offset + length buf) (length text)
          then memcpy
              (front ++ buf ++ behind₂)
              (offset + length buf)
              (drop (offset + length buf) stored)
              (length text - (offset + length buf))
          else some (front ++ buf ++ behind₂))
        ≡ some (written text offset buf ++ rest))
      × (0 < length rest)
  unfolding written
  third_copy = elim (Bool-cases (ltb (offset + length buf) (length text))) [
    | inl more ↦
        let within : offset + length buf ≤ length text = ground arith in
        let l = length-drop (offset + length buf) text in
        let e = drop_within (offset + length buf) text (0 ∷ junk) within in
        let copied =
          memcpy-eq (front ++ buf) behind₂ (tail ++ 0 ∷ junk) tail (offset + length buf)
            (length text - (offset + length buf))
            (omega (arith, length-append front buf, length-front)) (omega (arith, l))
            (subst (λ k. take k (tail ++ 0 ∷ junk) ≡ tail) l (take-append tail (0 ∷ junk)))
            (omega (arith, length-append tail (0 ∷ junk), l))
            (omega (arith, length-behind₂, sizes)) in
        (
          drop (length tail) behind₂,
          cc,
          omega (arith, length-drop (length tail) behind₂, length-behind₂, sizes),
        )
    | inr all ↦
        let past : length text ≤ offset + length buf = ground arith in
        let nothing : tail ≡ [] = drop_all (offset + length buf) text past in
        let same : front ++ buf ++ tail ≡ front ++ buf =
          ap (λ l. front ++ buf ++ l) nothing ∙ append-nil (front ++ buf) in
        (behind₂, cc, omega (arith, length-behind₂, sizes))
  ]

  -- The text up to its NUL is the one that is written.
  pub splice-written :
      (rest : Bytes) × (splice new_data stored
          (buf ++ 0 ∷ [])
          (length buf)
          offset
          (length text)
          (length (written text offset buf))
        ≡ some (written text offset buf ++ 0 ∷ rest))
  splice-written =
      let (rest, third, some_room) = third_copy in
      let fourth =
        memcpy-eq (written text offset buf) rest (0 ∷ []) (0 ∷ [])
          (length (written text offset buf)) 1 refl refl refl (omega arith) (omega arith) in
      (
        drop 1 rest,
        splice_steps new_data stored (buf ++ 0 ∷ []) (length buf) offset (length text)
            (length (written text offset buf)) first_copy second_copy third
            (fourth ∙ ap some (append_assoc (written text offset buf) (0 ∷ []) (drop 1 rest))),
      )
