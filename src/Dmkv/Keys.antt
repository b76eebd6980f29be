-- ===== src/Dmkv/Keys.antt =====
-- The keys under which a path is cached.
use pacon.Base.{
  ◌≡◌, refl, ap, Bool, true, false, some, [], ◌∷◌, ◌++◌, arith, ◌==◌, if◌then◌else◌, Bytes,
}
use pacon.Paths.{slash}
use pacon.Dmkv.{cut_slash, cut_slashes, key_of, put_key_of}

-- A path that is neither empty nor ends in a slash.
unfoldable pub ends_plain : Bytes → Bool
ends_plain [] = false
ends_plain (c ∷ []) = if c == slash then false else true
ends_plain (c ∷ d ∷ s) = ends_plain (d ∷ s)

pub cut_slash-plain : (s : Bytes) → ends_plain s ≡ true → cut_slash s ≡ s
unfolding cut_slash ends_plain
cut_slash-plain [] h = refl
cut_slash-plain (c ∷ []) h = ground arith
cut_slash-plain (c ∷ d ∷ s) h = ap (λ l. c ∷ l) (cut_slash-plain (d ∷ s) h)

cut_slashes-plain : (s : Bytes) → ends_plain s ≡ true → cut_slashes s ≡ s
unfolding cut_slashes ends_plain
cut_slashes-plain [] h = refl
cut_slashes-plain (c ∷ []) h = ground arith
cut_slashes-plain (c ∷ d ∷ s) h = rw (cut_slashes-plain (d ∷ s) h)

-- Every wrapper, `memc_put` too, uses a plain path as the key.
pub key_of-plain : (s : Bytes) → ends_plain s ≡ true → key_of s ≡ some s
unfolding key_of ends_plain
key_of-plain [] h = cc
key_of-plain (c ∷ s) h = rw (cut_slash-plain (c ∷ s) h)

pub put_key_of-plain : (s : Bytes) → ends_plain s ≡ true → put_key_of s ≡ some s
unfolding put_key_of ends_plain
put_key_of-plain [] h = cc
put_key_of-plain (c ∷ s) h = rw (cut_slashes-plain (c ∷ s) h)

pub cut_slash-append : (s : Bytes) → cut_slash (s ++ slash ∷ []) ≡ s
unfolding cut_slash
cut_slash-append [] = refl
cut_slash-append (c ∷ []) = refl
cut_slash-append (c ∷ d ∷ s) = ap (λ l. c ∷ l) (cut_slash-append (d ∷ s))

cut_slashes-append : (s : Bytes) → cut_slashes (s ++ slash ∷ []) ≡ cut_slashes s
unfolding cut_slashes
cut_slashes-append [] = refl
cut_slashes-append (c ∷ s) = rw (cut_slashes-append s)

-- One slash behind a path makes no difference: all wrappers still share its key.
pub key_of-slash :
    (s : Bytes)
    → ends_plain s ≡ true
    → (key_of (s ++ slash ∷ []) ≡ some s) × (put_key_of (s ++ slash ∷ []) ≡ some s)
unfolding key_of put_key_of ends_plain
key_of-slash [] h = cc
key_of-slash (c ∷ s) h =
    (rw (cut_slash-append (c ∷ s)), rw (cut_slashes-append (c ∷ s), cut_slashes-plain (c ∷ s) h))

cut_slash-two : (s : Bytes) → cut_slash (s ++ slash ∷ slash ∷ []) ≡ s ++ slash ∷ []
unfolding cut_slash
cut_slash-two [] = refl
cut_slash-two (c ∷ []) = refl
cut_slash-two (c ∷ d ∷ s) = ap (λ l. c ∷ l) (cut_slash-two (d ∷ s))

cut_slashes-two : (s : Bytes) → cut_slashes (s ++ slash ∷ slash ∷ []) ≡ cut_slashes s
unfolding cut_slashes
cut_slashes-two [] = refl
cut_slashes-two (c ∷ s) = rw (cut_slashes-two s)

-- Two slashes do: a value set under such a path is not where the other wrappers look.
pub keys_two_slashes :
    (s : Bytes)
    → ends_plain s ≡ true
    → (key_of (s ++ slash ∷ slash ∷ []) ≡ some (s ++ slash ∷ []))
      × (put_key_of (s ++ slash ∷ slash ∷ []) ≡ some s)
unfolding key_of put_key_of ends_plain
keys_two_slashes [] h = cc
keys_two_slashes (c ∷ s) h =
    (rw (cut_slash-two (c ∷ s)), rw (cut_slashes-two (c ∷ s), cut_slashes-plain (c ∷ s) h))
