-- ===== src/Client/Parents.antt =====
-- The parent that `check_parent_dir` of pacon.c looks up.
use pacon.Base.{
  ℕ, ◌≡◌, refl, ap, ◌∙◌, true, none, some, [], ◌∷◌, ◌++◌, append_assoc, arith, Bytes, length,
  take-append, lacks, is_empty, if◌then◌else◌,
}
use pacon.Paths.{slash}
use pacon.Dmkv.{cut_slash}
use pacon.Dmkv.Keys.{cut_slash-append, cut_slash-plain, ends_plain}
use pacon.Client.Parent.{last_slash, parent_dir}

last_slash-none : (s : Bytes) → lacks slash s ≡ true → last_slash s ≡ none
unfolding last_slash lacks
last_slash-none [] h = refl
last_slash-none (c ∷ s) h = ground (arith, last_slash-none s)

last_slash-append :
    (d name : Bytes) → lacks slash name ≡ true → last_slash (d ++ slash ∷ name) ≡ some (length d)
unfolding last_slash
last_slash-append [] name h = ground (arith, last_slash-none name h)
last_slash-append (c ∷ d) name h = ground (arith, last_slash-append d name h)

ends_plain-name :
    (d : Bytes) (x : ℕ) (name : Bytes)
    → lacks slash (x ∷ name) ≡ true
    → ends_plain (d ++ slash ∷ x ∷ name) ≡ true
unfolding ends_plain lacks
ends_plain-name [] x [] h = ground arith
ends_plain-name [] x (y ∷ name) h = ground (arith, ends_plain-name [] y name)
ends_plain-name (c ∷ []) x name h = ends_plain-name [] x name h
ends_plain-name (c ∷ e ∷ d) x name h = ends_plain-name (e ∷ d) x name h

parent_dir_at :
    (path d rest : Bytes)
    → path ≡ d ++ rest
    → last_slash (cut_slash path) ≡ some (length d)
    → parent_dir path ≡ some (if is_empty d then slash ∷ [] else d)
unfolding parent_dir
parent_dir_at path [] rest q e = ground (arith, e)
parent_dir_at path (c ∷ d) rest q e = ground (arith, e, q, take-append (c ∷ d) rest)

-- The parent of `d/name` is `d`, or the root where `d` is empty, with a slash at the end or without.
pub parent_dir-child :
    (d : Bytes) (x : ℕ) (name : Bytes)
    → lacks slash (x ∷ name) ≡ true
    → (parent_dir (d ++ slash ∷ x ∷ name) ≡ some (if is_empty d then slash ∷ [] else d))
      × (parent_dir ((d ++ slash ∷ x ∷ name) ++ slash ∷ [])
          ≡ some (if is_empty d then slash ∷ [] else d))
parent_dir-child d x name h = (
  parent_dir_at (d ++ slash ∷ x ∷ name) d (slash ∷ x ∷ name) refl (
      ap last_slash (cut_slash-plain (d ++ slash ∷ x ∷ name) (ends_plain-name d x name h))
      ∙ last_slash-append d (x ∷ name) h),
  parent_dir_at ((d ++ slash ∷ x ∷ name) ++ slash ∷ []) d ((slash ∷ x ∷ name) ++ slash ∷ [])
      (append_assoc d (slash ∷ x ∷ name) (slash ∷ []))
      (ap last_slash (cut_slash-append (d ++ slash ∷ x ∷ name)) ∙ last_slash-append d (x ∷ name) h),
)
