-- ===== src/Paths/Compare.antt =====
-- What `child_cmp_new`, the server's `child_cmp` and `is_loacl_addr` decide.
use pacon.Base.{
  ℕ, ◌⊎◌, ◌≢◌, ◌≡◌, ◌↔◌, inl, inr, refl, ap, ◌∙◌, sym, subst, true, false, [], ◌∷◌, ◌++◌,
  append-nil, arith, ◌==◌, if◌then◌else◌, not, Bytes, length, char_at, drop, Bool-cases,
  length-append,
}
use pacon.Paths.{
  slash, agrees, Ancestry, unrelated, below, same, child_cmp_new, server_child_cmp, is_loacl_addr,
}

abbrev root : Bytes
root = slash ∷ []

-- The relation of two paths by their text, with the answer to it: equal; the second and a slash begin
-- the first; a path below the root, which is not recognised; or none of these.
pub data Related (path p_path : Bytes) : Ancestry → Type 0 where
  itself : path ≡ p_path → Related path p_path same
  descendant : (rest : Bytes) → path ≡ p_path ++ slash ∷ rest → Related path p_path below
  below_root :
      (c : ℕ) (name : Bytes)
      → p_path ≡ root
      → path ≡ slash ∷ c ∷ name
      → c ≢ slash
      → Related path p_path unrelated
  apart :
      ¬ (path ≡ p_path)
      → ((rest : Bytes) → ¬ (path ≡ p_path ++ slash ∷ rest))
      → ((name : Bytes) → p_path ≡ root → ¬ (path ≡ p_path ++ name))
      → Related path p_path unrelated

pub agrees-append : (p s : Bytes) → agrees (p ++ s) p ≡ true
unfolding agrees
agrees-append [] s = refl
agrees-append (c ∷ p) s = ground (arith, agrees-append p s)

pub agrees→eq : (path p : Bytes) → agrees path p ≡ true → path ≡ p ++ drop (length p) path
unfolding agrees
agrees→eq path [] h = refl
agrees→eq [] (d ∷ p) h = ground arith
agrees→eq (c ∷ path) (d ∷ p) h = ground (arith, agrees→eq path p)

pub char_at-append : (p s : Bytes) → char_at (p ++ s) (length p) ≡ char_at s 0
char_at-append [] s = refl
char_at-append (c ∷ p) s = char_at-append p s

append_cancel : (p s t : Bytes) → p ++ s ≡ p ++ t → s ≡ t
append_cancel [] s t e = e
append_cancel (c ∷ p) s t e = append_cancel p s t (cc)

not-agrees : (path p : Bytes) → agrees path p ≡ false → (s : Bytes) → ¬ (path ≡ p ++ s)
not-agrees path p h s e = ground (arith, agrees-append p s)

child_cmp_new-apart : (path p : Bytes) → agrees path p ≡ false → child_cmp_new path p ≡ unrelated
unfolding child_cmp_new
child_cmp_new-apart path p h = ground arith

child_cmp_new-append :
    (p s : Bytes)
    → child_cmp_new (p ++ s) p
      ≡ elim s [ [] ↦ same | c ∷ rest ↦ if c == slash then below else unrelated ]
unfolding child_cmp_new
child_cmp_new-append p [] = ground (arith, length-append p [], agrees-append p [])
child_cmp_new-append p (c ∷ s) =
    ground (arith, length-append p (c ∷ s), agrees-append p (c ∷ s), char_at-append p (c ∷ s))

longer : (p : Bytes) (c : ℕ) (s : Bytes) → ¬ (p ++ c ∷ s ≡ p)
longer p c s e = omega (arith, ap length e, length-append p (c ∷ s))

other_byte :
    (p : Bytes) (c : ℕ) (s : Bytes)
    → (c == slash) ≡ false
    → (rest : Bytes) → ¬ (p ++ c ∷ s ≡ p ++ slash ∷ rest)
other_byte p c s miss rest e = ground (arith, append_cancel p (c ∷ s) (slash ∷ rest) e)

root_case : (p : Bytes) → (p ≡ root) ⊎ (¬ (p ≡ root))
root_case [] = inr (λ e. ground arith)
root_case (c ∷ d ∷ p) = inr (λ e. ground arith)
root_case (c ∷ []) = elim (Bool-cases (c == slash)) [
  | inl hit ↦ inl (ground arith)
  | inr miss ↦ inr (λ e. ground arith)
]

Related-append : (p s : Bytes) → Related (p ++ s) p (child_cmp_new (p ++ s) p)
Related-append p [] = rw (child_cmp_new-append p []) (itself (append-nil p))
Related-append p (c ∷ s) = rw (child_cmp_new-append p (c ∷ s)) (elim (Bool-cases (c == slash)) [
  | inl hit ↦ rw hit (descendant s (ground arith))
  | inr miss ↦ rw miss (elim (root_case p) [
    | inl e ↦ below_root c s e (ap (λ q. q ++ c ∷ s) e) (λ q. ground arith)
    | inr other ↦ apart (longer p c s) (other_byte p c s miss) (λ name e. absurd (other e))
  ])
])

agrees_self : (p : Bytes) → agrees p p ≡ true
unfolding agrees
agrees_self [] = refl
agrees_self (c ∷ p) = ground (arith, agrees_self p)

drop_none : (l t : Bytes) → length l ≡ length t → drop (length l) t ≡ []
drop_none [] [] e = refl
drop_none [] (d ∷ t) e = absurd (omega arith)
drop_none (c ∷ l) [] e = absurd (omega arith)
drop_none (c ∷ l) (d ∷ t) e = drop_none l t (omega arith)

pub child_cmp_new-Related : (path p_path : Bytes) → Related path p_path (child_cmp_new path p_path)
child_cmp_new-Related path p_path = elim (Bool-cases (agrees path p_path)) [
  | inl h ↦
      subst (λ q. Related q p_path (child_cmp_new q p_path)) (sym (agrees→eq path p_path h))
        (Related-append p_path (drop (length p_path) path))
  | inr h ↦ rw (child_cmp_new-apart path p_path h) (
      apart (λ e. not-agrees path p_path h [] (e ∙ sym (append-nil p_path)))
        (λ rest. not-agrees path p_path h (slash ∷ rest)) (λ name _. not-agrees path p_path h name))
]

-- The server's copy gives the client's answers, so it tells the same paths apart.
pub server_child_cmp-Related :
    (path p_path : Bytes) → Related path p_path (server_child_cmp path p_path)
unfolding server_child_cmp child_cmp_new
server_child_cmp-Related path p_path = child_cmp_new-Related path p_path

pub server_child_cmp-same :
    (path p_path : Bytes) → server_child_cmp path p_path ≡ same → path ≡ p_path
server_child_cmp-same path p_path h =
    same_path (server_child_cmp path p_path) h (server_child_cmp-Related path p_path)
  where
    same_path : (a : Ancestry) → a ≡ same → Related path p_path a → path ≡ p_path
    same_path same e (itself q) = q
    same_path below e r = cc
    same_path unrelated e r = cc

pub server_child_cmp_self : (path : Bytes) → server_child_cmp path path ≡ same
unfolding server_child_cmp
server_child_cmp_self path = ground (arith, agrees_self path)

-- Two addresses are the same node's exactly when their texts are equal.
pub is_loacl_addr_iff :
    (l_addr t_addr : Bytes) → (is_loacl_addr l_addr t_addr ≡ true) ↔ (l_addr ≡ t_addr)
unfolding is_loacl_addr
is_loacl_addr_iff l_addr t_addr = (forth, back)
  where
    forth :
        (if not (length l_addr == length t_addr) then false else agrees t_addr l_addr) ≡ true
        → l_addr ≡ t_addr
    forth h = ground (arith, agrees→eq t_addr l_addr, drop_none l_addr t_addr, append-nil l_addr)

    back :
        l_addr ≡ t_addr
        → (if not (length l_addr == length t_addr) then false else agrees t_addr l_addr) ≡ true
    back e = ground (arith, agrees_self l_addr)
