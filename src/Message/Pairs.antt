-- ===== src/Message/Pairs.antt =====
-- The pairs inside a path: `count|id` of a barrier, and `old-new` of a rename.
use pacon.Base.{
  ℕ, ◌+◌, ◌≤◌, ◌<◌, ◌≡◌, refl, ap, ◌∙◌, true, false, none, some, [], ◌∷◌, ◌++◌, append_assoc,
  append-nil, arith, ◌==◌, if◌then◌else◌, Bytes, length, lacks, before-append, inl, inr, Bool-cases,
  c_string, c_string-append,
}
use pacon.Base.Decimal.{
  decimal, atoi, is_digit, decimal-lacks, decimal_one_digit, decimal_two_digits,
}
use pacon.Base.Int.{atoi-decimal_alone}
use pacon.Message.{
  bar, dash, slot_of, minus_one, parse_barrier, barrier_path, joint_path, split_loop, split_joint,
}

decimal-lacks-bar : (n : ℕ) → lacks bar (decimal n) ≡ true
unfolding is_digit
decimal-lacks-bar n = decimal-lacks bar n refl

-- With a count of one digit, the server finds the count (none for 0) and the slot of the id.
pub parse_barrier-barrier_path :
    (n id : ℕ)
    → n < 10
    → parse_barrier (barrier_path n id)
      ≡ record { opt_num = if n == 0 then none else some n; reached = slot_of id }
unfolding parse_barrier barrier_path
parse_barrier-barrier_path n id h = ground (
  arith,
  decimal_one_digit n h,
  before-append bar (decimal n) (decimal id) (decimal-lacks-bar n),
  atoi-decimal_alone n,
  atoi-decimal_alone id,
)

-- With a count of two digits it looks one byte too early, finds no number, and takes the slot in
-- front of the array, whatever the id.
pub parse_barrier_two_digits :
    (n id : ℕ)
    → 10 ≤ n
    → n < 100
    → parse_barrier (barrier_path n id) ≡ record { opt_num = some n; reached = minus_one }
unfolding parse_barrier barrier_path atoi
parse_barrier_two_digits n id low high = ground (
  arith,
  decimal_two_digits n low high,
  before-append bar (decimal n) (decimal id) (decimal-lacks-bar n),
  atoi-decimal_alone n,
)

split_loop-new :
    (i loc : ℕ) (old new s : Bytes)
    → (loc == 0) ≡ false
    → lacks dash s ≡ true
    → split_loop i loc old new s ≡ (c_string old, new ++ s)
unfolding split_loop lacks
split_loop-new i loc old new [] past no_dash = ground (arith, append-nil new)
split_loop-new i loc old new (c ∷ s) past no_dash =
    ground (arith, split_loop-new (i + 1) loc old (new ++ c ∷ []) s, append_assoc new (c ∷ []) s)

split_loop-old :
    (i : ℕ) (old s rest : Bytes)
    → lacks dash s ≡ true
    → split_loop i 0 old [] (s ++ rest) ≡ split_loop (i + length s) 0 (old ++ s) [] rest
unfolding split_loop lacks
split_loop-old i old [] rest no_dash = ground (arith, append-nil old)
split_loop-old i old (c ∷ s) rest no_dash =
    ground (arith, split_loop-old (i + 1) (old ++ c ∷ []) s rest, append_assoc old (c ∷ []) s)

split_loop-dash :
    (i : ℕ) (old rest : Bytes)
    → split_loop i 0 old [] (dash ∷ rest) ≡ split_loop (i + 1) i (old ++ 0 ∷ []) [] rest
unfolding split_loop
split_loop-dash i old rest = ground arith

-- Text up to the first dash, and text without a dash behind it.
split_joint-parts :
    (c : ℕ) (old new : Bytes)
    → lacks dash (c ∷ old) ≡ true
    → lacks 0 (c ∷ old) ≡ true
    → lacks dash new ≡ true
    → split_joint (c ∷ old ++ dash ∷ new) ≡ (c ∷ old, new)
unfolding split_joint
split_joint-parts c old new no_dash no_nul new_no_dash =
    split_loop-old 0 [] (c ∷ old) (dash ∷ new) no_dash
    ∙ (split_loop-dash (0 + length (c ∷ old)) (c ∷ old) new
        ∙ (split_loop-new (0 + length (c ∷ old) + 1) (0 + length (c ∷ old)) (c ∷ old ++ 0 ∷ []) []
              new (ground arith) new_no_dash
            ∙ ap (λ s. (s, new)) (c_string-append (c ∷ old) [] no_nul)))

-- The server recovers both names of a rename, if neither holds a dash.
pub split_joint-joint_path :
    (c : ℕ) (path newpath : Bytes)
    → lacks dash (c ∷ path) ≡ true
    → lacks 0 (c ∷ path) ≡ true
    → lacks dash newpath ≡ true
    → split_joint (joint_path (c ∷ path) newpath) ≡ (c ∷ path, newpath)
unfolding joint_path
split_joint-joint_path = split_joint-parts

-- Behind the first dash the old name is final, and each further dash starts the new name again.
split_loop-again :
    (i loc : ℕ) (o t new y s : Bytes)
    → 0 < i
    → 0 < loc
    → lacks 0 o ≡ true
    → lacks dash s ≡ true
    → split_loop i loc (o ++ 0 ∷ t) new (y ++ dash ∷ s) ≡ (o, s)
unfolding split_loop
split_loop-again i loc o t new [] s hi hl no_nul no_dash = ground (
  arith,
  split_loop-new (i + 1) i (o ++ 0 ∷ (t ++ 0 ∷ [])) [] s,
  append_assoc o (0 ∷ t) (0 ∷ []),
  c_string-append o (t ++ 0 ∷ []) no_nul,
)
split_loop-again i loc o t new (c ∷ y) s hi hl no_nul no_dash = elim (Bool-cases (c == dash)) [
  | inl hit ↦
      ground
        (arith, append_assoc o (0 ∷ t) (0 ∷ []), split_loop-again (i + 1) i o (t ++ 0 ∷ []) [] y s)
  | inr miss ↦ ground (arith, split_loop-again (i + 1) loc o t (new ++ c ∷ []) y s)
]

-- An old name with a dash is cut there: the server renames another path, the text before the dash.
pub split_joint-dash :
    (c : ℕ) (x y newpath : Bytes)
    → lacks dash (c ∷ x) ≡ true
    → lacks 0 (c ∷ x) ≡ true
    → lacks dash newpath ≡ true
    → split_joint (joint_path (c ∷ x ++ dash ∷ y) newpath) ≡ (c ∷ x, newpath)
unfolding split_joint joint_path
split_joint-dash c x y newpath no_dash no_nul new_no_dash =
    ap (split_loop 0 0 [] []) (append_assoc (c ∷ x) (dash ∷ y) (dash ∷ newpath))
    ∙ (split_loop-old 0 [] (c ∷ x) (dash ∷ y ++ dash ∷ newpath) no_dash
        ∙ (split_loop-dash (0 + length (c ∷ x)) (c ∷ x) (y ++ dash ∷ newpath)
            ∙ split_loop-again (0 + length (c ∷ x) + 1) (0 + length (c ∷ x)) (c ∷ x) [] [] y newpath
                (omega arith) (omega arith) no_nul new_no_dash))
