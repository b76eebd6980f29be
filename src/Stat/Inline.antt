-- ===== src/Stat/Inline.antt =====
-- `seri_inline_data` and `deseri_inline_data` of pacon.c: a struct with a NUL-terminated text of file
-- data behind it, in a buffer of PSTAT_SIZE + INLINE_MAX bytes.
use pacon.Base.{
  ℕ, ◌+◌, ◌≤◌, ◌<◌, ◌≡◌, ap, ◌∙◌, true, Option, none, some, [], ◌∷◌, ◌++◌, append_assoc, arith, ltb,
  subst, drop_past, take_past, length-drop, leb, if◌then◌else◌, Bytes, length, take, drop,
  take-append, drop-append, length-append, c_string, lacks, c_string-lacks, c_string-append, sym,
  lt→ltb,
}
use pacon.Stat.Codec.{
  seri_val, deseri_val, pstat_size, IsStat, deseri_val-seri_val, length-seri_val,
}
use pacon.Stat.Flags.{PaconStat}

-- INLINE_MAX of pacon.h
abbrev pub inline_max : ℕ
inline_max = 4052

-- memcpy(val + offset, s, n) with `n` bytes in `s`; `none` when they do not fit the buffer.
unfoldable pub copy_into : Bytes → ℕ → Bytes → Option Bytes
copy_into val offset s =
    if leb (offset + length s) (length val)
    then some (take offset val ++ s ++ drop (offset + length s) val)
    else none

-- `val` is what the buffer holds before; it is `none` when the text overruns it.
unfoldable pub seri_inline_data : PaconStat → Bytes → Bytes → Option Bytes
seri_inline_data s inline_data val = elim (copy_into val 0 (seri_val s)) [
  | none ↦ none
  | some v ↦ copy_into v pstat_size (c_string inline_data ++ 0 ∷ [])
]

-- `none` when `val` is shorter than a struct, or the text and its NUL overrun `inline_data`.
unfoldable pub deseri_inline_data : Bytes → Option (PaconStat × Bytes)
deseri_inline_data val =
    let text = c_string (drop pstat_size val) in
    elim (deseri_val val) [
      | none ↦ none
      | some s ↦ if ltb (length text) inline_max then some (s, text) else none
    ]

pub copy_into-eq :
    (pre old s : Bytes)
    → length s ≤ length old
    → copy_into (pre ++ old) (length pre) s ≡ some (pre ++ s ++ drop (length s) old)
unfolding copy_into
copy_into-eq pre old s fits =
    ground (arith, length-append pre old, take-append pre old, drop_past pre old (length s))

-- The buffer afterwards: the struct, the text, its NUL, and what was there before.
seri_inline_data-eq :
    (s : PaconStat) (text val : Bytes)
    → lacks 0 text ≡ true
    → pstat_size + length text < length val
    → (rest : Bytes) × (seri_inline_data s text val ≡ some (seri_val s ++ (text ++ 0 ∷ []) ++ rest))
unfolding seri_inline_data
seri_inline_data-eq s text val no_nul fits =
    let old = drop (length (seri_val s)) val in
    let first = copy_into-eq [] val (seri_val s) (omega (arith, length-seri_val s)) in
    let nul : Bytes = 0 ∷ [] in
    let room : length (text ++ nul) ≤ length old =
      omega
        (arith, length-append text nul, length-seri_val s, length-drop (length (seri_val s)) val) in
    let second = copy_into-eq (seri_val s) old (text ++ nul) room in
    (
      drop (length (text ++ nul)) old,
      rw (first, seri_inline_data, c_string-lacks text no_nul, length-seri_val s)
          (rw (length-seri_val s) at second),
    )

take-parts :
    (s : PaconStat) (text rest : Bytes)
    → take (pstat_size + length text) (seri_val s ++ (text ++ 0 ∷ []) ++ rest) ≡ seri_val s ++ text
take-parts s text rest = rw (append_assoc (seri_val s)) (
    rw (append_assoc text) (
      subst (λ n. take (n + length text) (seri_val s ++ (text ++ 0 ∷ rest)) ≡ seri_val s ++ text)
        (length-seri_val s)
        (take_past (seri_val s) (text ++ 0 ∷ rest) (length text)
          ∙ ap (λ l. seri_val s ++ l) (take-append text (0 ∷ rest)))))

pub drop-text : (s : PaconStat) (text : Bytes) → drop pstat_size (seri_val s ++ text) ≡ text
drop-text s text =
    subst (λ n. drop n (seri_val s ++ text) ≡ text) (length-seri_val s)
      (drop-append (seri_val s) text)

-- What the cache keeps of it.
pub seri_inline_data-take :
    (s : PaconStat) (text val : Bytes)
    → lacks 0 text ≡ true
    → pstat_size + length text < length val
    → (v : Bytes) × (seri_inline_data s text val ≡ some v)
      × (take (pstat_size + length text) v ≡ seri_val s ++ text)
seri_inline_data-take s text val no_nul fits =
    let (rest, e) = seri_inline_data-eq s text val no_nul fits in (_, e, take-parts s text rest)

-- Only the text up to the NUL counts.
pub seri_inline_data_cut :
    (s : PaconStat) (text more val : Bytes)
    → lacks 0 text ≡ true
    → seri_inline_data s (text ++ 0 ∷ more) val ≡ seri_inline_data s text val
unfolding seri_inline_data
seri_inline_data_cut s text more val no_nul =
    ap
      (λ t. elim (copy_into val 0 (seri_val s)) as (λ _. Option Bytes) [
        | none ↦ none
        | some v ↦ copy_into v pstat_size (t ++ 0 ∷ [])
      ])
      (c_string-append text more no_nul ∙ sym (c_string-lacks text no_nul))

pub deseri_inline_data-parts :
    (s : PaconStat) (text : Bytes)
    → IsStat s
    → lacks 0 text ≡ true
    → length text < inline_max
    → deseri_inline_data (seri_val s ++ text) ≡ some (s, text)
unfolding deseri_inline_data
deseri_inline_data-parts s text is no_nul small =
    rw (deseri_val-seri_val s text is, deseri_inline_data)
      (rw (drop-text s text)
        (rw (c_string-lacks text no_nul) (rw (lt→ltb (length text) inline_max small))))

-- What is stored of a file with `size` bytes of data reads back as its struct and its data: the
-- cache keeps the struct and `size` bytes, and a reader finds a NUL behind them.
pub deseri_inline_data-seri_inline_data :
    (s : PaconStat) (text val : Bytes)
    → IsStat s
    → lacks 0 text ≡ true
    → length text < inline_max
    → pstat_size + length text < length val
    → (v : Bytes) × (seri_inline_data s text val ≡ some v)
      × (deseri_inline_data (take (pstat_size + length text) v) ≡ some (s, text))
deseri_inline_data-seri_inline_data s text val is no_nul small fits =
    let (rest, e) = seri_inline_data-eq s text val no_nul fits in
    (_, e, rw (take-parts s text rest) (deseri_inline_data-parts s text is no_nul small))
