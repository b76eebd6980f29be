-- ===== src/Config/Laws.antt =====
-- What the readers of kv/dmkv.c and comm/comm.c make of a file with one address in each line.
use pacon.Base.{
  ℕ, ◌+◌, ◌<◌, ◌≡◌, refl, ap, ◌∙◌, Bool, true, false, ◌&&◌, some, List, [], ◌∷◌, ◌++◌, append_assoc,
  arith, ltb, ◌==◌, if◌then◌else◌, Bytes, length, char_at, length-append,
}
use pacon.Base.Decimal.{is_digit}
use pacon.Config.{
  newline, is_addr, fgets_all, addr_prefix, node_at, nodes_from, node_max, get_cluster_info,
  get_cluster_info_comm,
}

-- Every byte belongs to an address.
unfoldable pub all_addr : Bytes → Bool
unfolding is_addr
all_addr [] = true
all_addr (c ∷ s) = is_addr c && all_addr s

-- Each address is text that a line of 16 bytes holds with its newline.
unfoldable pub are_addrs : List Bytes → Bool
unfolding all_addr
are_addrs [] = true
are_addrs (ip ∷ ips) = (all_addr ip && ltb (length ip) 16) && are_addrs ips

unfoldable pub config_text : List Bytes → Bytes
config_text [] = []
config_text (ip ∷ ips) = ip ++ newline ∷ config_text ips

-- The addresses of the nodes numbered from `i` on, empty from the 16th on.
unfoldable pub kept_from : ℕ → List Bytes → List Bytes
kept_from i [] = []
kept_from i (ip ∷ ips) = (if ltb i 16 then ip else []) ∷ kept_from (i + 1) ips

lines_of : List Bytes → List Bytes
lines_of [] = []
lines_of (ip ∷ ips) = (ip ++ newline ∷ []) ∷ lines_of ips

addr-ne-newline : (c : ℕ) → is_addr c ≡ true → (c == newline) ≡ false
unfolding is_addr is_digit
addr-ne-newline c h = ground arith

fgets_all-line :
    (line s rest : Bytes)
    → all_addr s ≡ true
    → length line + length s < 16
    → fgets_all 16 line (s ++ newline ∷ rest) ≡ (line ++ (s ++ newline ∷ [])) ∷ fgets_all 16 [] rest
unfolding fgets_all all_addr
fgets_all-line line [] rest h room = refl
fgets_all-line line (c ∷ s) rest h room =
    let size = length-append line (c ∷ []) in
    let more = fgets_all-line (line ++ c ∷ []) s rest (ground arith) (omega (arith, size)) in
    let line_eq = append_assoc line (c ∷ []) (s ++ newline ∷ []) in
    ground (arith, addr-ne-newline c (ground arith), size, more, line_eq)

fgets_all-config_text :
    (ips : List Bytes) → are_addrs ips ≡ true → fgets_all 16 [] (config_text ips) ≡ lines_of ips
unfolding config_text are_addrs lines_of fgets_all
fgets_all-config_text [] h = refl
fgets_all-config_text (ip ∷ ips) h =
    fgets_all-line [] ip (config_text ips) (ground arith) (ground arith)
    ∙ ap (λ l. (ip ++ newline ∷ []) ∷ l) (fgets_all-config_text ips (ground arith))

addr_prefix-line : (ip : Bytes) → all_addr ip ≡ true → addr_prefix (ip ++ newline ∷ []) ≡ ip
unfolding addr_prefix all_addr is_addr is_digit
addr_prefix-line [] h = refl
addr_prefix-line (c ∷ s) h = ground (arith, ap (λ l. c ∷ l) (addr_prefix-line s (ground arith)))

not_comment : (ip : Bytes) → all_addr ip ≡ true → (char_at (ip ++ newline ∷ []) 0 == b'#') ≡ false
unfolding all_addr is_addr is_digit
not_comment [] h = refl
not_comment (c ∷ s) h = ground arith

nodes_from-lines_of :
    (i : ℕ) (ips : List Bytes)
    → are_addrs ips ≡ true
    → i + length ips < node_max
    → 0 < i + length ips
    → nodes_from i (lines_of ips) ≡ some (kept_from i ips)
unfolding nodes_from lines_of kept_from are_addrs node_at
nodes_from-lines_of i [] h few some_node = ground arith
nodes_from-lines_of i (ip ∷ ips) h few some_node =
    let first = addr_prefix-line ip (ground arith) in
    let plain = not_comment ip (ground arith) in
    let more = nodes_from-lines_of (i + 1) ips (ground arith) (omega arith) (omega arith) in
    ground (arith, first, plain, more)

module _ (ips : List Bytes) (plain : are_addrs ips ≡ true) (some_node : 0 < length ips)
    (few : length ips < 64) where
  -- A cluster file with one address of at most 15 bytes in each line, from 1 to 63 of them, gives as
  -- many nodes: the first 16 addresses, and an empty text for each further one.
  pub get_cluster_info-config_text :
      (get_cluster_info (config_text ips) ≡ some (kept_from 0 ips))
      × (get_cluster_info_comm (config_text ips) ≡ some (kept_from 0 ips))
  unfolding get_cluster_info get_cluster_info_comm
  get_cluster_info-config_text =
      let read =
        ap (nodes_from 0) (fgets_all-config_text ips plain)
        ∙ nodes_from-lines_of 0 ips plain (omega arith) (omega arith) in
      (read, read)
