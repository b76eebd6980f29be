-- ===== src/Config/Tests.antt =====
-- Cluster files of one node and of 17 nodes.
use pacon.Base.{◌≡◌, refl, some, List, [], ◌∷◌, arith, Bytes, get_or, replicate}
use pacon.Base.Decimal.{is_digit}
use pacon.Config.{is_addr, newline, get_cluster_info, get_cluster_info_comm, get_local_addr_cnum}
use pacon.Config.Laws.{are_addrs, all_addr, config_text, kept_from, get_cluster_info-config_text}

-- "10.1"
abbrev node_ip : Bytes
node_ip = b'1' ∷ b'0' ∷ b'.' ∷ b'1' ∷ []

abbrev many_nodes : List Bytes
many_nodes = replicate 17 node_ip

get_cluster_info-config_text_example :
    (get_cluster_info (config_text many_nodes) ≡ some (kept_from 0 many_nodes))
    × (get_cluster_info_comm (config_text many_nodes) ≡ some (kept_from 0 many_nodes))
unfolding are_addrs all_addr is_addr is_digit
get_cluster_info-config_text_example =
    get_cluster_info-config_text many_nodes refl (omega arith) (omega arith)

seventeenth : get_or (kept_from 0 many_nodes) 16 node_ip ≡ []
unfolding kept_from
seventeenth = refl

-- "10.1:2"
local_config :
    get_local_addr_cnum (b'1' ∷ b'0' ∷ b'.' ∷ b'1' ∷ b':' ∷ b'2' ∷ newline ∷ []) ≡ some (node_ip, 2)
unfolding get_local_addr_cnum pacon.Base.lacks pacon.Base.before pacon.Base.c_string
    pacon.Base.Decimal.atoi pacon.Base.after
local_config = refl
