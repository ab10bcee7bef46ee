-- ===== src/Node/Vrf/Rules.antt =====
-- ipsecnode/src/vpp.rs: the names, texts and commands of a site's translations, and which servers and
-- splits they are for.
pub mod Splits
use fleetsuite.Common.{
  ℕ, ◌-◌, ◌^◌, not, Option, none, some, List, [], ◌∷◌, ◌++◌, map, ltb, if◌then◌else◌, map_option,
  and_then, is_empty, filter_map, cons_some,
}
use fleetsuite.Common.Text.{
  Text, codes, text_eq, show_nat, show_hex8, trim, split_whitespace, parse_uint, join,
  tail_after_last,
}
use fleetsuite.Node.Config.{BackendConfig, ServerConfig, SplitRule, real_ip_for}
use fleetsuite.Node.Nat.{BackendNatRecord, present_roles}
use fleetsuite.Node.Vrf.{SiteBnatState}

abbrev pub bnat_table : Text
bnat_table = codes "ipsecnode_bnat"

abbrev pub bnat_map_name : ℕ → Text
bnat_map_name if_id = codes "bnat_" ++ show_hex8 if_id

abbrev pub bnat_snat_map_name : ℕ → Text
bnat_snat_map_name if_id = codes "bsnat_" ++ show_hex8 if_id

abbrev pub bnat_split_chain : ℕ → Text
bnat_split_chain if_id = codes "split_" ++ show_hex8 if_id

abbrev pub pool_chain : Text → Text
pool_chain pool = codes "pool_" ++ pool

unfoldable pub empty_bnat : SiteBnatState
empty_bnat = record {
  map_name = [];
  rule_handle = none;
  snat_map_name = [];
  snat_handles = [];
  split_chain = none;
  split_jump_handle = none;
  helper_handle = none;
  customer_view_ips = [];
}

abbrev first_word : List Text → Option Text
first_word [] = none
first_word (w ∷ ws) = some w

-- The token after the last `# handle `, as a `u64`; `none` is an error.
unfoldable pub parse_nft_handle : Text → Option ℕ
parse_nft_handle output =
    and_then (tail_after_last (codes "# handle ") (trim output))
      (λ tail. and_then (first_word (split_whitespace tail)) (parse_uint (2 ^ 64 - 1)))

abbrev port_range : Option ℕ → Option ℕ → Option Text
port_range none to = none
port_range (some f) none = none
port_range (some f) (some t) =
    if ltb t f then none else some (codes "tcp dport " ++ (show_nat f ++ (codes "-" ++ show_nat t)))

abbrev port_list : Text → List ℕ → Text
port_list side ports =
    codes "tcp "
    ++ (side ++ (codes " { " ++ (join (codes ", ") (map show_nat ports) ++ codes " }")))

-- `none` is an error.
unfoldable pub port_match : SplitRule → Option Text
port_match s =
    if not (is_empty s.ports)
    then some (port_list (codes "dport") s.ports)
    else if not (is_empty s.src_ports)
    then some (port_list (codes "sport") s.src_ports)
    else port_range s.port_from s.port_to

abbrev pub dnat_target : Option Text → Option Text
dnat_target none = none
dnat_target (some ip) = some (codes "dnat to " ++ ip)

abbrev pub target_of : Option Text → Option Text → Option Text
target_of (some pool) dnat_to = some (codes "jump " ++ pool_chain pool)
target_of none dnat_to = dnat_target dnat_to

abbrev pub split_line : Text → Text → Text → Text → Text
split_line chain view ports target =
    codes "add rule ip ipsecnode_bnat "
    ++ (chain
        ++ (codes " ip daddr "
            ++ (view ++ (codes " " ++ (ports ++ (codes " " ++ (target ++ codes "\n")))))))

-- The rule of a split; `none` where the split is skipped.
unfoldable pub split_rule : Text → Text → SplitRule → Option Text
split_rule chain view s =
    and_then (port_match s)
      (λ ports. map_option (split_line chain view ports) (target_of s.pool s.dnat_to))

abbrev pub concat_texts : List Text → Text
concat_texts [] = []
concat_texts (t ∷ ts) = t ++ concat_texts ts

abbrev pub splits_batch : Text → List Text → Text
splits_batch chain rules =
    codes "add chain ip ipsecnode_bnat " ++ (chain ++ (codes "\n" ++ concat_texts rules))

abbrev pub access_view_of : Option BackendNatRecord → Option Text
access_view_of none = none
access_view_of (some r) = r.access_server

-- The views of the roles that the configuration names, each with the server's address.
abbrev pub pairs_of_roles : BackendConfig → List (Text × Text) → List (Text × Text)
pairs_of_roles backend [] = []
pairs_of_roles backend ((role, view) ∷ roles) =
    cons_some (map_option (λ real. (view, real)) (real_ip_for backend role))
      (pairs_of_roles backend roles)

unfoldable pub backend_pairs : BackendConfig → Option BackendNatRecord → List (Text × Text)
backend_pairs backend none = []
backend_pairs backend (some r) = pairs_of_roles backend (present_roles r)

-- The addresses of the servers other than the access server, each with its view.
abbrev pub snat_pairs_of_roles : BackendConfig → List (Text × Text) → List (Text × Text)
snat_pairs_of_roles backend [] = []
snat_pairs_of_roles backend ((role, view) ∷ roles) =
    let rest = snat_pairs_of_roles backend roles in
    if text_eq role (codes "access_server")
    then rest
    else cons_some (map_option (λ real. (real, view)) (real_ip_for backend role)) rest

unfoldable pub snat_pairs : BackendConfig → Option BackendNatRecord → List (Text × Text)
snat_pairs backend none = []
snat_pairs backend (some r) = snat_pairs_of_roles backend (present_roles r)

abbrev pub add_map : Text → List Text
add_map name =
    codes "add"
    ∷ codes "map"
    ∷ codes "ip"
    ∷ bnat_table
    ∷ name
    ∷ codes "{ type ipv4_addr : ipv4_addr; }"
    ∷ []

abbrev pub add_element : Text → Text × Text → List Text
add_element name p =
    codes "add"
    ∷ codes "element"
    ∷ codes "ip"
    ∷ bnat_table
    ∷ name
    ∷ (codes "{ " ++ (p.0 ++ (codes " : " ++ (p.1 ++ codes " }"))))
    ∷ []

abbrev pub delete_named : Text → Text → List Text
delete_named kind name = codes "delete" ∷ kind ∷ codes "ip" ∷ bnat_table ∷ name ∷ []

abbrev pub add_rule : Text → List Text → List Text
add_rule chain rule =
    codes "--echo"
    ∷ codes "--handle"
    ∷ codes "add"
    ∷ codes "rule"
    ∷ codes "ip"
    ∷ bnat_table
    ∷ chain
    ∷ rule

abbrev pub snat_rule : Text → Text → List Text
snat_rule xfrm_if name =
    codes "oifname"
    ∷ xfrm_if
    ∷ codes "ct"
    ∷ codes "state"
    ∷ codes "new"
    ∷ codes "snat"
    ∷ codes "ip"
    ∷ codes "to"
    ∷ codes "ip"
    ∷ codes "saddr"
    ∷ codes "map"
    ∷ (codes "@" ++ name)
    ∷ []

abbrev pub access_rule : Text → Text → List Text
access_rule xfrm_if view =
    codes "oifname"
    ∷ xfrm_if
    ∷ codes "ct"
    ∷ codes "state"
    ∷ codes "new"
    ∷ codes "snat"
    ∷ codes "ip"
    ∷ codes "to"
    ∷ view
    ∷ []

abbrev pub name_if : Option ℕ → Text → Text
name_if none name = []
name_if (some h) name = name

abbrev pub helper_rule : Text → Text → List Text
helper_rule xfrm_if view =
    codes "iifname"
    ∷ xfrm_if
    ∷ codes "ip"
    ∷ codes "daddr"
    ∷ view
    ∷ codes "tcp"
    ∷ codes "dport"
    ∷ codes "21"
    ∷ codes "ct"
    ∷ codes "helper"
    ∷ codes "set"
    ∷ codes "ftp_ctrl"
    ∷ []

abbrev pub rules_for : Text → Option Text → Option ServerConfig → List Text
rules_for chain none srv = []
rules_for chain (some view) none = []
rules_for chain (some view) (some srv) = filter_map (split_rule chain view) srv.split

abbrev pub map_rule : Text → Text → List Text
map_rule xfrm_if name =
    codes "iifname"
    ∷ xfrm_if
    ∷ codes "ct"
    ∷ codes "state"
    ∷ codes "new"
    ∷ codes "dnat"
    ∷ codes "ip"
    ∷ codes "to"
    ∷ codes "ip"
    ∷ codes "daddr"
    ∷ codes "map"
    ∷ (codes "@" ++ name)
    ∷ []

abbrev pub jump_rule : Text → Text → List Text
jump_rule xfrm_if chain = codes "iifname" ∷ xfrm_if ∷ codes "jump" ∷ chain ∷ []
