-- ===== src/Ring/Render.antt =====
-- ipseccore/src/lib.rs: `render_ipsec_nat`, the `ip nat` table of the load balancer.
use fleetsuite.Common.{ℕ, suc, List, [], ◌∷◌, ◌++◌, map, length, is_empty, if◌then◌else◌, flat_map}
use fleetsuite.Common.Text.{Text, codes, join, show_nat}
use fleetsuite.Ring.Owner.{jhash_seed}

-- `VPN_SUBNETS`.
abbrev vpn_subnets : Text
vpn_subnets = codes "172.16.49.0/24, 172.16.50.0/24"

-- `{i} : {ip}`, one element of the map from a hash index to a node.
unfoldable pub map_entry : ℕ → Text → Text
unfolding show_nat
map_entry i ip = show_nat i ++ (codes " : " ++ ip)

unfoldable pub map_entries : ℕ → List Text → List Text
map_entries i [] = []
map_entries i (ip ∷ ips) = map_entry i ip ∷ map_entries (suc i) ips

-- `{ {entries} }`.
unfoldable pub node_map : List Text → Text
unfolding map_entries map_entry join
node_map vpn_ips = codes "{ " ++ (join (codes ", ") (map_entries 0 vpn_ips) ++ codes " }")

-- `dnat ip to jhash ip saddr mod {n} seed {JHASH_SEED} map {map}`.
unfoldable pub hash_clause : List Text → Text
unfolding node_map show_nat
hash_clause vpn_ips =
    codes "dnat ip to jhash ip saddr mod "
    ++ (show_nat (length vpn_ips)
        ++ (codes " seed " ++ (jhash_seed ++ (codes " map " ++ node_map vpn_ips))))

-- The rule for ESP, for IKE and for NAT-T.
abbrev protocol_matches : List Text
protocol_matches =
    codes " ip protocol 50 "
    ∷ codes " ip protocol udp udp dport 500 "
    ∷ codes " ip protocol udp udp dport 4500 "
    ∷ []

unfoldable pub rule : Text → List Text → Text → Text
rule secondary_ip vpn_ips m = codes "ip daddr " ++ (secondary_ip ++ (m ++ hash_clause vpn_ips))

unfoldable pub rules : Text → List Text → List Text
rules secondary_ip vpn_ips = map (rule secondary_ip vpn_ips) protocol_matches

abbrev newline : Text
newline = 10 ∷ []

abbrev tab : Text
tab = 9 ∷ []

unfoldable pub prerouting : Text → List Text → Text
unfolding rules rule hash_clause
prerouting secondary_ip vpn_ips =
    if is_empty vpn_ips
    then tab
      ++ (tab ++ (codes "# No VPN backends yet -- ipsecscale will update this file." ++ newline))
    else flat_map (λ rule. tab ++ (tab ++ (rule ++ newline))) (rules secondary_ip vpn_ips)

-- The header comment; `ts` is the time of the render.
header : Text → Text → ℕ → Text
unfolding show_nat
header instance_id ts n =
    codes "# ipsec-nat.nft -- generated for "
    ++ (instance_id
        ++ (newline
            ++ (codes "# Generated    : "
                ++ (ts
                    ++ (newline
                        ++ (codes
                              "# DO NOT EDIT  -- regenerated by ipsecpulse (boot) and ipsecscale (VPN pool changes)."
                            ++ (newline
                                ++ (codes "# VPN backends : "
                                    ++ (show_nat n ++ (newline ++ newline))))))))))

unfoldable pub render_ipsec_nat : Text → Text → Text → List Text → Text
unfolding header prerouting
render_ipsec_nat ts instance_id secondary_ip vpn_ips =
    header instance_id ts (length vpn_ips)
    ++ (codes "table ip nat {"
        ++ (newline
            ++ (tab
                ++ (codes "chain PREROUTING {"
                    ++ (newline
                        ++ (tab
                            ++ (tab
                                ++ (codes "type nat hook prerouting priority dstnat; policy accept;"
                                    ++ (newline
                                        ++ (prerouting secondary_ip vpn_ips
                                            ++ (tab
                                                ++ (codes "}"
                                                    ++ (newline
                                                        ++ (newline ++ postrouting))))))))))))))
  where
    postrouting : Text
    postrouting =
        tab
        ++ (codes "chain POSTROUTING {"
            ++ (newline
                ++ (tab
                    ++ (tab
                        ++ (codes "type nat hook postrouting priority srcnat; policy accept;"
                            ++ (newline
                                ++ (tab
                                    ++ (tab
                                        ++ (codes "oifname \"eth0\" ip saddr { "
                                            ++ (vpn_subnets
                                                ++ (codes " } snat to "
                                                    ++ (secondary_ip
                                                        ++ (newline
                                                            ++ (tab
                                                            ++ (codes "}"
                                                            ++ (newline
                                                            ++ (codes "}"
                                                            ++ newline)))))))))))))))))
