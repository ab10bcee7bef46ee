-- ===== src/Ring/Agreement.antt =====
-- ipseccore/src/lib.rs: the rendered rules and `owner_of` send a customer to the same node.
use fleetsuite.Common.{List, ◌++◌, length}
use fleetsuite.Common.Text.{Text, codes, join, show_nat}
use fleetsuite.Ring.Render.{map_entries}

-- The clause, spelled out, that ends a rule for these nodes.
abbrev pub clause_for : List Text → Text
clause_for nodes =
    codes "dnat ip to jhash ip saddr mod "
    ++ (show_nat (length nodes)
        ++ (codes " seed 0xa5a5a5a5 map { "
            ++ (join (codes ", ") (map_entries 0 nodes) ++ codes " }")))
