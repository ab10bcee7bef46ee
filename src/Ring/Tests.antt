-- ===== src/Ring/Tests.antt =====
-- Runs of the ring's code: the unit tests of ipseccore/src/lib.rs, and instances of its theorems.
use fleetsuite.Common.{ℕ, ◌≡◌, refl, List, [], ◌∷◌, some}
use fleetsuite.Common.Text.{Text, codes}
use fleetsuite.Ring.Hash.{jhash_ipv4}
use fleetsuite.Ring.Owner.{owner_of, owner_index, value}

abbrev live_ring : List Text
live_ring = codes "172.16.49.73" ∷ codes "172.16.50.8" ∷ []

-- The site 62.238.96.148 of the test `jhash_matches_kernel_lvs`.
abbrev site : ℕ
site = 0x3eee6094

site_owner : owner_of site live_ring ≡ value (some (codes "172.16.49.73"))
unfolding owner_of owner_index jhash_ipv4
site_owner = refl

-- 185.174.105.25
other_owner : owner_of 0xb9ae6919 live_ring ≡ value (some (codes "172.16.49.73"))
unfolding owner_of owner_index jhash_ipv4
other_owner = refl
