-- ===== src/Node/Ondemand/Tests.antt =====
-- The theorems on demand at the ring of two nodes that the unit tests of ipseccore use.
use fleetsuite.Common.{◌≡◌, refl, ◌≢◌, none, some, List, [], ◌∷◌, arith, get_elem?}
use fleetsuite.Common.Text.{Text, codes}
use fleetsuite.Common.Net.{parse_ipv4, octets_of, parse_octet}
use fleetsuite.Common.Text.{split_by, read_digits}
use fleetsuite.Ring.Owner.{LvsRing, value, owner_index}
use fleetsuite.Node.Host.{Reply}
use fleetsuite.Node.Ondemand.{
  jhash, here, hand_off, local, handed_off, TaskState, Round, refresh, received, decide_owner, task,
}
use fleetsuite.Node.Ondemand.Choice.{one_owner_initiates}
use fleetsuite.Node.Ondemand.Spacing.{Spaced, task-Spaced}

abbrev east : Text
east = codes "172.16.49.73"

abbrev west : Text
west = codes "172.16.50.8"

abbrev ring : LvsRing
ring = record { seed = []; nodes = east ∷ west ∷ [] }

abbrev start : TaskState
start = record { ring = some ring; inflight = [] }

abbrev site : Text
site = codes "62.238.96.148"

abbrev rounds : List (Round jhash (some east))
rounds =
    received 0 Reply.failed (handed_off site)
    ∷ received 900 (Reply.reply (some site)) (local 7)
    ∷ refresh none
    ∷ received 31000 Reply.failed (handed_off site)
    ∷ []

one_owner_initiates_example :
    (o : Text) × ((get_elem? (east ∷ west ∷ []) (owner_index 0x3eee6094 2) ≡ some o)
      × ((decide_owner jhash (some ring) (some o) site ≡ value here)
          × ((my_ip : Text)
              → my_ip ≢ o
              → decide_owner jhash (some ring) (some my_ip) site ≡ value (hand_off o))))
unfolding parse_ipv4 octets_of parse_octet split_by read_digits
one_owner_initiates_example =
    one_owner_initiates ring east (west ∷ []) site 0x3eee6094 refl (omega arith) refl

task-Spaced_example : Spaced jhash (some east) (task jhash (some east) rounds start)
task-Spaced_example =
    task-Spaced jhash (some east) rounds start 0 (omega arith, (omega arith, (omega arith, tt)))
