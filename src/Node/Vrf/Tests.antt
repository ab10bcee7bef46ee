-- ===== src/Node/Vrf/Tests.antt =====
-- The theorem on indexes at one site whose set-up fails and one that comes up, and the addresses of a tap.
use fleetsuite.Common.{◌≡◌, refl, ◌+◌, ◌*◌, none, some, List, [], ◌∷◌, arith, ltb, length}
use fleetsuite.Common.Text.{codes, split_by, read_digits, show_nat, show_digits}
use fleetsuite.Common.Net.{parse_ipv4, octets_of, parse_octet}
use fleetsuite.Node.Vrf.{tap_ips_from_idx}
use fleetsuite.Node.Vrf.TapAddrs.{tap_ips_from_idx-parses}
use fleetsuite.Node.Host.{Reply}
use fleetsuite.Node.Nat.{Records, Event, up, down}
use fleetsuite.Node.Vrf.{SiteBnatState}
use fleetsuite.Node.Vrf.Sites.{Env}
use fleetsuite.Node.Vrf.Events.{VrfState, vrf_handle_all}
use fleetsuite.Node.Vrf.Conserved.{taps, Conserved, holders, occurrences}
use fleetsuite.Node.Vrf.Conserved.Steps.{vrf_handle_all-Conserved}

abbrev no_rules : SiteBnatState
no_rules = record {
  map_name = [];
  rule_handle = none;
  snat_map_name = [];
  snat_handles = [];
  split_chain = none;
  split_jump_handle = none;
  helper_handle = none;
  customer_view_ips = [];
}

-- Commands print a name, and succeed once the log holds twenty of them.
abbrev env : Env
env = record {
  host =
      λ log c. some (record { success = ltb 20 (length log); stdout = codes "tap0"; stderr = [] });
  read_file = λ log path. some (codes "7");
  outer_tap = codes "tap9";
  setup_bnat = λ peer_ip if_id r log. (no_rules, log);
}

abbrev records : Records
records = record {
  valkey_get = λ key. Reply.reply (some (codes "{}"));
  decode = λ json.
      some (record { nat_mode = some (codes "backend"); device_nat = []; backend_nat = none });
}

abbrev start : VrfState
start = record {
  cache = [];
  allocator = record {
    fwd = record { next = 10000; free = [] };
    ret = record { next = 60000; free = [] };
    tap = record { next = 0; free = [] };
  };
  log = [];
}

start-Conserved : Conserved taps 0 start.cache start.allocator
unfolding holders occurrences
start-Conserved = record { each = λ i. ground arith; above = omega arith }

abbrev events : List Event
events =
    up records (codes "203.0.113.1")
    ∷ up records (codes "203.0.113.2")
    ∷ up records (codes "203.0.113.1")
    ∷ down (codes "203.0.113.2")
    ∷ []

vrf_handle_all-Conserved_example :
    Conserved taps 0
      (vrf_handle_all env events start).cache
      (vrf_handle_all env events start).allocator
vrf_handle_all-Conserved_example =
    vrf_handle_all-Conserved env taps 0 events start start-Conserved (omega arith)

tap_ips_from_idx-parses_example :
    (parse_ipv4 (tap_ips_from_idx 70).vpp_ip ≡ some (0x0a7f0000 + 4 * 70 + 1))
    × (parse_ipv4 (tap_ips_from_idx 70).kern_ip ≡ some (0x0a7f0000 + 4 * 70 + 2))
tap_ips_from_idx-parses_example = tap_ips_from_idx-parses 70 (omega arith)

-- The next index has an octet of 256.
no_such_tap : parse_ipv4 (tap_ips_from_idx 16384).vpp_ip ≡ none
unfolding tap_ips_from_idx parse_ipv4 octets_of parse_octet split_by read_digits show_nat
    show_digits
no_such_tap = refl
