-- ===== src/Node/Daemon/Tests.antt =====
-- The theorems on the daemon's run at messages of one site.
use fleetsuite.Node.Vrf.Rules.{empty_bnat}
use fleetsuite.Common.{◌<◌, ◌≡◌, refl, true, none, some, List, [], ◌∷◌, arith, length}
use fleetsuite.Common.Text.{Text, codes, text_eq}
use fleetsuite.Common.Assoc.{get}
use fleetsuite.Node.Host.{Host, Reply}
use fleetsuite.Node.Nat.{on_child_down, Records, PeerRouteState}
use fleetsuite.Node.Nat.Refcount.{tally, keeps, counted}
use fleetsuite.Node.Vrf.{new_allocator}
use fleetsuite.Node.Vrf.Conserved.{taps, Conserved}
use fleetsuite.Node.Vrf.Sites.{Env}
use fleetsuite.Node.Vici.{
  ViciRawValue, text, section, nil, entry, lookup, get_value, as_str, first_section,
  find_ike_section, installed_children, list_established_peers,
}
use fleetsuite.Node.Daemon.{Log, Daemon, is_up, peer_ip_of, handle_stream, event_listener_task}
use fleetsuite.Node.Daemon.Counted.{
  event_of, events_of, handle_stream-tally, event_listener_task-Conserved,
}

-- A connection's section, with a child in this state.
abbrev ike : Text → ViciRawValue
ike state = section (
    entry (codes "child-sas")
      (section (entry (codes "site-1") (section (entry (codes "state") (text state) nil)) nil))
      (entry (codes "remote-host") (text (codes "192.0.2.1")) nil))

abbrev going_up : ViciRawValue
going_up =
    section
      (entry (codes "site") (ike (codes "INSTALLED")) (entry (codes "up") (text (codes "yes")) nil))

abbrev going_down : ViciRawValue
going_down = section (entry (codes "site") (ike (codes "DELETED")) nil)

read_up : is_up going_up ≡ true
unfolding is_up get_value lookup as_str text_eq
read_up = refl

listed :
    list_established_peers (going_up ∷ going_down ∷ going_up ∷ [])
    ≡ codes "192.0.2.1" ∷ codes "192.0.2.1" ∷ []
unfolding list_established_peers find_ike_section first_section installed_children get_value lookup
    as_str text_eq
listed = refl

abbrev records : Records
records = record { valkey_get = λ key. Reply.reply none; decode = λ json. none }

abbrev agreeing : Host
agreeing = λ log c. some (record { success = true; stdout = codes "tap1"; stderr = [] })

abbrev env : Env
env = record {
  host = agreeing;
  read_file = λ log path. some (codes "7");
  outer_tap = codes "tap0";
  setup_bnat = λ peer if_id rec log. (empty_bnat, log);
}

abbrev peer_state : PeerRouteState
peer_state = record { global_ips = codes "10.9.0.1" ∷ []; child_sa_count = 1 }

abbrev running : Daemon
running = record {
  routes = (codes "192.0.2.1", peer_state) ∷ [];
  sites = record { cache = []; allocator = new_allocator; log = [] };
}

abbrev stream : List (Records × ViciRawValue)
stream = (records, going_up) ∷ (records, going_down) ∷ []

counted_once : keeps (codes "192.0.2.1") 1 (events_of stream) ≡ true
unfolding keeps events_of event_of is_up peer_ip_of find_ike_section first_section get_value lookup
    as_str text_eq
counted_once = refl

held : get (codes "192.0.2.1") running.routes ≡ some (counted peer_state 1)
unfolding get text_eq
held = refl

handle_stream-tally_example :
    (get (codes "192.0.2.1") (handle_stream env true true stream running).routes
      ≡ some (counted peer_state (tally (codes "192.0.2.1") 1 (events_of stream))))
    × ((log : Log)
        → 1 < tally (codes "192.0.2.1") 1 (events_of stream)
        → (on_child_down env.host true
            (codes "192.0.2.1")
            (handle_stream env true true stream running).routes
            log).1
          ≡ log)
handle_stream-tally_example =
    handle_stream-tally env true true (codes "192.0.2.1") stream peer_state 1 running held
      counted_once (omega arith)

established_two : length (list_established_peers (going_up ∷ [])) ≡ 1
unfolding list_established_peers find_ike_section first_section installed_children get_value lookup
    as_str text_eq
established_two = refl

event_listener_task-Conserved_example :
    Conserved taps 0
      (event_listener_task env true true records (going_up ∷ []) stream []).sites.cache
      (event_listener_task env true true records (going_up ∷ []) stream []).sites.allocator
event_listener_task-Conserved_example =
    event_listener_task-Conserved env true true taps records (going_up ∷ []) stream []
      (omega (arith, established_two))
