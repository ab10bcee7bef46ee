-- ===== src/Lib.antt =====
-- Fleetsuite: the programs that run a fleet of IPSec concentrators behind a load balancer, with the
-- proxies that their customers' devices use.
--
-- The parts and how they interact:
-- - ipseccore (Ring): the hash ring. ipsecscale renders it as rules of the load balancer and
--   publishes its nodes; ipsecnode asks it which node owns a customer.
-- - ipsecnode (Node): the daemon of a concentrator. It loads the customers' sites into charon with
--   their proposals and keeps them in step with Valkey (Node.Credentials, Node.Proposals); when
--   charon reports a tunnel up or down (Node.Daemon, Node.Vici) it keeps the routes of the site's
--   devices (Node.Nat) and the site's routing tables, tap and translations (Node.Vrf); it spreads
--   some ports over the pool of proxies (Node.Pools); and it brings tunnels up on demand
--   (Node.Ondemand).
-- - ipsecscale (Scale): the watcher on the load balancer, which publishes the pool of proxies and
--   loads the rules for the nodes that AWS reports.
-- - squid-infoproxy (Proxy): Squid's helper, which answers whether a device may reach a destination,
--   from allow-lists in Valkey.
-- - fleetpulse (Fleet): what a return gateway runs when keepalived elects it: it takes over the route
--   of the backend servers.
--
-- The files, and the code that each is about:
-- - Common and its children: Booleans, lists, texts as lists of characters, decimal numbers, IPv4
--   addresses and association lists, as far as the programs use those of Rust's library.
-- - Ring/Hash, Ring/Owner, Ring/Render: ipseccore/src/lib.rs, with `jhash_ipv4`, `owner_of` and
--   `render_ipsec_nat` under their names. Ring/Agreement relates the last two.
-- - Node/Site, Node/Proposals: `SiteRecord` of ipsecnode/src/credentials.rs, and
--   `build_ike_proposals` and `build_esp_proposals` of ipsecnode/src/proposals.rs; the loops are
--   functions of their own.
-- - Node/Host: the commands and Valkey's replies. A host is any function from the commands run so far
--   to the next command's output, so a theorem holds whatever fails.
-- - Node/Nat: ipsecnode/src/nat.rs, `on_child_up`, `on_child_down` and `gc_stale_routes`.
-- - Node/Vrf: ipsecnode/src/vpp.rs: `VrfAllocator` in Node/Vrf, the calls of vppctl, ip and nft in
--   Node/Vrf/Calls, set-up and teardown in Node/Vrf/Sites, the handlers of UP and DOWN
--   (`vrf_child_up`, `vrf_child_down`) in Node/Vrf/Events, and `setup_site_bnat` with what it calls
--   in Node/Vrf/Bnat, its texts and commands in Node/Vrf/Rules; `init`, the start, is Node/Vrf/Start. Node/Config: the records of ipsecnode/src/nodeconfig.rs.
-- - Node/Pools: ipsecnode/src/vpp.rs, `proxy_pool_task`, on the messages and ticks of its loop.
-- - Node/Vici, Node/Daemon: ipsecnode/src/vici.rs: the requests under their names, and
--   `event_listener_task` with `handle_child_updown`.
-- - Node/Credentials: ipsecnode/src/credentials.rs, under its names; charon is a function of the
--   requests so far.
-- - Node/Ondemand: ipsecnode/src/ondemand.rs: `decide` is `decide_owner`, and the loop of
--   `ondemand_task` is `task`, on rounds with their times in milliseconds.
-- - Scale, Scale/Cidr: ipsecscale/src/main.rs: `round` is the body of the loop, on the answers of one
--   round's calls; its effects are a log.
-- - Proxy/Rule, Proxy/Args, Proxy/Decide: squid-infoproxy/src/matcher.rs and main.rs under their
--   names; Proxy/Url, Proxy/Resp and Proxy/Client: squid-infoproxy/src/valkey.rs, with
--   `ValkeyConfig::parse` as `parse_url`; Proxy/Store: the two operations of the client that the
--   helper uses, which Proxy/Client fills.
-- - Fleet: fleetpulse/src/main.rs under its names, the notify commands with what they call.
-- The children of these named for a property hold its proof, and the modules Tests hold runs and
-- instances of the theorems.
--
-- Bounds: 32-bit counters are ℕ with the wrap-around written out, as are the 64-bit products of the
-- ring. The reader of replies runs on fuel, of which one more than the bytes there are is enough, and
-- the client gives it that. The wait for VPP counts attempts in place of a clock, and the removal of
-- routing rules at the start runs on fuel, of which one more than the rules there are is enough; every
-- other loop goes over a list. A panic is a value (`Outcome`) where an index might be out of range.
--
-- Not modelled: the conversion of VICI's octets in ipsecnode, its health endpoint and its AWS calls;
-- the waits between reconnects; the boot program ipsecpulse and the boot run of fleetpulse; images,
-- scripts and documents. JSON, AWS (the crate aerocore), sockets and TLS, the conversion of UTF-8, the
-- parsers of the crate ipnet and the clock are parameters.
pub mod Common
pub mod Ring
pub mod Node
pub mod Proxy
pub mod Scale
pub mod Fleet
