-- ===== src/Node/Daemon/Counted.antt =====
-- ipsecnode/src/vici.rs: the invariants of the two caches, over the daemon's whole run.
use fleetsuite.Common.{
  ℕ, suc, ◌+◌, ◌-◌, ◌^◌, ◌≤◌, ◌<◌, ◌≡◌, refl, Bool, true, false, ◌&&◌, some, List, [], ◌∷◌, arith,
  ltb, if◌then◌else◌, length,
}
use fleetsuite.Common.Text.{Text, text_eq}
use fleetsuite.Common.Assoc.{get}
use fleetsuite.Node.Host.{Log}
use fleetsuite.Node.Nat.{
  Records, Event, up, down, PeerRouteState, RouteCache, on_child_up, on_child_down,
}
use fleetsuite.Node.Nat.Refcount.{tally, keeps, counted, up_step, down_step, quiet_down}
use fleetsuite.Node.Vrf.{new_allocator}
use fleetsuite.Node.Vrf.Conserved.{
  Resource, fwd_tables, ret_tables, taps, Conserved, holders, occurrences,
}
use fleetsuite.Node.Vrf.Conserved.Steps.{Kept, up-Kept, down-Kept, next_of}
use fleetsuite.Node.Vrf.Sites.{Env}
use fleetsuite.Node.Vrf.Events.{vrf_child_up, vrf_child_down}
use fleetsuite.Node.Vici.{ViciRawValue, list_established_peers}
use fleetsuite.Node.Daemon.{
  Daemon, with_log, is_up, peer_ip_of, by_direction, child_up, child_down, handle_child_updown,
  replay, reconcile_startup, handle_stream, event_listener_task, sites_down,
}

abbrev pub event_by : Records → Text → Bool → Event
event_by records peer true = up records peer
event_by records peer false = down peer

-- The event that a message of charon is.
unfoldable pub event_of : Records × ViciRawValue → Event
event_of m = event_by m.0 (peer_ip_of m.1) (is_up m.1)

unfoldable pub events_of : List (Records × ViciRawValue) → List Event
events_of [] = []
events_of (m ∷ stream) = event_of m ∷ events_of stream

module _ (env : Env) (vpp enabled : Bool) where
  -- One event, before events of which the rest of the claim is known.
  event-tally :
      (peer : Text) (records : Records) (p : Text) (es : List Event) (st : PeerRouteState)
      (n room : ℕ) (d : Daemon) (u : Bool) (after : Daemon → RouteCache)
      → ((m : ℕ) (t : Daemon)
          → get peer t.routes ≡ some (counted st m)
          → keeps peer m es ≡ true
          → m + room < 2 ^ 32
          → get peer (after t) ≡ some (counted st (tally peer m es)))
      → get peer d.routes ≡ some (counted st n)
      → keeps peer n (event_by records p u ∷ es) ≡ true
      → n + suc room < 2 ^ 32
      → get peer (after (by_direction env vpp enabled records p u d))
        ≡ some (counted st (tally peer n (event_by records p u ∷ es)))
  unfolding keeps tally child_up child_down
  event-tally peer records p es st n room d true after ih g k b =
      ih (if text_eq peer p then n + 1 else n) (child_up env vpp enabled records p d)
        (up_step env.host enabled peer p records st n d.routes d.sites.log g (omega (arith, b))) k
        (ground arith)
  event-tally peer records p es st n room d false after ih g k b =
      ih (if text_eq peer p then n - 1 else n) (child_down env vpp enabled p d)
        (down_step env.host enabled peer p st n d.routes (sites_down env vpp enabled p d.sites).log
          g (λ q. more q))
        (rest (text_eq peer p) k) (ground arith)
    where
      more : text_eq peer p ≡ true → 1 < n
      more q = ground arith

      rest :
          (c : Bool)
          → (if c
              then ltb 1 n && keeps peer (if c then n - 1 else n) es
              else keeps peer (if c then n - 1 else n) es)
            ≡ true
          → keeps peer (if c then n - 1 else n) es ≡ true
      rest true h = ground arith
      rest false h = h

  stream-tally :
      (peer : Text) (stream : List (Records × ViciRawValue)) (st : PeerRouteState) (n : ℕ)
      (d : Daemon)
      → get peer d.routes ≡ some (counted st n)
      → keeps peer n (events_of stream) ≡ true
      → n + length stream < 2 ^ 32
      → get peer (handle_stream env vpp enabled stream d).routes
        ≡ some (counted st (tally peer n (events_of stream)))
  unfolding handle_stream handle_child_updown events_of event_of tally
  stream-tally peer [] st n d g k b = g
  stream-tally peer ((records, raw) ∷ stream) st n d g k b =
      event-tally peer records (peer_ip_of raw) (events_of stream) st n (length stream) d
        (is_up raw) (λ t. (handle_stream env vpp enabled stream t).routes)
        (λ m t h l c. stream-tally peer stream st m t h l c) g k b

  -- As long as no DOWN takes a peer's count to zero, the cache's entry of a peer whose tunnels are
  -- counted stays with its list of routes and with its count, the one before plus the UPs less the DOWNs
  -- that charon's messages name, whatever the messages on other peers and the work on the sites in
  -- between; and where more than one tunnel is counted then, the peer's next DOWN runs no command on
  -- the routes. The counter must not pass 32 bits.
  pub handle_stream-tally :
      (peer : Text) (stream : List (Records × ViciRawValue)) (st : PeerRouteState) (n : ℕ)
      (d : Daemon)
      → get peer d.routes ≡ some (counted st n)
      → keeps peer n (events_of stream) ≡ true
      → n + length stream < 2 ^ 32
      → (get peer (handle_stream env vpp enabled stream d).routes
          ≡ some (counted st (tally peer n (events_of stream))))
        × ((log : Log)
            → 1 < tally peer n (events_of stream)
            → (on_child_down env.host enabled peer
                (handle_stream env vpp enabled stream d).routes
                log).1
              ≡ log)
  handle_stream-tally peer stream st n d g k b =
      let entry = stream-tally peer stream st n d g k b in
      (
        entry,
        λ log more.
            quiet_down env.host enabled peer st (tally peer n (events_of stream))
              (handle_stream env vpp enabled stream d).routes log entry more,
      )

  module _ (w : Resource) (first : ℕ) where
    abbrev Sound : Daemon → Type 0
    Sound d = Conserved w first d.sites.cache d.sites.allocator

    abbrev room : Daemon → ℕ
    room d = next_of env w first d.sites.allocator

    child_up-Sound :
        (records : Records) (peer : Text) (d : Daemon)
        → Sound d
        → room d + 1 < 2 ^ 32
        → Sound (child_up env vpp enabled records peer d)
          × (room (child_up env vpp enabled records peer d) ≤ room d + 1)
    unfolding child_up
    child_up-Sound records peer d s b = by_vpp vpp
      where
        routed : RouteCache × Log
        routed = on_child_up env.host enabled records peer d.routes d.sites.log

        by_vpp :
            (v : Bool)
            → Kept env w first d.sites (
                if v
                then vrf_child_up env records peer (with_log d.sites routed.1)
                else with_log d.sites routed.1)
        by_vpp true = up-Kept env w first (with_log d.sites routed.1) s b records peer
        by_vpp false = (s, omega arith)

    child_down-Sound :
        (peer : Text) (d : Daemon)
        → Sound d
        → room d + 1 < 2 ^ 32
        → Sound (child_down env vpp enabled peer d)
          × (room (child_down env vpp enabled peer d) ≤ room d + 1)
    unfolding child_down
    child_down-Sound peer d s b = by_vpp vpp
      where
        by_vpp :
            (v : Bool)
            → Kept env w first d.sites (if v then vrf_child_down env peer d.sites else d.sites)
        by_vpp true = down-Kept env w first d.sites s b peer
        by_vpp false = (s, omega arith)

    replay-Sound :
        (records : Records) (peers : List Text) (d : Daemon)
        → Sound d
        → room d + length peers < 2 ^ 32
        → Sound (replay env vpp enabled records peers d)
          × (room (replay env vpp enabled records peers d) ≤ room d + length peers)
    unfolding replay
    replay-Sound records [] d s b = (s, omega arith)
    replay-Sound records (p ∷ peers) d s b =
        let (one, more) = child_up-Sound records p d s (omega (arith, b)) in
        let (rest, bound) =
          replay-Sound records peers (child_up env vpp enabled records p d) one
            (omega (arith, b, more)) in
        (rest, omega (arith, more, bound))

    by_direction-Sound :
        (records : Records) (peer : Text) (u : Bool) (d : Daemon)
        → Sound d
        → room d + 1 < 2 ^ 32
        → Sound (by_direction env vpp enabled records peer u d)
          × (room (by_direction env vpp enabled records peer u d) ≤ room d + 1)
    by_direction-Sound records peer true d s b = child_up-Sound records peer d s b
    by_direction-Sound records peer false d s b = child_down-Sound peer d s b

    handle_stream-Sound :
        (stream : List (Records × ViciRawValue)) (d : Daemon)
        → Sound d
        → room d + length stream < 2 ^ 32
        → Sound (handle_stream env vpp enabled stream d)
    unfolding handle_stream handle_child_updown
    handle_stream-Sound [] d s b = s
    handle_stream-Sound ((records, raw) ∷ stream) d s b =
        let (one, more) =
          by_direction-Sound records (peer_ip_of raw) (is_up raw) d s (omega (arith, b)) in
        handle_stream-Sound stream
          (by_direction env vpp enabled records (peer_ip_of raw) (is_up raw) d) one
          (omega (arith, b, more))

  -- The first index of each pool.
  abbrev pub first_of : Resource → ℕ
  first_of fwd_tables = 10000
  first_of ret_tables = 60000
  first_of taps = 0

  start-Conserved : (w : Resource) → Conserved w (first_of w) [] new_allocator
  unfolding new_allocator holders occurrences
  start-Conserved fwd_tables = record { each = λ i. ground arith; above = omega arith }
  start-Conserved ret_tables = record { each = λ i. ground arith; above = omega arith }
  start-Conserved taps = record { each = λ i. ground arith; above = omega arith }

  -- From the daemon's start, over the replay of the tunnels that charon lists and any messages of it
  -- after that, failed set-ups included, each index of the two ranges of tables and of the taps that
  -- was ever given out is held by exactly one site or free exactly once, where the first index of the
  -- pool, the listed tunnels and the messages add up to less than 2^32.
  pub event_listener_task-Conserved :
      (w : Resource) (records : Records) (sas : List ViciRawValue)
      (stream : List (Records × ViciRawValue)) (log : Log)
      → first_of w + (length (list_established_peers sas) + length stream) < 2 ^ 32
      → Conserved w
          (first_of w)
          (event_listener_task env vpp enabled records sas stream log).sites.cache
          (event_listener_task env vpp enabled records sas stream log).sites.allocator
  unfolding event_listener_task reconcile_startup new_allocator
  event_listener_task-Conserved w records sas stream log b =
      let start : Daemon = record {
        routes = [];
        sites = record { cache = []; allocator = new_allocator; log = log };
      } in
      let (kept, bound) =
        replay-Sound w (first_of w) records (list_established_peers sas) start (start-Conserved w)
          (omega (arith, b, next_start w)) in
      handle_stream-Sound w (first_of w) stream (reconcile_startup env vpp enabled records sas log)
        kept (omega (arith, b, bound, next_start w))
    where
      next_start : (v : Resource) → next_of env v (first_of v) new_allocator ≡ first_of v
      next_start fwd_tables = refl
      next_start ret_tables = refl
      next_start taps = refl
