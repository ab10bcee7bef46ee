-- ===== src/Node/Ondemand.antt =====
-- ipsecnode/src/ondemand.rs: bringing a tunnel up on demand, on the node that the ring picks.
pub mod Choice
pub mod Spacing
mod Tests
use fleetsuite.Common.{
  ℕ, zero, suc, ◌+◌, ◌-◌, ◌*◌, ◌/◌, ◌%◌, ◌^◌, ◌≤◌, ◌<◌, ◌≡◌, refl, sym, ap, ap₂, subst, ◌∙◌, ◌≢◌,
  ◌↔◌, ◌⊎◌, inl, inr, Bool, true, false, not, ◌&&◌, ◌||◌, Option, none, some, List, [], ◌∷◌, ◌++◌,
  map, arith, ltb, leb, ◌==◌, if◌then◌else◌, ==_iff, Bool-cases, Option-cases, is_some, unwrap_or,
  map_option, and_then, length, get_elem?, any, all, find, filter, is_empty, All, length-append,
  filter_map, cons_some, flat_map, All-append, All-intro, All-mono, All-filter_map, All-flat_map,
}
use fleetsuite.Common.Text.{Text, codes, text_eq}
use fleetsuite.Common.Net.{parse_ipv4, from_octets}
use fleetsuite.Common.Assoc.{Assoc, get, insert}
use fleetsuite.Ring.Owner.{LvsRing, Outcome, value, panic, owner_of}
use fleetsuite.Node.Host.{Reply}

pub data OwnerMode : Type 0 where
  any_node jhash : OwnerMode

abbrev is_jhash : Option Text → Bool
is_jhash none = false
is_jhash (some v) = text_eq v (codes "jhash")

-- `IPSECNODE_ONDEMAND_OWNER` and `IPSECNODE_ONDEMAND`.
unfoldable pub mode_from_env : Option Text → OwnerMode
mode_from_env v = if is_jhash v then jhash else any_node

unfoldable pub is_enabled : Option Text → Bool
is_enabled v = unwrap_or (map_option (λ t. not (text_eq t (codes "0"))) v) true

pub record Handoff : Type 0 where
  pub owner : Text
  pub peer : Text

-- `Local` holds the address of the packet.
pub data Trigger : Type 0 where
  local : ℕ → Trigger
  handed_off : Text → Trigger

pub data Decision : Type 0 where
  here : Decision
  hand_off : Text → Decision

-- The gateway of an address, from the reply to HGET.
unfoldable pub resolve_peer : Reply → Option Text
resolve_peer Reply.failed = none
resolve_peer (Reply.reply none) = none
resolve_peer (Reply.reply (some peer)) = if is_empty peer then none else some peer

abbrev pub at_owner : Text → Outcome (Option Text) → Outcome Decision
at_owner my_ip panic = panic
at_owner my_ip (value none) = value here
at_owner my_ip (value (some o)) = value (if text_eq o my_ip then here else hand_off o)

abbrev pub at_address : LvsRing → Text → Option ℕ → Outcome Decision
at_address ring my_ip none = value here
at_address ring my_ip (some addr) = at_owner my_ip (owner_of addr ring.nodes)

abbrev at_ring : Option LvsRing → Option Text → Text → Outcome Decision
at_ring none my_ip peer = value here
at_ring (some ring) none peer = value here
at_ring (some ring) (some my_ip) peer = at_address ring my_ip (parse_ipv4 peer)

unfoldable pub decide_owner : OwnerMode → Option LvsRing → Option Text → Text → Outcome Decision
decide_owner any_node ring my_ip peer = value here
decide_owner jhash ring my_ip peer = at_ring ring my_ip peer

-- `INFLIGHT_TTL` in milliseconds.
abbrev pub inflight_ttl : ℕ
inflight_ttl = 30000

pub record TaskState : Type 0 where
  pub ring : Option LvsRing
  pub inflight : Assoc ℕ

pub data Action : Type 0 where
  nothing : Action
  initiate : Text → Action
  publish : Handoff → Action

-- `inflight.retain`.
unfoldable pub retain : ℕ → Assoc ℕ → Assoc ℕ
retain now m = filter (λ e. ltb (now - e.1) inflight_ttl) m

-- The end of a round: the de-dupe, and the initiate.
abbrev pub initiate_once : ℕ → TaskState → Text → TaskState × Action
initiate_once now s peer =
    if is_some (get peer s.inflight)
    then (s, nothing)
    else (record s { inflight = insert peer now s.inflight }, initiate peer)

abbrev pub by_decision : ℕ → TaskState → Text → Outcome Decision → Outcome (TaskState × Action)
by_decision now s peer panic = panic
by_decision now s peer (value here) = value (initiate_once now s peer)
by_decision now s peer (value (hand_off o)) = value (s, publish (record { owner = o; peer = peer }))

module _ (mode : OwnerMode) (my_ip : Option Text) where
  abbrev pub by_peer : ℕ → TaskState → Option Text → Outcome (TaskState × Action)
  by_peer now s none = value (s, nothing)
  by_peer now s (some peer) = by_decision now s peer (decide_owner mode s.ring my_ip peer)

  -- A trigger received at a time, with Valkey's reply to the lookup of the peer.
  unfoldable pub receive : ℕ → Reply → Trigger → TaskState → Outcome (TaskState × Action)
  receive now lookup (handed_off peer) s =
      value (initiate_once now (record s { inflight = retain now s.inflight }) peer)
  receive now lookup (local dst) s =
      by_peer now (record s { inflight = retain now s.inflight }) (resolve_peer lookup)

  -- A round of the task: the ring's refresh, or a trigger.
  pub data Round : Type 0 where
    refresh : Option LvsRing → Round
    received : ℕ → Reply → Trigger → Round

  abbrev refreshed : Option LvsRing → TaskState → TaskState
  refreshed none s = s
  refreshed (some r) s = record s { ring = some r }

  abbrev pub keep_round :
      ℕ → (TaskState → List (ℕ × Action)) → Outcome (TaskState × Action) → List (ℕ × Action)
  keep_round now rest panic = []
  keep_round now rest (value (s, a)) = (now, a) ∷ rest s

  -- The task's actions with their times, up to a panic.
  unfoldable pub task : List Round → TaskState → List (ℕ × Action)
  task [] s = []
  task (refresh r ∷ rounds) s = task rounds (refreshed r s)
  task (received now lookup t ∷ rounds) s = keep_round now (task rounds) (receive now lookup t s)

-- The ring as Valkey holds it; `decode` reads its JSON.
unfoldable pub get_ring : (Text → Option LvsRing) → Reply → Option LvsRing
get_ring decode Reply.failed = none
get_ring decode (Reply.reply none) = none
get_ring decode (Reply.reply (some json)) = decode json

-- The handoffs that the subscriber of a node forwards.
unfoldable pub forwarded : Text → Option Handoff → Option Trigger
forwarded my_ip none = none
forwarded my_ip (some h) = if text_eq h.owner my_ip then some (handed_off h.peer) else none

-- The four bytes of the destination.
abbrev dst_of : List ℕ → Option ℕ
dst_of (a ∷ b ∷ c ∷ d ∷ rest) = some (from_octets a b c d)
dst_of bytes = none

abbrev drop_bytes : ℕ → List ℕ → List ℕ
drop_bytes zero xs = xs
drop_bytes (suc n) [] = []
drop_bytes (suc n) (x ∷ xs) = drop_bytes n xs

unfoldable pub parse_ipv4_dst : List ℕ → Option ℕ
parse_ipv4_dst pkt =
    if ltb (length pkt) 20 || not (unwrap_or (get_elem? pkt 0) 0 / 16 == 4)
    then none
    else dst_of (drop_bytes 16 pkt)
