-- ===== src/Node/Pools.antt =====
-- ipsecnode/src/vpp.rs: the pools of proxies, which a task keeps in step with Valkey
-- (`proxy_pool_task`). Decoding the snapshot's JSON is a parameter.
pub mod Loaded
mod Tests
use fleetsuite.Node.Vrf.Rules.{pool_chain}
use fleetsuite.Common.{
  ℕ, zero, suc, ◌+◌, ◌-◌, ◌*◌, ◌/◌, ◌%◌, ◌^◌, ◌≤◌, ◌<◌, ◌≡◌, refl, sym, ap, ap₂, subst, ◌∙◌, ◌≢◌,
  ◌↔◌, ◌⊎◌, inl, inr, Bool, true, false, not, ◌&&◌, ◌||◌, Option, none, some, List, [], ◌∷◌, ◌++◌,
  map, arith, ltb, leb, ◌==◌, if◌then◌else◌, ==_iff, Bool-cases, Option-cases, is_some, unwrap_or,
  map_option, and_then, length, get_elem?, any, all, find, filter, is_empty, All, length-append,
  filter_map, cons_some, flat_map, All-append, All-intro, All-mono, All-filter_map, All-flat_map,
}
use fleetsuite.Common.Text.{Text, codes, text_eq, texts_eq, show_nat, join}
use fleetsuite.Common.Net.{parse_ipv4}
use fleetsuite.Common.Assoc.{Assoc, get, insert}
use fleetsuite.Scale.{sort_by_ip}
use fleetsuite.Node.Config.{BackendConfig, ServerConfig, SplitRule, server_for}
use fleetsuite.Node.Host.{Host, Log, Reply}
use fleetsuite.Node.Vrf.Calls.{nft_batch, conntrack_flush}

abbrev pub pool_key : Text → Text
pool_key pool = codes "fleetipsec:" ++ (pool ++ codes ":pool")

pub record PoolBinding : Type 0 where
  pub name : Text
  pub key : Text

-- The pools of the splits, each the first time that it is met.
abbrev pub new_binding : Text → List PoolBinding → List PoolBinding
new_binding pool found =
    if any (λ b. text_eq pool b.name) found
    then found
    else found ++ (record { name = pool; key = pool_key pool } ∷ [])

abbrev pool_bound : Option Text → List PoolBinding → List PoolBinding
pool_bound none found = found
pool_bound (some pool) found = new_binding pool found

unfoldable pub split_pools : List SplitRule → List PoolBinding → List PoolBinding
split_pools [] found = found
split_pools (s ∷ splits) found = split_pools splits (pool_bound s.pool found)

abbrev server_pools : Option ServerConfig → List PoolBinding → List PoolBinding
server_pools none found = found
server_pools (some server) found = split_pools server.split found

unfoldable pub proxy_pool_bindings : BackendConfig → List PoolBinding
proxy_pool_bindings backend = server_pools (server_for backend (codes "em_server")) (
    server_pools (server_for backend (codes "sd_server"))
      (server_pools (server_for backend (codes "access_server")) []))

unfoldable pub elements_from : ℕ → List Text → List Text
elements_from i [] = []
elements_from i (ip ∷ ips) = (show_nat i ++ (codes " : " ++ ip)) ∷ elements_from (suc i) ips

unfoldable pub dnat_rule : Text → List Text → Text
dnat_rule chain ips =
    codes "add rule ip ipsecnode_bnat "
    ++ (chain
        ++ (codes " dnat to jhash ip saddr mod "
            ++ (show_nat (length ips)
                ++ (codes " map { " ++ (join (codes ", ") (elements_from 0 ips) ++ codes " }\n")))))

abbrev pub flush_line : Text → Text
flush_line pool = codes "flush chain ip ipsecnode_bnat " ++ (pool_chain pool ++ codes "\n")

-- The text that replaces a pool's rule.
unfoldable pub pool_batch : Text → List Text → Text
pool_batch pool ips =
    flush_line pool ++ (if is_empty ips then [] else dnat_rule (pool_chain pool) ips)

unfoldable pub apply_proxy_pool : Host → Text → List Text → Log → Option Text × Log
apply_proxy_pool host pool ips log = nft_batch host (pool_batch pool ips) log

-- `dedup` takes out what equals its neighbour.
abbrev after_equal : Text → List Text → List Text
after_equal x [] = x ∷ []
after_equal x (y ∷ ys) = if text_eq x y then y ∷ ys else x ∷ y ∷ ys

unfoldable pub dedup : List Text → List Text
dedup [] = []
dedup (x ∷ xs) = after_equal x (dedup xs)

unfoldable pub pool_members : List Text → List Text
pool_members ips = dedup (sort_by_ip (filter (λ ip. is_some (parse_ipv4 ip)) ips))

-- What the task knows, by the pools' names, and the commands run.
pub record PoolState : Type 0 where
  pub last : Assoc (List Text)
  pub log : Log

abbrev pub is_same : Option (List Text) → List Text → Bool
is_same none ips = false
is_same (some prev) ips = texts_eq prev ips

abbrev pub had_removal : Option (List Text) → List Text → Bool
had_removal none ips = false
had_removal (some prev) ips = any (λ ip. not (any (text_eq ip) ips)) prev

module _ (host : Host) where
  abbrev pub flushed : Bool → Log → Log
  flushed removal log = if removal then (conntrack_flush host log).1 else log

  abbrev pub applied :
      PoolBinding → List Text → Bool → Assoc (List Text) → Option Text × Log → PoolState
  applied p ips removal last (none, log) = record { last = last; log = log }
  applied p ips removal last (some out, log) = record {
    last = insert p.name ips last;
    log = flushed removal log;
  }

module _ (host : Host) (decode : Text → Option (List Text)) where
  -- `none` ends the reconciliation.
  unfoldable pub snapshot : Reply → Option (List Text)
  snapshot Reply.failed = none
  snapshot (Reply.reply none) = some []
  snapshot (Reply.reply (some json)) = map_option pool_members (decode json)

  abbrev pub reconcile_to : PoolBinding → PoolState → Option (List Text) → PoolState
  reconcile_to p s none = s
  reconcile_to p s (some ips) =
      if is_same (get p.name s.last) ips
      then s
      else applied host p ips (had_removal (get p.name s.last) ips) s.last
          (apply_proxy_pool host p.name ips s.log)

  unfoldable pub reconcile_pool : PoolBinding → Reply → PoolState → PoolState
  reconcile_pool p answer s = reconcile_to p s (snapshot answer)

  -- Each reconciliation asks Valkey anew.
  unfoldable pub reconcile_all : (Text → Log → Reply) → List PoolBinding → PoolState → PoolState
  reconcile_all valkey [] s = s
  reconcile_all valkey (p ∷ pools) s =
      reconcile_all valkey pools (reconcile_pool p (valkey p.key s.log) s)

  abbrev reconcile_found : (Text → Log → Reply) → Option PoolBinding → PoolState → PoolState
  reconcile_found valkey none s = s
  reconcile_found valkey (some p) s = reconcile_pool p (valkey p.key s.log) s

  -- A turn of the loop: a message with a key, or the tick.
  unfoldable pub pool_turn :
      (Text → Log → Reply) → List PoolBinding → Option Text → PoolState → PoolState
  pool_turn valkey pools none s = reconcile_all valkey pools s
  pool_turn valkey pools (some key) s =
      reconcile_found valkey (find (λ p. text_eq p.key key) pools) s

  unfoldable pub pool_turns :
      (Text → Log → Reply) → List PoolBinding → List (Option Text) → PoolState → PoolState
  pool_turns valkey pools [] s = s
  pool_turns valkey pools (turn ∷ turns) s =
      pool_turns valkey pools turns (pool_turn valkey pools turn s)

  -- The task: every pool once, and then the turns.
  unfoldable pub proxy_pool_task :
      (Text → Log → Reply) → List PoolBinding → List (Option Text) → Log → PoolState
  proxy_pool_task valkey pools turns log =
      pool_turns valkey pools turns (reconcile_all valkey pools (record { last = []; log = log }))
