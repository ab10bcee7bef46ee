-- ===== src/Scale.antt =====
-- ipsecscale/src/main.rs: the load balancer's watcher of the proxies and of the VPN nodes. AWS, the
-- probes, the files and Valkey answer each call as the round says.
pub mod Cidr
pub mod Healthy
pub mod Converges
pub mod Flush
mod Tests
use fleetsuite.Common.{
  ℕ, zero, suc, ◌+◌, ◌-◌, ◌*◌, ◌/◌, ◌%◌, ◌^◌, ◌≤◌, ◌<◌, ◌≡◌, refl, sym, ap, ap₂, subst, ◌∙◌, ◌≢◌,
  ◌↔◌, ◌⊎◌, inl, inr, Bool, true, false, not, ◌&&◌, ◌||◌, Option, none, some, List, [], ◌∷◌, ◌++◌,
  map, arith, ltb, leb, ◌==◌, if◌then◌else◌, ==_iff, Bool-cases, Option-cases, is_some, unwrap_or,
  map_option, and_then, length, get_elem?, any, all, find, filter, is_empty, All, length-append,
  filter_map, cons_some, flat_map, All-append, All-intro, All-mono, All-filter_map, All-flat_map,
}
use fleetsuite.Common.Text.{Text, codes, text_eq, texts_eq, trim}
use fleetsuite.Common.Net.{parse_ipv4}
use fleetsuite.Ring.Owner.{LvsRing, new_ring}
use fleetsuite.Ring.Render.{render_ipsec_nat}
use fleetsuite.Scale.Cidr.{cidr_contains}

pub record PulseState : Type 0 where
  pub instance_id : Text
  pub eth0_secondary_ip : Text
  pub vpn_asg_name : Text

-- `read_pulse_state`: an error, no file, or the state.
pub data PulseRead : Type 0 where
  failed absent : PulseRead
  present : PulseState → PulseRead

-- What the calls of one round answer; `none` and `false` are errors.
pub record Answers : Type 0 where
  pub role_file : Option Text
  pub credentials : Bool
  pub pulse : PulseRead
  pub describe : Text → Option (List Text)
  pub probe : Text → Bool
  pub time : Text
  pub write_file : Bool
  pub reload : Bool
  pub flush : Bool
  pub set_pool : Bool
  pub set_ring : Bool

pub record Config : Type 0 where
  pub proxy_asg : Text
  pub manage_vpn_nat : Bool
  pub backend_cidrs : List (ℕ × ℕ)

-- What the watcher did, the last first: the calls that succeeded.
pub data Effect : Type 0 where
  nat_written nat_loaded : Text → Effect
  conntrack_flushed : Effect
  ring_set : LvsRing → Effect
  pool_set : List Text → Effect

-- The order of strings, by their characters.
unfoldable pub text_lt : Text → Text → Bool
text_lt s [] = false
text_lt [] (d ∷ t) = true
text_lt (c ∷ s) (d ∷ t) = let rest = text_lt s t in ltb c d || (c == d && rest)

-- Insertion into a `BTreeSet`.
unfoldable pub set_insert : Text → List Text → List Text
set_insert x [] = x ∷ []
set_insert x (y ∷ ys) =
    let rest = set_insert x ys in
    if text_eq x y then y ∷ ys else (if text_lt x y then x ∷ y ∷ ys else y ∷ rest)

unfoldable pub to_set : List Text → List Text
to_set [] = []
to_set (x ∷ xs) = set_insert x (to_set xs)

abbrev pub ip_key : Text → ℕ
ip_key ip = unwrap_or (parse_ipv4 ip) 0

-- `sort_by_key`, which is stable, on the addresses as numbers.
unfoldable pub key_insert : Text → List Text → List Text
key_insert x [] = x ∷ []
key_insert x (y ∷ ys) =
    let rest = key_insert x ys in if leb (ip_key x) (ip_key y) then x ∷ y ∷ ys else y ∷ rest

unfoldable pub sort_by_ip : List Text → List Text
sort_by_ip [] = []
sort_by_ip (x ∷ xs) = key_insert x (sort_by_ip xs)

abbrev in_cidrs : Option (List (ℕ × ℕ)) → Option ℕ → Bool
in_cidrs cidrs none = false
in_cidrs none (some v) = true
in_cidrs (some cidrs) (some v) = cidr_contains cidrs v

unfoldable pub select_ips : Option (List (ℕ × ℕ)) → List Text → List Text
select_ips cidr_filter scalars = sort_by_ip (
    filter (λ ip. in_cidrs cidr_filter (parse_ipv4 ip))
      (to_set (filter (λ s. not (is_empty s)) scalars)))

unfoldable pub describe_asg_ips : Answers → Text → Option (List (ℕ × ℕ)) → Option (List Text)
describe_asg_ips answers asg cidr_filter =
    map_option (select_ips cidr_filter) (answers.describe asg)

abbrev says_master : Option Text → Bool
says_master none = false
says_master (some s) = text_eq (trim s) (codes "master")

unfoldable pub is_master : Answers → Bool
is_master answers = says_master answers.role_file

-- `last.as_ref() == Some(&ips)`.
abbrev pub unchanged : Option (List Text) → List Text → Bool
unchanged none ips = false
unchanged (some l) ips = texts_eq l ips

-- A reconcile's result: an error, no change, or the new set, with the effects.
pub data Reconciled : Type 0 where
  failed same : Reconciled
  changed : List Text → Reconciled

abbrev pub publish_pool :
    Answers → Option (List Text) → List Text → List Effect → Reconciled × List Effect
publish_pool answers last healthy log =
    if unchanged last healthy
    then (same, log)
    else (if answers.set_pool
        then (changed healthy, pool_set healthy ∷ log)
        else (Reconciled.failed, log))

abbrev pub healthy_of : Answers → List Text → List Text
healthy_of answers candidates = sort_by_ip (filter answers.probe candidates)

abbrev pub proxies :
    Answers → Option (List Text) → Option (List Text) → List Effect → Reconciled × List Effect
proxies answers last none log = (Reconciled.failed, log)
proxies answers last (some candidates) log =
    publish_pool answers last (healthy_of answers candidates) log

unfoldable pub reconcile_proxy :
    Config → Answers → Option (List Text) → List Effect → Reconciled × List Effect
reconcile_proxy config answers last log =
    proxies answers last (describe_asg_ips answers config.proxy_asg (some config.backend_cidrs)) log

-- The nodes of the last set that are gone.
unfoldable pub removed_nodes : Option (List Text) → List Text → List Text
removed_nodes none vpn_ips = []
removed_nodes (some prev) vpn_ips = filter (λ ip. not (any (text_eq ip) vpn_ips)) prev

abbrev pub flush_if : Bool → Answers → List Effect → List Effect
flush_if needed answers log =
    if needed then (if answers.flush then conntrack_flushed ∷ log else log) else log

abbrev pub load_nat :
    Answers → PulseState → Option (List Text) → List Text → List Effect → Reconciled × List Effect
load_nat answers state last vpn_ips log =
    let rendered =
      render_ipsec_nat answers.time state.instance_id state.eth0_secondary_ip vpn_ips in
    if unchanged last vpn_ips
    then (same, log)
    else if not answers.write_file
    then (Reconciled.failed, log)
    else if not answers.reload
    then (Reconciled.failed, nat_written rendered ∷ log)
    else (
      changed vpn_ips,
      flush_if (not (is_empty (removed_nodes last vpn_ips))) answers
          (nat_loaded rendered ∷ nat_written rendered ∷ log),
    )

abbrev pub vpn_nodes :
    Answers
    → PulseState
    → Option (List Text)
    → Option (List Text)
    → List Effect
    → Reconciled × List Effect
vpn_nodes answers state last none log = (Reconciled.failed, log)
vpn_nodes answers state last (some vpn_ips) log = load_nat answers state last vpn_ips log

abbrev pub with_pulse :
    Answers → PulseRead → Option (List Text) → List Effect → Reconciled × List Effect
with_pulse answers PulseRead.failed last log = (Reconciled.failed, log)
with_pulse answers absent last log = (same, log)
with_pulse answers (present state) last log =
    vpn_nodes answers state last (describe_asg_ips answers state.vpn_asg_name none) log

unfoldable pub reconcile_vpn_nat :
    Answers → Option (List Text) → List Effect → Reconciled × List Effect
reconcile_vpn_nat answers last log = with_pulse answers answers.pulse last log

unfoldable pub publish_lvsring : Answers → List Text → List Effect → List Effect
publish_lvsring answers nodes log =
    if answers.set_ring then ring_set (new_ring nodes) ∷ log else log

pub record Watcher : Type 0 where
  pub last_proxy : Option (List Text)
  pub last_vpn : Option (List Text)
  pub was_master : Bool
  pub log : List Effect

abbrev pub vpn_done : Answers → Watcher → Reconciled × List Effect → Watcher
vpn_done answers s (changed set, log) = record s {
  last_vpn = some set;
  log = publish_lvsring answers set log;
}
vpn_done answers s (same, log) = record s { log = log }
vpn_done answers s (Reconciled.failed, log) = record s { log = log }

unfoldable pub vpn_part : Config → Answers → Watcher → Watcher
vpn_part config answers s =
    if config.manage_vpn_nat
    then vpn_done answers s (reconcile_vpn_nat answers s.last_vpn s.log)
    else s

abbrev pub proxy_done : Watcher → Option (List Text) → Reconciled × List Effect → Watcher
proxy_done s last (changed set, log) = record s { last_proxy = some set; log = log }
proxy_done s last (same, log) = record s { last_proxy = last; log = log }
proxy_done s last (Reconciled.failed, log) = record s { last_proxy = last; log = log }

-- On promotion the last set is forgotten first.
unfoldable pub proxy_part : Config → Answers → Watcher → Watcher
proxy_part config answers s =
    let last = if s.was_master then s.last_proxy else none in
    if is_master answers
    then proxy_done s last (reconcile_proxy config answers last s.log)
    else (if s.was_master then record s { last_proxy = none } else s)

-- A round of the loop.
unfoldable pub round : Config → Answers → Watcher → Watcher
round config answers s =
    let s' =
      if answers.credentials then proxy_part config answers (vpn_part config answers s) else s in
    record s' { was_master = is_master answers }

unfoldable pub rounds : Config → List Answers → Watcher → Watcher
rounds config [] s = s
rounds config (a ∷ answers) s = rounds config answers (round config a s)

unfoldable pub start : Watcher
start = record { last_proxy = none; last_vpn = none; was_master = false; log = [] }
