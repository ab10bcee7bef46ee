-- ===== src/Node/Vrf/Start.antt =====
-- ipsecnode/src/vpp.rs: the start of the data plane (`init`), which takes away what an earlier run has
-- left. The deadline of the wait is a number of attempts after the first.
pub mod Ready
pub mod Cleaned
mod Tests
use fleetsuite.Common.{
  ℕ, zero, suc, ◌+◌, ◌-◌, ◌*◌, ◌/◌, ◌%◌, ◌^◌, ◌≤◌, ◌<◌, ◌≡◌, refl, sym, ap, ap₂, subst, ◌∙◌, ◌≢◌,
  ◌↔◌, ◌⊎◌, inl, inr, Bool, true, false, not, ◌&&◌, ◌||◌, Option, none, some, List, [], ◌∷◌, ◌++◌,
  map, arith, ltb, leb, ◌==◌, if◌then◌else◌, ==_iff, Bool-cases, Option-cases, is_some, unwrap_or,
  map_option, and_then, length, get_elem?, any, all, find, filter, is_empty, All, length-append,
  filter_map, cons_some, flat_map, All-append, All-intro, All-mono, All-filter_map, All-flat_map,
}
use fleetsuite.Common.Text.{
  Text, codes, text_eq, starts_with, split_by, split_whitespace, parse_uint,
}
use fleetsuite.Node.Config.{BackendConfig}
use fleetsuite.Node.Host.{Command, Host, Log, run_ok}
use fleetsuite.Node.Vrf.Calls.{
  Call, vppctl, ip, nft, nft_batch, vppctl_warn, ip_warn, nft_warn, create_tap, conntrack_flush,
}
use fleetsuite.Node.Vrf.Rules.{pool_chain}
use fleetsuite.Node.Pools.{PoolBinding, proxy_pool_bindings}

abbrev pub mangle_rules : Text
mangle_rules =
    codes "add table ip ipsecnode\n"
    ++ (codes "add set ip ipsecnode vpp_taps { type iface_index; }\n"
        ++ (codes "add map ip ipsecnode vpp_mark { type iface_index : mark; }\n"
            ++ (codes
                  "add chain ip ipsecnode mangle_pre { type filter hook prerouting priority mangle; policy accept; }\n"
                ++ (codes
                      "add rule ip ipsecnode mangle_pre iif @vpp_taps meta mark set iif map @vpp_mark\n"
                    ++ (codes
                          "add chain ip ipsecnode tcp_mss { type filter hook forward priority mangle; policy accept; }\n"
                        ++ codes
                            "add rule ip ipsecnode tcp_mss tcp flags & (syn | rst) == syn tcp option maxseg size > 1380 tcp option maxseg size set 1380\n")))))

abbrev pub bnat_rules : Text
bnat_rules =
    codes "add table ip ipsecnode_bnat\n"
    ++ (codes
          "add chain ip ipsecnode_bnat prerouting { type nat hook prerouting priority dstnat; policy accept; }\n"
        ++ codes
            "add chain ip ipsecnode_bnat postrouting { type nat hook postrouting priority srcnat; policy accept; }\n")

abbrev helper_rules : Text
helper_rules =
    codes "add ct helper ip ipsecnode_bnat ftp_ctrl { type \"ftp\" protocol tcp; }\n"
    ++ codes
        "add chain ip ipsecnode_bnat helperpre { type filter hook prerouting priority mangle; policy accept; }\n"

-- A command on whose success the start depends.
pub data Step : Type 0 where
  vpp_step ip_step : List Text → Step
  batch_step : Text → Step

abbrev pub step_command : Step → Command
step_command (vpp_step args) = Command.vppctl args
step_command (ip_step args) = Command.ip args
step_command (batch_step rules) = Command.nft_batch rules

unfoldable pub start_steps : Text → List Step
start_steps outer_tap =
    vpp_step (
      codes "set"
      ∷ codes "interface"
      ∷ codes "ip"
      ∷ codes "address"
      ∷ outer_tap
      ∷ codes "10.255.0.6/30"
      ∷ [])
    ∷ vpp_step (codes "set" ∷ codes "interface" ∷ codes "state" ∷ outer_tap ∷ codes "up" ∷ [])
    ∷ ip_step
        (codes "addr" ∷ codes "add" ∷ codes "10.255.0.5/30" ∷ codes "dev" ∷ codes "vpp-outer" ∷ [])
    ∷ ip_step (codes "link" ∷ codes "set" ∷ codes "vpp-outer" ∷ codes "up" ∷ [])
    ∷ vpp_step (
        codes "ip"
        ∷ codes "route"
        ∷ codes "add"
        ∷ codes "0.0.0.0/0"
        ∷ codes "via"
        ∷ codes "10.255.0.5"
        ∷ [])
    ∷ vpp_step
        (codes "nat44" ∷ codes "plugin" ∷ codes "enable" ∷ codes "sessions" ∷ codes "500000" ∷ [])
    ∷ vpp_step (codes "set" ∷ codes "interface" ∷ codes "nat44" ∷ codes "out" ∷ outer_tap ∷ [])
    ∷ batch_step mangle_rules
    ∷ batch_step bnat_rules
    ∷ []

-- The outcome: no data plane, an error, a run whose cleaning still goes on, or the name of the outer tap.
pub data Started : Type 0 where
  no_data_plane failed cleaning : Started
  ready : Text → Started

abbrev stale_tap : List Text → Option Text
stale_tap (name ∷ index ∷ rest) =
    if starts_with (codes "tap") name
      && (not (text_eq name (codes "tap")) && is_some (parse_uint 4294967295 index))
    then some index
    else none
stale_tap (name ∷ []) = none
stale_tap [] = none

module _ (host : Host) where
  abbrev show_version : Command
  show_version = Command.vppctl (codes "show" ∷ codes "version" ∷ [])

  unfoldable pub wait_for_vpp : ℕ → Log → Bool × Log
  wait_for_vpp zero log = run_ok host show_version log
  wait_for_vpp (suc tries) log =
      let tried = run_ok host show_version log in
      let rest = wait_for_vpp tries tried.1 in if tried.0 then tried else rest

  abbrev delete_stale : Option Text → Log → Log
  delete_stale none log = log
  delete_stale (some index) log =
      vppctl_warn host (codes "delete" ∷ codes "tap" ∷ codes "sw_if_index" ∷ index ∷ []) log

  unfoldable pub delete_taps : List Text → Log → Log
  delete_taps [] log = log
  delete_taps (line ∷ lines) log =
      delete_taps lines (delete_stale (stale_tap (split_whitespace line)) log)

  abbrev pub shown_taps : Option Text × Log → Log
  shown_taps (none, log) = log
  shown_taps (some out, log) = delete_taps (split_by (λ c. c == 10) out) log

  abbrev pub delete_rule : Text → Command
  delete_rule prio = Command.ip (codes "rule" ∷ codes "del" ∷ codes "prio" ∷ prio ∷ [])

  -- Deleting until it fails; `none` is a run that goes on.
  unfoldable pub delete_rules : ℕ → Text → Log → Option Log
  delete_rules zero prio log = none
  delete_rules (suc fuel) prio log =
      let deleted = run_ok host (delete_rule prio) log in
      let rest = delete_rules fuel prio deleted.1 in if deleted.0 then rest else some deleted.1

  abbrev table_gone : Text → Log → Log
  table_gone table log =
      nft_warn host (codes "delete" ∷ codes "table" ∷ codes "ip" ∷ table ∷ []) log

  unfoldable pub cleanup_tables : Log → Log
  cleanup_tables log =
      let disabled = vppctl_warn host (codes "nat44" ∷ codes "plugin" ∷ codes "disable" ∷ []) log in
      let no_taps = shown_taps (vppctl host (codes "show" ∷ codes "interface" ∷ []) disabled) in
      let no_addr =
        ip_warn host (codes "addr" ∷ codes "flush" ∷ codes "dev" ∷ codes "vpp-outer" ∷ [])
          no_taps in
      ip_warn host (codes "route" ∷ codes "flush" ∷ codes "table" ∷ codes "9999" ∷ []) (
        table_gone (codes "ipsecnode_ctzone") (
          table_gone (codes "ipsecnode_svcroute")
            (table_gone (codes "ipsecnode_bnat") (table_gone (codes "ipsecnode") no_addr))))

  unfoldable pub cleanup_stale_state : ℕ → Log → Option Log
  cleanup_stale_state fuel log =
      and_then (delete_rules fuel (codes "100") (cleanup_tables log))
        (delete_rules fuel (codes "200"))

  unfoldable pub step_call : Step → Call Text
  step_call (vpp_step args) = vppctl host args
  step_call (ip_step args) = ip host args
  step_call (batch_step rules) = nft_batch host rules

  -- The first failure ends the steps.
  unfoldable pub run_steps : List Step → Log → Bool × Log
  run_steps [] log = (true, log)
  run_steps (s ∷ steps) log =
      let r = step_call s log in
      let rest = run_steps steps r.1 in if is_some r.0 then rest else (false, r.1)

  abbrev modprobe : Text → Log → Log
  modprobe m log = (run_ok host (Command.modprobe (m ∷ [])) log).1

  unfoldable pub add_pool_chains : List PoolBinding → Log → Log
  add_pool_chains [] log = log
  add_pool_chains (p ∷ pools) log =
      add_pool_chains pools
        (nft_batch host (codes "add chain ip ipsecnode_bnat " ++ (pool_chain p.name ++ codes "\n"))
          log).1

  -- What follows the steps, whose failures are only logged.
  unfoldable pub finish_start : BackendConfig → Log → Log
  finish_start backend log =
      let helped =
        (nft_batch host helper_rules
          (modprobe (codes "nf_nat_ftp") (modprobe (codes "nf_conntrack_ftp") log))).1 in
      (conntrack_flush host (add_pool_chains (proxy_pool_bindings backend) helped)).1

  abbrev pub stepped : BackendConfig → Text → Bool × Log → Started × Log
  stepped backend outer_tap (false, log) = (failed, log)
  stepped backend outer_tap (true, log) = (ready outer_tap, finish_start backend log)

  abbrev pub tapped : BackendConfig → Option Text × Log → Started × Log
  tapped backend (none, log) = (no_data_plane, log)
  tapped backend (some outer_tap, log) =
      stepped backend outer_tap (run_steps (start_steps outer_tap) log)

  abbrev pub cleaned : BackendConfig → Option Log → Log → Started × Log
  cleaned backend none log = (cleaning, log)
  cleaned backend (some clean) log = tapped backend (create_tap host (codes "vpp-outer") clean)

  abbrev pub waited : ℕ → BackendConfig → Bool × Log → Started × Log
  waited fuel backend (false, log) = (no_data_plane, log)
  waited fuel backend (true, log) = cleaned backend (cleanup_stale_state fuel log) log

  unfoldable pub init : ℕ → ℕ → BackendConfig → Log → Started × Log
  init tries fuel backend log = waited fuel backend (wait_for_vpp tries log)
