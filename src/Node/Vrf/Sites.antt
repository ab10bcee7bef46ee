-- ===== src/Node/Vrf/Sites.antt =====
-- ipsecnode/src/vpp.rs: setting up and tearing down a site, in its two modes. The rules for the
-- backend (`setup_site_bnat`) are a call of the environment.
use fleetsuite.Common.{
  ℕ, true, false, Option, none, some, List, [], ◌∷◌, ◌++◌, map, if◌then◌else◌, is_some, is_empty,
}
use fleetsuite.Common.Text.{Text, codes, show_nat}
use fleetsuite.Node.Host.{Log, Host, host_prefix}
use fleetsuite.Node.Nat.{BackendNatRecord, DeviceNatEntry, NatRecord}
use fleetsuite.Node.Vrf.{DeviceVrfEntry, SiteBnatState, SiteVrfState, TapIps, xfrm_if_name}
use fleetsuite.Node.Vrf.Calls.{
  Call, return, ◌>>=◌, tolerate, vppctl, ip, nft, vppctl_warn, ip_warn, nft_warn, create_tap,
  get_ifindex, install_device_nat, remove_device_nat, delete_vpp_tap,
}

-- What a site's calls use: the host, its files, the outer tap, and the backend's rules.
pub record Env : Type 0 where
  pub host : Host
  pub read_file : Log → Text → Option Text
  pub outer_tap : Text
  pub setup_bnat : Text → ℕ → Option BackendNatRecord → Log → SiteBnatState × Log

abbrev entry_of : DeviceNatEntry → DeviceVrfEntry
entry_of e = record { internal_ip = e.internal_ip; global_ip = e.global_ip }

abbrev element : Text → Text
element e = codes "{ " ++ (e ++ codes " }")

abbrev map_element : Text → Text → Text
map_element k v = element (k ++ (codes " : " ++ v))

module _ (env : Env) where
  open env use {host, read_file, outer_tap, setup_bnat}

  -- The devices whose call succeeds.
  unfoldable pub install_devices :
      (DeviceNatEntry → Call Text) → List DeviceNatEntry → Log → List DeviceVrfEntry × Log
  install_devices install [] log = ([], log)
  install_devices install (e ∷ es) log =
      let (r, log') = install e log in
      let (devices, log'') = install_devices install es log' in
      (if is_some r then entry_of e ∷ devices else devices, log'')

  abbrev pub always : {A : Type 0} → (Log → A × Log) → Call A
  always f log = (some (f log).0, (f log).1)

  unfoldable pub setup_site_vrf :
      Text → ℕ → Text → ℕ → ℕ → ℕ → TapIps → NatRecord → Call SiteVrfState
  setup_site_vrf peer_ip if_id inner_if fwd_table ret_table tap_idx tap_ips r =
      let vrf_str = show_nat if_id in
      let fwd_str = show_nat fwd_table in
      let ret_str = show_nat ret_table in
      let xfrm_if = xfrm_if_name if_id in
      do
        added ← tolerate (vppctl host (codes "ip" ∷ codes "table" ∷ codes "add" ∷ vrf_str ∷ []))
        vpp_tap ← create_tap host inner_if
        in_vrf ←
            vppctl host (
              codes "set" ∷ codes "interface" ∷ codes "ip" ∷ codes "table" ∷ vpp_tap ∷ vrf_str ∷ [])
        addressed ← vppctl host (
            codes "set"
            ∷ codes "interface"
            ∷ codes "ip"
            ∷ codes "address"
            ∷ vpp_tap
            ∷ tap_ips.vpp_prefix
            ∷ [])
        tap_up ←
            vppctl host
              (codes "set" ∷ codes "interface" ∷ codes "state" ∷ vpp_tap ∷ codes "up" ∷ [])
        kern_addressed ←
            ip host (codes "addr" ∷ codes "add" ∷ tap_ips.kern_prefix ∷ codes "dev" ∷ inner_if ∷ [])
        kern_up ← ip host (codes "link" ∷ codes "set" ∷ inner_if ∷ codes "up" ∷ [])
        nat44 ← vppctl host (
            codes "set"
            ∷ codes "interface"
            ∷ codes "nat44"
            ∷ codes "in"
            ∷ vpp_tap
            ∷ codes "out"
            ∷ outer_tap
            ∷ [])
        ifindex ← get_ifindex host read_file inner_if
        in_taps ← nft host (
            codes "add"
            ∷ codes "element"
            ∷ codes "ip"
            ∷ codes "ipsecnode"
            ∷ codes "vpp_taps"
            ∷ element (show_nat ifindex)
            ∷ [])
        in_marks ← nft host (
            codes "add"
            ∷ codes "element"
            ∷ codes "ip"
            ∷ codes "ipsecnode"
            ∷ codes "vpp_mark"
            ∷ map_element (show_nat ifindex) (show_nat if_id)
            ∷ [])
        fwd_rule ← ip host (
            codes "rule"
            ∷ codes "add"
            ∷ codes "iif"
            ∷ xfrm_if
            ∷ codes "prio"
            ∷ codes "100"
            ∷ codes "lookup"
            ∷ fwd_str
            ∷ [])
        fwd_route ← ip host (
            codes "route"
            ∷ codes "replace"
            ∷ codes "default"
            ∷ codes "via"
            ∷ tap_ips.vpp_ip
            ∷ codes "dev"
            ∷ inner_if
            ∷ codes "table"
            ∷ fwd_str
            ∷ [])
        ret_rule ← ip host (
            codes "rule"
            ∷ codes "add"
            ∷ codes "iif"
            ∷ inner_if
            ∷ codes "prio"
            ∷ codes "200"
            ∷ codes "lookup"
            ∷ ret_str
            ∷ [])
        ret_route ← ip host (
            codes "route"
            ∷ codes "replace"
            ∷ codes "default"
            ∷ codes "dev"
            ∷ xfrm_if
            ∷ codes "table"
            ∷ ret_str
            ∷ [])
        devices ← always (
            install_devices
              (λ e.
                install_device_nat host vrf_str e.internal_ip e.global_ip tap_ips.kern_ip vpp_tap)
              r.device_nat)
        undefaulted ← tolerate (
            vppctl host (
              codes "ip"
              ∷ codes "route"
              ∷ codes "del"
              ∷ codes "0.0.0.0/0"
              ∷ codes "table"
              ∷ vrf_str
              ∷ []))
        defaulted ← tolerate (
            vppctl host (
              codes "ip"
              ∷ codes "route"
              ∷ codes "add"
              ∷ codes "0.0.0.0/0"
              ∷ codes "table"
              ∷ vrf_str
              ∷ codes "via"
              ∷ codes "lookup"
              ∷ codes "in"
              ∷ codes "table"
              ∷ codes "0"
              ∷ []))
        bnat ← always (setup_bnat peer_ip if_id r.backend_nat)
        return (record {
          if_id = if_id;
          fwd_table = fwd_table;
          ret_table = ret_table;
          tap_idx = tap_idx;
          vpp_tap = vpp_tap;
          inner_if = inner_if;
          tap_vpp_ip = tap_ips.vpp_ip;
          tap_kern_prefix = tap_ips.kern_prefix;
          ifindex = ifindex;
          devices = devices;
          bnat = bnat;
          bypass = false;
          child_sa_count = 1;
        })

  abbrev pub delete_rule : Text → ℕ → Log → Log
  delete_rule chain handle log =
      nft_warn host
        (codes "delete"
          ∷ codes "rule"
          ∷ codes "ip"
          ∷ codes "ipsecnode_bnat"
          ∷ chain
          ∷ codes "handle"
          ∷ show_nat handle
          ∷ [])
        log

  abbrev pub delete_handle : Text → Option ℕ → Log → Log
  delete_handle chain none log = log
  delete_handle chain (some h) log = delete_rule chain h log

  abbrev pub delete_handles : List ℕ → Log → Log
  delete_handles [] log = log
  delete_handles (h ∷ hs) log = delete_handles hs (delete_rule (codes "postrouting") h log)

  abbrev pub delete_named : Text → Text → Log → Log
  delete_named kind name log =
      nft_warn host (codes "delete" ∷ kind ∷ codes "ip" ∷ codes "ipsecnode_bnat" ∷ name ∷ []) log

  abbrev pub delete_chain : Option Text → Log → Log
  delete_chain none log = log
  delete_chain (some chain) log = delete_named (codes "chain") chain log

  unfoldable pub teardown_site_bnat : SiteBnatState → Log → Log
  teardown_site_bnat b log =
      let snat_gone = delete_handles b.snat_handles log in
      let snat_map_gone =
        if is_empty b.snat_map_name
        then snat_gone
        else delete_named (codes "map") b.snat_map_name snat_gone in
      let rule_gone = delete_handle (codes "prerouting") b.rule_handle snat_map_gone in
      let helper_gone = delete_handle (codes "helperpre") b.helper_handle rule_gone in
      let jump_gone = delete_handle (codes "prerouting") b.split_jump_handle helper_gone in
      if is_empty b.map_name
      then log
      else delete_named (codes "map") b.map_name (delete_chain b.split_chain jump_gone)

  unfoldable remove_devices : Text → List DeviceVrfEntry → Log → Log
  remove_devices vrf_str [] log = log
  remove_devices vrf_str (d ∷ ds) log =
      remove_devices vrf_str ds (remove_device_nat host vrf_str d.internal_ip d.global_ip log)

  abbrev pub all_ip_warn : List (List Text) → Log → Log
  all_ip_warn [] log = log
  all_ip_warn (c ∷ cs) log = all_ip_warn cs (ip_warn host c log)

  abbrev unroute : Text → Text → Text → Text → List (List Text)
  unroute xfrm_if inner_if fwd_str ret_str =
      (codes "rule"
        ∷ codes "del"
        ∷ codes "iif"
        ∷ xfrm_if
        ∷ codes "prio"
        ∷ codes "100"
        ∷ codes "lookup"
        ∷ fwd_str
        ∷ [])
      ∷ (codes "rule"
          ∷ codes "del"
          ∷ codes "iif"
          ∷ inner_if
          ∷ codes "prio"
          ∷ codes "200"
          ∷ codes "lookup"
          ∷ ret_str
          ∷ [])
      ∷ (codes "route" ∷ codes "del" ∷ codes "default" ∷ codes "table" ∷ fwd_str ∷ [])
      ∷ (codes "route" ∷ codes "del" ∷ codes "default" ∷ codes "table" ∷ ret_str ∷ [])
      ∷ []

  abbrev unlink : Text → List (List Text)
  unlink inner_if =
      (codes "link" ∷ codes "set" ∷ inner_if ∷ codes "down" ∷ [])
      ∷ (codes "link" ∷ codes "del" ∷ inner_if ∷ [])
      ∷ []

  unfoldable pub teardown_site_vrf : SiteVrfState → Log → Log
  unfolding remove_devices
  teardown_site_vrf site log =
      let vrf_str = show_nat site.if_id in
      let unnatted = remove_devices vrf_str site.devices (teardown_site_bnat site.bnat log) in
      let unrouted =
        all_ip_warn
          (unroute (xfrm_if_name site.if_id) site.inner_if (show_nat site.fwd_table)
            (show_nat site.ret_table))
          unnatted in
      let no_tap =
        nft_warn host
          (codes "delete"
            ∷ codes "element"
            ∷ codes "ip"
            ∷ codes "ipsecnode"
            ∷ codes "vpp_taps"
            ∷ element (show_nat site.ifindex)
            ∷ [])
          unrouted in
      let unmarked =
        nft_warn host
          (codes "delete"
            ∷ codes "element"
            ∷ codes "ip"
            ∷ codes "ipsecnode"
            ∷ codes "vpp_mark"
            ∷ element (show_nat site.ifindex)
            ∷ [])
          no_tap in
      let tapless =
        delete_vpp_tap host site.vpp_tap (all_ip_warn (unlink site.inner_if) unmarked) in
      let undefaulted =
        vppctl_warn host
          (codes "ip"
            ∷ codes "route"
            ∷ codes "del"
            ∷ codes "0.0.0.0/0"
            ∷ codes "table"
            ∷ vrf_str
            ∷ codes "via"
            ∷ codes "lookup"
            ∷ codes "in"
            ∷ codes "table"
            ∷ codes "0"
            ∷ [])
          tapless in
      vppctl_warn host (codes "ip" ∷ codes "table" ∷ codes "del" ∷ vrf_str ∷ []) undefaulted

  unfoldable pub teardown_partial : Text → ℕ → ℕ → ℕ → Log → Log
  teardown_partial inner_if fwd_table ret_table if_id log =
      all_ip_warn
        (unroute (xfrm_if_name if_id) inner_if (show_nat fwd_table) (show_nat ret_table)
          ++ unlink inner_if)
        log

  -- The mode without translation: each address is routed into the tunnel.
  unfoldable pub setup_site_bypass : Text → ℕ → NatRecord → Call SiteVrfState
  setup_site_bypass peer_ip if_id r = do
    devices ← always (
        install_devices
          (λ e. ip host (
            codes "route"
            ∷ codes "replace"
            ∷ host_prefix e.global_ip
            ∷ codes "dev"
            ∷ xfrm_if_name if_id
            ∷ []))
          r.device_nat)
    bnat ← always (setup_bnat peer_ip if_id r.backend_nat)
    return (record {
      if_id = if_id;
      fwd_table = 0;
      ret_table = 0;
      tap_idx = 0;
      vpp_tap = [];
      inner_if = [];
      tap_vpp_ip = [];
      tap_kern_prefix = [];
      ifindex = 0;
      devices = devices;
      bnat = bnat;
      bypass = true;
      child_sa_count = 1;
    })

  abbrev blackholes : List Text → List (List Text)
  blackholes ips =
      map (λ g. codes "route" ∷ codes "replace" ∷ codes "blackhole" ∷ host_prefix g ∷ []) ips

  unfoldable pub teardown_site_bypass : SiteVrfState → Log → Log
  teardown_site_bypass site log =
      all_ip_warn (blackholes (map (λ d. d.global_ip) site.devices))
        (teardown_site_bnat site.bnat log)

  unfoldable pub teardown_site_bypass_routes : NatRecord → Log → Log
  teardown_site_bypass_routes r log =
      all_ip_warn (blackholes (map (λ e. e.global_ip) r.device_nat)) log
