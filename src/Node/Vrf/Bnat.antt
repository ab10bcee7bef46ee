-- ===== src/Node/Vrf/Bnat.antt =====
-- ipsecnode/src/vpp.rs: the translations between the backend's servers and the addresses that a
-- customer sees them at (`setup_site_bnat`).
pub mod Live
pub mod Own
pub mod Mirror
pub mod Torn
pub mod Lines
pub mod Cleared
mod Tests
use fleetsuite.Common.{
  ℕ, zero, suc, ◌+◌, ◌-◌, ◌*◌, ◌/◌, ◌%◌, ◌^◌, ◌≤◌, ◌<◌, ◌≡◌, refl, sym, ap, ap₂, subst, ◌∙◌, ◌≢◌,
  ◌↔◌, ◌⊎◌, inl, inr, Bool, true, false, not, ◌&&◌, ◌||◌, Option, none, some, List, [], ◌∷◌, ◌++◌,
  map, arith, ltb, leb, ◌==◌, if◌then◌else◌, ==_iff, Bool-cases, Option-cases, is_some, unwrap_or,
  map_option, and_then, length, get_elem?, any, all, find, filter, is_empty, All, length-append,
  filter_map, cons_some, flat_map, All-append, All-intro, All-mono, All-filter_map, All-flat_map,
}
use fleetsuite.Common.Text.{
  Text, codes, text_eq, show_nat, show_hex8, trim, split_whitespace, parse_uint, join,
  tail_after_last,
}
use fleetsuite.Node.Config.{BackendConfig, ServerConfig, SplitRule, real_ip_for}
use fleetsuite.Node.Host.{Host, Log}
use fleetsuite.Node.Nat.{BackendNatRecord, present_roles}
use fleetsuite.Node.Vrf.{SiteBnatState, xfrm_if_name}
use fleetsuite.Node.Vrf.Calls.{nft, nft_warn, nft_batch}
use fleetsuite.Node.Vrf.Rules.{
  bnat_table, bnat_map_name, bnat_snat_map_name, bnat_split_chain, pool_chain, empty_bnat,
  parse_nft_handle, port_match, target_of, split_line, split_rule, concat_texts, splits_batch,
  access_view_of, pairs_of_roles, backend_pairs, snat_pairs_of_roles, snat_pairs, add_map,
  add_element, delete_named, add_rule, snat_rule, access_rule, name_if, helper_rule, rules_for,
  map_rule, jump_rule,
}

module _ (host : Host) where
  -- A rule that is added, with the handle that `nft` prints; `none` where either fails.
  unfoldable pub captured_handle : List Text → Log → Option ℕ × Log
  captured_handle args log =
      (and_then (nft host args log).0 parse_nft_handle, (nft host args log).1)

  -- The first of each pair whose element is added.
  unfoldable pub add_elements : Text → List (Text × Text) → Log → List Text × Log
  add_elements name [] log = ([], log)
  add_elements name (p ∷ ps) log =
      let added = nft host (add_element name p) log in
      let rest = add_elements name ps added.1 in
      (if is_some added.0 then p.0 ∷ rest.0 else rest.0, rest.1)

  abbrev pub snat_ruled : Text → Option ℕ × Log → Option ℕ × Log
  snat_ruled name (none, log) = (none, nft_warn host (delete_named (codes "map") name) log)
  snat_ruled name (some h, log) = (some h, log)

  abbrev pub snat_created : Text → Text → List (Text × Text) → Option Text × Log → Option ℕ × Log
  snat_created xfrm_if name ps (none, log) = (none, log)
  snat_created xfrm_if name ps (some out, log) = snat_ruled name (
      captured_handle (add_rule (codes "postrouting") (snat_rule xfrm_if name))
        (add_elements name ps log).1)

  -- The map of the single servers, with its rule's handle.
  unfoldable pub servers_snat : Text → Text → List (Text × Text) → Log → Option ℕ × Log
  servers_snat xfrm_if name [] log = (none, log)
  servers_snat xfrm_if name (p ∷ ps) log =
      snat_created xfrm_if name (p ∷ ps) (nft host (add_map name) log)

  unfoldable pub access_snat : Text → Option Text → Log → Option ℕ × Log
  access_snat xfrm_if none log = (none, log)
  access_snat xfrm_if (some view) log =
      captured_handle (add_rule (codes "postrouting") (access_rule xfrm_if view)) log

  unfoldable pub add_bnat_snat :
      ℕ → Text → Option BackendNatRecord → BackendConfig → Log → (Text × List ℕ) × Log
  add_bnat_snat if_id xfrm_if rec backend log =
      let servers = servers_snat xfrm_if (bnat_snat_map_name if_id) (snat_pairs backend rec) log in
      let access = access_snat xfrm_if (access_view_of rec) servers.1 in
      (
        (name_if servers.0 (bnat_snat_map_name if_id), cons_some servers.0 (cons_some access.0 [])),
        access.1,
      )

  unfoldable pub add_bnat_ftp_helper : Text → Option Text → Log → Option ℕ × Log
  add_bnat_ftp_helper xfrm_if none log = (none, log)
  add_bnat_ftp_helper xfrm_if (some view) log =
      captured_handle (add_rule (codes "helperpre") (helper_rule xfrm_if view)) log

  abbrev pub jumped : Text → Option ℕ × Log → (Option Text × Option ℕ) × Log
  jumped chain (none, log) = ((none, none), nft_warn host (delete_named (codes "chain") chain) log)
  jumped chain (some h, log) = ((some chain, some h), log)

  abbrev pub split_created : Text → Text → Option Text × Log → (Option Text × Option ℕ) × Log
  split_created xfrm_if chain (none, log) = ((none, none), log)
  split_created xfrm_if chain (some out, log) =
      jumped chain (captured_handle (add_rule (codes "prerouting") (jump_rule xfrm_if chain)) log)

  unfoldable pub split_rules : Text → Text → List Text → Log → (Option Text × Option ℕ) × Log
  split_rules xfrm_if chain [] log = ((none, none), log)
  split_rules xfrm_if chain (rule ∷ rules) log =
      split_created xfrm_if chain (nft_batch host (splits_batch chain (rule ∷ rules)) log)

  unfoldable pub add_bnat_splits :
      ℕ → Text → Option BackendNatRecord → BackendConfig → Log → (Option Text × Option ℕ) × Log
  add_bnat_splits if_id xfrm_if rec backend log =
      split_rules xfrm_if (bnat_split_chain if_id)
        (rules_for (bnat_split_chain if_id) (access_view_of rec) backend.access_server) log

  module _ (if_id : ℕ) (rec : Option BackendNatRecord) (backend : BackendConfig) where
    -- The rules, once some elements are in the map.
    unfoldable pub with_elements : List Text × Log → SiteBnatState × Log
    with_elements ([], log) =
        (empty_bnat, nft_warn host (delete_named (codes "map") (bnat_map_name if_id)) log)
    with_elements (v ∷ vs, log) =
        let xfrm_if = xfrm_if_name if_id in
        let splits = add_bnat_splits if_id xfrm_if rec backend log in
        let ruled =
          captured_handle (add_rule (codes "prerouting") (map_rule xfrm_if (bnat_map_name if_id)))
            splits.1 in
        let snat = add_bnat_snat if_id xfrm_if rec backend ruled.1 in
        let helper = add_bnat_ftp_helper xfrm_if (access_view_of rec) snat.1 in
        (
          record {
            map_name = bnat_map_name if_id;
            rule_handle = ruled.0;
            snat_map_name = snat.0.0;
            snat_handles = snat.0.1;
            split_chain = splits.0.0;
            split_jump_handle = splits.0.1;
            helper_handle = helper.0;
            customer_view_ips = v ∷ vs;
          },
          helper.1,
        )

    unfoldable pub with_map : List (Text × Text) → Option Text × Log → SiteBnatState × Log
    with_map ps (none, log) = (empty_bnat, log)
    with_map ps (some out, log) = with_elements (add_elements (bnat_map_name if_id) ps log)

    unfoldable pub with_pairs : List (Text × Text) → Log → SiteBnatState × Log
    with_pairs [] log = (empty_bnat, log)
    with_pairs (p ∷ ps) log = with_map (p ∷ ps) (nft host (add_map (bnat_map_name if_id)) log)

    unfoldable pub setup_site_bnat : Log → SiteBnatState × Log
    setup_site_bnat log = with_pairs (backend_pairs backend rec) log
