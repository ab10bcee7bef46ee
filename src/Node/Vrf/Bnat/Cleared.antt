-- ===== src/Node/Vrf/Bnat/Cleared.antt =====
-- ipsecnode/src/vpp.rs: what the site's teardown deletes of the maps and the chain
-- (`teardown_site_bnat`).
use fleetsuite.Node.Vrf.Bnat.Own.{map_own_deletes, chain_own_deletes}
use fleetsuite.Node.Vrf.Rules.{bnat_map_name, bnat_snat_map_name, bnat_split_chain, delete_named}
use fleetsuite.Common.{
  ℕ, ◌≡◌, refl, sym, ap, subst, ◌∙◌, inl, inr, true, false, not, Option, none, some, List, [], ◌∷◌,
  if◌then◌else◌, Bool-cases, is_some, is_empty,
}
use fleetsuite.Common.Text.{Text, codes, text_eq, texts_eq, show_nat}
use fleetsuite.Node.Host.{Command, Log}
use fleetsuite.Node.Vrf.{SiteBnatState}
use fleetsuite.Node.Vrf.Calls.{nft, nft_warn}
use fleetsuite.Node.Vrf.Sites.{
  Env, teardown_site_bnat, delete_handles, delete_handle, delete_rule, delete_chain,
}
use fleetsuite.Node.Vrf.Sites as Sites
use fleetsuite.Node.Vrf.Bnat.Live.{
  Thing, Quiet, map_thing, chain_thing, undeleted, undeleted-quiet, undeleted-deleted,
}
use fleetsuite.Node.Vrf.Bnat.Mirror.{own_snat_map, own_chain, Mirrors, Deleted}
use fleetsuite.Node.Vrf.Bnat.Torn.{Torn, teardown_site_bnat-Torn}

module _ (env : Env) (if_id : ℕ) where
  -- Deleting a rule touches no map and no chain.
  record Indifferent (t : Thing) : Type 0 where
    rules_lem :
        (chain : Text) (handle : ℕ)
        → Quiet t (
            Command.nft (
              codes "delete"
              ∷ codes "rule"
              ∷ codes "ip"
              ∷ codes "ipsecnode_bnat"
              ∷ chain
              ∷ codes "handle"
              ∷ show_nat handle
              ∷ []))

  map-Indifferent : (name : Text) → Indifferent (map_thing name)
  unfolding texts_eq text_eq
  map-Indifferent name = record { rules_lem = λ chain h. (refl, refl) }

  chain-Indifferent : (name : Text) → Indifferent (chain_thing name)
  unfolding texts_eq text_eq
  chain-Indifferent name = record { rules_lem = λ chain h. (refl, refl) }

  delete_rule-undeleted :
      (t : Thing) (i : Indifferent t) (chain : Text) (h : ℕ) (log : Log)
      → undeleted t (delete_rule env chain h log) ≡ undeleted t log
  unfolding nft_warn nft
  delete_rule-undeleted t i chain h log =
      let c = Command.nft (
        codes "delete"
        ∷ codes "rule"
        ∷ codes "ip"
        ∷ codes "ipsecnode_bnat"
        ∷ chain
        ∷ codes "handle"
        ∷ show_nat h
        ∷ []) in
      undeleted-quiet t c (env.host log c) log (i.rules_lem chain h)

  delete_handles-undeleted :
      (t : Thing) (i : Indifferent t) (hs : List ℕ) (log : Log)
      → undeleted t (delete_handles env hs log) ≡ undeleted t log
  delete_handles-undeleted t i [] log = refl
  delete_handles-undeleted t i (h ∷ hs) log =
      delete_handles-undeleted t i hs (delete_rule env (codes "postrouting") h log)
      ∙ delete_rule-undeleted t i (codes "postrouting") h log

  delete_handle-undeleted :
      (t : Thing) (i : Indifferent t) (chain : Text) (o : Option ℕ) (log : Log)
      → undeleted t (delete_handle env chain o log) ≡ undeleted t log
  delete_handle-undeleted t i chain none log = refl
  delete_handle-undeleted t i chain (some h) log = delete_rule-undeleted t i chain h log

  named-undeleted :
      (t : Thing) (kind name : Text) (log : Log)
      → Quiet t (Command.nft (delete_named kind name))
      → undeleted t (Sites.delete_named env kind name log) ≡ undeleted t log
  unfolding nft_warn nft
  named-undeleted t kind name log q =
      undeleted-quiet t (Command.nft (delete_named kind name))
        (env.host log (Command.nft (delete_named kind name))) log q

  named-dead :
      (t : Thing) (kind name : Text) (log : Log)
      → t.adds (Command.nft (delete_named kind name)) ≡ false
      → t.deletes (Command.nft (delete_named kind name)) ≡ true
      → undeleted t (Sites.delete_named env kind name log) ≡ false
  unfolding nft_warn nft
  named-dead t kind name log a d =
      undeleted-deleted t (Command.nft (delete_named kind name))
        (env.host log (Command.nft (delete_named kind name))) log a d

  own_map-dead :
      (name : Text) (log : Log) (own : Text)
      → name ≡ own
      → undeleted (map_thing own) (Sites.delete_named env (codes "map") name log) ≡ false
  unfolding texts_eq text_eq
  own_map-dead name log own e =
      subst (λ n. undeleted (map_thing own) (Sites.delete_named env (codes "map") n log) ≡ false)
        (sym e) (named-dead (map_thing own) (codes "map") own log refl (map_own_deletes own))

  other_map :
      (name : Text) (log : Log)
      → name ≡ bnat_map_name if_id
      → undeleted (own_snat_map if_id) (Sites.delete_named env (codes "map") name log)
        ≡ undeleted (own_snat_map if_id) log
  unfolding texts_eq text_eq
  other_map name log e =
      subst
        (λ n.
          undeleted (own_snat_map if_id) (Sites.delete_named env (codes "map") n log)
          ≡ undeleted (own_snat_map if_id) log)
        (sym e)
        (named-undeleted (own_snat_map if_id) (codes "map") (bnat_map_name if_id) log (refl, refl))

  map-undeleted :
      (name : Text) (log : Log)
      → undeleted (own_chain if_id) (Sites.delete_named env (codes "map") name log)
        ≡ undeleted (own_chain if_id) log
  unfolding texts_eq text_eq
  map-undeleted name log = named-undeleted (own_chain if_id) (codes "map") name log (refl, refl)

  delete_chain-undeleted :
      (name : Text) (o : Option Text) (log : Log)
      → undeleted (map_thing name) (delete_chain env o log) ≡ undeleted (map_thing name) log
  unfolding texts_eq text_eq
  delete_chain-undeleted name none log = refl
  delete_chain-undeleted name (some c) log =
      named-undeleted (map_thing name) (codes "chain") c log (refl, refl)

  delete_chain-dead :
      (own : Text) (o : Option Text) (log : Log)
      → undeleted (chain_thing own) log ≡ is_some o
      → ((c : Text) → o ≡ some c → c ≡ own)
      → undeleted (chain_thing own) (delete_chain env o log) ≡ false
  unfolding texts_eq text_eq
  delete_chain-dead own none log l n = l
  delete_chain-dead own (some c) log l n =
      subst
        (λ k. undeleted (chain_thing own) (Sites.delete_named env (codes "chain") k log) ≡ false)
        (sym (n c refl))
        (named-dead (chain_thing own) (codes "chain") own log refl (chain_own_deletes own))

  -- The parts of the teardown, in their order.
  module _ (b : SiteBnatState) where
    abbrev snat_gone : Log → Log
    snat_gone log =
        if is_empty b.snat_map_name
        then delete_handles env b.snat_handles log
        else Sites.delete_named env (codes "map") b.snat_map_name
            (delete_handles env b.snat_handles log)

    abbrev handles_gone : Log → Log
    handles_gone log = delete_handle env (codes "prerouting") b.split_jump_handle (
        delete_handle env (codes "helperpre") b.helper_handle
          (delete_handle env (codes "prerouting") b.rule_handle log))

    handles_gone-undeleted :
        (t : Thing) (i : Indifferent t) (log : Log)
        → undeleted t (handles_gone log) ≡ undeleted t log
    handles_gone-undeleted t i log =
        let first = delete_handle env (codes "prerouting") b.rule_handle log in
        delete_handle-undeleted t i (codes "prerouting") b.split_jump_handle
          (delete_handle env (codes "helperpre") b.helper_handle first)
        ∙ delete_handle-undeleted t i (codes "helperpre") b.helper_handle first
        ∙ delete_handle-undeleted t i (codes "prerouting") b.rule_handle log

    snat_gone-undeleted :
        (log : Log) → undeleted (own_chain if_id) (snat_gone log) ≡ undeleted (own_chain if_id) log
    unfolding texts_eq text_eq
    snat_gone-undeleted log = elim (Bool-cases (is_empty b.snat_map_name)) [
      | inl e ↦ rw e (
          delete_handles-undeleted (own_chain if_id) (chain-Indifferent (bnat_split_chain if_id))
            b.snat_handles log)
      | inr e ↦ rw e (
          named-undeleted (own_chain if_id) (codes "map") b.snat_map_name
            (delete_handles env b.snat_handles log) (refl, refl)
          ∙ delete_handles-undeleted (own_chain if_id) (chain-Indifferent (bnat_split_chain if_id))
              b.snat_handles log)
    ]

    snat_gone-dead :
        (log : Log)
        → undeleted (own_snat_map if_id) log ≡ not (is_empty b.snat_map_name)
        → (is_empty b.snat_map_name ≡ false → b.snat_map_name ≡ bnat_snat_map_name if_id)
        → undeleted (own_snat_map if_id) (snat_gone log) ≡ false
    snat_gone-dead log l n = elim (Bool-cases (is_empty b.snat_map_name)) [
      | inl e ↦ rw e (
          delete_handles-undeleted (own_snat_map if_id) (map-Indifferent (bnat_snat_map_name if_id))
            b.snat_handles log
          ∙ l
          ∙ ap not e)
      | inr e ↦ rw e (
          own_map-dead b.snat_map_name (delete_handles env b.snat_handles log)
            (bnat_snat_map_name if_id) (n e))
    ]

  teardown-Deleted :
      (b : SiteBnatState) (log : Log)
      → Mirrors if_id b log
      → Deleted if_id (teardown_site_bnat env b log)
  unfolding teardown_site_bnat
  teardown-Deleted b log m = elim (Bool-cases (is_empty b.map_name)) [
    | inl e ↦ rw e (record {
      no_map = m.map_undeleted ∙ ap not e;
      no_snat_map = m.snat_map_undeleted ∙ ap not (m.vacant e).0;
      no_chain = m.chain_undeleted ∙ ap is_some (m.vacant e).1;
    })
    | inr e ↦ rw e (full e)
  ]
    where
      full :
          is_empty b.map_name ≡ false
          → Deleted if_id (
              Sites.delete_named env
                (codes "map")
                b.map_name
                (delete_chain env b.split_chain (handles_gone b (snat_gone b log))))
      full e =
          let before = handles_gone b (snat_gone b log) in
          record {
            no_map =
                own_map-dead b.map_name (delete_chain env b.split_chain before)
                  (bnat_map_name if_id) (m.map_named e);
            no_snat_map =
                other_map b.map_name (delete_chain env b.split_chain before) (m.map_named e)
                ∙ delete_chain-undeleted (bnat_snat_map_name if_id) b.split_chain before
                ∙ handles_gone-undeleted b (own_snat_map if_id)
                    (map-Indifferent (bnat_snat_map_name if_id)) (snat_gone b log)
                ∙ snat_gone-dead b log m.snat_map_undeleted m.snat_map_named;
            no_chain =
                map-undeleted b.map_name (delete_chain env b.split_chain before)
                ∙ delete_chain-dead (bnat_split_chain if_id) b.split_chain before
                    (handles_gone-undeleted b (own_chain if_id)
                        (chain-Indifferent (bnat_split_chain if_id)) (snat_gone b log)
                      ∙ snat_gone-undeleted b log
                      ∙ m.chain_undeleted)
                    m.chain_named;
          }

  -- Where a site's state names just the maps and the chain that were added with success and whose
  -- deletion was not tried since, its teardown tries to delete each of them; and where it names a map,
  -- the teardown first tries to delete every rule of the state, so that no rule that it knows refers to
  -- a map or to the chain when that one is deleted, if those deletions succeed.
  pub teardown_site_bnat-Deleted :
      (b : SiteBnatState) (log : Log)
      → Mirrors if_id b log
      → Deleted if_id (teardown_site_bnat env b log)
        × (is_empty b.map_name ≡ false → Torn b (teardown_site_bnat env b log))
  teardown_site_bnat-Deleted b log m =
      (teardown-Deleted b log m, λ e. teardown_site_bnat-Torn env b log e)
