-- ===== src/Node/Vrf/Bnat/Mirror.antt =====
-- ipsecnode/src/vpp.rs: the state that `setup_site_bnat` returns against the maps and the chain that
-- it has added and not tried to delete.
use fleetsuite.Node.Vrf.Bnat.Own.{
  servers_snat-own, split_rules-own, split_rules_named, map_own_adds, map_own_deletes,
}
use fleetsuite.Node.Vrf.Rules.{
  bnat_map_name, bnat_snat_map_name, bnat_split_chain, add_map, delete_named, add_rule, map_rule,
  rules_for, snat_pairs, access_view_of, name_if, empty_bnat, backend_pairs,
}
use fleetsuite.Common.{
  ℕ, ◌≡◌, refl, sym, ◌∙◌, true, false, not, Option, none, some, List, [], ◌∷◌, arith, is_some,
  is_empty,
}
use fleetsuite.Common.Text.{Text, codes, text_eq, texts_eq}
use fleetsuite.Node.Config.{BackendConfig}
use fleetsuite.Node.Host.{Command, Host, Log}
use fleetsuite.Node.Nat.{BackendNatRecord}
use fleetsuite.Node.Vrf.{SiteBnatState, xfrm_if_name}
use fleetsuite.Node.Vrf.Calls.{nft, nft_warn}
use fleetsuite.Node.Vrf.Bnat.{
  captured_handle, add_elements, servers_snat, access_snat, add_bnat_snat, add_bnat_ftp_helper,
  add_bnat_splits, with_elements, with_map, with_pairs, setup_site_bnat,
}
use fleetsuite.Node.Vrf.Bnat.Live.{
  Thing, Calm, map_thing, chain_thing, undeleted, undeleted-quiet, undeleted-deleted,
  undeleted-added, map-Calm, chain-Calm, captured_handle-undeleted, add_elements-undeleted,
  access_snat-undeleted, add_bnat_ftp_helper-undeleted, servers_snat-undeleted,
  split_rules-undeleted,
}

-- A site's maps and its chain.
abbrev pub own_map : ℕ → Thing
own_map if_id = map_thing (bnat_map_name if_id)

abbrev pub own_snat_map : ℕ → Thing
own_snat_map if_id = map_thing (bnat_snat_map_name if_id)

abbrev pub own_chain : ℕ → Thing
own_chain if_id = chain_thing (bnat_split_chain if_id)

-- The state names just the maps and the chain that were added with success and whose deletion was not
-- tried since.
pub record Mirrors (if_id : ℕ) (b : SiteBnatState) (log : Log) : Type 0 where
  pub map_undeleted : undeleted (own_map if_id) log ≡ not (is_empty b.map_name)
  pub snat_map_undeleted : undeleted (own_snat_map if_id) log ≡ not (is_empty b.snat_map_name)
  pub chain_undeleted : undeleted (own_chain if_id) log ≡ is_some b.split_chain
  pub map_named : is_empty b.map_name ≡ false → b.map_name ≡ bnat_map_name if_id
  pub snat_map_named : is_empty b.snat_map_name ≡ false → b.snat_map_name ≡ bnat_snat_map_name if_id
  pub chain_named : (chain : Text) → b.split_chain ≡ some chain → chain ≡ bnat_split_chain if_id
  pub vacant :
      is_empty b.map_name ≡ true → (is_empty b.snat_map_name ≡ true) × (b.split_chain ≡ none)

-- Each of the site's maps and chains, if it was ever added with success, had its deletion tried since.
pub record Deleted (if_id : ℕ) (log : Log) : Type 0 where
  pub no_map : undeleted (own_map if_id) log ≡ false
  pub no_snat_map : undeleted (own_snat_map if_id) log ≡ false
  pub no_chain : undeleted (own_chain if_id) log ≡ false

empty-Mirrors : (if_id : ℕ) (log : Log) → Deleted if_id log → Mirrors if_id empty_bnat log
unfolding empty_bnat
empty-Mirrors if_id log a = record {
  map_undeleted = a.no_map;
  snat_map_undeleted = a.no_snat_map;
  chain_undeleted = a.no_chain;
  map_named = λ e. absurd (ground (arith, e));
  snat_map_named = λ e. absurd (ground (arith, e));
  chain_named = λ chain e. absurd (ground (arith, e));
  vacant = λ e. (refl, refl);
}

module _ (host : Host) (if_id : ℕ) (rec : Option BackendNatRecord) (backend : BackendConfig) where
  -- After the elements, the map alone is added and not deleted.
  record Mapped (log : Log) : Type 0 where
    map_lem : undeleted (own_map if_id) log ≡ true
    snat_lem : undeleted (own_snat_map if_id) log ≡ false
    chain_lem : undeleted (own_chain if_id) log ≡ false

  nonempty_if : (o : Option ℕ) → not (is_empty (name_if o (bnat_snat_map_name if_id))) ≡ is_some o
  nonempty_if none = refl
  nonempty_if (some h) = refl

  named_if :
      (o : Option ℕ)
      → is_empty (name_if o (bnat_snat_map_name if_id)) ≡ false
      → name_if o (bnat_snat_map_name if_id) ≡ bnat_snat_map_name if_id
  named_if none e = absurd (ground (arith, e))
  named_if (some h) e = refl

  abbrev xfrm_if : Text
  xfrm_if = xfrm_if_name if_id

  abbrev splits : Log → (Option Text × Option ℕ) × Log
  splits log = add_bnat_splits host if_id xfrm_if rec backend log

  abbrev ruled : Log → Option ℕ × Log
  ruled log =
      captured_handle host (add_rule (codes "prerouting") (map_rule xfrm_if (bnat_map_name if_id)))
        log

  abbrev servers : Log → Option ℕ × Log
  servers log = servers_snat host xfrm_if (bnat_snat_map_name if_id) (snat_pairs backend rec) log

  -- The two calls after the map of the single servers.
  abbrev finished : Log → Log
  finished log =
      (add_bnat_ftp_helper host xfrm_if (access_view_of rec)
        (access_snat host xfrm_if (access_view_of rec) log).1).1

  finished-undeleted :
      (t : Thing) (log : Log) → Calm t → undeleted t (finished log) ≡ undeleted t log
  finished-undeleted t log calm =
      add_bnat_ftp_helper-undeleted host t calm xfrm_if (access_view_of rec)
        (access_snat host xfrm_if (access_view_of rec) log).1
      ∙ access_snat-undeleted host t calm xfrm_if (access_view_of rec) log

  ruled-undeleted : (t : Thing) (log : Log) → Calm t → undeleted t (ruled log).1 ≡ undeleted t log
  ruled-undeleted t log calm =
      captured_handle-undeleted host t calm (codes "prerouting")
        (map_rule xfrm_if (bnat_map_name if_id)) log

  -- A map is not touched by the splits.
  splits-undeleted :
      (name : Text) (log : Log)
      → undeleted (map_thing name) (splits log).1 ≡ undeleted (map_thing name) log
  unfolding add_bnat_splits texts_eq text_eq
  splits-undeleted name log =
      split_rules-undeleted host (map_thing name) (map-Calm name) xfrm_if (bnat_split_chain if_id)
        (rules_for (bnat_split_chain if_id) (access_view_of rec) backend.access_server) log
        (λ rules. (refl, refl)) (refl, refl)

  splits-own :
      (log : Log)
      → undeleted (own_chain if_id) log ≡ false
      → undeleted (own_chain if_id) (splits log).1 ≡ is_some (splits log).0.0
  unfolding add_bnat_splits
  splits-own log l =
      split_rules-own host xfrm_if (bnat_split_chain if_id)
        (rules_for (bnat_split_chain if_id) (access_view_of rec) backend.access_server) log l

  splits_named :
      (log : Log) (chain : Text) → (splits log).0.0 ≡ some chain → chain ≡ bnat_split_chain if_id
  unfolding add_bnat_splits
  splits_named log chain e =
      split_rules_named host xfrm_if (bnat_split_chain if_id)
        (rules_for (bnat_split_chain if_id) (access_view_of rec) backend.access_server) log chain e

  servers-live_map :
      (log : Log) → undeleted (own_map if_id) (servers log).1 ≡ undeleted (own_map if_id) log
  unfolding texts_eq text_eq
  servers-live_map log =
      servers_snat-undeleted host (own_map if_id) (map-Calm (bnat_map_name if_id)) xfrm_if
        (bnat_snat_map_name if_id) (snat_pairs backend rec) log (refl, refl) (refl, refl)

  servers-live_chain :
      (log : Log) → undeleted (own_chain if_id) (servers log).1 ≡ undeleted (own_chain if_id) log
  unfolding texts_eq text_eq
  servers-live_chain log =
      servers_snat-undeleted host (own_chain if_id) (chain-Calm (bnat_split_chain if_id)) xfrm_if
        (bnat_snat_map_name if_id) (snat_pairs backend rec) log (refl, refl) (refl, refl)

  with_elements-Mirrors :
      (r : List Text × Log)
      → Mapped r.1
      → Mirrors if_id
          (with_elements host if_id rec backend r).0
          (with_elements host if_id rec backend r).1
  unfolding with_elements nft_warn nft texts_eq text_eq add_bnat_snat
  with_elements-Mirrors ([], log) m =
      let c = Command.nft (delete_named (codes "map") (bnat_map_name if_id)) in
      empty-Mirrors if_id ((c, host log c) ∷ log) (record {
        no_map =
            undeleted-deleted (own_map if_id) c (host log c) log refl
              (map_own_deletes (bnat_map_name if_id));
        no_snat_map =
            undeleted-quiet (own_snat_map if_id) c (host log c) log (refl, refl) ∙ m.snat_lem;
        no_chain = undeleted-quiet (own_chain if_id) c (host log c) log (refl, refl) ∙ m.chain_lem;
      })
  with_elements-Mirrors (v ∷ vs, log) m =
      let before = (ruled (splits log).1).1 in
      record {
        map_undeleted =
            finished-undeleted (own_map if_id) (servers before).1 (map-Calm (bnat_map_name if_id))
            ∙ servers-live_map before
            ∙ ruled-undeleted (own_map if_id) (splits log).1 (map-Calm (bnat_map_name if_id))
            ∙ splits-undeleted (bnat_map_name if_id) log
            ∙ m.map_lem;
        snat_map_undeleted =
            finished-undeleted (own_snat_map if_id) (servers before).1
              (map-Calm (bnat_snat_map_name if_id))
            ∙ servers_snat-own host xfrm_if (bnat_snat_map_name if_id) (snat_pairs backend rec)
                before
                (ruled-undeleted (own_snat_map if_id) (splits log).1
                    (map-Calm (bnat_snat_map_name if_id))
                  ∙ splits-undeleted (bnat_snat_map_name if_id) log
                  ∙ m.snat_lem)
            ∙ sym (nonempty_if (servers before).0);
        chain_undeleted =
            finished-undeleted (own_chain if_id) (servers before).1
              (chain-Calm (bnat_split_chain if_id))
            ∙ servers-live_chain before
            ∙ ruled-undeleted (own_chain if_id) (splits log).1 (chain-Calm (bnat_split_chain if_id))
            ∙ splits-own log m.chain_lem;
        map_named = λ e. refl;
        snat_map_named = named_if (servers before).0;
        chain_named = splits_named log;
        vacant = λ e. absurd (ground (arith, e));
      }

  with_map-Mirrors :
      (ps : List (Text × Text)) (r : Option Text × Log)
      → undeleted (own_map if_id) r.1 ≡ is_some r.0
      → undeleted (own_snat_map if_id) r.1 ≡ false
      → undeleted (own_chain if_id) r.1 ≡ false
      → Mirrors if_id
          (with_map host if_id rec backend ps r).0
          (with_map host if_id rec backend ps r).1
  unfolding with_map
  with_map-Mirrors ps (none, log) m s c =
      empty-Mirrors if_id log (record { no_map = m; no_snat_map = s; no_chain = c })
  with_map-Mirrors ps (some out, log) m s c =
      with_elements-Mirrors (add_elements host (bnat_map_name if_id) ps log) (record {
        map_lem =
            add_elements-undeleted host (own_map if_id) (map-Calm (bnat_map_name if_id))
              (bnat_map_name if_id) ps log
            ∙ m;
        snat_lem =
            add_elements-undeleted host (own_snat_map if_id) (map-Calm (bnat_snat_map_name if_id))
              (bnat_map_name if_id) ps log
            ∙ s;
        chain_lem =
            add_elements-undeleted host (own_chain if_id) (chain-Calm (bnat_split_chain if_id))
              (bnat_map_name if_id) ps log
            ∙ c;
      })

  with_pairs-Mirrors :
      (ps : List (Text × Text)) (log : Log)
      → Deleted if_id log
      → Mirrors if_id
          (with_pairs host if_id rec backend ps log).0
          (with_pairs host if_id rec backend ps log).1
  unfolding with_pairs nft texts_eq text_eq
  with_pairs-Mirrors [] log a = empty-Mirrors if_id log a
  with_pairs-Mirrors (p ∷ ps) log a =
      let c = Command.nft (add_map (bnat_map_name if_id)) in
      with_map-Mirrors (p ∷ ps) (nft host (add_map (bnat_map_name if_id)) log)
        (undeleted-added host (own_map if_id) c (host log c) log
          (map_own_adds (bnat_map_name if_id)) refl a.no_map)
        (undeleted-quiet (own_snat_map if_id) c (host log c) log (refl, refl) ∙ a.no_snat_map)
        (undeleted-quiet (own_chain if_id) c (host log c) log (refl, refl) ∙ a.no_chain)

  -- Where each of the site's maps and chains that was added before had its deletion tried, its set-up
  -- ends with a state that names just those that it added with success and has not tried to delete
  -- since, whatever the commands answer: all that its rollbacks did not try to take back.
  pub setup_site_bnat-Mirrors :
      (log : Log)
      → Deleted if_id log
      → Mirrors if_id
          (setup_site_bnat host if_id rec backend log).0
          (setup_site_bnat host if_id rec backend log).1
  unfolding setup_site_bnat
  setup_site_bnat-Mirrors log a = with_pairs-Mirrors (backend_pairs backend rec) log a
