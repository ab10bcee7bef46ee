-- ===== src/Node/Vrf/Bnat/Own.antt =====
-- ipsecnode/src/vpp.rs: what the calls of `setup_site_bnat` that add a map or a chain leave of it.
use fleetsuite.Node.Vrf.Rules.{
  add_map, delete_named, add_rule, splits_batch, concat_texts, snat_rule, jump_rule,
}
use fleetsuite.Common.{
  sym, arith, ℕ, ◌≡◌, refl, subst, ◌∙◌, true, false, Option, none, some, List, [], ◌∷◌, ◌++◌,
  is_some,
}
use mathlib.Core.List.{append_assoc}
use fleetsuite.Common.Text.{
  Text, codes, text_eq, texts_eq, starts_with, text_eq_refl, starts_with-append,
}
use fleetsuite.Node.Host.{Command, Host, Log}
use fleetsuite.Node.Vrf.Calls.{nft, nft_warn, nft_batch}
use fleetsuite.Node.Vrf.Bnat.{
  captured_handle, add_elements, servers_snat, snat_ruled, snat_created, jumped, split_created,
  split_rules,
}
use fleetsuite.Node.Vrf.Bnat.Live.{
  Thing, map_thing, chain_thing, undeleted, undeleted-deleted, undeleted-added, Calm, map-Calm,
  chain-Calm, captured_handle-undeleted, add_elements-undeleted,
}

module _ (host : Host) (t : Thing) (calm : Calm t) where
  -- What a call that adds the thing leaves, where it is added by the first command and deleted by the
  -- one that undoes it.
  snat_ruled-own :
      (name : Text) (r : Option ℕ × Log)
      → t.adds (Command.nft (delete_named (codes "map") name)) ≡ false
      → t.deletes (Command.nft (delete_named (codes "map") name)) ≡ true
      → undeleted t r.1 ≡ true
      → undeleted t (snat_ruled host name r).1 ≡ is_some (snat_ruled host name r).0
  unfolding nft_warn nft
  snat_ruled-own name (none, log) a d l =
      undeleted-deleted t (Command.nft (delete_named (codes "map") name))
        (host log (Command.nft (delete_named (codes "map") name))) log a d
  snat_ruled-own name (some h, log) a d l = l

  snat_created-own :
      (xfrm_if name : Text) (ps : List (Text × Text)) (r : Option Text × Log)
      → t.adds (Command.nft (delete_named (codes "map") name)) ≡ false
      → t.deletes (Command.nft (delete_named (codes "map") name)) ≡ true
      → undeleted t r.1 ≡ is_some r.0
      → undeleted t (snat_created host xfrm_if name ps r).1
        ≡ is_some (snat_created host xfrm_if name ps r).0
  snat_created-own xfrm_if name ps (none, log) a d l = l
  snat_created-own xfrm_if name ps (some out, log) a d l =
      snat_ruled-own name
        (captured_handle host (add_rule (codes "postrouting") (snat_rule xfrm_if name))
          (add_elements host name ps log).1)
        a d
        (captured_handle-undeleted host t calm (codes "postrouting") (snat_rule xfrm_if name)
            (add_elements host name ps log).1
          ∙ add_elements-undeleted host t calm name ps log
          ∙ l)

  jumped-own :
      (chain : Text) (r : Option ℕ × Log)
      → t.adds (Command.nft (delete_named (codes "chain") chain)) ≡ false
      → t.deletes (Command.nft (delete_named (codes "chain") chain)) ≡ true
      → undeleted t r.1 ≡ true
      → undeleted t (jumped host chain r).1 ≡ is_some (jumped host chain r).0.0
  unfolding nft_warn nft
  jumped-own chain (none, log) a d l =
      undeleted-deleted t (Command.nft (delete_named (codes "chain") chain))
        (host log (Command.nft (delete_named (codes "chain") chain))) log a d
  jumped-own chain (some h, log) a d l = l

  split_created-own :
      (xfrm_if chain : Text) (r : Option Text × Log)
      → t.adds (Command.nft (delete_named (codes "chain") chain)) ≡ false
      → t.deletes (Command.nft (delete_named (codes "chain") chain)) ≡ true
      → undeleted t r.1 ≡ is_some r.0
      → undeleted t (split_created host xfrm_if chain r).1
        ≡ is_some (split_created host xfrm_if chain r).0.0
  split_created-own xfrm_if chain (none, log) a d l = l
  split_created-own xfrm_if chain (some out, log) a d l =
      jumped-own chain
        (captured_handle host (add_rule (codes "prerouting") (jump_rule xfrm_if chain)) log) a d
        (captured_handle-undeleted host t calm (codes "prerouting") (jump_rule xfrm_if chain) log
          ∙ l)

pub map_own_adds : (name : Text) → (map_thing name).adds (Command.nft (add_map name)) ≡ true
unfolding texts_eq text_eq
map_own_adds name = rw (text_eq_refl name) refl

pub map_own_deletes :
    (name : Text) → (map_thing name).deletes (Command.nft (delete_named (codes "map") name)) ≡ true
unfolding texts_eq text_eq
map_own_deletes name = rw (text_eq_refl name) refl

pub chain_own_deletes :
    (name : Text)
    → (chain_thing name).deletes (Command.nft (delete_named (codes "chain") name)) ≡ true
unfolding texts_eq text_eq
chain_own_deletes name = rw (text_eq_refl name) refl

chain_own_adds :
    (name : Text) (rules : List Text)
    → (chain_thing name).adds (Command.nft_batch (splits_batch name rules)) ≡ true
unfolding starts_with
chain_own_adds name rules =
    subst
      (λ t.
        starts_with (codes "add chain ip ipsecnode_bnat " ++ (name ++ codes "\n"))
          (codes "add chain ip ipsecnode_bnat " ++ t)
        ≡ true)
      (append_assoc name (codes "\n") (concat_texts rules))
      (starts_with-append (codes "add chain ip ipsecnode_bnat " ++ (name ++ codes "\n"))
        (concat_texts rules))

module _ (host : Host) where
  pub servers_snat-own :
      (xfrm_if name : Text) (ps : List (Text × Text)) (log : Log)
      → undeleted (map_thing name) log ≡ false
      → undeleted (map_thing name) (servers_snat host xfrm_if name ps log).1
        ≡ is_some (servers_snat host xfrm_if name ps log).0
  unfolding servers_snat nft texts_eq text_eq
  servers_snat-own xfrm_if name [] log l = l
  servers_snat-own xfrm_if name (p ∷ ps) log l =
      snat_created-own host (map_thing name) (map-Calm name) xfrm_if name (p ∷ ps)
        (nft host (add_map name) log) refl (map_own_deletes name)
        (undeleted-added host (map_thing name) (Command.nft (add_map name))
          (host log (Command.nft (add_map name))) log (map_own_adds name) refl l)

  pub split_rules-own :
      (xfrm_if chain : Text) (rules : List Text) (log : Log)
      → undeleted (chain_thing chain) log ≡ false
      → undeleted (chain_thing chain) (split_rules host xfrm_if chain rules log).1
        ≡ is_some (split_rules host xfrm_if chain rules log).0.0
  unfolding split_rules nft_batch texts_eq text_eq
  split_rules-own xfrm_if chain [] log l = l
  split_rules-own xfrm_if chain (r ∷ rules) log l =
      split_created-own host (chain_thing chain) (chain-Calm chain) xfrm_if chain
        (nft_batch host (splits_batch chain (r ∷ rules)) log) refl (chain_own_deletes chain)
        (undeleted-added host (chain_thing chain)
          (Command.nft_batch (splits_batch chain (r ∷ rules)))
          (host log (Command.nft_batch (splits_batch chain (r ∷ rules)))) log
          (chain_own_adds chain (r ∷ rules)) refl l)

  jumped_named :
      (chain : Text) (r : Option ℕ × Log) (c : Text)
      → (jumped host chain r).0.0 ≡ some c
      → c ≡ chain
  jumped_named chain (none, log) c e = absurd (ground (arith, e))
  jumped_named chain (some h, log) c e = cc (sym e)

  split_created_named :
      (xfrm_if chain : Text) (r : Option Text × Log) (c : Text)
      → (split_created host xfrm_if chain r).0.0 ≡ some c
      → c ≡ chain
  split_created_named xfrm_if chain (none, log) c e = absurd (ground (arith, e))
  split_created_named xfrm_if chain (some out, log) c e =
      jumped_named chain
        (captured_handle host (add_rule (codes "prerouting") (jump_rule xfrm_if chain)) log) c e

  pub split_rules_named :
      (xfrm_if chain : Text) (rules : List Text) (log : Log) (c : Text)
      → (split_rules host xfrm_if chain rules log).0.0 ≡ some c
      → c ≡ chain
  unfolding split_rules
  split_rules_named xfrm_if chain [] log c e = absurd (ground (arith, e))
  split_rules_named xfrm_if chain (r ∷ rules) log c e =
      split_created_named xfrm_if chain (nft_batch host (splits_batch chain (r ∷ rules)) log) c e
