-- ===== src/Node/Vrf/Bnat/Live.antt =====
-- ipsecnode/src/vpp.rs: which maps and chains of nftables the calls of `setup_site_bnat` have added
-- with success and not tried to delete since.
use fleetsuite.Node.Vrf.Rules.{
  add_map, add_element, delete_named, add_rule, splits_batch, access_rule, helper_rule, snat_rule,
  jump_rule,
}
use fleetsuite.Common.{
  ℕ, ◌≡◌, refl, ◌∙◌, inl, inr, Bool, true, false, ◌&&◌, Option, none, some, List, [], ◌∷◌, ◌++◌,
  if◌then◌else◌, Bool-cases, is_some,
}
use fleetsuite.Common.Text.{Text, codes, text_eq, texts_eq, starts_with}
use fleetsuite.Node.Host.{Command, Output, Host, Log, succeeded}
use fleetsuite.Node.Vrf.Calls.{nft, nft_warn, nft_batch, done_if}
use fleetsuite.Node.Vrf.Bnat.{
  captured_handle, add_elements, servers_snat, snat_ruled, snat_created, access_snat,
  add_bnat_ftp_helper, jumped, split_created, split_rules,
}

abbrev pub is_nft : List Text → Command → Bool
is_nft args (Command.nft other) = texts_eq args other
is_nft args (Command.ip other) = false
is_nft args (Command.vppctl other) = false
is_nft args (Command.conntrack other) = false
is_nft args (Command.modprobe other) = false
is_nft args (Command.nft_batch rules) = false

-- A thing of nftables: which commands add it and delete it.
pub record Thing : Type 0 where
  pub adds : Command → Bool
  pub deletes : Command → Bool

abbrev pub map_thing : Text → Thing
map_thing name = record {
  adds = is_nft (add_map name);
  deletes = is_nft (delete_named (codes "map") name);
}

abbrev pub begins_chain : Text → Command → Bool
begins_chain chain (Command.nft_batch rules) =
    starts_with (codes "add chain ip ipsecnode_bnat " ++ (chain ++ codes "\n")) rules
begins_chain chain (Command.nft other) = false
begins_chain chain (Command.ip other) = false
begins_chain chain (Command.vppctl other) = false
begins_chain chain (Command.conntrack other) = false
begins_chain chain (Command.modprobe other) = false

abbrev pub chain_thing : Text → Thing
chain_thing chain = record {
  adds = begins_chain chain;
  deletes = is_nft (delete_named (codes "chain") chain);
}

-- Whether it was added by a command that succeeded, and no deletion of it was tried since. A deletion
-- that was tried may have failed, so that what is not `undeleted` may still be in nftables.
unfoldable pub undeleted : Thing → Log → Bool
undeleted t [] = false
undeleted t ((c, out) ∷ log) =
    let before = undeleted t log in
    if t.adds c && succeeded out then true else if t.deletes c then false else before

abbrev pub Quiet : Thing → Command → Type 0
Quiet t c = (t.adds c ≡ false) × (t.deletes c ≡ false)

pub undeleted-quiet :
    (t : Thing) (c : Command) (out : Option Output) (log : Log)
    → Quiet t c
    → undeleted t ((c, out) ∷ log) ≡ undeleted t log
unfolding undeleted
undeleted-quiet t c out log q = rw q.0 (rw q.1 refl)

pub undeleted-deleted :
    (t : Thing) (c : Command) (out : Option Output) (log : Log)
    → t.adds c ≡ false
    → t.deletes c ≡ true
    → undeleted t ((c, out) ∷ log) ≡ false
unfolding undeleted
undeleted-deleted t c out log a d = rw a (rw d refl)

pub undeleted-added :
    (host : Host) (t : Thing) (c : Command) (out : Option Output) (log : Log)
    → t.adds c ≡ true
    → t.deletes c ≡ false
    → undeleted t log ≡ false
    → undeleted t ((c, out) ∷ log) ≡ is_some (done_if host out)
unfolding undeleted
undeleted-added host t c none log a d l = rw a (rw d l)
undeleted-added host t c (some out) log a d l = elim (Bool-cases out.success) [
  | inl s ↦ rw a (rw s refl)
  | inr s ↦ rw a (rw s (rw d l))
]

-- The commands on a site's rules and elements, to which a map or chain is indifferent.
pub record Calm (t : Thing) : Type 0 where
  pub rules : (chain : Text) (rule : List Text) → Quiet t (Command.nft (add_rule chain rule))
  pub elements : (name : Text) (p : Text × Text) → Quiet t (Command.nft (add_element name p))

pub map-Calm : (name : Text) → Calm (map_thing name)
unfolding texts_eq text_eq
map-Calm name = record { rules = λ chain rule. (refl, refl); elements = λ n p. (refl, refl) }

pub chain-Calm : (name : Text) → Calm (chain_thing name)
unfolding texts_eq text_eq
chain-Calm name = record { rules = λ chain rule. (refl, refl); elements = λ n p. (refl, refl) }

module _ (host : Host) (t : Thing) (calm : Calm t) where
  pub captured_handle-undeleted :
      (chain : Text) (rule : List Text) (log : Log)
      → undeleted t (captured_handle host (add_rule chain rule) log).1 ≡ undeleted t log
  unfolding captured_handle nft
  captured_handle-undeleted chain rule log =
      undeleted-quiet t (Command.nft (add_rule chain rule))
        (host log (Command.nft (add_rule chain rule))) log (calm.rules chain rule)

  pub add_elements-undeleted :
      (name : Text) (ps : List (Text × Text)) (log : Log)
      → undeleted t (add_elements host name ps log).1 ≡ undeleted t log
  unfolding add_elements nft
  add_elements-undeleted name [] log = refl
  add_elements-undeleted name (p ∷ ps) log =
      add_elements-undeleted name ps
        ((Command.nft (add_element name p), host log (Command.nft (add_element name p))) ∷ log)
      ∙ undeleted-quiet t (Command.nft (add_element name p))
          (host log (Command.nft (add_element name p))) log (calm.elements name p)

  pub access_snat-undeleted :
      (xfrm_if : Text) (view : Option Text) (log : Log)
      → undeleted t (access_snat host xfrm_if view log).1 ≡ undeleted t log
  unfolding access_snat
  access_snat-undeleted xfrm_if none log = refl
  access_snat-undeleted xfrm_if (some view) log =
      captured_handle-undeleted (codes "postrouting") (access_rule xfrm_if view) log

  pub add_bnat_ftp_helper-undeleted :
      (xfrm_if : Text) (view : Option Text) (log : Log)
      → undeleted t (add_bnat_ftp_helper host xfrm_if view log).1 ≡ undeleted t log
  unfolding add_bnat_ftp_helper
  add_bnat_ftp_helper-undeleted xfrm_if none log = refl
  add_bnat_ftp_helper-undeleted xfrm_if (some view) log =
      captured_handle-undeleted (codes "helperpre") (helper_rule xfrm_if view) log

  pub snat_ruled-undeleted :
      (name : Text) (r : Option ℕ × Log)
      → Quiet t (Command.nft (delete_named (codes "map") name))
      → undeleted t (snat_ruled host name r).1 ≡ undeleted t r.1
  unfolding nft_warn nft
  snat_ruled-undeleted name (none, log) d =
      undeleted-quiet t (Command.nft (delete_named (codes "map") name))
        (host log (Command.nft (delete_named (codes "map") name))) log d
  snat_ruled-undeleted name (some h, log) d = refl

  pub snat_created-undeleted :
      (xfrm_if name : Text) (ps : List (Text × Text)) (r : Option Text × Log)
      → Quiet t (Command.nft (delete_named (codes "map") name))
      → undeleted t (snat_created host xfrm_if name ps r).1 ≡ undeleted t r.1
  snat_created-undeleted xfrm_if name ps (none, log) d = refl
  snat_created-undeleted xfrm_if name ps (some out, log) d =
      snat_ruled-undeleted name
        (captured_handle host (add_rule (codes "postrouting") (snat_rule xfrm_if name))
          (add_elements host name ps log).1)
        d
      ∙ captured_handle-undeleted (codes "postrouting") (snat_rule xfrm_if name)
          (add_elements host name ps log).1
      ∙ add_elements-undeleted name ps log

  pub servers_snat-undeleted :
      (xfrm_if name : Text) (ps : List (Text × Text)) (log : Log)
      → Quiet t (Command.nft (add_map name))
      → Quiet t (Command.nft (delete_named (codes "map") name))
      → undeleted t (servers_snat host xfrm_if name ps log).1 ≡ undeleted t log
  unfolding servers_snat nft
  servers_snat-undeleted xfrm_if name [] log a d = refl
  servers_snat-undeleted xfrm_if name (p ∷ ps) log a d =
      snat_created-undeleted xfrm_if name (p ∷ ps) (nft host (add_map name) log) d
      ∙ undeleted-quiet t (Command.nft (add_map name)) (host log (Command.nft (add_map name))) log a

  pub jumped-undeleted :
      (chain : Text) (r : Option ℕ × Log)
      → Quiet t (Command.nft (delete_named (codes "chain") chain))
      → undeleted t (jumped host chain r).1 ≡ undeleted t r.1
  unfolding nft_warn nft
  jumped-undeleted chain (none, log) d =
      undeleted-quiet t (Command.nft (delete_named (codes "chain") chain))
        (host log (Command.nft (delete_named (codes "chain") chain))) log d
  jumped-undeleted chain (some h, log) d = refl

  pub split_created-undeleted :
      (xfrm_if chain : Text) (r : Option Text × Log)
      → Quiet t (Command.nft (delete_named (codes "chain") chain))
      → undeleted t (split_created host xfrm_if chain r).1 ≡ undeleted t r.1
  split_created-undeleted xfrm_if chain (none, log) d = refl
  split_created-undeleted xfrm_if chain (some out, log) d =
      jumped-undeleted chain
        (captured_handle host (add_rule (codes "prerouting") (jump_rule xfrm_if chain)) log) d
      ∙ captured_handle-undeleted (codes "prerouting") (jump_rule xfrm_if chain) log

  pub split_rules-undeleted :
      (xfrm_if chain : Text) (rules : List Text) (log : Log)
      → ((rules : List Text) → Quiet t (Command.nft_batch (splits_batch chain rules)))
      → Quiet t (Command.nft (delete_named (codes "chain") chain))
      → undeleted t (split_rules host xfrm_if chain rules log).1 ≡ undeleted t log
  unfolding split_rules nft_batch
  split_rules-undeleted xfrm_if chain [] log a d = refl
  split_rules-undeleted xfrm_if chain (r ∷ rules) log a d =
      split_created-undeleted xfrm_if chain (nft_batch host (splits_batch chain (r ∷ rules)) log) d
      ∙ undeleted-quiet t (Command.nft_batch (splits_batch chain (r ∷ rules)))
          (host log (Command.nft_batch (splits_batch chain (r ∷ rules)))) log (a (r ∷ rules))
