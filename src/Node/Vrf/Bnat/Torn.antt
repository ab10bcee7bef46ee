-- ===== src/Node/Vrf/Bnat/Torn.antt =====
-- ipsecnode/src/vpp.rs: the order of the deletions in a site's teardown (`teardown_site_bnat`): nft
-- refuses to delete a map or a chain to which a rule refers.
use fleetsuite.Common.{
  ℕ, ◌≡◌, refl, ◌⊎◌, inl, inr, false, Option, none, some, List, [], ◌∷◌, if◌then◌else◌, Bool-cases,
  is_empty, All, All-mono,
}
use fleetsuite.Common.Text.{Text, codes, show_nat}
use fleetsuite.Node.Host.{Command, Output, Log}
use fleetsuite.Node.Vrf.{SiteBnatState}
use fleetsuite.Node.Vrf.Calls.{nft, nft_warn}
use fleetsuite.Node.Vrf.Sites.{
  Env, teardown_site_bnat, delete_handles, delete_handle, delete_rule, delete_chain, delete_named,
}

-- The command was run.
unfoldable pub Asked : Command → Log → Type 0
Asked c [] = ⊥
Asked c ((d, out) ∷ log) = (d ≡ c) ⊎ Asked c log

-- The first command was run after the second.
unfoldable pub After : Command → Command → Log → Type 0
After c before [] = ⊥
After c before ((d, out) ∷ log) = ((d ≡ c) × Asked before log) ⊎ After c before log

abbrev pub rule_deletion : Text → ℕ → Command
rule_deletion chain handle = Command.nft (
    codes "delete"
    ∷ codes "rule"
    ∷ codes "ip"
    ∷ codes "ipsecnode_bnat"
    ∷ chain
    ∷ codes "handle"
    ∷ show_nat handle
    ∷ [])

abbrev pub deletion : Text → Text → Command
deletion kind name =
    Command.nft (codes "delete" ∷ kind ∷ codes "ip" ∷ codes "ipsecnode_bnat" ∷ name ∷ [])

-- Every rule of the state is deleted, each before the map and the chain to which it refers.
pub record Torn (b : SiteBnatState) (log : Log) : Type 0 where
  pub map_rule :
      (h : ℕ)
      → b.rule_handle ≡ some h
      → After (deletion (codes "map") b.map_name) (rule_deletion (codes "prerouting") h) log
  pub helper_rule :
      (h : ℕ) → b.helper_handle ≡ some h → Asked (rule_deletion (codes "helperpre") h) log
  pub jump_rule :
      (h : ℕ) → b.split_jump_handle ≡ some h → Asked (rule_deletion (codes "prerouting") h) log
  pub chain_jump :
      (chain : Text) (h : ℕ)
      → b.split_chain ≡ some chain
      → b.split_jump_handle ≡ some h
      → After (deletion (codes "chain") chain) (rule_deletion (codes "prerouting") h) log
  pub snat_rules : All (λ h. Asked (rule_deletion (codes "postrouting") h) log) b.snat_handles
  pub snat_map_rules :
      is_empty b.snat_map_name ≡ false
      → All
          (λ h.
            After
              (deletion (codes "map") b.snat_map_name)
              (rule_deletion (codes "postrouting") h)
              log)
          b.snat_handles

-- What stays so whatever is run later.
record Lasting (P : Log → Type 0) : Type 0 where
  later : (x : Command × Option Output) (log : Log) → P log → P (x ∷ log)

asked-Lasting : (c : Command) → Lasting (Asked c)
unfolding Asked
asked-Lasting c = record { later = λ x log p. inr p }

after-Lasting : (c before : Command) → Lasting (After c before)
unfolding After
after-Lasting c before = record { later = λ x log p. inr p }

module _ (env : Env) where
  module _ (P : Log → Type 0) (l : Lasting P) where
    keep_rule : (chain : Text) (h : ℕ) (log : Log) → P log → P (delete_rule env chain h log)
    unfolding nft_warn nft
    keep_rule chain h log p = l.later _ log p

    keep_named : (kind name : Text) (log : Log) → P log → P (delete_named env kind name log)
    unfolding nft_warn nft
    keep_named kind name log p = l.later _ log p

    keep_handle :
        (chain : Text) (o : Option ℕ) (log : Log) → P log → P (delete_handle env chain o log)
    keep_handle chain none log p = p
    keep_handle chain (some h) log p = keep_rule chain h log p

    keep_handles : (hs : List ℕ) (log : Log) → P log → P (delete_handles env hs log)
    keep_handles [] log p = p
    keep_handles (h ∷ hs) log p =
        keep_handles hs (delete_rule env (codes "postrouting") h log)
          (keep_rule (codes "postrouting") h log p)

    keep_chain : (o : Option Text) (log : Log) → P log → P (delete_chain env o log)
    keep_chain none log p = p
    keep_chain (some c) log p = keep_named (codes "chain") c log p

  asked_rule :
      (chain : Text) (h : ℕ) (log : Log)
      → Asked (rule_deletion chain h) (delete_rule env chain h log)
  unfolding Asked nft_warn nft
  asked_rule chain h log = inl refl

  asked_handle :
      (chain : Text) (o : Option ℕ) (h : ℕ) (log : Log)
      → o ≡ some h
      → Asked (rule_deletion chain h) (delete_handle env chain o log)
  asked_handle chain o h log e = rw e (asked_rule chain h log)

  asked_handles :
      (hs : List ℕ) (log : Log)
      → All (λ h. Asked (rule_deletion (codes "postrouting") h) (delete_handles env hs log)) hs
  asked_handles [] log = tt
  asked_handles (h ∷ hs) log = (
    keep_handles (Asked (rule_deletion (codes "postrouting") h))
        (asked-Lasting (rule_deletion (codes "postrouting") h)) hs
        (delete_rule env (codes "postrouting") h log) (asked_rule (codes "postrouting") h log),
    asked_handles hs (delete_rule env (codes "postrouting") h log),
  )

  then_named :
      (kind name : Text) (before : Command) (log : Log)
      → Asked before log
      → After (deletion kind name) before (delete_named env kind name log)
  unfolding After nft_warn nft
  then_named kind name before log a = inl (refl, a)

  then_chain :
      (o : Option Text) (c : Text) (before : Command) (log : Log)
      → o ≡ some c
      → Asked before log
      → After (deletion (codes "chain") c) before (delete_chain env o log)
  then_chain o c before log e a = rw e (then_named (codes "chain") c before log a)

  module _ (b : SiteBnatState) (log : Log) where
    abbrev rules_gone : Log
    rules_gone = delete_handles env b.snat_handles log

    abbrev snat_gone : Log
    snat_gone =
        if is_empty b.snat_map_name
        then rules_gone
        else delete_named env (codes "map") b.snat_map_name rules_gone

    abbrev rule_gone : Log
    rule_gone = delete_handle env (codes "prerouting") b.rule_handle snat_gone

    abbrev helper_gone : Log
    helper_gone = delete_handle env (codes "helperpre") b.helper_handle rule_gone

    abbrev jump_gone : Log
    jump_gone = delete_handle env (codes "prerouting") b.split_jump_handle helper_gone

    abbrev torn_down : Log
    torn_down = delete_named env (codes "map") b.map_name (delete_chain env b.split_chain jump_gone)

    module _ (P : Log → Type 0) (l : Lasting P) where
      from_jump : P jump_gone → P torn_down
      from_jump p =
          keep_named P l (codes "map") b.map_name (delete_chain env b.split_chain jump_gone)
            (keep_chain P l b.split_chain jump_gone p)

      from_helper : P helper_gone → P torn_down
      from_helper p =
          from_jump (keep_handle P l (codes "prerouting") b.split_jump_handle helper_gone p)

      from_snat : P snat_gone → P torn_down
      from_snat p = from_helper (
          keep_handle P l (codes "helperpre") b.helper_handle rule_gone
            (keep_handle P l (codes "prerouting") b.rule_handle snat_gone p))

      snat_kept : P rules_gone → P snat_gone
      snat_kept p = elim (Bool-cases (is_empty b.snat_map_name)) [
        | inl e ↦ rw e p
        | inr e ↦ rw e (keep_named P l (codes "map") b.snat_map_name rules_gone p)
      ]

    rule_asked :
        (h : ℕ)
        → b.rule_handle ≡ some h
        → Asked (rule_deletion (codes "prerouting") h) (delete_chain env b.split_chain jump_gone)
    rule_asked h e =
        let c = rule_deletion (codes "prerouting") h in
        let l = asked-Lasting c in
        keep_chain (Asked c) l b.split_chain jump_gone (
          keep_handle (Asked c) l (codes "prerouting") b.split_jump_handle helper_gone (
            keep_handle (Asked c) l (codes "helperpre") b.helper_handle rule_gone
              (asked_handle (codes "prerouting") b.rule_handle h snat_gone e)))

    snat_after :
        is_empty b.snat_map_name ≡ false
        → (h : ℕ) → Asked (rule_deletion (codes "postrouting") h) rules_gone
        → After
            (deletion (codes "map") b.snat_map_name)
            (rule_deletion (codes "postrouting") h)
            snat_gone
    snat_after e h a = rw e (
        then_named (codes "map") b.snat_map_name (rule_deletion (codes "postrouting") h) rules_gone
          a)

    torn_down-Torn : Torn b torn_down
    torn_down-Torn = record {
      map_rule = λ h e.
          then_named (codes "map") b.map_name (rule_deletion (codes "prerouting") h)
            (delete_chain env b.split_chain jump_gone) (rule_asked h e);
      helper_rule = λ h e.
          from_helper (Asked (rule_deletion (codes "helperpre") h))
            (asked-Lasting (rule_deletion (codes "helperpre") h))
            (asked_handle (codes "helperpre") b.helper_handle h rule_gone e);
      jump_rule = λ h e.
          from_jump (Asked (rule_deletion (codes "prerouting") h))
            (asked-Lasting (rule_deletion (codes "prerouting") h))
            (asked_handle (codes "prerouting") b.split_jump_handle h helper_gone e);
      chain_jump = λ chain h c e.
          keep_named (After (deletion (codes "chain") chain) (rule_deletion (codes "prerouting") h))
            (after-Lasting (deletion (codes "chain") chain) (rule_deletion (codes "prerouting") h))
            (codes "map") b.map_name (delete_chain env b.split_chain jump_gone)
            (then_chain b.split_chain chain (rule_deletion (codes "prerouting") h) jump_gone c
              (asked_handle (codes "prerouting") b.split_jump_handle h helper_gone e));
      snat_rules =
          All-mono (λ h. Asked (rule_deletion (codes "postrouting") h) rules_gone)
            (λ h. Asked (rule_deletion (codes "postrouting") h) torn_down) b.snat_handles
            (λ h a.
              from_snat (Asked (rule_deletion (codes "postrouting") h))
                (asked-Lasting (rule_deletion (codes "postrouting") h))
                (snat_kept (Asked (rule_deletion (codes "postrouting") h))
                  (asked-Lasting (rule_deletion (codes "postrouting") h)) a))
            (asked_handles b.snat_handles log);
      snat_map_rules = λ e.
          All-mono (λ h. Asked (rule_deletion (codes "postrouting") h) rules_gone)
            (λ h.
              After (deletion (codes "map") b.snat_map_name) (rule_deletion (codes "postrouting") h)
                torn_down)
            b.snat_handles
            (λ h a.
              from_snat
                (After (deletion (codes "map") b.snat_map_name)
                  (rule_deletion (codes "postrouting") h))
                (after-Lasting (deletion (codes "map") b.snat_map_name)
                  (rule_deletion (codes "postrouting") h))
                (snat_after e h a))
            (asked_handles b.snat_handles log);
    }

    pub teardown_site_bnat-Torn :
        is_empty b.map_name ≡ false → Torn b (teardown_site_bnat env b log)
    unfolding teardown_site_bnat
    teardown_site_bnat-Torn e = rw e torn_down-Torn
