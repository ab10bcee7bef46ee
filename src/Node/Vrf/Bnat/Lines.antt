-- ===== src/Node/Vrf/Bnat/Lines.antt =====
-- ipsecnode/src/vpp.rs: the rules that a site's port splits become (`add_bnat_splits`).
use fleetsuite.Common.{ℕ, ◌≡◌, ◌⊎◌, Option, none, some, List, [], ◌∷◌, ◌++◌}
use fleetsuite.Common.Text.{Text, codes}
use fleetsuite.Node.Config.{SplitRule}
use fleetsuite.Node.Host.{Command, Host, Log}
use fleetsuite.Node.Vrf.Rules.{port_match, pool_chain, concat_texts}
use fleetsuite.Node.Vrf.Rules.Splits.{HasPorts}
use fleetsuite.Node.Vrf.Calls.{nft_batch}
use fleetsuite.Node.Vrf.Bnat.Torn.{Asked}

-- Where the packets of a split go: to the chain of its pool, or else to its address.
abbrev pub Aims : SplitRule → Text → Type 0
Aims s target =
    ((pool : Text) × (s.pool ≡ some pool) × (target ≡ codes "jump " ++ pool_chain pool))
    ⊎ ((s.pool ≡ none) × ((ip : Text) × (s.dnat_to ≡ some ip) × (target ≡ codes "dnat to " ++ ip)))

-- The rule of a split, for packets to the view.
abbrev pub LineFor : Text → Text → SplitRule → Text → Type 0
LineFor chain view s rule =
    (ports : Text) × (target : Text) × (port_match s ≡ some ports)
    × Aims s target
    × (rule
        ≡ codes "add rule ip ipsecnode_bnat "
          ++ (chain
              ++ (codes " ip daddr "
                  ++ (view ++ (codes " " ++ (ports ++ (codes " " ++ (target ++ codes "\n"))))))))

-- A split without ports, or with neither a pool nor an address.
abbrev pub Skipped : SplitRule → Type 0
Skipped s = ¬ HasPorts s ⊎ ((s.pool ≡ none) × (s.dnat_to ≡ none))

-- The rules are those of the splits in their order, less the skipped ones.
unfoldable pub Lines : Text → Text → List SplitRule → List Text → Type 0
Lines chain view [] rules = rules ≡ []
Lines chain view (s ∷ splits) rules =
    (Skipped s × Lines chain view splits rules)
    ⊎ ((rule : Text) × (rest : List Text) × (rules ≡ rule ∷ rest)
        × LineFor chain view s rule
        × Lines chain view splits rest)

module _ (host : Host) where
  abbrev Run : Text → List Text → (Option Text × Option ℕ) × Log → Type 0
  Run chain rules r =
      Asked
        (Command.nft_batch
          (codes "add chain ip ipsecnode_bnat " ++ (chain ++ (codes "\n" ++ concat_texts rules))))
        r.1
