-- ===== src/Node/Vrf/Rules/Splits.antt =====
-- ipsecnode/src/vpp.rs: the ports of a split (`port_match`).
use fleetsuite.Node.Vrf.Rules.{port_match, port_range, port_list}
use fleetsuite.Common.{
  ℕ, ◌≤◌, ◌≡◌, refl, ◌≢◌, ◌↔◌, ◌⊎◌, inl, inr, true, not, Option, none, some, List, [], ◌∷◌, arith,
  if◌then◌else◌, is_some, is_empty,
}
use fleetsuite.Common.Text.{codes}
use fleetsuite.Node.Config.{SplitRule}

-- Both ends of a range, in order.
abbrev pub InRange : Option ℕ → Option ℕ → Type 0
InRange none to = ⊥
InRange (some f) none = ⊥
InRange (some f) (some t) = f ≤ t

-- The three ways in which a split names its ports.
unfoldable pub HasPorts : SplitRule → Type 0
HasPorts s = ((s.ports ≢ []) ⊎ (s.src_ports ≢ [])) ⊎ InRange s.port_from s.port_to

some-InRange : (from to : Option ℕ) → is_some (port_range from to) ≡ true → InRange from to
some-InRange none to e = absurd (ground (arith, e))
some-InRange (some f) none e = absurd (ground (arith, e))
some-InRange (some f) (some t) e = ground (arith, e)

InRange-some : (from to : Option ℕ) → InRange from to → is_some (port_range from to) ≡ true
InRange-some none to r = absurd r
InRange-some (some f) none r = absurd r
InRange-some (some f) (some t) r = ground (arith, r)

some-HasPorts : (s : SplitRule) → is_some (port_match s) ≡ true → HasPorts s
unfolding port_match HasPorts
some-HasPorts s e = by_lists s.ports s.src_ports e
  where
    by_lists :
        (dst src : List ℕ)
        → is_some (
            if not (is_empty dst)
            then some (port_list (codes "dport") dst)
            else if not (is_empty src)
            then some (port_list (codes "sport") src)
            else port_range s.port_from s.port_to)
          ≡ true
        → ((dst ≢ []) ⊎ (src ≢ [])) ⊎ InRange s.port_from s.port_to
    by_lists (d ∷ dst) src e = inl (inl (λ q. cc q))
    by_lists [] (d ∷ src) e = inl (inr (λ q. cc q))
    by_lists [] [] e = inr (some-InRange s.port_from s.port_to e)

HasPorts-some : (s : SplitRule) → HasPorts s → is_some (port_match s) ≡ true
unfolding port_match HasPorts
HasPorts-some s h = by_lists s.ports s.src_ports h
  where
    by_lists :
        (dst src : List ℕ)
        → ((dst ≢ []) ⊎ (src ≢ [])) ⊎ InRange s.port_from s.port_to
        → is_some (
            if not (is_empty dst)
            then some (port_list (codes "dport") dst)
            else if not (is_empty src)
            then some (port_list (codes "sport") src)
            else port_range s.port_from s.port_to)
          ≡ true
    by_lists (d ∷ dst) src h = refl
    by_lists [] (d ∷ src) h = refl
    by_lists [] [] (inr r) = InRange-some s.port_from s.port_to r
    by_lists [] [] (inl (inl n)) = absurd (n refl)
    by_lists [] [] (inl (inr n)) = absurd (n refl)

-- A split has a port match exactly when it lists destination ports or source ports, or gives both
-- ends of a range whose first port is not above its last.
pub port_match_iff : (s : SplitRule) → (is_some (port_match s) ≡ true) ↔ HasPorts s
port_match_iff s = (some-HasPorts s, HasPorts-some s)
