-- ===== src/Node/Vrf/Start/Cleaned.antt =====
-- ipsecnode/src/vpp.rs: the removal of the rules of an earlier run ends (`cleanup_stale_state`).
use fleetsuite.Common.{
  ℕ, zero, suc, ◌<◌, ◌≡◌, refl, inl, inr, true, Option, none, some, ◌∷◌, arith, Bool-cases, is_some,
  and_then,
}
use fleetsuite.Common.Text.{Text, codes}
use fleetsuite.Node.Host.{Host, Log, succeeded}
use fleetsuite.Node.Vrf.Start.{delete_rule, delete_rules, cleanup_tables, cleanup_stale_state}

-- How many rules of a priority there are, of which each deletion that succeeds takes one away.
pub record Rules (host : Host) (left : Text → Log → ℕ) : Type 0 where
  pub fewer :
      (prio : Text) (log : Log)
      → succeeded (host log (delete_rule host prio)) ≡ true
      → left prio ((delete_rule host prio, host log (delete_rule host prio)) ∷ log) < left prio log

module _ (host : Host) (left : Text → Log → ℕ) (rules : Rules host left) where
  delete_rules_ends :
      (fuel : ℕ) (prio : Text) (log : Log)
      → left prio log < fuel
      → is_some (delete_rules host fuel prio log) ≡ true
  unfolding delete_rules
  delete_rules_ends zero prio log h = absurd (omega arith)
  delete_rules_ends (suc fuel) prio log h =
      elim (Bool-cases (succeeded (host log (delete_rule host prio)))) [
        | inl q ↦ rw q (
            delete_rules_ends fuel prio
              ((delete_rule host prio, host log (delete_rule host prio)) ∷ log)
              (omega (arith, h, rules.fewer prio log q)))
        | inr q ↦ rw q refl
      ]

  -- Where each deletion that succeeds leaves one rule fewer, the cleaning ends if the fuel is more than
  -- the rules of a priority that there can be.
  pub cleanup_stale_state_ends :
      (fuel : ℕ) (log : Log)
      → ((prio : Text) (l : Log) → left prio l < fuel)
      → is_some (cleanup_stale_state host fuel log) ≡ true
  unfolding cleanup_stale_state
  cleanup_stale_state_ends fuel log h =
      by_first (delete_rules host fuel (codes "100") (cleanup_tables host log)) (
        delete_rules_ends fuel (codes "100") (cleanup_tables host log)
          (h (codes "100") (cleanup_tables host log)))
    where
      by_first :
          (o : Option Log)
          → is_some o ≡ true
          → is_some (and_then o (delete_rules host fuel (codes "200"))) ≡ true
      by_first none e = absurd (ground (arith, e))
      by_first (some l) e = delete_rules_ends fuel (codes "200") l (h (codes "200") l)
