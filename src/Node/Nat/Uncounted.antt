-- ===== src/Node/Nat/Uncounted.antt =====
-- ipsecnode/src/nat.rs: what an UP that finds no record costs.
use fleetsuite.Common.{
  ◌≡◌, refl, sym, ap, ◌∙◌, inl, inr, Bool, false, Option, none, some, List, [], ◌∷◌, arith,
  Bool-cases, any,
}
use fleetsuite.Common.Text.{Text, text_eq, text_eq_refl}
use fleetsuite.Common.Assoc.{get, insert, remove}
use fleetsuite.Node.Host.{Log, Host}
use fleetsuite.Node.Nat.{
  Event, up, down, first_up, remember, on_child_up, on_child_down, handle, handle_all,
  get_nat_record, install_routes, cached_global_ips, Records, NatRecord,
}
use fleetsuite.Node.Nat.Installed.{installed}
use fleetsuite.Node.Nat.Leak.{NoLeak, handle_all-NoLeak}

module _ (host : Host) (enabled : Bool) where
  -- One DOWN empties a cache that one UP filled.
  emptied :
      (peer : Text) (r : List Text × Log)
      → (on_child_down host enabled peer
          (remember host enabled peer [] r).0
          (remember host enabled peer [] r).1).0
        ≡ []
  unfolding on_child_down get insert remove
  emptied peer ([], log) = refl
  emptied peer (a ∷ rest, log) = rw (text_eq_refl peer) (rw (text_eq_refl peer) refl)

  last_down :
      (peer : Text) (r : Option NatRecord) (log : Log)
      → (on_child_down host enabled peer
          (first_up host enabled peer [] r log).0
          (first_up host enabled peer [] r log).1).0
        ≡ []
  unfolding on_child_down get
  last_down peer none log = refl
  last_down peer (some r) log = emptied peer (install_routes host enabled r.device_nat log)

  abbrev events : Text → Records → Records → List Event
  events peer before after = up before peer ∷ up after peer ∷ down peer ∷ []

  no_entry :
      (peer : Text) (before after : Records) (log : Log)
      → get_nat_record before peer ≡ none
      → (handle_all host enabled (events peer before after) ([], log)).0 ≡ []
  unfolding handle_all handle on_child_up get
  no_entry peer before after log n = rw n (last_down peer (get_nat_record after peer) log)

  -- An UP that finds no NAT record is not counted. Where nothing is cached and no route is left from
  -- before, and the record is there at the peer's next UP, the first DOWN of the two tunnels leaves
  -- no entry, and of each route that the second UP installed the deletion is tried, though one of
  -- the two tunnels is still up.
  pub uncounted_up :
      (peer : Text) (before after : Records) (log : Log)
      → ((g : Text) → installed g log ≡ false)
      → get_nat_record before peer ≡ none
      → ((handle_all host enabled (events peer before after) ([], log)).0 ≡ [])
        × ((g : Text)
            → installed g (handle_all host enabled (events peer before after) ([], log)).1 ≡ false)
  unfolding NoLeak
  uncounted_up peer before after log clear n = (no_entry peer before after log n, gone)
    where
      clean : NoLeak host enabled ([], log)
      clean g t = absurd (ground (arith, sym t ∙ clear g))

      gone :
          (g : Text)
          → installed g (handle_all host enabled (events peer before after) ([], log)).1 ≡ false
      gone g =
          elim (Bool-cases
            (installed g (handle_all host enabled (events peer before after) ([], log)).1)) [
              | inr f ↦ f
              | inl t ↦ absurd (
                  ground (
                    arith,
                    sym (
                          handle_all-NoLeak host enabled (events peer before after) ([], log) clean
                            g t)
                        ∙ ap (λ c. any (λ h. text_eq h g) (cached_global_ips c))
                            (no_entry peer before after log n),
                  ))
            ]
