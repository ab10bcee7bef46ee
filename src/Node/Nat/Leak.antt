-- ===== src/Node/Nat/Leak.antt =====
-- ipsecnode/src/nat.rs: no route outlives its tunnels.
use fleetsuite.Common.{
  ◌-◌, ◌≡◌, refl, sym, ap, subst, ◌∙◌, ◌⊎◌, inl, inr, Bool, true, false, ◌||◌, Option, none, some,
  List, [], ◌∷◌, arith, ltb, if◌then◌else◌, Bool-cases, Option-cases, any,
}
use fleetsuite.Common.Text.{Text, codes, text_eq}
use fleetsuite.Common.Assoc.{get}
use fleetsuite.Node.Host.{Log, Host, succeeded}
use fleetsuite.Node.Nat.{
  DeviceNatEntry, RouteCache, Event, up, down, incr, first_up, remember, on_child_up, on_child_down,
  handle, handle_all, get_nat_record, install_routes, remove_routes, route_add, route_del,
  add_active_global, remove_active_global, active_global, replace_blackhole, delete_route,
  cached_global_ips, Records, NatRecord,
}
use fleetsuite.Node.Nat.Installed.{
  installed, installed-replace, installed-delete, installed-active, installed-failed,
}
use fleetsuite.Node.Nat.Cached.{cached-insert, cached-update, cached-remove}

module _ (host : Host) (enabled : Bool) where
  abbrev is_in : Text → List Text → Bool
  is_in g ips = any (λ h. text_eq h g) ips

  add_active-installed :
      (g addr : Text) (log : Log)
      → installed g (add_active_global host enabled addr log) ≡ installed g log
  unfolding add_active_global
  add_active-installed g addr log = by_enabled enabled
    where
      by_enabled :
          (b : Bool)
          → installed g (
              if b
              then (active_global (codes "add") addr, host log (active_global (codes "add") addr))
                ∷ log
              else log)
            ≡ installed g log
      by_enabled true = installed-active g (codes "add") addr _ log
      by_enabled false = refl

  remove_active-installed :
      (g addr : Text) (log : Log)
      → installed g (remove_active_global host enabled addr log) ≡ installed g log
  unfolding remove_active_global
  remove_active-installed g addr log = by_enabled enabled
    where
      by_enabled :
          (b : Bool)
          → installed g (
              if b
              then (
                active_global (codes "delete") addr,
                host log (active_global (codes "delete") addr),
              )
                ∷ log
              else log)
            ≡ installed g log
      by_enabled true = installed-active g (codes "delete") addr _ log
      by_enabled false = refl

  install_routes-installed :
      (g : Text) (es : List DeviceNatEntry) (log : Log)
      → installed g (install_routes host enabled es log).1 ≡ true
      → (is_in g (install_routes host enabled es log).0 || installed g log) ≡ true
  unfolding install_routes route_add
  install_routes-installed g [] log e = e
  install_routes-installed g (entry ∷ es) log e =
      elim (Bool-cases (succeeded (host log (replace_blackhole entry.global_ip)))) [
        | inl b ↦ rw b (
            with_entry (
              install_routes-installed g es active (
                subst
                  (λ c.
                    installed g
                      (if c
                        then (
                          entry.global_ip ∷ (install_routes host enabled es active).0,
                          (install_routes host enabled es active).1,
                        )
                        else install_routes host enabled es tried).1
                    ≡ true)
                  b e)))
        | inr b ↦ rw b (
            without
              (install_routes-installed g es tried (
                subst
                  (λ c.
                    installed g
                      (if c
                        then (
                          entry.global_ip ∷ (install_routes host enabled es active).0,
                          (install_routes host enabled es active).1,
                        )
                        else install_routes host enabled es tried).1
                    ≡ true)
                  b e))
              b)
      ]
    where
      tried : Log
      tried =
          (replace_blackhole entry.global_ip, host log (replace_blackhole entry.global_ip)) ∷ log

      active : Log
      active = add_active_global host enabled entry.global_ip tried

      replaced :
          installed g tried ≡ true → (text_eq entry.global_ip g ≡ true) ⊎ (installed g log ≡ true)
      replaced t = installed-replace g entry.global_ip _ log t

      same : installed g active ≡ installed g tried
      same = add_active-installed g entry.global_ip tried

      with_entry :
          (is_in g (install_routes host enabled es active).0 || installed g active) ≡ true
          → ((text_eq entry.global_ip g || is_in g (install_routes host enabled es active).0)
              || installed g log)
            ≡ true
      with_entry t = elim (Bool-cases (installed g tried)) [
        | inl k ↦ elim (replaced k) [ inl q ↦ ground arith | inr q ↦ ground arith ]
        | inr k ↦ ground (arith, same ∙ k)
      ]

      without :
          (is_in g (install_routes host enabled es tried).0 || installed g tried) ≡ true
          → succeeded (host log (replace_blackhole entry.global_ip)) ≡ false
          → (is_in g (install_routes host enabled es tried).0 || installed g log) ≡ true
      without t b = ground (
        arith,
        installed-failed g entry.global_ip (host log (replace_blackhole entry.global_ip)) log b,
      )

  remove_routes-installed :
      (g : Text) (ips : List Text) (log : Log)
      → installed g (remove_routes host enabled ips log) ≡ true
      → (is_in g ips ≡ false) × (installed g log ≡ true)
  unfolding remove_routes route_del
  remove_routes-installed g [] log e = (refl, e)
  remove_routes-installed g (addr ∷ addrs) log e =
      let tried = remove_active_global host enabled addr log in
      let after = (delete_route addr, host tried (delete_route addr)) ∷ tried in
      let (kept, t) = remove_routes-installed g addrs after e in
      let (differ, u) = installed-delete g addr (host tried (delete_route addr)) tried t in
      (rw (differ, kept) refl, sym (remove_active-installed g addr log) ∙ u)

  -- Every address whose route the kernel may hold belongs to a peer of the cache.
  unfoldable pub NoLeak : RouteCache × Log → Type 0
  NoLeak s = (g : Text) → installed g s.1 ≡ true → is_in g (cached_global_ips s.0) ≡ true

  up-NoLeak :
      (records : Records) (peer : Text) (cache : RouteCache) (log : Log)
      → NoLeak (cache, log)
      → NoLeak (on_child_up host enabled records peer cache log)
  unfolding on_child_up NoLeak
  up-NoLeak records peer cache log h = elim (Option-cases (get peer cache)) [
    | inl e ↦ rw e (fresh e (get_nat_record records peer))
    | inr (st, e) ↦ rw e (λ g t.
        ap (is_in g) (
          cached-update peer (record st { child_sa_count = incr st.child_sa_count }) st cache e
            refl)
        ∙ h g t)
  ]
    where
      remembered :
          get peer cache ≡ none
          → (p : List Text × Log)
          → ((g : Text) → installed g p.1 ≡ true → (is_in g p.0 || installed g log) ≡ true)
          → NoLeak (remember host enabled peer cache p)
      remembered e ([], l) k g t = h g (k g t)
      remembered e (x ∷ xs, l) k g t =
          cached-insert (λ y. text_eq y g) peer (record { global_ips = x ∷ xs; child_sa_count = 1 })
            cache e
          ∙ either (is_in g (x ∷ xs)) (installed g log) (k g t) (h g)
        where
          either :
              (a b : Bool)
              → (a || b) ≡ true
              → (b ≡ true → is_in g (cached_global_ips cache) ≡ true)
              → (a || is_in g (cached_global_ips cache)) ≡ true
          either true b p f = refl
          either false b p f = f p

      fresh :
          get peer cache ≡ none
          → (r : Option NatRecord) → NoLeak (first_up host enabled peer cache r log)
      fresh e none = h
      fresh e (some r) =
          remembered e (install_routes host enabled r.device_nat log)
            (λ g t. install_routes-installed g r.device_nat log t)

  down-NoLeak :
      (peer : Text) (cache : RouteCache) (log : Log)
      → NoLeak (cache, log)
      → NoLeak (on_child_down host enabled peer cache log)
  unfolding on_child_down NoLeak
  down-NoLeak peer cache log h = elim (Option-cases (get peer cache)) [
    | inl e ↦ rw e h
    | inr (st, e) ↦ elim (Bool-cases (ltb 0 (st.child_sa_count - 1))) [
      | inl b ↦ rw e (
          rw b (λ g t.
            ap (is_in g) (
              cached-update peer (record st { child_sa_count = st.child_sa_count - 1 }) st cache e
                refl)
            ∙ h g t))
      | inr b ↦ rw e (
          rw b (λ g t.
            let (kept, u) = remove_routes-installed g st.global_ips log t in
            rest kept (cached-remove (λ y. text_eq y g) peer st cache e) (h g u)))
    ]
  ]
    where
      rest : {a b c : Bool} → a ≡ false → c ≡ (a || b) → c ≡ true → b ≡ true
      rest x y z = ground arith

  -- No route leaks: after any sequence of UPs and DOWNs, whatever the commands answer, an address
  -- whose blackhole was installed and whose deletion was not tried since belongs to a peer that the
  -- cache still holds, if that was so before.
  pub handle_all-NoLeak :
      (es : List Event) (s : RouteCache × Log) → NoLeak s → NoLeak (handle_all host enabled es s)
  unfolding handle_all handle
  handle_all-NoLeak [] s h = h
  handle_all-NoLeak (up records peer ∷ es) (cache, log) h =
      handle_all-NoLeak es (on_child_up host enabled records peer cache log)
        (up-NoLeak records peer cache log h)
  handle_all-NoLeak (down peer ∷ es) (cache, log) h =
      handle_all-NoLeak es (on_child_down host enabled peer cache log)
        (down-NoLeak peer cache log h)
