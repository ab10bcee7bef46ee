-- ===== src/Scale/Converges.antt =====
-- ipsecscale/src/main.rs: what the watcher remembers is what it did, so that a round whose calls
-- succeed leaves the pool and the rules as the round found the members.
use fleetsuite.Common.{
  ◌≡◌, refl, sym, ap, ap₂, subst, ◌∙◌, inl, inr, Bool, true, false, not, Option, none, some, List,
  [], ◌∷◌, arith, if◌then◌else◌, Bool-cases, unwrap_or, is_empty,
}
use fleetsuite.Common.Text.{Text, texts_eq, text_eq_sound}
use fleetsuite.Ring.Render.{render_ipsec_nat}
use fleetsuite.Scale.Healthy.{IsPool, healthy_of-IsPool}
use fleetsuite.Scale.{
  PulseState, PulseRead, absent, present, Answers, Config, Effect, nat_written, nat_loaded,
  conntrack_flushed, ring_set, pool_set, describe_asg_ips, is_master, unchanged, Reconciled, same,
  changed, publish_pool, healthy_of, proxies, reconcile_proxy, removed_nodes, flush_if, load_nat,
  vpn_nodes, with_pulse, reconcile_vpn_nat, publish_lvsring, Watcher, vpn_done, vpn_part,
  proxy_done, proxy_part, round, rounds,
}

-- The pool that was set last, and the rules that were loaded last.
unfoldable pub last_pool : List Effect → Option (List Text)
last_pool [] = none
last_pool (pool_set ips ∷ log) = some ips
last_pool (nat_written t ∷ log) = last_pool log
last_pool (nat_loaded t ∷ log) = last_pool log
last_pool (conntrack_flushed ∷ log) = last_pool log
last_pool (ring_set r ∷ log) = last_pool log

unfoldable pub last_loaded : List Effect → Option Text
last_loaded [] = none
last_loaded (nat_loaded t ∷ log) = some t
last_loaded (pool_set ips ∷ log) = last_loaded log
last_loaded (nat_written t ∷ log) = last_loaded log
last_loaded (conntrack_flushed ∷ log) = last_loaded log
last_loaded (ring_set r ∷ log) = last_loaded log

-- The rules loaded last are a render for these nodes.
abbrev pub LoadedFor : List Text → List Effect → Type 0
LoadedFor nodes log =
    (ts : Text) × ((id : Text) × ((ip : Text) × (last_loaded log
          ≡ some (render_ipsec_nat ts id ip nodes))))

-- The remembered sets are those of the last calls.
pub record Remembers (s : Watcher) : Type 0 where
  pub pool : (ips : List Text) → s.last_proxy ≡ some ips → last_pool s.log ≡ some ips
  pub nodes : (ips : List Text) → s.last_vpn ≡ some ips → LoadedFor ips s.log

texts_eq_sound : (s t : List Text) → texts_eq s t ≡ true → s ≡ t
unfolding texts_eq
texts_eq_sound [] [] e = refl
texts_eq_sound [] (y ∷ t) e = absurd (ground arith)
texts_eq_sound (x ∷ s) [] e = absurd (ground arith)
texts_eq_sound (x ∷ s) (y ∷ t) e =
    ap₂ (λ a b. a ∷ b) (text_eq_sound x y (ground arith)) (texts_eq_sound s t (ground arith))

unchanged_sound :
    (last : Option (List Text)) (ips : List Text) → unchanged last ips ≡ true → last ≡ some ips
unchanged_sound none ips e = absurd (ground arith)
unchanged_sound (some l) ips e = ap some (texts_eq_sound l ips e)

-- What a reconcile of the rules does to the log.
abbrev LoadStep : List Effect → Reconciled × List Effect → Type 0
LoadStep log (changed nodes, log') = (last_pool log' ≡ last_pool log) × LoadedFor nodes log'
LoadStep log (same, log') = (last_pool log' ≡ last_pool log) × (last_loaded log' ≡ last_loaded log)
LoadStep log (Reconciled.failed, log') =
    (last_pool log' ≡ last_pool log) × (last_loaded log' ≡ last_loaded log)

load_nat-LoadStep :
    (a : Answers) (st : PulseState) (last : Option (List Text)) (ips : List Text)
    (log : List Effect)
    → LoadStep log (load_nat a st last ips log)
unfolding last_pool last_loaded
load_nat-LoadStep a st last ips log = elim (Bool-cases (unchanged last ips)) [
  | inl u ↦ rw u (refl, refl)
  | inr u ↦ elim (Bool-cases a.write_file) [
    | inr w ↦ rw u (rw w (refl, refl))
    | inl w ↦ elim (Bool-cases a.reload) [
      | inr r ↦ rw u (rw w (rw r (refl, refl)))
      | inl r ↦ rw u (rw w (rw r (flushed (not (is_empty (removed_nodes last ips))))))
    ]
  ]
]
  where
    rendered : Text
    rendered = render_ipsec_nat a.time st.instance_id st.eth0_secondary_ip ips

    flushed :
        (b : Bool)
        → LoadStep log
            (changed ips, flush_if b a (nat_loaded rendered ∷ nat_written rendered ∷ log))
    flushed false = (refl, (a.time, (st.instance_id, (st.eth0_secondary_ip, refl))))
    flushed true = elim (Bool-cases a.flush) [
      | inl f ↦ rw f (refl, (a.time, (st.instance_id, (st.eth0_secondary_ip, refl))))
      | inr f ↦ rw f (refl, (a.time, (st.instance_id, (st.eth0_secondary_ip, refl))))
    ]

reconcile_vpn_nat-LoadStep :
    (a : Answers) (last : Option (List Text)) (log : List Effect)
    → LoadStep log (reconcile_vpn_nat a last log)
unfolding reconcile_vpn_nat
reconcile_vpn_nat-LoadStep a last log = by_pulse a.pulse
  where
    by_nodes : (st : PulseState) (o : Option (List Text)) → LoadStep log (vpn_nodes a st last o log)
    by_nodes st none = (refl, refl)
    by_nodes st (some ips) = load_nat-LoadStep a st last ips log

    by_pulse : (p : PulseRead) → LoadStep log (with_pulse a p last log)
    by_pulse PulseRead.failed = (refl, refl)
    by_pulse absent = (refl, refl)
    by_pulse (present st) = by_nodes st (describe_asg_ips a st.vpn_asg_name none)

ring-pool :
    (a : Answers) (ips : List Text) (log : List Effect)
    → last_pool (publish_lvsring a ips log) ≡ last_pool log
unfolding publish_lvsring last_pool
ring-pool a ips log = elim (Bool-cases a.set_ring) [ inl r ↦ rw r refl | inr r ↦ rw r refl ]

ring-loaded :
    (a : Answers) (ips : List Text) (log : List Effect)
    → last_loaded (publish_lvsring a ips log) ≡ last_loaded log
unfolding publish_lvsring last_loaded
ring-loaded a ips log = elim (Bool-cases a.set_ring) [ inl r ↦ rw r refl | inr r ↦ rw r refl ]

vpn_done-Remembers :
    (a : Answers) (s : Watcher) (r : Reconciled × List Effect)
    → Remembers s
    → LoadStep s.log r
    → Remembers (vpn_done a s r)
vpn_done-Remembers a s (changed ips, log) h (p, (ts, (id, (addr, l)))) = record {
  pool = λ xs e. ring-pool a ips log ∙ (p ∙ h.pool xs e);
  nodes = λ xs e. (
    ts,
    (
      id,
      (
        addr,
        (ring-loaded a ips log ∙ l) ∙ ap (λ ns. some (render_ipsec_nat ts id addr ns)) (some_inj e),
      ),
    ),
  );
}
  where
    some_inj : {xs ys : List Text} → some xs ≡ some ys → xs ≡ ys
    some_inj e = ap (λ o. unwrap_or o []) e
vpn_done-Remembers a s (same, log) h (p, l) = record {
  pool = λ xs e. p ∙ h.pool xs e;
  nodes = λ xs e. let (ts, (id, (addr, q))) = h.nodes xs e in (ts, (id, (addr, l ∙ q)));
}
vpn_done-Remembers a s (Reconciled.failed, log) h (p, l) = record {
  pool = λ xs e. p ∙ h.pool xs e;
  nodes = λ xs e. let (ts, (id, (addr, q))) = h.nodes xs e in (ts, (id, (addr, l ∙ q)));
}

vpn_part-Remembers :
    (c : Config) (a : Answers) (s : Watcher) → Remembers s → Remembers (vpn_part c a s)
unfolding vpn_part
vpn_part-Remembers c a s h = elim (Bool-cases c.manage_vpn_nat) [
  | inl m ↦ rw m (
      vpn_done-Remembers a s (reconcile_vpn_nat a s.last_vpn s.log) h
        (reconcile_vpn_nat-LoadStep a s.last_vpn s.log))
  | inr m ↦ rw m h
]

-- What a reconcile of the pool does to the log.
abbrev PoolStep : List Effect → Reconciled × List Effect → Type 0
PoolStep log (changed ips, log') =
    (last_pool log' ≡ some ips) × (last_loaded log' ≡ last_loaded log)
PoolStep log (same, log') = log' ≡ log
PoolStep log (Reconciled.failed, log') = log' ≡ log

publish_pool-PoolStep :
    (a : Answers) (last : Option (List Text)) (ips : List Text) (log : List Effect)
    → PoolStep log (publish_pool a last ips log)
unfolding last_pool last_loaded
publish_pool-PoolStep a last ips log = elim (Bool-cases (unchanged last ips)) [
  | inl u ↦ rw u refl
  | inr u ↦ elim (Bool-cases a.set_pool) [
    | inl p ↦ rw u (rw p (refl, refl))
    | inr p ↦ rw u (rw p refl)
  ]
]

reconcile_proxy-PoolStep :
    (c : Config) (a : Answers) (last : Option (List Text)) (log : List Effect)
    → PoolStep log (reconcile_proxy c a last log)
unfolding reconcile_proxy
reconcile_proxy-PoolStep c a last log =
    by_members (describe_asg_ips a c.proxy_asg (some c.backend_cidrs))
  where
    by_members : (o : Option (List Text)) → PoolStep log (proxies a last o log)
    by_members none = refl
    by_members (some cs) = publish_pool-PoolStep a last (healthy_of a cs) log

proxy_done-Remembers :
    (s : Watcher) (last : Option (List Text)) (r : Reconciled × List Effect)
    → Remembers s
    → ((ips : List Text) → last ≡ some ips → s.last_proxy ≡ some ips)
    → PoolStep s.log r
    → Remembers (proxy_done s last r)
proxy_done-Remembers s last (changed ips, log) h k (p, l) = record {
  pool = λ xs e. p ∙ e;
  nodes = λ xs e. let (ts, (id, (addr, q))) = h.nodes xs e in (ts, (id, (addr, l ∙ q)));
}
proxy_done-Remembers s last (same, log) h k e' = record {
  pool = λ xs e. ap last_pool e' ∙ h.pool xs (k xs e);
  nodes = λ xs e. subst (LoadedFor xs) (sym e') (h.nodes xs e);
}
proxy_done-Remembers s last (Reconciled.failed, log) h k e' = record {
  pool = λ xs e. ap last_pool e' ∙ h.pool xs (k xs e);
  nodes = λ xs e. subst (LoadedFor xs) (sym e') (h.nodes xs e);
}

proxy_part-Remembers :
    (c : Config) (a : Answers) (s : Watcher) → Remembers s → Remembers (proxy_part c a s)
unfolding proxy_part
proxy_part-Remembers c a s h = elim (Bool-cases (is_master a)) [
  | inl m ↦ rw m (
      proxy_done-Remembers s (if s.was_master then s.last_proxy else none)
        (reconcile_proxy c a (if s.was_master then s.last_proxy else none) s.log) h
        (λ ips e. kept s.was_master ips e)
        (reconcile_proxy-PoolStep c a (if s.was_master then s.last_proxy else none) s.log))
  | inr m ↦ elim (Bool-cases s.was_master) [
    | inl b ↦ rw m (rw b (record { pool = λ xs e. absurd (ground arith); nodes = h.nodes }))
    | inr b ↦ rw m (rw b (record { pool = h.pool; nodes = h.nodes }))
  ]
]
  where
    kept :
        (b : Bool) (ips : List Text)
        → (if b then s.last_proxy else none) ≡ some ips
        → s.last_proxy ≡ some ips
    kept true ips e = e
    kept false ips e = absurd (ground arith)

round-Remembers : (c : Config) (a : Answers) (s : Watcher) → Remembers s → Remembers (round c a s)
unfolding round
round-Remembers c a s h = by_credentials a.credentials
  where
    forget : (t : Watcher) → Remembers t → Remembers (record t { was_master = is_master a })
    forget t k = record { pool = k.pool; nodes = k.nodes }

    by_credentials :
        (b : Bool)
        → Remembers
            (record (if b then proxy_part c a (vpn_part c a s) else s) { was_master = is_master a })
    by_credentials true =
        forget _ (proxy_part-Remembers c a (vpn_part c a s) (vpn_part-Remembers c a s h))
    by_credentials false = forget s h

-- Over any rounds, errors of any call included, the sets that the watcher remembers are those of its
-- last calls that succeeded: the pool it set last, and the nodes of the rules it loaded last.
pub rounds-Remembers :
    (c : Config) (answers : List Answers) (s : Watcher)
    → Remembers s
    → Remembers (rounds c answers s)
unfolding rounds
rounds-Remembers c [] s h = h
rounds-Remembers c (a ∷ answers) s h =
    rounds-Remembers c answers (round c a s) (round-Remembers c a s h)

published :
    (a : Answers) (last : Option (List Text)) (ips : List Text) (log : List Effect)
    → a.set_pool ≡ true
    → ((l : List Text) → last ≡ some l → last_pool log ≡ some l)
    → last_pool (publish_pool a last ips log).1 ≡ some ips
unfolding last_pool
published a last ips log p k = elim (Bool-cases (unchanged last ips)) [
  | inl u ↦ rw u (k ips (unchanged_sound last ips u))
  | inr u ↦ rw u (rw p refl)
]

done_log :
    (s : Watcher) (last : Option (List Text)) (r : Reconciled × List Effect)
    → (proxy_done s last r).log ≡ r.1
done_log s last (changed ips, log) = refl
done_log s last (same, log) = refl
done_log s last (Reconciled.failed, log) = refl

-- A round on the master in which the credentials, the description of the proxies and the write to
-- Valkey succeed leaves as the pool that was set last, whether the round had to set it or not, those
-- of the described proxies that pass their probe, each as often as it was described, in the order of
-- their addresses as numbers.
pub round_publishes :
    (c : Config) (a : Answers) (s : Watcher) (candidates : List Text)
    → Remembers s
    → a.credentials ≡ true
    → is_master a ≡ true
    → describe_asg_ips a c.proxy_asg (some c.backend_cidrs) ≡ some candidates
    → a.set_pool ≡ true
    → (pool : List Text) × (last_pool (round c a s).log ≡ some pool) × IsPool a candidates pool
unfolding round proxy_part reconcile_proxy
round_publishes c a s cs h cr m d p = (
  healthy_of a cs,
  ap (λ b. last_pool (if b then proxy_part c a (vpn_part c a s) else s).log) cr
      ∙ (ap
            (λ b.
              last_pool
                (if b
                  then proxy_done v last (reconcile_proxy c a last v.log)
                  else (if v.was_master then record v { last_proxy = none } else v)).log)
            m
          ∙ (ap last_pool (done_log v last (reconcile_proxy c a last v.log))
              ∙ (ap (λ o. last_pool (proxies a last o v.log).1) d
                  ∙ published a last (healthy_of a cs) v.log p
                      (λ l e. (vpn_part-Remembers c a s h).pool l (kept v.was_master l e))))),
  healthy_of-IsPool a cs,
)
  where
    v : Watcher
    v = vpn_part c a s

    last : Option (List Text)
    last = if v.was_master then v.last_proxy else none

    kept :
        (b : Bool) (ips : List Text)
        → (if b then v.last_proxy else none) ≡ some ips
        → v.last_proxy ≡ some ips
    kept true ips e = e
    kept false ips e = absurd (ground arith)
