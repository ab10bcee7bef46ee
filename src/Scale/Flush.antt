-- ===== src/Scale/Flush.antt =====
-- ipsecscale/src/main.rs: when the connection table is flushed, and a promotion that goes unnoticed.
use fleetsuite.Common.{
  ◌≡◌, refl, ap, subst, ◌∙◌, inl, inr, true, false, not, ◌||◌, Option, none, some, List, [], ◌∷◌,
  arith, if◌then◌else◌, Bool-cases, any, is_empty,
}
use fleetsuite.Common.Text.{Text, texts_eq, text_eq, text_eq_refl, text_eq_sound}
use fleetsuite.Ring.Render.{render_ipsec_nat}
use fleetsuite.Scale.{
  Answers, Config, Effect, nat_written, nat_loaded, conntrack_flushed, is_master, PulseState,
  describe_asg_ips, healthy_of, publish_pool, proxies, proxy_done, vpn_done, reconcile_vpn_nat,
  same, Reconciled, reconcile_proxy, unchanged, changed, removed_nodes, load_nat, Watcher, vpn_part,
  proxy_part, round, rounds,
}

-- A node is gone: it was in the last set, and is not in the new one.
abbrev pub IsGone : List Text → List Text → Text → Type 0
IsGone prev ips ip = (any (text_eq ip) prev ≡ true) × (any (text_eq ip) ips ≡ false)

any_head :
    (x : Text) (xs : List Text) (ip : Text)
    → any (text_eq ip) xs ≡ true
    → any (text_eq ip) (x ∷ xs) ≡ true
any_head x xs ip h = ground arith

removed_nodes-IsGone :
    (prev ips : List Text)
    → is_empty (removed_nodes (some prev) ips) ≡ false
    → (ip : Text) × IsGone prev ips ip
unfolding removed_nodes
removed_nodes-IsGone [] ips e = absurd (ground arith)
removed_nodes-IsGone (x ∷ prev) ips e = elim (Bool-cases (any (text_eq x) ips)) [
  | inl b ↦ later (removed_nodes-IsGone prev ips (skip b))
  | inr b ↦ (x, (here x, b))
]
  where
    here : (x : Text) → any (text_eq x) (x ∷ prev) ≡ true
    here x = rw (text_eq_refl x) refl

    skip : any (text_eq x) ips ≡ true → is_empty (removed_nodes (some prev) ips) ≡ false
    skip b =
        subst
          (λ c.
            is_empty
              (if not c then x ∷ removed_nodes (some prev) ips else removed_nodes (some prev) ips)
            ≡ false)
          b e

    later : (ip : Text) × IsGone prev ips ip → (ip : Text) × IsGone (x ∷ prev) ips ip
    later (ip, (p, n)) = (ip, (any_head x prev ip p, n))

IsGone-removed_nodes :
    (prev ips : List Text) (ip : Text)
    → IsGone prev ips ip
    → is_empty (removed_nodes (some prev) ips) ≡ false
unfolding removed_nodes
IsGone-removed_nodes [] ips ip (p, n) = absurd (ground arith)
IsGone-removed_nodes (x ∷ prev) ips ip (p, n) = elim (Bool-cases (any (text_eq x) ips)) [
  | inr b ↦ rw b refl
  | inl b ↦ rw b (IsGone-removed_nodes prev ips ip (rest b, n))
]
  where
    rest : any (text_eq x) ips ≡ true → any (text_eq ip) prev ≡ true
    rest b = elim (Bool-cases (text_eq ip x)) [
      | inl q ↦ absurd (cc (subst (λ t. any (text_eq t) ips ≡ false) (text_eq_sound ip x q) n, b))
      | inr q ↦ subst (λ c. (c || any (text_eq ip) prev) ≡ true) q p
    ]

abbrev pub loaded : Answers → PulseState → List Text → List Effect → List Effect
loaded a st ips log =
    let rendered = render_ipsec_nat a.time st.instance_id st.eth0_secondary_ip ips in
    nat_loaded rendered ∷ nat_written rendered ∷ log

-- When the nodes changed and the calls succeed, the rules for the new nodes are written and loaded,
-- and the connection table is flushed after that exactly when a node of the last set is gone.
pub load_nat_flushes :
    (a : Answers) (st : PulseState) (prev ips : List Text) (log : List Effect)
    → unchanged (some prev) ips ≡ false
    → a.write_file ≡ true
    → a.reload ≡ true
    → a.flush ≡ true
    → (((ip : Text) × IsGone prev ips ip)
        → load_nat a st (some prev) ips log
          ≡ (changed ips, conntrack_flushed ∷ loaded a st ips log))
      × (¬ ((ip : Text) × IsGone prev ips ip)
          → load_nat a st (some prev) ips log ≡ (changed ips, loaded a st ips log))
load_nat_flushes a st prev ips log u w r f = (gone, stay)
  where
    gone :
        ((ip : Text) × IsGone prev ips ip)
        → load_nat a st (some prev) ips log ≡ (changed ips, conntrack_flushed ∷ loaded a st ips log)
    gone (ip, g) = rw u (rw w (rw r (rw (IsGone-removed_nodes prev ips ip g) (rw f refl))))

    stay :
        ¬ ((ip : Text) × IsGone prev ips ip)
        → load_nat a st (some prev) ips log ≡ (changed ips, loaded a st ips log)
    stay n = elim (Bool-cases (is_empty (removed_nodes (some prev) ips))) [
      | inl e ↦ rw u (rw w (rw r (rw e refl)))
      | inr e ↦ absurd (n (removed_nodes-IsGone prev ips e))
    ]

unchanged_refl : (ips : List Text) → texts_eq ips ips ≡ true
unfolding texts_eq
unchanged_refl [] = refl
unchanged_refl (x ∷ ips) = rw (text_eq_refl x) (unchanged_refl ips)

lost :
    (c : Config) (a : Answers) (t : Watcher)
    → a.credentials ≡ false
    → round c a t ≡ record t { was_master = is_master a }
unfolding round
lost c a t h =
    ap (λ q. record (if q then proxy_part c a (vpn_part c a t) else t) { was_master = is_master a })
      h

done_log :
    (s : Watcher) (last : Option (List Text)) (r : Reconciled × List Effect)
    → (proxy_done s last r).log ≡ r.1
done_log s last (changed ips, log) = refl
done_log s last (same, log) = refl
done_log s last (Reconciled.failed, log) = refl

quiet :
    (a : Answers) (last : Option (List Text)) (ips : List Text) (log : List Effect)
    → last ≡ some ips
    → (publish_pool a last ips log).1 ≡ log
quiet a last ips log h = rw h (rw (unchanged_refl ips) refl)

-- A round on the master whose healthy proxies are the remembered ones does nothing to the pool.
resumed :
    (c : Config) (a : Answers) (t : Watcher) (cs : List Text)
    → c.manage_vpn_nat ≡ false
    → a.credentials ≡ true
    → is_master a ≡ true
    → describe_asg_ips a c.proxy_asg (some c.backend_cidrs) ≡ some cs
    → (if t.was_master then t.last_proxy else none) ≡ some (healthy_of a cs)
    → (round c a t).log ≡ t.log
unfolding round proxy_part vpn_part reconcile_proxy
resumed c a t cs v b m e k =
    ap (λ q. (if q then proxy_part c a (vpn_part c a t) else t).log) b
    ∙ (ap
          (λ q.
            (proxy_part c a
              (if q then vpn_done a t (reconcile_vpn_nat a t.last_vpn t.log) else t)).log)
          v
        ∙ (ap
              (λ q.
                (if q
                  then proxy_done t last (reconcile_proxy c a last t.log)
                  else (if t.was_master then record t { last_proxy = none } else t)).log)
              m
            ∙ (done_log t last (reconcile_proxy c a last t.log)
                ∙ (ap (λ o. (proxies a last o t.log).1) e
                    ∙ quiet a last (healthy_of a cs) t.log k))))
  where
    last : Option (List Text)
    last = if t.was_master then t.last_proxy else none

-- A demotion in a round whose credentials fail is noted, but the pool that the watcher set before
-- stays remembered: after a promotion in such a round, the next round on the master, whose calls
-- succeed, writes no pool where the healthy proxies are the remembered ones, whoever was master in
-- between; the watcher manages no VPN nodes.
pub unnoticed_promotion :
    (c : Config) (demoted promoted back : Answers) (s : Watcher) (candidates : List Text)
    → c.manage_vpn_nat ≡ false
    → demoted.credentials ≡ false
    → is_master demoted ≡ false
    → promoted.credentials ≡ false
    → is_master promoted ≡ true
    → back.credentials ≡ true
    → is_master back ≡ true
    → describe_asg_ips back c.proxy_asg (some c.backend_cidrs) ≡ some candidates
    → s.last_proxy ≡ some (healthy_of back candidates)
    → (((rounds c (demoted ∷ []) s).was_master ≡ false)
        × ((rounds c (demoted ∷ []) s).last_proxy ≡ some (healthy_of back candidates)))
      × ((rounds c (demoted ∷ promoted ∷ back ∷ []) s).log ≡ s.log)
unfolding rounds
unnoticed_promotion c demoted promoted back s cs v d n p r b m e k = (
  (
    ap (λ t. t.was_master) (lost c demoted s d) ∙ n,
    ap (λ t. t.last_proxy) (lost c demoted s d) ∙ k,
  ),
  ap (λ t. (round c back (round c promoted t)).log) (lost c demoted s d)
      ∙ (ap (λ t. (round c back t).log)
            (lost c promoted (record s { was_master = is_master demoted }) p)
          ∙ resumed c back (record s { was_master = is_master promoted }) cs v b m e
              (ap (λ q. if q then s.last_proxy else none) r ∙ k)),
)
