-- ===== src/Node/Vrf/Conserved/Steps.antt =====
-- ipsecnode/src/vpp.rs: the events keep the allocator's indexes.
use fleetsuite.Common.{
  ℕ, ◌+◌, ◌-◌, ◌^◌, ◌≤◌, ◌<◌, ◌≡◌, refl, sym, ap, ap₂, subst, ◌∙◌, inl, inr, Bool, true, false, not,
  ◌&&◌, Option, none, some, List, [], ◌∷◌, arith, ltb, leb, ◌==◌, Bool-cases, Option-cases, length,
}
use fleetsuite.Common.Text.{Text}
use fleetsuite.Common.Assoc.{get, insert, remove}
use fleetsuite.Node.Host.{Log}
use fleetsuite.Node.Nat.{
  NatRecord, Records, Event, up, down, get_nat_record, is_customer_mode, incr,
}
use fleetsuite.Node.Vrf.{
  SiteVrfState, VrfCache, Pool, VrfAllocator, alloc, release, if_id_from_peer,
}
use fleetsuite.Node.Vrf.Sites.{Env, teardown_site_vrf, teardown_site_bypass, setup_site_bypass}
use fleetsuite.Node.Vrf.Events.{
  VrfState, finish_bypass, finish_vrf, start_site, with_record, with_id, vrf_child_up, last_down,
  vrf_child_down, vrf_handle, vrf_handle_all, taken, given_back,
}
use fleetsuite.Node.Vrf.Conserved.{
  Resource, fwd_tables, ret_tables, taps, pool_of, index_of, one_if, holders, occurrences,
  Conserved, holders-insert, holders-update, holders-remove, alloc-each, alloc-next, Holds,
  setup_site_vrf-Holds, setup_site_bypass-bypass,
}

index-held :
    (w : Resource) (a : VrfAllocator) (site : SiteVrfState)
    → Holds (alloc a.fwd).0 (alloc a.ret).0 (alloc a.tap).0 site
    → index_of w site ≡ (alloc (pool_of w a)).0
index-held fwd_tables a site (b, (f, (r, t))) = f
index-held ret_tables a site (b, (f, (r, t))) = r
index-held taps a site (b, (f, (r, t))) = t

module _ (env : Env) (w : Resource) (first : ℕ) where
  abbrev pub next_of : VrfAllocator → ℕ
  next_of a = (pool_of w a).next

  -- An event keeps the indexes, and takes at most one new one.
  abbrev pub Kept : VrfState → VrfState → Type 0
  Kept s t = Conserved w first t.cache t.allocator × (next_of t.allocator ≤ next_of s.allocator + 1)

  pool-taken : (a : VrfAllocator) → pool_of w (taken env a) ≡ (alloc (pool_of w a)).1
  pool-taken a = by_resource w
    where
      by_resource : (v : Resource) → pool_of v (taken env a) ≡ (alloc (pool_of v a)).1
      by_resource fwd_tables = refl
      by_resource ret_tables = refl
      by_resource taps = refl

  pool-given_back :
      (a : VrfAllocator) (site : SiteVrfState)
      → pool_of w (given_back env site.fwd_table site.ret_table site.tap_idx a)
        ≡ release (index_of w site) (pool_of w a)
  pool-given_back a site = by_resource w
    where
      by_resource :
          (v : Resource)
          → pool_of v (given_back env site.fwd_table site.ret_table site.tap_idx a)
            ≡ release (index_of v site) (pool_of v a)
      by_resource fwd_tables = refl
      by_resource ret_tables = refl
      by_resource taps = refl

  pool-returned :
      (a b : VrfAllocator)
      → pool_of w (given_back env (alloc a.fwd).0 (alloc a.ret).0 (alloc a.tap).0 b)
        ≡ release (alloc (pool_of w a)).0 (pool_of w b)
  pool-returned a b = by_resource w
    where
      by_resource :
          (v : Resource)
          → pool_of v (given_back env (alloc a.fwd).0 (alloc a.ret).0 (alloc a.tap).0 b)
            ≡ release (alloc (pool_of v a)).0 (pool_of v b)
      by_resource fwd_tables = refl
      by_resource ret_tables = refl
      by_resource taps = refl

  -- The counts, for a pool that is known.
  conserve :
      (cache : VrfCache) (a : VrfAllocator) (l : Log) (s : VrfState) (p : Pool)
      → pool_of w a ≡ p
      → ((i : ℕ) → holders w i cache + occurrences i p.free ≡ one_if (leb first i && ltb i p.next))
      → first ≤ p.next
      → p.next ≤ next_of s.allocator + 1
      → Kept s (record { cache = cache; allocator = a; log = l })
  conserve cache a l s p q e h b = (
    record {
      each = λ i.
          subst
            (λ x. holders w i cache + occurrences i x.free ≡ one_if (leb first i && ltb i x.next))
            (sym q) (e i);
      above = subst (λ x. first ≤ x.next) (sym q) h;
    },
    subst (λ x. x.next ≤ next_of s.allocator + 1) (sym q) b,
  )

  module _ (s : VrfState) (c : Conserved w first s.cache s.allocator)
      (room : next_of s.allocator + 1 < 2 ^ 32) where
    same : Kept s s
    same = (c, omega arith)

    update-Kept :
        (k : Text) (v u : SiteVrfState) (l : Log)
        → get k s.cache ≡ some u
        → v.bypass ≡ u.bypass
        → index_of w v ≡ index_of w u
        → Kept s (record { cache = insert k v s.cache; allocator = s.allocator; log = l })
    update-Kept k v u l e b n = (
      record {
        each = λ i.
            ap (λ h. h + occurrences i (pool_of w s.allocator).free)
              (holders-update w i k v u s.cache e b n)
            ∙ c.each i;
        above = c.above;
      },
      omega arith,
    )

    bypass-Kept :
        (k : Text) (r : NatRecord)
        → get k s.cache ≡ none
        → (o : Option SiteVrfState × Log)
        → ((site : SiteVrfState) → o.0 ≡ some site → site.bypass ≡ true)
        → Kept s (finish_bypass env k s r o)
    bypass-Kept k r e (none, l) h = (record { each = c.each; above = c.above }, omega arith)
    bypass-Kept k r e (some site, l) h = (
      record {
        each = λ i.
            ap (λ n. n + occurrences i (pool_of w s.allocator).free)
              (holders-insert w i k site s.cache e
                ∙ ap (λ b. one_if (not b && i == index_of w site) + holders w i s.cache)
                    (h site refl))
            ∙ omega (arith, c.each i);
        above = c.above;
      },
      omega arith,
    )

    vrf-Kept :
        (k : Text) (if_id : ℕ)
        → get k s.cache ≡ none
        → (o : Option SiteVrfState × Log)
        → ((site : SiteVrfState)
            → o.0 ≡ some site
            → Holds
                (alloc s.allocator.fwd).0
                (alloc s.allocator.ret).0
                (alloc s.allocator.tap).0
                site)
        → Kept s (finish_vrf env k if_id s o)
    unfolding release occurrences
    vrf-Kept k if_id e (some site, l) h =
        conserve (insert k site s.cache) (taken env s.allocator) l s (alloc p).1
          (pool-taken s.allocator)
          (λ i.
            ap (λ n. n + occurrences i (alloc p).1.free)
              (holders-insert w i k site s.cache e ∙ weighed i)
            ∙ alloc-each p first i (holders w i s.cache) (c.each i) c.above room)
          (le c.above (alloc-next p 0 (omega (arith, room))).0)
          (alloc-next p 0 (omega (arith, room))).1
      where
        p : Pool
        p = pool_of w s.allocator

        weighed :
            (i : ℕ)
            → one_if (not site.bypass && i == index_of w site) + holders w i s.cache
              ≡ one_if (i == (alloc p).0) + holders w i s.cache
        weighed i =
            ap₂ (λ b j. one_if (not b && i == j) + holders w i s.cache) (h site refl).0
              (index-held w s.allocator site (h site refl))

        le : {x y z : ℕ} → x ≤ y → y ≤ z → x ≤ z
        le m n = omega (arith, m, n)
    vrf-Kept k if_id e (none, l) h =
        conserve s.cache
          (given_back env (alloc s.allocator.fwd).0 (alloc s.allocator.ret).0
            (alloc s.allocator.tap).0 (taken env s.allocator))
          l' s (release (alloc p).0 (alloc p).1)
          (pool-returned s.allocator (taken env s.allocator)
            ∙ ap (release (alloc p).0) (pool-taken s.allocator))
          (λ i. omega (arith, alloc-each p first i (holders w i s.cache) (c.each i) c.above room))
          (le c.above (alloc-next p 0 (omega (arith, room))).0)
          (alloc-next p 0 (omega (arith, room))).1
      where
        p : Pool
        p = pool_of w s.allocator

        l' : Log
        l' = (finish_vrf env k if_id s (none, l)).log

        le : {x y z : ℕ} → x ≤ y → y ≤ z → x ≤ z
        le m n = omega (arith, m, n)

    pub up-Kept : (records : Records) (k : Text) → Kept s (vrf_child_up env records k s)
    unfolding vrf_child_up
    up-Kept records k = elim (Option-cases (get k s.cache)) [
      | inl e ↦ rw e (fresh e (if_id_from_peer k))
      | inr (u, e) ↦ rw e (
          update-Kept k (record u { child_sa_count = incr u.child_sa_count }) u s.log e refl
            (same_index u))
    ]
      where
        same_index :
            (u : SiteVrfState)
            → index_of w (record u { child_sa_count = incr u.child_sa_count }) ≡ index_of w u
        same_index u = by_resource w
          where
            by_resource :
                (v : Resource)
                → index_of v (record u { child_sa_count = incr u.child_sa_count }) ≡ index_of v u
            by_resource fwd_tables = refl
            by_resource ret_tables = refl
            by_resource taps = refl

        started :
            get k s.cache ≡ none
            → (if_id : ℕ) (r : NatRecord) (b : Bool) → Kept s (start_site env k if_id s r b)
        started e if_id r true =
            bypass-Kept k r e (setup_site_bypass env k if_id r s.log)
              (λ site. setup_site_bypass-bypass env k if_id r s.log site)
        started e if_id r false =
            vrf-Kept k if_id e _ (λ site. setup_site_vrf-Holds env k if_id _ _ _ _ _ r s.log site)

        recorded :
            get k s.cache ≡ none
            → (if_id : ℕ) (o : Option NatRecord) → Kept s (with_record env k if_id s o)
        recorded e if_id none = same
        recorded e if_id (some r) = started e if_id r (is_customer_mode r)

        fresh : get k s.cache ≡ none → (o : Option ℕ) → Kept s (with_id env records k s o)
        fresh e none = same
        fresh e (some if_id) = recorded e if_id (get_nat_record records k)

    pub down-Kept : (k : Text) → Kept s (vrf_child_down env k s)
    unfolding vrf_child_down release occurrences
    down-Kept k = elim (Option-cases (get k s.cache)) [
      | inl e ↦ rw e same
      | inr (u, e) ↦ elim (Bool-cases (ltb 0 (u.child_sa_count - 1))) [
        | inl b ↦ rw e (
            rw b (
              update-Kept k (record u { child_sa_count = u.child_sa_count - 1 }) u s.log e refl
                (same_index u)))
        | inr b ↦ rw e (rw b (last u e))
      ]
    ]
      where
        same_index :
            (u : SiteVrfState)
            → index_of w (record u { child_sa_count = u.child_sa_count - 1 }) ≡ index_of w u
        same_index u = by_resource w
          where
            by_resource :
                (v : Resource)
                → index_of v (record u { child_sa_count = u.child_sa_count - 1 }) ≡ index_of v u
            by_resource fwd_tables = refl
            by_resource ret_tables = refl
            by_resource taps = refl

        removed :
            (u : SiteVrfState) (i : ℕ) (b : Bool)
            → get k s.cache ≡ some u
            → u.bypass ≡ b
            → one_if (not b && i == index_of w u) + holders w i (remove k s.cache)
              ≡ holders w i s.cache
        removed u i b e q = sym (
            holders-remove w i k u s.cache e
            ∙ ap (λ y. one_if (not y && i == index_of w u) + holders w i (remove k s.cache)) q)

        last : (u : SiteVrfState) → get k s.cache ≡ some u → Kept s (last_down env k s u)
        last u e = elim (Bool-cases u.bypass) [
          | inl q ↦ rw q (
              conserve (remove k s.cache) s.allocator (teardown_site_bypass env u s.log) s
                (pool_of w s.allocator) refl (λ i. omega (arith, c.each i, removed u i true e q))
                c.above (omega arith))
          | inr q ↦ rw q (
              conserve (remove k s.cache)
                (given_back env u.fwd_table u.ret_table u.tap_idx s.allocator)
                (teardown_site_vrf env u s.log) s (release (index_of w u) (pool_of w s.allocator))
                (pool-given_back s.allocator u)
                (λ i. omega (arith, c.each i, removed u i false e q)) c.above (omega arith))
        ]

  -- Over any sequence of UPs and DOWNs, failed set-ups included, each index of a pool that was ever
  -- given out is held by exactly one site or free exactly once, so that no two sites share one and
  -- none is lost, where the index that comes next and the number of events add up to less than 2^32.
  pub vrf_handle_all-Conserved :
      (es : List Event) (s : VrfState)
      → Conserved w first s.cache s.allocator
      → next_of s.allocator + length es < 2 ^ 32
      → Conserved w first (vrf_handle_all env es s).cache (vrf_handle_all env es s).allocator
  unfolding vrf_handle_all vrf_handle
  vrf_handle_all-Conserved [] s c b = c
  vrf_handle_all-Conserved (up records k ∷ es) s c b =
      let (kept, more) = up-Kept s c (omega (arith, b)) records k in
      vrf_handle_all-Conserved es (vrf_child_up env records k s) kept (omega (arith, b, more))
  vrf_handle_all-Conserved (down k ∷ es) s c b =
      let (kept, more) = down-Kept s c (omega (arith, b)) k in
      vrf_handle_all-Conserved es (vrf_child_down env k s) kept (omega (arith, b, more))
