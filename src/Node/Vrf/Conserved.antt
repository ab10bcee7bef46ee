-- ===== src/Node/Vrf/Conserved.antt =====
-- ipsecnode/src/vpp.rs: every index that the allocator ever gave out is in the hands of exactly one
-- site, or free: the counts, and what a set-up returns.
pub mod Steps
use fleetsuite.Common.{
  ℕ, zero, suc, ◌+◌, ◌-◌, ◌*◌, ◌/◌, ◌%◌, ◌^◌, ◌≤◌, ◌<◌, ◌≡◌, refl, sym, ap, ap₂, subst, ◌∙◌, ◌≢◌,
  ◌↔◌, ◌⊎◌, inl, inr, Bool, true, false, not, ◌&&◌, ◌||◌, Option, none, some, List, [], ◌∷◌, ◌++◌,
  map, arith, ltb, leb, ◌==◌, if◌then◌else◌, ==_iff, Bool-cases, Option-cases, is_some, unwrap_or,
  map_option, and_then, length, get_elem?, any, all, find, filter, is_empty, All, length-append,
  filter_map, cons_some, flat_map, All-append, All-intro, All-mono, All-filter_map, All-flat_map,
}
use fleetsuite.Common.Text.{Text, text_eq}
use fleetsuite.Common.Assoc.{Assoc, get, insert, remove}
use fleetsuite.Node.Host.{Log}
use fleetsuite.Node.Nat.{
  NatRecord, Records, Event, up, down, get_nat_record, is_customer_mode, incr,
}
use fleetsuite.Node.Vrf.{
  SiteVrfState, VrfCache, Pool, VrfAllocator, TapIps, alloc, alloc_from, release, if_id_from_peer,
  inner_tap_name, tap_ips_from_idx,
}
use fleetsuite.Node.Vrf.Calls.{Call, return, ◌>>=◌, then_call}
use fleetsuite.Node.Vrf.Sites.{Env, setup_site_vrf, setup_site_bypass}
use fleetsuite.Node.Vrf.Events.{
  VrfState, finish_bypass, finish_vrf, start_site, with_record, with_id, site_up, vrf_child_up,
  last_down, site_down, vrf_child_down, taken, given_back,
}

-- The allocator's three pools, and a site's index of each.
pub data Resource : Type 0 where
  fwd_tables ret_tables taps : Resource

abbrev pub pool_of : Resource → VrfAllocator → Pool
pool_of fwd_tables a = a.fwd
pool_of ret_tables a = a.ret
pool_of taps a = a.tap

abbrev pub index_of : Resource → SiteVrfState → ℕ
index_of fwd_tables site = site.fwd_table
index_of ret_tables site = site.ret_table
index_of taps site = site.tap_idx

abbrev pub one_if : Bool → ℕ
one_if b = if b then 1 else 0

-- How many sites hold an index; sites in the mode without translation hold none.
unfoldable pub holders : Resource → ℕ → VrfCache → ℕ
holders w i [] = 0
holders w i (e ∷ m) = one_if (not e.1.bypass && i == index_of w e.1) + holders w i m

unfoldable pub occurrences : ℕ → List ℕ → ℕ
occurrences i [] = 0
occurrences i (x ∷ xs) = one_if (i == x) + occurrences i xs

-- Each index from the pool's first up to its next is held once or free once, no other one is.
pub record Conserved (w : Resource) (first : ℕ) (cache : VrfCache) (a : VrfAllocator) : Type 0 where
  pub each :
      (i : ℕ)
      → holders w i cache + occurrences i (pool_of w a).free
        ≡ one_if (leb first i && ltb i (pool_of w a).next)
  pub above : first ≤ (pool_of w a).next

holders-insert :
    (w : Resource) (i : ℕ) (k : Text) (v : SiteVrfState) (m : VrfCache)
    → get k m ≡ none
    → holders w i (insert k v m) ≡ one_if (not v.bypass && i == index_of w v) + holders w i m
unfolding holders get insert
holders-insert w i k v [] e = refl
holders-insert w i k v (x ∷ m) e = elim (Bool-cases (text_eq k x.0)) [
  | inl b ↦ absurd (refute b)
  | inr b ↦ rw b (rw (holders-insert w i k v m (later b)) (omega arith))
]
  where
    later : text_eq k x.0 ≡ false → get k m ≡ none
    later b = subst (λ c. (if c then some x.1 else get k m) ≡ none) b e

    refute : text_eq k x.0 ≡ true → ⊥
    refute b = cc (subst (λ c. (if c then some x.1 else get k m) ≡ none) b e)

holders-update :
    (w : Resource) (i : ℕ) (k : Text) (v u : SiteVrfState) (m : VrfCache)
    → get k m ≡ some u
    → v.bypass ≡ u.bypass
    → index_of w v ≡ index_of w u
    → holders w i (insert k v m) ≡ holders w i m
unfolding holders get insert
holders-update w i k v u [] e b n = absurd (ground arith)
holders-update w i k v u (x ∷ m) e b n = elim (Bool-cases (text_eq k x.0)) [
  | inl c ↦ rw c (
      ap₂ (λ p j. one_if (not p && i == j) + holders w i m) b n
      ∙ ap (λ y. one_if (not y.bypass && i == index_of w y) + holders w i m) (sym (found c)))
  | inr c ↦ rw c (rw (holders-update w i k v u m (later c) b n) refl)
]
  where
    later : text_eq k x.0 ≡ false → get k m ≡ some u
    later c = subst (λ d. (if d then some x.1 else get k m) ≡ some u) c e

    found : text_eq k x.0 ≡ true → x.1 ≡ u
    found c = cc (subst (λ d. (if d then some x.1 else get k m) ≡ some u) c e)

holders-remove :
    (w : Resource) (i : ℕ) (k : Text) (u : SiteVrfState) (m : VrfCache)
    → get k m ≡ some u
    → holders w i m ≡ one_if (not u.bypass && i == index_of w u) + holders w i (remove k m)
unfolding holders get remove
holders-remove w i k u [] e = absurd (ground arith)
holders-remove w i k u (x ∷ m) e = elim (Bool-cases (text_eq k x.0)) [
  | inl c ↦ rw c (ap (λ y. one_if (not y.bypass && i == index_of w y) + holders w i m) (found c))
  | inr c ↦ rw c (rw (holders-remove w i k u m (later c)) (omega arith))
]
  where
    later : text_eq k x.0 ≡ false → get k m ≡ some u
    later c = subst (λ d. (if d then some x.1 else get k m) ≡ some u) c e

    found : text_eq k x.0 ≡ true → x.1 ≡ u
    found c = cc (subst (λ d. (if d then some x.1 else get k m) ≡ some u) c e)

-- Taking an index: one more holder keeps the count.
alloc-each :
    (p : Pool) (first i n : ℕ)
    → n + occurrences i p.free ≡ one_if (leb first i && ltb i p.next)
    → first ≤ p.next
    → p.next + 1 < 2 ^ 32
    → (one_if (i == (alloc p).0) + n) + occurrences i (alloc p).1.free
      ≡ one_if (leb first i && ltb i (alloc p).1.next)
unfolding alloc occurrences
alloc-each p first i n e h b = by_free p.free p.next e h b
  where
    by_free :
        (free : List ℕ) (next : ℕ)
        → n + occurrences i free ≡ one_if (leb first i && ltb i next)
        → first ≤ next
        → next + 1 < 2 ^ 32
        → (one_if (i == (alloc_from next free).0) + n) + occurrences i (alloc_from next free).1.free
          ≡ one_if (leb first i && ltb i (alloc_from next free).1.next)
    by_free [] next e h b = rw no_wrap grown
      where
        no_wrap : (next + 1) % 2 ^ 32 ≡ next + 1
        no_wrap = omega (arith, b)

        grown : (one_if (i == next) + n) + 0 ≡ one_if (leb first i && ltb i (next + 1))
        grown = ground arith
    by_free (t ∷ free) next e h b = omega (arith, e)

alloc-next :
    (p : Pool) (n : ℕ)
    → p.next + n + 1 < 2 ^ 32
    → (p.next ≤ (alloc p).1.next) × ((alloc p).1.next ≤ p.next + 1)
unfolding alloc
alloc-next p n b = by_free p.free p.next b
  where
    by_free :
        (free : List ℕ) (next : ℕ)
        → next + n + 1 < 2 ^ 32
        → (next ≤ (alloc_from next free).1.next) × ((alloc_from next free).1.next ≤ next + 1)
    by_free [] next b = (omega (arith, b), omega (arith, b))
    by_free (t ∷ free) next b = (omega arith, omega arith)

-- What every result of a call has.
abbrev Always : {A : Type 0} → (A → Type 0) → Call A → Type 0
Always P m = (log : Log) (a : _) → (m log).0 ≡ some a → P a

Always-return : {A : Type 0} (P : A → Type 0) (a : A) → P a → Always P (return a)
unfolding return
Always-return P a p log b e = subst P (some_inj e) p
  where
    some_inj : some a ≡ some b → a ≡ b
    some_inj q = cc

Always-bind :
    {A B : Type 0} (P : B → Type 0) (m : Call A) (f : A → Call B)
    → ((a : A) → Always P (f a))
    → Always P (m >>= f)
unfolding ◌>>=◌
Always-bind P m f h log b e = by_result (m log) e
  where
    by_result : (r : _) → (then_call f r).0 ≡ some b → P b
    by_result (none, l) q = absurd (ground arith)
    by_result (some a, l) q = h a l b q

-- A new site in translating mode holds the indexes it was given.
abbrev Holds : ℕ → ℕ → ℕ → SiteVrfState → Type 0
Holds fwd_table ret_table tap_idx site =
    (site.bypass ≡ false)
    × ((site.fwd_table ≡ fwd_table) × ((site.ret_table ≡ ret_table) × (site.tap_idx ≡ tap_idx)))

module _ (env : Env) where
  setup_site_vrf-Holds :
      (peer_ip : Text) (if_id : ℕ) (inner_if : Text) (f r t : ℕ) (tap_ips : TapIps) (n : NatRecord)
      → Always (Holds f r t) (setup_site_vrf env peer_ip if_id inner_if f r t tap_ips n)
  unfolding setup_site_vrf
  setup_site_vrf-Holds peer_ip if_id inner_if f r t tap_ips n = Always-bind P _ _ λ _.
      Always-bind P _ _ λ _. Always-bind P _ _ λ _. Always-bind P _ _ λ _. Always-bind P _ _ λ _.
        Always-bind P _ _ λ _. Always-bind P _ _ λ _. Always-bind P _ _ λ _. Always-bind P _ _ λ _.
          Always-bind P _ _ λ _. Always-bind P _ _ λ _. Always-bind P _ _ λ _.
            Always-bind P _ _ λ _. Always-bind P _ _ λ _. Always-bind P _ _ λ _.
              Always-bind P _ _ λ _. Always-bind P _ _ λ _.
                Always-bind P _ _
                  λ _. Always-bind P _ _ λ _. Always-return P _ (refl, (refl, (refl, refl)))
    where
      P : SiteVrfState → Type 0
      P = Holds f r t

  setup_site_bypass-bypass :
      (peer_ip : Text) (if_id : ℕ) (n : NatRecord)
      → Always (λ site. site.bypass ≡ true) (setup_site_bypass env peer_ip if_id n)
  unfolding setup_site_bypass
  setup_site_bypass-bypass peer_ip if_id n =
      Always-bind (λ site. site.bypass ≡ true) _ _
        λ _.
          Always-bind (λ site. site.bypass ≡ true) _ _
            λ _. Always-return (λ site. site.bypass ≡ true) _ refl
