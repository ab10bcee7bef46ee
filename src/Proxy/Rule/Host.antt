-- ===== src/Proxy/Rule/Host.antt =====
-- squid-infoproxy/src/matcher.rs: which hosts a DNS pattern covers.
use fleetsuite.Common.{
  ℕ, ◌≡◌, refl, ap, subst, ◌≢◌, ◌↔◌, inl, inr, Bool, true, false, not, ◌&&◌, Option, none, some, [],
  ◌∷◌, ◌++◌, arith, Bool-cases, length, is_empty, length-append,
}
use fleetsuite.Common.Text.{
  Text, codes, text_eq, text_eq_refl, text_eq_sound, ends_with_sound, ends_with-append,
  strip_prefix, strip_prefix_sound, strip_prefix-append, trim_start_by, append_tail_inj,
}
use fleetsuite.Proxy.Rule.{
  in_domain, by_star, by_notation, normal_host, normal_pattern, host_matches, is_dot,
}

-- The domain itself or a subdomain of it.
pub data InDomain (base h : Text) : Type 0 where
  apex : h ≡ base → InDomain base h
  below : (sub : Text) → h ≡ sub ++ (b'.' ∷ base) → InDomain base h

-- `*.base`, `*suffix`, and a plain domain with or without leading dots.
pub data Covers (d h : Text) : Type 0 where
  star_dot : (base : Text) → d ≡ codes "*." ++ base → base ≢ [] → InDomain base h → Covers d h
  star :
      (suffix front : Text)
      → strip_prefix (codes "*.") d ≡ none
      → d ≡ codes "*" ++ suffix
      → suffix ≢ []
      → h ≡ front ++ suffix
      → Covers d h
  domain :
      strip_prefix (codes "*") d ≡ none
      → trim_start_by is_dot d ≢ []
      → InDomain (trim_start_by is_dot d) h
      → Covers d h

and_true : (a b : Bool) → (a && b) ≡ true → (a ≡ true) × (b ≡ true)
and_true a b h = ground arith

nonempty_sound : (s : Text) → not (is_empty s) ≡ true → s ≢ []
nonempty_sound [] h e = cc
nonempty_sound (c ∷ s) h e = cc

nonempty_complete : (s : Text) → s ≢ [] → not (is_empty s) ≡ true
nonempty_complete [] h = absurd (h refl)
nonempty_complete (c ∷ s) h = refl

in_domain_sound : (base h : Text) → in_domain base h ≡ true → InDomain base h
unfolding in_domain
in_domain_sound base h e = elim (Bool-cases (text_eq h base)) [
  | inl same ↦ apex (text_eq_sound h base same)
  | inr other ↦ let (sub, p) = ends_with_sound (b'.' ∷ base) h (ground arith) in below sub p
]

in_domain_complete : (base h : Text) → InDomain base h → in_domain base h ≡ true
in_domain_complete base h (apex e) = rw e (unfold in_domain in ground (arith, text_eq_refl base))
in_domain_complete base h (below sub e) =
    rw e (unfold in_domain in ground (arith, ends_with-append sub (b'.' ∷ base)))

strip_star_dot : (d : Text) → strip_prefix (codes "*") d ≡ none → strip_prefix (codes "*.") d ≡ none
unfolding strip_prefix
strip_star_dot [] e = refl
strip_star_dot (c ∷ d) e = ground arith

by_star_sound :
    (h d : Text) (o : Option Text)
    → strip_prefix (codes "*.") d ≡ none
    → strip_prefix (codes "*") d ≡ o
    → by_star h d o ≡ true
    → Covers d h
by_star_sound h d none nd e t =
    let parts = and_true (not (is_empty (trim_start_by is_dot d))) _ t in
    domain e (nonempty_sound _ parts.0) (in_domain_sound _ h parts.1)
by_star_sound h d (some suffix) nd e t =
    let parts = and_true (not (is_empty suffix)) _ t in
    let (front, p) = ends_with_sound suffix h parts.1 in
    star suffix front nd (strip_prefix_sound _ d suffix e) (nonempty_sound suffix parts.0) p

by_notation_sound :
    (h d : Text) (o : Option Text)
    → strip_prefix (codes "*.") d ≡ o
    → by_notation h d o ≡ true
    → Covers d h
by_notation_sound h d none e t = by_star_sound h d (strip_prefix (codes "*") d) e refl t
by_notation_sound h d (some base) e t =
    let parts = and_true (not (is_empty base)) _ t in
    star_dot base (strip_prefix_sound _ d base e) (nonempty_sound base parts.0)
      (in_domain_sound base h parts.1)

by_notation_complete :
    (h d : Text) → Covers d h → by_notation h d (strip_prefix (codes "*.") d) ≡ true
by_notation_complete h d (star_dot base e ne i) =
    rw (e, strip_prefix-append (codes "*.") base)
      (rw (nonempty_complete base ne) (in_domain_complete base h i))
by_notation_complete h d (star suffix front nd e ne p) = rw nd (
    rw (e, strip_prefix-append (codes "*") suffix)
      (rw (nonempty_complete suffix ne) (rw p (ends_with-append front suffix))))
by_notation_complete h d (domain ns ne i) =
    rw (strip_star_dot d ns) (rw ns (rw (nonempty_complete _ ne) (in_domain_complete _ h i)))

-- After trimming and lowering, a host matches a pattern exactly when neither is empty and the
-- pattern covers it: `*.base` and plain domains cover the domain and its subdomains, `*suffix` every
-- host that ends so.
pub host_matches_iff :
    (rule_dns host : Text)
    → (host_matches rule_dns host ≡ true) ↔ (
        (normal_host host ≢ [])
        × (normal_pattern rule_dns ≢ [])
        × Covers (normal_pattern rule_dns) (normal_host host))
unfolding host_matches
host_matches_iff rule_dns host = (sound, complete)
  where
    h : Text
    h = normal_host host

    d : Text
    d = normal_pattern rule_dns

    sound : host_matches rule_dns host ≡ true → (h ≢ []) × (d ≢ []) × Covers d h
    sound t =
        let a = and_true (not (is_empty h)) _ t in
        let b = and_true (not (is_empty d)) _ a.1 in
        (nonempty_sound h a.0, nonempty_sound d b.0, by_notation_sound h d _ refl b.1)

    complete : (h ≢ []) × (d ≢ []) × Covers d h → host_matches rule_dns host ≡ true
    complete (nh, nd, c) =
        rw (nonempty_complete h nh, nonempty_complete d nd) (by_notation_complete h d c)

lookalike-not-InDomain : (base x : Text) (c : ℕ) → c ≢ b'.' → ¬ InDomain base (x ++ c ∷ base)
lookalike-not-InDomain base x c nd (apex e) = omega (arith, ap length e, length-append x (c ∷ base))
lookalike-not-InDomain base x c nd (below sub e) =
    nd (cons_head_inj (append_tail_inj x sub (c ∷ base) (b'.' ∷ base) refl e))
  where
    cons_head_inj : c ∷ base ≡ b'.' ∷ base → c ≡ b'.'
    cons_head_inj p = cc

-- A plain domain does not match a host that merely ends in it, with another character than a dot in
-- front, such as evilexample.com for example.com; pattern and host are given in normal form.
pub no_lookalike :
    (base x : Text) (c : ℕ)
    → c ≢ b'.'
    → normal_pattern base ≡ base
    → strip_prefix (codes "*") base ≡ none
    → trim_start_by is_dot base ≡ base
    → normal_host (x ++ c ∷ base) ≡ x ++ c ∷ base
    → host_matches base (x ++ c ∷ base) ≡ false
no_lookalike base x c nd np ns nt nh = elim (Bool-cases (host_matches base (x ++ c ∷ base))) [
  | inr f ↦ f
  | inl t ↦ absurd (
      refute (
        subst (λ d. Covers d (x ++ c ∷ base)) np
          (subst (Covers (normal_pattern base)) nh
            ((host_matches_iff base (x ++ c ∷ base)).0 t).2)))
]
  where
    refute : ¬ Covers base (x ++ c ∷ base)
    refute (star_dot b e ne i) = starred b (strip_star_dot base ns) e
      where
        starred : (b : Text) → strip_prefix (codes "*.") base ≡ none → base ≡ codes "*." ++ b → ⊥
        starred b n e = cc (strip_prefix-append (codes "*.") b)
    refute (star s f n e ne p) = cc (strip_prefix-append (codes "*") s)
    refute (domain n ne i) =
        lookalike-not-InDomain base x c nd (subst (λ b. InDomain b (x ++ c ∷ base)) nt i)
