-- ===== src/Node/Nat/Cached.antt =====
-- ipsecnode/src/nat.rs: the addresses of the cache, after the changes to it.
use fleetsuite.Common.{
  ◌≡◌, refl, sym, ap, subst, ◌∙◌, inl, inr, Bool, true, false, ◌||◌, none, some, List, [], ◌∷◌,
  ◌++◌, arith, if◌then◌else◌, Bool-cases, any,
}
use fleetsuite.Common.Text.{Text, text_eq}
use fleetsuite.Common.Assoc.{get, insert, remove}
use fleetsuite.Node.Nat.{PeerRouteState, RouteCache, cached_global_ips}

any_append : (q : Text → Bool) (xs ys : List Text) → any q (xs ++ ys) ≡ (any q xs || any q ys)
any_append q [] ys = refl
any_append q (x ∷ xs) ys = rw (any_append q xs ys) (assoc (q x) (any q xs) (any q ys))
  where
    assoc : (a b c : Bool) → (a || (b || c)) ≡ ((a || b) || c)
    assoc true b c = refl
    assoc false b c = refl

-- The cached addresses after an insertion of a new key, of a key that keeps its addresses, and
-- before a removal.
pub cached-insert :
    (q : Text → Bool) (k : Text) (v : PeerRouteState) (m : RouteCache)
    → get k m ≡ none
    → any q (cached_global_ips (insert k v m)) ≡ (any q v.global_ips || any q (cached_global_ips m))
unfolding get insert
cached-insert q k v [] e = any_append q v.global_ips []
cached-insert q k v (x ∷ m) e = elim (Bool-cases (text_eq k x.0)) [
  | inl b ↦ absurd (refute b)
  | inr b ↦ rw b (
      rw
        (
          any_append q x.1.global_ips (cached_global_ips (insert k v m)),
          any_append q x.1.global_ips (cached_global_ips m),
          cached-insert q k v m (later b),
        )
        (swap (any q x.1.global_ips) (any q v.global_ips) (any q (cached_global_ips m))))
]
  where
    later : text_eq k x.0 ≡ false → get k m ≡ none
    later b = subst (λ c. (if c then some x.1 else get k m) ≡ none) b e

    refute : text_eq k x.0 ≡ true → ⊥
    refute b = cc (subst (λ c. (if c then some x.1 else get k m) ≡ none) b e)

    swap : (a b c : Bool) → (a || (b || c)) ≡ (b || (a || c))
    swap true true c = refl
    swap true false c = refl
    swap false b c = refl

pub cached-update :
    (k : Text) (v w : PeerRouteState) (m : RouteCache)
    → get k m ≡ some w
    → v.global_ips ≡ w.global_ips
    → cached_global_ips (insert k v m) ≡ cached_global_ips m
unfolding get insert
cached-update k v w [] e s = absurd (ground arith)
cached-update k v w (x ∷ m) e s = elim (Bool-cases (text_eq k x.0)) [
  | inl b ↦
      rw b (ap (λ ips. ips ++ cached_global_ips m) (s ∙ ap (λ st. st.global_ips) (sym (found b))))
  | inr b ↦ rw b (ap (λ ips. x.1.global_ips ++ ips) (cached-update k v w m (later b) s))
]
  where
    later : text_eq k x.0 ≡ false → get k m ≡ some w
    later b = subst (λ c. (if c then some x.1 else get k m) ≡ some w) b e

    found : text_eq k x.0 ≡ true → x.1 ≡ w
    found b = cc (subst (λ c. (if c then some x.1 else get k m) ≡ some w) b e)

pub cached-remove :
    (q : Text → Bool) (k : Text) (w : PeerRouteState) (m : RouteCache)
    → get k m ≡ some w
    → any q (cached_global_ips m) ≡ (any q w.global_ips || any q (cached_global_ips (remove k m)))
unfolding get remove
cached-remove q k w [] e = absurd (ground arith)
cached-remove q k w (x ∷ m) e = elim (Bool-cases (text_eq k x.0)) [
  | inl b ↦ rw b (
      any_append q x.1.global_ips (cached_global_ips m)
      ∙ ap (λ st. any q st.global_ips || any q (cached_global_ips m)) (found b))
  | inr b ↦ rw b (
      rw
        (
          any_append q x.1.global_ips (cached_global_ips (remove k m)),
          any_append q x.1.global_ips (cached_global_ips m),
          cached-remove q k w m (later b),
        )
        (swap (any q x.1.global_ips) (any q w.global_ips) (any q (cached_global_ips (remove k m)))))
]
  where
    later : text_eq k x.0 ≡ false → get k m ≡ some w
    later b = subst (λ c. (if c then some x.1 else get k m) ≡ some w) b e

    found : text_eq k x.0 ≡ true → x.1 ≡ w
    found b = cc (subst (λ c. (if c then some x.1 else get k m) ≡ some w) b e)

    swap : (a b c : Bool) → (a || (b || c)) ≡ (b || (a || c))
    swap true true c = refl
    swap true false c = refl
    swap false b c = refl
