-- ===== src/Scale/Healthy.antt =====
-- ipsecscale/src/main.rs: the proxies of a pool (`healthy`), described without the code's filter and
-- sort.
use fleetsuite.Common.{
  ℕ, suc, ◌≤◌, ◌≡◌, refl, sym, ap, ◌∙◌, inl, inr, Bool, true, false, List, [], ◌∷◌, arith, leb,
  if◌then◌else◌, Bool-cases, filter, All, All-mono,
}
use fleetsuite.Common.Text.{Text, text_eq, text_eq_sound}
use fleetsuite.Scale.{Answers, ip_key, key_insert, sort_by_ip, healthy_of}

-- How often a text is in a list.
unfoldable pub count : Text → List Text → ℕ
count z [] = 0
count z (x ∷ xs) = let rest = count z xs in if text_eq z x then suc rest else rest

-- In the order of the addresses as numbers.
unfoldable pub Sorted : List Text → Type 0
Sorted [] = Unit {0}
Sorted (x ∷ xs) = All (λ y. ip_key x ≤ ip_key y) xs × Sorted xs

-- The members of a pool: each candidate that passes its probe, as often as it is one, and no other.
pub record IsPool (a : Answers) (candidates pool : List Text) : Type 0 where
  pub healthy : (ip : Text) → a.probe ip ≡ true → count ip pool ≡ count ip candidates
  pub sick : (ip : Text) → a.probe ip ≡ false → count ip pool ≡ 0
  pub sorted : Sorted pool

All-key_insert :
    (P : Text → Type 0) (x : Text) (ys : List Text) → P x → All P ys → All P (key_insert x ys)
unfolding key_insert
All-key_insert P x [] p a = (p, tt)
All-key_insert P x (y ∷ ys) p (q, a) = elim (Bool-cases (leb (ip_key x) (ip_key y))) [
  | inl e ↦ rw e (p, (q, a))
  | inr e ↦ rw e (q, All-key_insert P x ys p a)
]

key_insert-Sorted : (x : Text) (ys : List Text) → Sorted ys → Sorted (key_insert x ys)
unfolding key_insert Sorted
key_insert-Sorted x [] s = (tt, tt)
key_insert-Sorted x (y ∷ ys) (b, s) = elim (Bool-cases (leb (ip_key x) (ip_key y))) [
  | inl e ↦ rw e (
    (
      under e,
      All-mono (λ z. ip_key y ≤ ip_key z) (λ z. ip_key x ≤ ip_key z) ys
          (λ z h. omega (arith, h, under e)) b,
    ),
    (b, s),
  )
  | inr e ↦
      rw e (All-key_insert (λ z. ip_key y ≤ ip_key z) x ys (over e) b, key_insert-Sorted x ys s)
]
  where
    under : leb (ip_key x) (ip_key y) ≡ true → ip_key x ≤ ip_key y
    under e = ground (arith, e)

    over : leb (ip_key x) (ip_key y) ≡ false → ip_key y ≤ ip_key x
    over e = ground (arith, e)

sort_by_ip-Sorted : (xs : List Text) → Sorted (sort_by_ip xs)
unfolding sort_by_ip Sorted
sort_by_ip-Sorted [] = tt
sort_by_ip-Sorted (x ∷ xs) = key_insert-Sorted x (sort_by_ip xs) (sort_by_ip-Sorted xs)

count_head :
    (z x : Text) (xs ys : List Text) → count z xs ≡ count z ys → count z (x ∷ xs) ≡ count z (x ∷ ys)
unfolding count
count_head z x xs ys e = elim (Bool-cases (text_eq z x)) [
  | inl q ↦ rw q (ap suc e)
  | inr q ↦ rw q e
]

count_swap : (z x y : Text) (ys : List Text) → count z (y ∷ x ∷ ys) ≡ count z (x ∷ y ∷ ys)
unfolding count
count_swap z x y ys = elim (Bool-cases (text_eq z x)) [
  | inl p ↦ elim (Bool-cases (text_eq z y)) [ inl q ↦ rw (p, q) refl | inr q ↦ rw (p, q) refl ]
  | inr p ↦ elim (Bool-cases (text_eq z y)) [ inl q ↦ rw (p, q) refl | inr q ↦ rw (p, q) refl ]
]

count-key_insert : (z x : Text) (ys : List Text) → count z (key_insert x ys) ≡ count z (x ∷ ys)
unfolding key_insert
count-key_insert z x [] = refl
count-key_insert z x (y ∷ ys) = elim (Bool-cases (leb (ip_key x) (ip_key y))) [
  | inl e ↦ rw e refl
  | inr e ↦
      rw e
        (count_head z y (key_insert x ys) (x ∷ ys) (count-key_insert z x ys) ∙ count_swap z x y ys)
]

count-sort_by_ip : (z : Text) (xs : List Text) → count z (sort_by_ip xs) ≡ count z xs
unfolding sort_by_ip
count-sort_by_ip z [] = refl
count-sort_by_ip z (x ∷ xs) =
    count-key_insert z x (sort_by_ip xs) ∙ count_head z x (sort_by_ip xs) xs (count-sort_by_ip z xs)

count_kept :
    (p : Text → Bool) (z : Text) (xs : List Text) → p z ≡ true → count z (filter p xs) ≡ count z xs
unfolding count
count_kept p z [] h = refl
count_kept p z (x ∷ xs) h = elim (Bool-cases (p x)) [
  | inl q ↦ rw q (count_head z x (filter p xs) xs (count_kept p z xs h))
  | inr q ↦ elim (Bool-cases (text_eq z x)) [
    | inl e ↦ absurd (ground (arith, sym (ap p (text_eq_sound z x e) ∙ q) ∙ h))
    | inr e ↦ rw (q, e) (count_kept p z xs h)
  ]
]

count_dropped :
    (p : Text → Bool) (z : Text) (xs : List Text) → p z ≡ false → count z (filter p xs) ≡ 0
unfolding count
count_dropped p z [] h = refl
count_dropped p z (x ∷ xs) h = elim (Bool-cases (p x)) [
  | inr q ↦ rw q (count_dropped p z xs h)
  | inl q ↦ elim (Bool-cases (text_eq z x)) [
    | inl e ↦ absurd (ground (arith, sym (ap p (text_eq_sound z x e) ∙ q) ∙ h))
    | inr e ↦ rw q (rw e (count_dropped p z xs h))
  ]
]

pub healthy_of-IsPool : (a : Answers) (cs : List Text) → IsPool a cs (healthy_of a cs)
healthy_of-IsPool a cs = record {
  healthy = λ ip h. count-sort_by_ip ip (filter a.probe cs) ∙ count_kept a.probe ip cs h;
  sick = λ ip h. count-sort_by_ip ip (filter a.probe cs) ∙ count_dropped a.probe ip cs h;
  sorted = sort_by_ip-Sorted (filter a.probe cs);
}
