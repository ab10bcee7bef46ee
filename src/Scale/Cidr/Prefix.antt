-- ===== src/Scale/Cidr/Prefix.antt =====
-- ipsecscale/src/main.rs: the mask test compares the leading bits.
use fleetsuite.Common.{
  ℕ, zero, suc, ◌+◌, ◌-◌, ◌*◌, ◌/◌, ◌%◌, ◌^◌, ◌≤◌, ◌<◌, ◌≡◌, refl, sym, ap, subst, ◌∙◌, ◌↔◌, inl,
  inr, Bool, true, false, ◌&&◌, ◌||◌, [], ◌∷◌, arith, ltb, ◌==◌, ==_iff, Bool-cases,
}
use native.Mathlib.Nat.{mod-lt, div-add-mod'}
use fleetsuite.Common.Bounded.{holds_below, holds_below-at}
use fleetsuite.Scale.Cidr.{bit_and, mask_of, cidr_contains}

pow2 : ℕ → ℕ
pow2 zero = 1
pow2 (suc n) = 2 * pow2 n

double : (q p : ℕ) → q * (2 * p) ≡ 2 * (q * p)
double q p = grind arith

pow2_pos : (n : ℕ) → 0 < pow2 n
unfolding pow2
pow2_pos zero = omega arith
pow2_pos (suc n) = omega (arith, pow2_pos n)

pow2_mono : (n k : ℕ) → k ≤ n → pow2 k ≤ pow2 n
unfolding pow2
pow2_mono n zero h = omega (arith, pow2_pos n)
pow2_mono zero (suc k) h = absurd (omega arith)
pow2_mono (suc n) (suc k) h = omega (arith, pow2_mono n k (omega (arith, h)))

-- A step of `&`, from what its parts are.
combine :
    (n x y m l c d e v : ℕ)
    → x ≡ y
    → m ≡ l
    → bit_and n y l ≡ v
    → d ≡ e
    → bit_and n x m * 2 + c * d ≡ v * 2 + c * e
combine n x y m l c d e v p q h s = cc

-- A number is masked to its quotient by the mask's power of two.
bit_and-mask :
    (n k q r : ℕ)
    → k ≤ n
    → r < pow2 k
    → q * pow2 k + r < pow2 n
    → bit_and n (q * pow2 k + r) (pow2 n - pow2 k) ≡ q * pow2 k
unfolding bit_and pow2
bit_and-mask zero zero q r h l b = omega (arith, b)
bit_and-mask zero (suc k) q r h l b = absurd (omega (arith, h))
bit_and-mask (suc n) zero q r h l b =
    combine n ((q * 1 + r) / 2) (q / 2 * pow2 0 + 0) ((2 * pow2 n - 1) / 2) (pow2 n - pow2 0)
      ((q * 1 + r) % 2) ((2 * pow2 n - 1) % 2) 1 (q / 2 * pow2 0) (omega (arith, l))
      (omega (arith, pow2_pos n))
      (bit_and-mask n zero (q / 2) 0 (omega arith) (omega arith) (omega (arith, b)))
      (omega (arith, pow2_pos n))
    ∙ omega (arith, l)
bit_and-mask (suc n) (suc k) q r h l b =
    combine n ((q * (2 * pow2 k) + r) / 2) (q * pow2 k + r / 2) ((2 * pow2 n - 2 * pow2 k) / 2)
      (pow2 n - pow2 k) ((q * (2 * pow2 k) + r) % 2) ((2 * pow2 n - 2 * pow2 k) % 2) 0 (q * pow2 k)
      (omega (arith, double q (pow2 k))) (omega (arith, pow2_mono n k (omega (arith, h))))
      (bit_and-mask n k q (r / 2) (omega (arith, h)) (omega (arith, l))
        (omega (arith, b, double q (pow2 k))))
      (omega (arith, pow2_mono n k (omega (arith, h))))
    ∙ omega (arith, double q (pow2 k))

-- The masks, and the powers of two.
masks :
    holds_below 33 (λ k. (mask_of k == pow2 32 - pow2 (32 - k)) && (pow2 (32 - k) == 2 ^ (32 - k)))
    ≡ true
unfolding mask_of pow2
masks = refl

mask_of-pow2 :
    (len : ℕ)
    → len ≤ 32
    → (mask_of len ≡ pow2 32 - pow2 (32 - len)) × (pow2 (32 - len) ≡ 2 ^ (32 - len))
mask_of-pow2 len h = split (
    holds_below-at 33
      (λ k. (mask_of k == pow2 32 - pow2 (32 - k)) && (pow2 (32 - k) == 2 ^ (32 - k))) masks len
      (omega (arith, h)))
  where
    split :
        ((mask_of len == pow2 32 - pow2 (32 - len)) && (pow2 (32 - len) == 2 ^ (32 - len))) ≡ true
        → (mask_of len ≡ pow2 32 - pow2 (32 - len)) × (pow2 (32 - len) ≡ 2 ^ (32 - len))
    split e = (
      (==_iff (mask_of len) (pow2 32 - pow2 (32 - len))).0
          (left (mask_of len == pow2 32 - pow2 (32 - len)) (pow2 (32 - len) == 2 ^ (32 - len)) e),
      (==_iff (pow2 (32 - len)) (2 ^ (32 - len))).0
          (right (mask_of len == pow2 32 - pow2 (32 - len)) (pow2 (32 - len) == 2 ^ (32 - len)) e),
    )
      where
        left : (a b : Bool) → (a && b) ≡ true → a ≡ true
        left a b q = ground arith

        right : (a b : Bool) → (a && b) ≡ true → b ≡ true
        right a b q = ground arith

pow2_32 : pow2 32 ≡ 2 ^ 32
unfolding pow2
pow2_32 = refl

-- A 32-bit number and a mask.
masked_value :
    (len x : ℕ)
    → len ≤ 32
    → x < 2 ^ 32
    → bit_and 32 x (mask_of len) ≡ x / 2 ^ (32 - len) * 2 ^ (32 - len)
masked_value len x h l =
    let p = pow2 (32 - len) in
    ap (bit_and 32 x) (mask_of-pow2 len h).0
    ∙ (ap (λ y. bit_and 32 y (pow2 32 - p)) (sym (div-add-mod' x p))
        ∙ (bit_and-mask 32 (32 - len) (x / p) (x % p) (omega arith) (mod-lt x (pow2_pos (32 - len)))
              (subst (λ y. y < pow2 32) (sym (div-add-mod' x p))
                (subst (λ y. x < y) (sym pow2_32) l))
            ∙ ap (λ y. x / y * y) (mask_of-pow2 len h).1))

scale_mono : (a b p : ℕ) → a < b → a * p + p ≤ b * p
scale_mono a b p h = grind arith

scale_inj : (a b p : ℕ) → 0 < p → a * p ≡ b * p → a ≡ b
scale_inj a b p pos e = elim (Bool-cases (ltb a b)) [
  | inl l ↦ absurd (omega (arith, e, pos, scale_mono a b p (ground arith)))
  | inr n ↦ elim (Bool-cases (ltb b a)) [
    | inl l ↦ absurd (omega (arith, e, pos, scale_mono b a p (ground arith)))
    | inr m ↦ ground arith
  ]
]

-- An address is in the network that a base and a length up to 32 give exactly when its leading bits,
-- as many as the length, are those of the base.
pub cidr_contains-prefix :
    (base ip len : ℕ)
    → len ≤ 32
    → base < 2 ^ 32
    → ip < 2 ^ 32
    → (cidr_contains ((bit_and 32 base (mask_of len), mask_of len) ∷ []) ip ≡ true)
      ↔ (ip / 2 ^ (32 - len) ≡ base / 2 ^ (32 - len))
unfolding cidr_contains
cidr_contains-prefix base ip len h hb hi = (sound, complete)
  where
    p : ℕ
    p = 2 ^ (32 - len)

    pos : 0 < p
    pos = subst (λ y. 0 < y) (mask_of-pow2 len h).1 (pow2_pos (32 - len))

    sound :
        ((bit_and 32 ip (mask_of len) == bit_and 32 base (mask_of len)) || false) ≡ true
        → ip / p ≡ base / p
    sound e = scale_inj (ip / p) (base / p) p pos (
        sym (masked_value len ip h hi)
        ∙ ((==_iff (bit_and 32 ip (mask_of len)) (bit_and 32 base (mask_of len))).0 (or_false e)
            ∙ masked_value len base h hb))
      where
        or_false : {b : Bool} → (b || false) ≡ true → b ≡ true
        or_false q = ground arith

    complete :
        ip / p ≡ base / p
        → ((bit_and 32 ip (mask_of len) == bit_and 32 base (mask_of len)) || false) ≡ true
    complete e =
        ap (λ b. b || false)
          ((==_iff (bit_and 32 ip (mask_of len)) (bit_and 32 base (mask_of len))).1
            (masked_value len ip h hi ∙ (ap (λ q. q * p) e ∙ sym (masked_value len base h hb))))
