-- ===== src/Ring/Owner.antt =====
-- ipseccore/src/lib.rs: `LvsRing`, `owner_index` and `owner_of`.
use fleetsuite.Common.{
  ℕ, ◌+◌, ◌-◌, ◌*◌, ◌/◌, ◌%◌, ◌^◌, ◌≤◌, ◌<◌, ◌≡◌, List, ◌∷◌, Option, none, some, arith, length,
  get_elem?, get_elem?_in_range, is_empty, if◌then◌else◌,
}
use fleetsuite.Common.Text.{Text, codes}
use fleetsuite.Ring.Hash.{jhash_ipv4, jhash_ipv4-lt, jhash_seed_u32}

-- `JHASH_SEED`, the seed as the rules spell it.
abbrev pub jhash_seed : Text
jhash_seed = codes "0xa5a5a5a5"

pub record LvsRing : Type 0 where
  pub seed : Text
  pub nodes : List Text

unfoldable pub new_ring : List Text → LvsRing
new_ring nodes = record { seed = jhash_seed; nodes = nodes }

-- The product is taken in 64 bits.
unfoldable pub owner_index : ℕ → ℕ → ℕ
owner_index ip n = jhash_ipv4 ip jhash_seed_u32 * n % 2 ^ 64 / 2 ^ 32

-- What a function returns that may index out of bounds.
pub data Outcome {ℓ} (A : Type ℓ) : Type ℓ where
  value : A → Outcome A
  panic : Outcome A

abbrev pub or_panic {ℓ} : {A : Type ℓ} → Option A → Outcome A
or_panic none = panic
or_panic (some a) = value a

-- `nodes[i]`.
abbrev pub index {ℓ} : {A : Type ℓ} → List A → ℕ → Outcome A
index xs i = or_panic (get_elem? xs i)

abbrev as_some {ℓ} : {A : Type ℓ} → Outcome A → Outcome (Option A)
as_some (value a) = value (some a)
as_some panic = panic

unfoldable pub owner_of : ℕ → List Text → Outcome (Option Text)
owner_of ip nodes =
    if is_empty nodes then value none else as_some (index nodes (owner_index ip (length nodes)))

mul-mono_left : (a b n : ℕ) → a ≤ b → a * n ≤ b * n
mul-mono_left a b n h = grind arith

-- No product overflows its 64 bits.
hash-mul-lt : (ip n : ℕ) → n ≤ 2 ^ 32 → jhash_ipv4 ip jhash_seed_u32 * n < 2 ^ 64
hash-mul-lt ip n h = omega (
  arith,
  jhash_ipv4-lt ip jhash_seed_u32,
  mul-mono_left (jhash_ipv4 ip jhash_seed_u32) (2 ^ 32 - 1) n
      (omega (arith, jhash_ipv4-lt ip jhash_seed_u32)),
)

-- For up to 2 ^ 32 nodes the index `i` is the hash scaled down to the pool: the hashes of index `i`
-- are those from `i / n` up to `(i + 1) / n` of the 32-bit range.
pub owner_index_scales :
    (ip n : ℕ)
    → n ≤ 2 ^ 32
    → (owner_index ip n * 2 ^ 32 ≤ jhash_ipv4 ip jhash_seed_u32 * n)
      × (jhash_ipv4 ip jhash_seed_u32 * n < (owner_index ip n + 1) * 2 ^ 32)
unfolding owner_index
owner_index_scales ip n h = omega (arith, hash-mul-lt ip n h)

pub owner_index-lt : (ip n : ℕ) → 0 < n → n ≤ 2 ^ 32 → owner_index ip n < n
unfolding owner_index
owner_index-lt ip n pos h = omega (
  arith,
  hash-mul-lt ip n h,
  mul-mono_left (jhash_ipv4 ip jhash_seed_u32) (2 ^ 32 - 1) n
      (omega (arith, jhash_ipv4-lt ip jhash_seed_u32)),
)

-- A pool that is not empty, of up to 2 ^ 32 nodes, has an owner for every address: the lookup never
-- panics, and the owner is the node at the address' index.
pub owner_of_total :
    (ip : ℕ) (node : Text) (nodes : List Text)
    → length (node ∷ nodes) ≤ 2 ^ 32
    → (o : Text) × (owner_of ip (node ∷ nodes) ≡ value (some o))
      × (get_elem? (node ∷ nodes) (owner_index ip (length (node ∷ nodes))) ≡ some o)
unfolding owner_of
owner_of_total ip node nodes h =
    let (o, e) =
      get_elem?_in_range (node ∷ nodes) (owner_index ip (length (node ∷ nodes)))
        (owner_index-lt ip (length (node ∷ nodes)) (omega arith) h) in
    (o, rw e, e)
