-- ===== src/Ring/Hash.antt =====
-- ipseccore/src/lib.rs: `jhash_final` and `jhash_ipv4`, on 32-bit words.
use Prim.Native.Nat.{bit_xor}
use fleetsuite.Common.{ℕ, ◌+◌, ◌-◌, ◌*◌, ◌/◌, ◌%◌, ◌^◌, ◌<◌, arith}

abbrev pub u32_mod : ℕ
u32_mod = 2 ^ 32

-- `JHASH_SEED_U32` and `JHASH_INITVAL`.
abbrev pub jhash_seed_u32 : ℕ
jhash_seed_u32 = 0xa5a5a5a5

abbrev pub jhash_initval : ℕ
jhash_initval = 0xdeadbeef

pub wrapping_add : ℕ → ℕ → ℕ
wrapping_add a b = (a + b) % u32_mod

pub wrapping_sub : ℕ → ℕ → ℕ
wrapping_sub a b = (a + u32_mod - b) % u32_mod

-- The high bits that `<<` drops come back as the low bits; the two parts do not overlap.
pub rotate_left : ℕ → ℕ → ℕ
rotate_left x k = x * 2 ^ k % u32_mod + x / 2 ^ (32 - k)

-- One line of `jhash_final`: `x ^= y; x = x.wrapping_sub(y.rotate_left(k))`.
jhash_round : ℕ → ℕ → ℕ → ℕ
unfolding wrapping_sub rotate_left
jhash_round x y k = wrapping_sub (bit_xor x y) (rotate_left y k)

pub jhash_final : ℕ → ℕ → ℕ → ℕ
unfolding jhash_round
jhash_final a b c =
    let c1 = jhash_round c b 14 in
    let a1 = jhash_round a c1 11 in
    let b1 = jhash_round b a1 25 in
    let c2 = jhash_round c1 b1 16 in
    let a2 = jhash_round a1 c2 4 in let b2 = jhash_round b1 a2 14 in jhash_round c2 b2 24

-- `ip.octets()[i]` of an address as a number, the first octet the most significant.
abbrev octet : ℕ → ℕ → ℕ
octet ip i = ip / 2 ^ (8 * (3 - i)) % 256

unfoldable pub jhash_ipv4 : ℕ → ℕ → ℕ
unfolding jhash_final wrapping_add
jhash_ipv4 ip initval =
    let init = wrapping_add (wrapping_add jhash_initval 4) initval in
    let a1 = wrapping_add init (octet ip 3 * 2 ^ 24) in
    let a2 = wrapping_add a1 (octet ip 2 * 2 ^ 16) in
    let a3 = wrapping_add a2 (octet ip 1 * 2 ^ 8) in
    let a4 = wrapping_add a3 (octet ip 0) in jhash_final a4 init init

jhash_round-lt : (x y k : ℕ) → jhash_round x y k < u32_mod
unfolding jhash_round
jhash_round-lt x y k = omega arith

jhash_final-lt : (a b c : ℕ) → jhash_final a b c < u32_mod
unfolding jhash_final
jhash_final-lt a b c = jhash_round-lt _ _ 24

-- A hash is a 32-bit word.
pub jhash_ipv4-lt : (ip initval : ℕ) → jhash_ipv4 ip initval < u32_mod
unfolding jhash_ipv4
jhash_ipv4-lt ip initval = jhash_final-lt _ _ _
