-- ===== src/Prelude/Bits.antt =====
-- `bit_and` with a mask of ones, and `bit_or` with one higher digit, at any width, by induction on
-- the fuel of the recursion on binary digits that the operations stand for.
use Prim.Native.Nat.{
  ℕ, zero, suc, ◌+◌, ◌*◌, ◌/◌, ◌%◌, ◌^◌, ◌≤◌, ◌<◌, min, max, bit_and, bit_or, digits,
  bit_and-bitwise, bit_or-bitwise,
}
use mathlib.Core.Path.{◌≡◌, refl, sym, ap, ◌∙◌}
use native.Mathlib.Omega.{arith}
use native.Mathlib.Nat.{pow-suc, mod-add-div, mod-lt, add-mul-mod_self_left, mod-eq_of_lt}

abbrev and_from : ℕ → ℕ → ℕ → ℕ
and_from fuel a b = digits (λ x. 0) min fuel a b

abbrev or_from : ℕ → ℕ → ℕ → ℕ
or_from fuel a b = digits (λ x. x) max fuel a b

-- `k` ones.
pub ones : ℕ → ℕ
ones zero = 0
ones (suc k) = 1 + 2 * ones k

pow_pos : (k : ℕ) → 0 < 2 ^ k
pow_pos zero = omega arith
pow_pos (suc k) = omega (arith, pow-suc 2 k, pow_pos k)

-- The remainder of twice a modulus.
mod_twice : (a m : ℕ) → 0 < m → a % (m * 2) ≡ a % 2 + 2 * (a / 2 % m)
mod_twice a m pos =
    let q = a / 2 / m in
    let r = a % 2 + 2 * (a / 2 % m) in
    let twice : m * 2 * q ≡ 2 * (m * q) = grind arith in
    let split : a ≡ r + m * 2 * q = omega (arith, mod-add-div (a / 2) m, twice) in
    ap (λ x. x % (m * 2)) split
    ∙ add-mul-mod_self_left r (m * 2) q
    ∙ mod-eq_of_lt (omega (arith, mod-lt (a / 2) pos))

none_left : (k : ℕ) → 0 ≡ 0 % 2 ^ k
none_left k = sym (mod-eq_of_lt (pow_pos k))

and_from-ones : (fuel k a : ℕ) → a ≤ fuel → and_from fuel a (ones k) ≡ a % 2 ^ k
unfolding ones
and_from-ones zero k a h = let e : a ≡ 0 = omega arith in rw e (none_left k)
and_from-ones (suc fuel) k zero h = none_left k
and_from-ones (suc fuel) zero (suc a) h =
    omega (arith, and_from-ones fuel zero (suc a / 2) (omega arith))
and_from-ones (suc fuel) (suc k) (suc a) h =
    let shifted : (1 + 2 * ones k) / 2 ≡ ones k = omega arith in
    let odd : ones (suc k) % 2 ≡ 1 = omega arith in
    let others = and_from-ones fuel k (suc a / 2) (omega arith) in
    rw (shifted, pow-suc 2 k) (omega (arith, odd, others, mod_twice (suc a) (2 ^ k) (pow_pos k)))

or_from-pow : (fuel k a : ℕ) → a ≤ fuel → a < 2 ^ k → or_from fuel a (2 ^ k) ≡ a + 2 ^ k
or_from-pow zero k a h small = let e : a ≡ 0 = omega arith in rw e (omega arith)
or_from-pow (suc fuel) k zero h small = omega arith
or_from-pow (suc fuel) zero (suc a) h small = absurd (omega arith)
or_from-pow (suc fuel) (suc k) (suc a) h small =
    let shifted : 2 ^ suc k / 2 ≡ 2 ^ k = omega (arith, pow-suc 2 k) in
    rw shifted (
      omega (
        arith,
        pow-suc 2 k,
        or_from-pow fuel k (suc a / 2) (omega arith) (omega (arith, pow-suc 2 k)),
      ))

or_from-zero : (fuel a : ℕ) → a ≤ fuel → or_from fuel a 0 ≡ a
or_from-zero zero a h = omega arith
or_from-zero (suc fuel) zero h = refl
or_from-zero (suc fuel) (suc a) h = omega (arith, or_from-zero fuel (suc a / 2) (omega arith))

pub bit_and-ones : (k a : ℕ) → bit_and a (ones k) ≡ a % 2 ^ k
bit_and-ones k a = bit_and-bitwise a (ones k) ∙ and_from-ones a k a (omega arith)

pub bit_or-pow : (k a : ℕ) → a < 2 ^ k → bit_or a (2 ^ k) ≡ a + 2 ^ k
bit_or-pow k a small = bit_or-bitwise a (2 ^ k) ∙ or_from-pow a k a (omega arith) small

pub bit_or-zero : (a : ℕ) → bit_or a 0 ≡ a
bit_or-zero a = bit_or-bitwise a 0 ∙ or_from-zero a a (omega arith)

-- The mask of the lowest 31 bits.
pub bit_and_low : (a : ℕ) → bit_and a 0x7fff_ffff ≡ a % 2 ^ 31
unfolding ones
bit_and_low a = bit_and-ones 31 a
