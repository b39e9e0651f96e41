-- ===== src/Prelude/Bits.antt =====
-- The bits of a number, and what `&`, `|` and `!` of machine words do to them.
use Prim.Native.Nat.{
  ℕ, zero, suc, ◌+◌, ◌-◌, ◌*◌, ◌/◌, ◌%◌, ◌^◌, ◌≤◌, ◌<◌, min, max, digits, bit_and, bit_or,
  bit_and-bitwise, bit_or-bitwise,
}
use mathlib.Core.Path.{◌≡◌, refl, ap, ◌∙◌}
use mathlib.Core.Bool.{Bool, false, not, ◌&&◌, ◌||◌}
use native.Mathlib.Nat.{pow-suc, one-le-pow}
use native.Mathlib.Omega.{arith}
use maturin.Prelude.Tests.{◌==◌}

-- Whether the bit `k` of `v` is one.
abbrev pub bit : ℕ → ℕ → Bool
bit v zero = v % 2 == 1
bit v (suc k) = bit (v / 2) k

digits_more :
    (z : ℕ → ℕ) (f : ℕ → ℕ → ℕ) (m n a b : ℕ) → a ≤ m → a ≤ n → digits z f m a b ≡ digits z f n a b
digits_more z f zero zero a b h k = refl
digits_more z f zero (suc n) zero b h k = refl
digits_more z f zero (suc n) (suc a) b h k = absurd (omega arith)
digits_more z f (suc m) zero zero b h k = refl
digits_more z f (suc m) (suc n) zero b h k = refl
digits_more z f (suc m) zero (suc a) b h k = absurd (omega arith)
digits_more z f (suc m) (suc n) (suc a) b h k =
    ap (λ q. q * 2 + f (suc a % 2) (b % 2))
      (digits_more z f m n (suc a / 2) (b / 2) (omega arith) (omega arith))

pub bit_and_halves : (a b : ℕ) → bit_and a b ≡ bit_and (a / 2) (b / 2) * 2 + min (a % 2) (b % 2)
bit_and_halves zero b = omega (arith, bit_and-bitwise 0 b, bit_and-bitwise 0 (b / 2))
bit_and_halves (suc a) b = omega (
  arith,
  bit_and-bitwise (suc a) b,
  bit_and-bitwise (suc a / 2) (b / 2),
  digits_more (λ y. 0) min a (suc a / 2) (suc a / 2) (b / 2) (omega arith) (omega arith),
)

pub bit_or_halves : (a b : ℕ) → bit_or a b ≡ bit_or (a / 2) (b / 2) * 2 + max (a % 2) (b % 2)
bit_or_halves zero b = omega (arith, bit_or-bitwise 0 b, bit_or-bitwise 0 (b / 2))
bit_or_halves (suc a) b = omega (
  arith,
  bit_or-bitwise (suc a) b,
  bit_or-bitwise (suc a / 2) (b / 2),
  digits_more (λ y. y) max a (suc a / 2) (suc a / 2) (b / 2) (omega arith) (omega arith),
)

half_odd : (v q r : ℕ) → v ≡ q * 2 + r → r < 2 → (v / 2 ≡ q) × (v % 2 ≡ r)
half_odd v q r e h = (omega arith, omega arith)

pub bit-bit_and : (k a b : ℕ) → bit (bit_and a b) k ≡ (bit a k && bit b k)
bit-bit_and zero a b = ground (
  arith,
  half_odd (bit_and a b) (bit_and (a / 2) (b / 2)) (min (a % 2) (b % 2)) (bit_and_halves a b)
      (omega arith),
)
bit-bit_and (suc k) a b =
    ap (λ v. bit v k)
      (half_odd (bit_and a b) (bit_and (a / 2) (b / 2)) (min (a % 2) (b % 2)) (bit_and_halves a b)
        (omega arith)).0
    ∙ bit-bit_and k (a / 2) (b / 2)

pub bit-bit_or : (k a b : ℕ) → bit (bit_or a b) k ≡ (bit a k || bit b k)
bit-bit_or zero a b = ground (
  arith,
  half_odd (bit_or a b) (bit_or (a / 2) (b / 2)) (max (a % 2) (b % 2)) (bit_or_halves a b)
      (omega arith),
)
bit-bit_or (suc k) a b =
    ap (λ v. bit v k)
      (half_odd (bit_or a b) (bit_or (a / 2) (b / 2)) (max (a % 2) (b % 2)) (bit_or_halves a b)
        (omega arith)).0
    ∙ bit-bit_or k (a / 2) (b / 2)

pub bit_zero : (k : ℕ) → bit 0 k ≡ false
bit_zero zero = refl
bit_zero (suc k) = bit_zero k

pub bit_power : (j k : ℕ) → bit (2 ^ j) k ≡ (k == j)
bit_power zero zero = refl
bit_power zero (suc k) = ground (arith, bit_zero k)
bit_power (suc j) zero = ground (arith, pow-suc 2 j)
bit_power (suc j) (suc k) =
    let half : 2 ^ suc j / 2 ≡ 2 ^ j = omega (arith, pow-suc 2 j) in
    ap (λ v. bit v k) half ∙ bit_power j k ∙ same j k
  where
    same : (j k : ℕ) → (k == j) ≡ (suc k == suc j)
    same j k = ground arith

-- `!v` in a word of `w` bits.
unfoldable pub complement : ℕ → ℕ → ℕ
complement w v = 2 ^ w - 1 - v

pub bit-complement : (w k v : ℕ) → v < 2 ^ w → k < w → bit (complement w v) k ≡ not (bit v k)
unfolding complement
bit-complement zero k v h l = absurd (omega arith)
bit-complement (suc w) zero v h l = ground (arith, pow-suc 2 w, one-le-pow w 2)
bit-complement (suc w) (suc k) v h l =
    let half : (2 ^ suc w - 1 - v) / 2 ≡ 2 ^ w - 1 - v / 2 =
      omega (arith, pow-suc 2 w, one-le-pow w 2) in
    ap (λ u. bit u k) half ∙ bit-complement w k (v / 2) (omega (arith, pow-suc 2 w)) (omega arith)

bit_or_zero : (a : ℕ) → bit_or a 0 ≡ a
bit_or_zero a = go a a (omega arith)
  where
    go : (n a : ℕ) → a ≤ n → bit_or a 0 ≡ a
    go n zero h = refl
    go zero (suc a) h = absurd (omega arith)
    go (suc n) (suc a) h = omega (arith, bit_or_halves (suc a) 0, go n (suc a / 2) (omega arith))

-- Fields that share no bit: `|` is the sum.
pub bit_or_disjoint :
    (k high low : ℕ) → low < 2 ^ k → bit_or (high * 2 ^ k) low ≡ high * 2 ^ k + low
bit_or_disjoint zero high zero h =
    let e : high * 2 ^ 0 ≡ high = omega arith in
    ap (λ v. bit_or v 0) e ∙ bit_or_zero high ∙ omega arith
bit_or_disjoint zero high (suc low) h = absurd (omega arith)
bit_or_disjoint (suc k) high low h =
    let twice : high * 2 ^ suc k ≡ 2 * (high * 2 ^ k) = double high k in
    omega (
      arith,
      bit_or_halves (high * 2 ^ suc k) low,
      twice,
      ap (λ v. bit_or v (low / 2)) (halve high k),
      bit_or_disjoint k high (low / 2) (omega (arith, pow-suc 2 k)),
    )
  where
    double : (high k : ℕ) → high * 2 ^ suc k ≡ 2 * (high * 2 ^ k)
    double high k = ap (λ t. high * t) (pow-suc 2 k) ∙ grind arith

    halve : (high k : ℕ) → high * 2 ^ suc k / 2 ≡ high * 2 ^ k
    halve high k = omega (arith, double high k)
