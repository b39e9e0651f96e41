-- ===== src/Signal/Bitset.antt =====
-- modules/bitset/src/lib.rs: `Bitset`, as the number that it holds. A shift by more than 63 wraps.
use maturin.Prelude.{
  ℕ, zero, suc, ◌/◌, ◌%◌, ◌^◌, ◌≤◌, ◌<◌, ◌≡◌, ◌⊎◌, inl, inr, Bool, true, false, not, ◌&&◌, ◌||◌,
  ltb, ltb→lt, subst, ◌==◌, if◌then◌else◌, refl, sym, ap, ◌∙◌, Option, none, some, Bool-cases,
  arith,
}
use Prim.Native.Nat.{bit_and, bit_or}
use native.Mathlib.Nat.{pow-suc, one-le-pow, div-div-eq-div-mul, pow-succ'}
use maturin.Prelude.Bits.{
  bit, bit-bit_and, bit-bit_or, bit_power, complement, bit-complement, bit_and_halves,
}

unfoldable pub contain_bit : ℕ → ℕ → Bool
contain_bit self kth = ltb 0 (bit_and (self / 2 ^ (kth % 64)) 1)

unfoldable pub add_bit : ℕ → ℕ → ℕ
add_bit self kth = bit_or self (2 ^ (kth % 64))

unfoldable pub remove_bit : ℕ → ℕ → ℕ
remove_bit self kth = bit_and self (complement 64 (2 ^ (kth % 64)))

unfoldable pub get_union : ℕ → ℕ → ℕ
get_union self other = bit_or self other

unfoldable pub get_difference : ℕ → ℕ → ℕ
get_difference self other = bit_and self (complement 64 other)

-- `trailing_zeros` of a word of `w` bits.
abbrev pub trailing_zeros : ℕ → ℕ → ℕ
trailing_zeros zero v = 0
trailing_zeros (suc w) v = let rest = trailing_zeros w (v / 2) in if v % 2 == 1 then 0 else suc rest

unfoldable pub find_first_one : ℕ → ℕ → Option ℕ
find_first_one self mask =
    let ans = trailing_zeros 64 (bit_and self (complement 64 mask)) in
    if ans == 64 then none else some ans

small : (k : ℕ) → k < 64 → k % 64 ≡ k
small k h = omega arith

power_small : (j : ℕ) → j < 64 → 2 ^ j < 2 ^ 64
power_small j h = go 64 j h
  where
    go : (w j : ℕ) → j < w → 2 ^ j < 2 ^ w
    go zero j h = absurd (omega arith)
    go (suc w) zero h = omega (arith, pow-suc 2 w, one-le-pow w 2)
    go (suc w) (suc j) h = omega (arith, pow-suc 2 w, pow-suc 2 j, go w j (omega arith))

pub bit-add_bit : (v j k : ℕ) → j < 64 → bit (add_bit v j) k ≡ (bit v k || (k == j))
unfolding add_bit
bit-add_bit v j k h =
    rw (small j h) (bit-bit_or k v (2 ^ j) ∙ ap (λ b. bit v k || b) (bit_power j k))

pub bit-remove_bit :
    (v j k : ℕ) → j < 64 → k < 64 → bit (remove_bit v j) k ≡ (bit v k && not (k == j))
unfolding remove_bit
bit-remove_bit v j k h l = rw (small j h) (
    bit-bit_and k v (complement 64 (2 ^ j))
    ∙ ap (λ b. bit v k && b)
        (bit-complement 64 k (2 ^ j) (power_small j h) l ∙ ap not (bit_power j k)))

bit-contain_bit_at : (k v : ℕ) → bit v k ≡ (v / 2 ^ k % 2 == 1)
bit-contain_bit_at zero v = let e : v / 2 ^ 0 ≡ v = omega arith in rw e refl
bit-contain_bit_at (suc k) v =
    bit-contain_bit_at k (v / 2)
    ∙ ap (λ q. q % 2 == 1) (div-div-eq-div-mul v 2 (2 ^ k) ∙ ap (λ d. v / d) (sym (pow-succ' 2 k)))

pub contain_bit-bit : (v k : ℕ) → k < 64 → contain_bit v k ≡ bit v k
unfolding contain_bit
contain_bit-bit v k h = rw (small k h) (ground (arith, bit-contain_bit_at k v, last (v / 2 ^ k)))
  where
    last : (q : ℕ) → bit_and q 1 ≡ q % 2
    last q = omega (arith, bit_and_halves q 1, none_left (q / 2))
      where
        none_left : (q : ℕ) → bit_and q 0 ≡ 0
        none_left q = go q q (omega arith)
          where
            go : (n q : ℕ) → q ≤ n → bit_and q 0 ≡ 0
            go n zero h = refl
            go zero (suc q) h = absurd (omega arith)
            go (suc n) (suc q) h =
                omega (arith, bit_and_halves (suc q) 0, go n (suc q / 2) (omega arith))

-- The number of zeros below the lowest one, or the width.
trailing_zeros_lem :
    (w v : ℕ)
    → ((k : ℕ) → (ltb k (trailing_zeros w v) && bit v k) ≡ false)
      × ((trailing_zeros w v ≡ w)
          ⊎ ((trailing_zeros w v < w) × (bit v (trailing_zeros w v) ≡ true)))
trailing_zeros_lem zero v = ((λ k. ground arith), inl refl)
trailing_zeros_lem (suc w) v = elim (Bool-cases (v % 2 == 1)) [
  | inl odd ↦ rw odd ((λ k. ground arith), inr (omega arith, odd))
  | inr even ↦
      let (ih, lowest) = trailing_zeros_lem w (v / 2) in
      rw even (
        below v (trailing_zeros w (v / 2)) even ih,
        elim lowest [ inl all ↦ inl (ap suc all) | inr (lt, one) ↦ inr (omega (arith, lt), one) ],
      )
]
  where
    below :
        (v t : ℕ)
        → (v % 2 == 1) ≡ false
        → ((k : ℕ) → (ltb k t && bit (v / 2) k) ≡ false)
        → (k : ℕ) → (ltb k (suc t) && bit v k) ≡ false
    below v t even ih zero = ground (arith, even)
    below v t even ih (suc k) = ground (arith, ih k)

-- Whether the bit `k` is one that `find_first_one` looks for.
abbrev pub wanted : ℕ → ℕ → ℕ → Bool
wanted v mask k = bit v k && not (bit mask k)

left_bit :
    (v mask k : ℕ)
    → mask < 2 ^ 64
    → k < 64
    → bit (bit_and v (complement 64 mask)) k ≡ wanted v mask k
left_bit v mask k h l =
    bit-bit_and k v (complement 64 mask) ∙ ap (λ b. bit v k && b) (bit-complement 64 k mask h l)

none_left :
    (v mask t k : ℕ)
    → mask < 2 ^ 64
    → t ≤ 64
    → (ltb k t && bit (bit_and v (complement 64 mask)) k) ≡ false
    → (ltb k t && wanted v mask k) ≡ false
none_left v mask t k h le e = elim (Bool-cases (ltb k t)) [
  | inl low ↦
      let l : k < t = ltb→lt k t low in rw low (sym (left_bit v mask k h (omega arith)) ∙ go e low)
  | inr high ↦ rw high refl
]
  where
    go : {a b : Bool} → (a && b) ≡ false → a ≡ true → b ≡ false
    go e f = ground (arith, e, f)

-- `find_first_one` returns `none` where no bit of 64 is in the set and not in the mask, and else
-- the lowest such bit.
pub find_first_one_lem :
    (v mask : ℕ)
    → mask < 2 ^ 64
    → ((find_first_one v mask ≡ none) × ((k : ℕ) → (ltb k 64 && wanted v mask k) ≡ false))
      ⊎ ((pos : ℕ) × (find_first_one v mask ≡ some pos)
          × (pos < 64)
          × (wanted v mask pos ≡ true)
          × ((k : ℕ) → (ltb k pos && wanted v mask k) ≡ false))
unfolding find_first_one
find_first_one_lem v mask h =
    let rest = bit_and v (complement 64 mask) in
    let (below, lowest) = trailing_zeros_lem 64 rest in
    let ans = trailing_zeros 64 rest in
    elim lowest [
      | inl all ↦ inl (
        rw all refl,
        λ k.
            none_left v mask 64 k h (omega arith)
              (subst (λ t. (ltb k t && bit rest k) ≡ false) all (below k)),
      )
      | inr (lt, one) ↦
          let other : (ans == 64) ≡ false = not_last ans lt in
          inr (
            ans,
            rw other refl,
            lt,
            sym (left_bit v mask ans h lt) ∙ one,
            λ k. none_left v mask ans k h (omega (arith, lt)) (below k),
          )
    ]
  where
    not_last : (n : ℕ) → n < 64 → (n == 64) ≡ false
    not_last n h = ground arith
