-- ===== src/Time/Val.antt =====
-- Times as numbers of microseconds.
use maturin.Prelude.{ℕ, ◌+◌, ◌*◌, ◌%◌, ◌<◌, ◌≡◌, leb, usize_mod, Bool-cases, inl, inr, arith}
use maturin.Time.{
  usec_per_sec, nsec_per_sec, TimeVal, TimeSpec, add_val, add_spec, val_from_usec, val_into_usec,
  wrapping_add,
}

-- A number of microseconds, split into seconds and microseconds, has fewer microseconds than a
-- second has, and is the number that is put together again.
pub val_into_usec-val_from_usec :
    (usec : ℕ)
    → usec < usize_mod
    → ((val_from_usec usec).usec < usec_per_sec) × (val_into_usec (val_from_usec usec) ≡ usec)
unfolding val_from_usec val_into_usec
val_into_usec-val_from_usec usec h = (omega arith, omega arith)

-- The sum of two times whose microseconds are fewer than a second's is such a time again, and is
-- the sum of the microseconds that they stand for, where that is a `usize`.
pub val_into_usec-add_val :
    (a b : TimeVal)
    → a.usec < usec_per_sec
    → b.usec < usec_per_sec
    → (a.sec + b.sec + 1) * usec_per_sec + usec_per_sec < usize_mod
    → ((add_val a b).usec < usec_per_sec)
      × (val_into_usec (add_val a b) ≡ val_into_usec a + val_into_usec b)
unfolding add_val val_into_usec wrapping_add
val_into_usec-add_val a b ha hb h =
    elim (Bool-cases (leb usec_per_sec ((a.usec + b.usec) % usize_mod))) [
      | inl carry ↦ (ground (arith, carry), ground (arith, carry))
      | inr no_carry ↦ (ground (arith, no_carry), ground (arith, no_carry))
    ]

-- The same of times in nanoseconds.
pub add_spec_lem :
    (a b : TimeSpec)
    → a.tv_nsec < nsec_per_sec
    → b.tv_nsec < nsec_per_sec
    → a.tv_sec + b.tv_sec + 1 < usize_mod
    → ((add_spec a b).tv_nsec < nsec_per_sec)
      × ((add_spec a b).tv_sec * nsec_per_sec + (add_spec a b).tv_nsec
          ≡ (a.tv_sec + b.tv_sec) * nsec_per_sec + (a.tv_nsec + b.tv_nsec))
unfolding add_spec wrapping_add
add_spec_lem a b ha hb h =
    elim (Bool-cases (leb nsec_per_sec ((a.tv_nsec + b.tv_nsec) % usize_mod))) [
      | inl carry ↦ (ground (arith, carry), ground (arith, carry))
      | inr no_carry ↦ (ground (arith, no_carry), ground (arith, no_carry))
    ]
