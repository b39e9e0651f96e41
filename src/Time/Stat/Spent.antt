-- ===== src/Time/Stat/Spent.antt =====
-- What the two times count while a task goes to user code and back.
use maturin.Prelude.{
  ℕ, ◌+◌, ◌-◌, ◌≤◌, ◌<◌, ◌≡◌, usize_mod, Bool, true, false, not, subst, sym, List, [], ◌∷◌, refl,
  ap, arith,
}
use maturin.Time.{wrapping_add, wrapping_sub}
use maturin.Time.Stat.{
  TimeStat, timer_kernel_to_user, timer_user_to_kernel, update_timer_if,
  update_timer_and_send_signal, is_real_or_prof, is_none,
}

-- Going to user code at the first time of each pair, and back to the kernel at the second.
unfoldable pub run_cycles : TimeStat → List (ℕ × ℕ) → TimeStat
run_cycles self [] = self
run_cycles self ((a, b) ∷ cycles) =
    run_cycles (timer_user_to_kernel b (timer_kernel_to_user a self).0).0 cycles

-- The times are in order, from `now` on.
abbrev pub InOrder : ℕ → List (ℕ × ℕ) → Type 0
InOrder now [] = now < usize_mod
InOrder now ((a, b) ∷ cycles) = (now ≤ a) × (a ≤ b) × InOrder b cycles

abbrev pub last_time : ℕ → List (ℕ × ℕ) → ℕ
last_time now [] = now
last_time now ((a, b) ∷ cycles) = last_time b cycles

-- The time from each return to the kernel, and from `now`, to the next step to user code.
abbrev pub in_kernel : ℕ → List (ℕ × ℕ) → ℕ
in_kernel now [] = 0
in_kernel now ((a, b) ∷ cycles) = (a - now) + in_kernel b cycles

last_time_ge :
    (now : ℕ) (cycles : List (ℕ × ℕ))
    → InOrder now cycles
    → (now + in_kernel now cycles ≤ last_time now cycles) × (last_time now cycles < usize_mod)
last_time_ge now [] o = (omega arith, o)
last_time_ge now ((a, b) ∷ cycles) o = omega (arith, o.0, o.1, last_time_ge b cycles o.2)

record SameTimes (a b : TimeStat) : Type 0 where
  utime : a.utime_us ≡ b.utime_us
  stime : a.stime_us ≡ b.stime_us
  kernel : a.kernel_tick ≡ b.kernel_tick

update_timer_if-SameTimes :
    (test : Bool) (self : TimeStat) (delta : ℕ) → SameTimes (update_timer_if test self delta).0 self
unfolding update_timer_if update_timer_and_send_signal
update_timer_if-SameTimes true self delta = record {
  utime = ground arith;
  stime = ground arith;
  kernel = ground arith;
}
update_timer_if-SameTimes false self delta = record { utime = refl; stime = refl; kernel = refl }

record Counted (self : TimeStat) (user_us kernel_us at : ℕ) (self' : TimeStat) : Type 0 where
  utime : self'.utime_us ≡ self.utime_us + user_us
  stime : self'.stime_us ≡ self.stime_us + kernel_us
  kernel : self'.kernel_tick ≡ at

cycle-Counted :
    (self : TimeStat) (a b : ℕ)
    → self.kernel_tick ≤ a
    → a ≤ b
    → b < usize_mod
    → self.utime_us + (b - self.kernel_tick) < usize_mod
    → self.stime_us + (a - self.kernel_tick) < usize_mod
    → Counted self
        (b - self.kernel_tick)
        (a - self.kernel_tick)
        b
        (timer_user_to_kernel b (timer_kernel_to_user a self).0).0
unfolding timer_user_to_kernel timer_kernel_to_user wrapping_add wrapping_sub
cycle-Counted self a b ha hb small hu hs =
    let first =
      update_timer_if-SameTimes (is_real_or_prof self.timer_type) self
        (wrapping_sub a self.kernel_tick) in
    let between = (timer_kernel_to_user a self).0 in
    let second =
      update_timer_if-SameTimes (not (is_none between.timer_type)) between
        (wrapping_sub b between.kernel_tick) in
    record {
      utime = omega (arith, first.utime, first.kernel, second.utime);
      stime = omega (arith, first.stime, second.stime);
      kernel = refl;
    }

-- From a return to the kernel on, with the times of the steps in order and no sum past a `usize`:
-- the kernel time grows by the time spent in the kernel, but the user time grows by all the time
-- that passes, that in the kernel included.
pub run_cycles_lem :
    (self : TimeStat) (cycles : List (ℕ × ℕ))
    → InOrder self.kernel_tick cycles
    → self.utime_us + (last_time self.kernel_tick cycles - self.kernel_tick) < usize_mod
    → self.stime_us + in_kernel self.kernel_tick cycles < usize_mod
    → ((run_cycles self cycles).utime_us
        ≡ self.utime_us + (last_time self.kernel_tick cycles - self.kernel_tick))
      × ((run_cycles self cycles).stime_us ≡ self.stime_us + in_kernel self.kernel_tick cycles)
unfolding run_cycles
run_cycles_lem self [] o hu hs = (omega arith, omega arith)
run_cycles_lem self ((a, b) ∷ cycles) o hu hs =
    let far = last_time_ge b cycles o.2 in
    let c =
      cycle-Counted self a b o.0 o.1 (omega (arith, far)) (omega (arith, far, o.1, o.0))
        (omega (arith)) in
    let next = (timer_user_to_kernel b (timer_kernel_to_user a self).0).0 in
    let ends = ap (λ t. last_time t cycles) c.kernel in
    let spent = ap (λ t. in_kernel t cycles) c.kernel in
    let later =
      run_cycles_lem next cycles (subst (λ t. InOrder t cycles) (sym c.kernel) o.2)
        (omega (arith, c.utime, c.kernel, ends, far, o.0, o.1)) (omega (arith, c.stime, spent)) in
    (
      omega (arith, later.0, c.utime, c.kernel, ends, far, o.0, o.1),
      omega (arith, later.1, c.stime, spent),
    )
