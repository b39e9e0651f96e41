-- ===== src/Time/Tests.antt =====
-- Times and timers on concrete values.
use maturin.Prelude.{ℕ, ◌+◌, ◌-◌, ◌≡◌, leb, ◌==◌, if◌then◌else◌, List, [], ◌∷◌, refl, arith}
use maturin.Time.{TimeVal, TimeSpec}
use maturin.Time.Stat.{TimeStat, TimerType, signal_of}
use maturin.Time.Stat.Fired.{update_all, update_all_once, sum}
use maturin.Time.Stat.Spent.{run_cycles, run_cycles_lem, last_time, in_kernel}

abbrev almost_two : TimeVal
almost_two = record { sec = 1; usec = 900000 }

abbrev half : TimeSpec
half = record { tv_sec = 0; tv_nsec = 500000000 }

-- A task that came to the kernel at 100, with a timer for 50 microseconds of user time.
abbrev running : TimeStat
running = record {
  tid = 4;
  utime_us = 7;
  stime_us = 3;
  user_tick = 90;
  kernel_tick = 100;
  start_tick = 0;
  timer_type = TimerType.virtual;
  timer_interval_us = 0;
  timer_remained_us = 50;
}

update_all_once_example : (update_all running (20 ∷ 20 ∷ 20 ∷ [])).1 ≡ (
    if 50 == 0
    then []
    else if leb 50 (sum (20 ∷ 20 ∷ 20 ∷ []))
    then signal_of 4 TimerType.virtual
    else [])
update_all_once_example = update_all_once running (20 ∷ 20 ∷ 20 ∷ []) refl

abbrev cycles : List (ℕ × ℕ)
cycles = (110, 140) ∷ (145, 200) ∷ []

run_cycles_lem_example :
    ((run_cycles running cycles).utime_us ≡ 7 + (last_time 100 cycles - 100))
    × ((run_cycles running cycles).stime_us ≡ 3 + in_kernel 100 cycles)
run_cycles_lem_example =
    run_cycles_lem running cycles
      (omega arith, omega arith, (omega arith, omega arith, omega arith)) (omega arith)
      (omega arith)
