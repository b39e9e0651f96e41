-- ===== src/Time.antt =====
-- modules/timer/src/lib.rs: times as seconds with microseconds or nanoseconds. The floating-point
-- times and the system calls, which write them to user memory, are not here.
pub mod Val
pub mod Stat
pub mod Tests
use maturin.Prelude.{ℕ, ◌+◌, ◌-◌, ◌*◌, ◌/◌, ◌%◌, leb, ◌==◌, if◌then◌else◌, usize_mod}

-- `usize` arithmetic.
unfoldable pub wrapping_add : ℕ → ℕ → ℕ
wrapping_add a b = (a + b) % usize_mod

unfoldable pub wrapping_sub : ℕ → ℕ → ℕ
wrapping_sub a b = (usize_mod + a - b) % usize_mod

-- The clock of the platforms other than sifive.
abbrev pub clock_freq : ℕ
clock_freq = 12500000

abbrev pub usec_per_sec : ℕ
usec_per_sec = 1000000

abbrev pub nsec_per_sec : ℕ
nsec_per_sec = 1000000000

abbrev pub nsec_per_machine_ticks : ℕ
nsec_per_machine_ticks = nsec_per_sec / clock_freq

abbrev pub utime_now : ℕ
utime_now = 0x3fffffff

abbrev pub utime_omit : ℕ
utime_omit = 0x3ffffffe

pub record TimeSpec : Type 0 where
  pub tv_sec : ℕ
  pub tv_nsec : ℕ

pub record TimeVal : Type 0 where
  pub sec : ℕ
  pub usec : ℕ

-- `now` is the time of the call.
unfoldable pub set_as_utime : TimeSpec → TimeSpec → TimeSpec → TimeSpec
set_as_utime now self other =
    if other.tv_nsec == utime_now then now else if other.tv_nsec == utime_omit then self else other

unfoldable pub get_ticks : TimeSpec → ℕ
get_ticks self = (self.tv_sec * clock_freq + self.tv_nsec / nsec_per_machine_ticks) % usize_mod

unfoldable pub add_spec : TimeSpec → TimeSpec → TimeSpec
add_spec self other =
    let sec = wrapping_add self.tv_sec other.tv_sec in
    let nsec = wrapping_add self.tv_nsec other.tv_nsec in
    if leb nsec_per_sec nsec
    then record { tv_sec = wrapping_add sec 1; tv_nsec = nsec - nsec_per_sec }
    else record { tv_sec = sec; tv_nsec = nsec }

unfoldable pub add_val : TimeVal → TimeVal → TimeVal
add_val self other =
    let sec = wrapping_add self.sec other.sec in
    let usec = wrapping_add self.usec other.usec in
    if leb usec_per_sec usec
    then record { sec = wrapping_add sec 1; usec = usec - usec_per_sec }
    else record { sec = sec; usec = usec }

-- `From<TimeSpec> for TimeVal`
unfoldable pub val_from_spec : TimeSpec → TimeVal
val_from_spec spec = record { sec = spec.tv_sec; usec = spec.tv_nsec / usec_per_sec }

-- `From<usize> for TimeVal` and `Into<usize>`, in microseconds.
unfoldable pub val_from_usec : ℕ → TimeVal
val_from_usec usec = record { sec = usec / usec_per_sec; usec = usec % usec_per_sec }

unfoldable pub val_into_usec : TimeVal → ℕ
val_into_usec self = (self.sec * usec_per_sec + self.usec) % usize_mod
