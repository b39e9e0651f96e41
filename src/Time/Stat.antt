-- ===== src/Time/Stat.antt =====
-- kernel/src/task/time_stat.rs: the times that a task spends, and its interval timer. `now` is
-- `get_time_us()` at the call. A call that can send a signal returns those that it sent, each with
-- the task and the number.
pub mod Spent
pub mod Fired
use maturin.Prelude.{
  ℕ, ◌+◌, ◌-◌, ◌%◌, ◌^◌, Bool, true, false, not, ltb, ◌==◌, ◌||◌, if◌then◌else◌, List, [], ◌∷◌,
}
use maturin.Time.{wrapping_add, wrapping_sub}

pub data TimerType : Type 0 where
  none : TimerType
  real : TimerType
  virtual : TimerType
  prof : TimerType

pub record TimeStat : Type 0 where
  pub tid : ℕ
  pub utime_us : ℕ
  pub stime_us : ℕ
  pub user_tick : ℕ
  pub kernel_tick : ℕ
  pub start_tick : ℕ
  pub timer_type : TimerType
  pub timer_interval_us : ℕ
  pub timer_remained_us : ℕ

abbrev pub Sent : Type 0
Sent = List (ℕ × ℕ)

-- `num as i32`, and `NONE` for what is no type.
unfoldable pub timer_type_from : ℕ → TimerType
timer_type_from num =
    let n = num % 2 ^ 32 in
    if n == 0
    then TimerType.real
    else if n == 1
    then TimerType.virtual
    else if n == 2
    then TimerType.prof
    else TimerType.none

unfoldable pub new : ℕ → ℕ → TimeStat
new now tid = record {
  tid = tid;
  utime_us = 0;
  stime_us = 0;
  user_tick = 0;
  kernel_tick = 0;
  start_tick = now;
  timer_type = TimerType.none;
  timer_interval_us = 0;
  timer_remained_us = 0;
}

unfoldable pub clear : ℕ → TimeStat → TimeStat
clear now self = record self {
  utime_us = 0;
  stime_us = 0;
  user_tick = 0;
  kernel_tick = 0;
  start_tick = now;
}

abbrev pub is_real_or_prof : TimerType → Bool
is_real_or_prof TimerType.none = false
is_real_or_prof TimerType.real = true
is_real_or_prof TimerType.virtual = false
is_real_or_prof TimerType.prof = true

abbrev pub is_none : TimerType → Bool
is_none TimerType.none = true
is_none TimerType.real = false
is_none TimerType.virtual = false
is_none TimerType.prof = false

-- `SIGALRM`, `SIGVTALRM` and `SIGPROF`
abbrev pub signal_of : ℕ → TimerType → Sent
signal_of tid TimerType.none = []
signal_of tid TimerType.real = (tid, 14) ∷ []
signal_of tid TimerType.virtual = (tid, 26) ∷ []
signal_of tid TimerType.prof = (tid, 27) ∷ []

unfoldable pub update_timer_and_send_signal : TimeStat → ℕ → Bool × TimeStat × Sent
update_timer_and_send_signal self delta =
    if self.timer_remained_us == 0
    then (false, self, [])
    else if ltb delta self.timer_remained_us
    then (false, record self { timer_remained_us = self.timer_remained_us - delta }, [])
    else (
      true,
      record self { timer_remained_us = self.timer_interval_us },
      signal_of self.tid self.timer_type,
    )

unfoldable pub update_timer_if : Bool → TimeStat → ℕ → TimeStat × Sent
update_timer_if test self delta =
    let (_, self', sent) = update_timer_and_send_signal self delta in
    if test then (self', sent) else (self, [])

unfoldable pub timer_kernel_to_user : ℕ → TimeStat → TimeStat × Sent
timer_kernel_to_user now self =
    let delta = wrapping_sub now self.kernel_tick in
    let (self', sent) = update_timer_if (is_real_or_prof self.timer_type) self delta in
    (record self' { stime_us = wrapping_add self'.stime_us delta; user_tick = now }, sent)

unfoldable pub timer_user_to_kernel : ℕ → TimeStat → TimeStat × Sent
timer_user_to_kernel now self =
    let delta = wrapping_sub now self.kernel_tick in
    let (self', sent) = update_timer_if (not (is_none self.timer_type)) self delta in
    (record self' { utime_us = wrapping_add self'.utime_us delta; kernel_tick = now }, sent)

unfoldable pub switch_into_task : ℕ → TimeStat → TimeStat
switch_into_task now self = record self { kernel_tick = now }

unfoldable pub switch_out_task : ℕ → TimeStat → TimeStat × Sent
switch_out_task now self =
    let delta = wrapping_sub now self.kernel_tick in
    let self1 = record self { stime_us = wrapping_add self.stime_us delta } in
    update_timer_if (is_real_or_prof self.timer_type) self1 delta

unfoldable pub set_raw_timer : TimeStat → ℕ → ℕ → ℕ → Bool × TimeStat
set_raw_timer self timer_interval_us timer_remained_us timer_type = (
  not (is_none (timer_type_from timer_type)),
  record self {
    timer_type = timer_type_from timer_type;
    timer_interval_us = timer_interval_us;
    timer_remained_us = timer_remained_us;
  },
)

unfoldable pub output_raw : TimeStat → ℕ × ℕ
output_raw self = (self.utime_us, self.stime_us)

unfoldable pub output_raw_timer : TimeStat → ℕ × ℕ
output_raw_timer self = (self.timer_interval_us, self.timer_remained_us)
