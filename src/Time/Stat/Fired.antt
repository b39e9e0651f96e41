-- ===== src/Time/Stat/Fired.antt =====
-- A timer that is set once fires once, when its time has passed.
use maturin.Prelude.{
  ℕ, ◌+◌, ◌-◌, ◌≡◌, ltb, leb, ◌==◌, if◌then◌else◌, List, [], ◌∷◌, ◌++◌, refl, ap, Bool-cases, inl,
  inr, arith,
}
use maturin.Time.Stat.{TimeStat, Sent, signal_of, update_timer_and_send_signal}

-- Calls one after another, with the times that have passed, and all the signals sent.
unfoldable pub update_all : TimeStat → List ℕ → TimeStat × Sent
update_all self [] = (self, [])
update_all self (delta ∷ deltas) =
    let (_, self', sent) = update_timer_and_send_signal self delta in
    let (self'', later) = update_all self' deltas in (self'', sent ++ later)

abbrev pub sum : List ℕ → ℕ
sum [] = 0
sum (x ∷ xs) = x + sum xs

append_nil : (xs : Sent) → xs ++ [] ≡ xs
append_nil [] = refl
append_nil (x ∷ xs) = ap (λ r. x ∷ r) (append_nil xs)

-- A timer that is off stays off.
off :
    (self : TimeStat) (deltas : List ℕ)
    → self.timer_remained_us ≡ 0
    → update_all self deltas ≡ (self, [])
unfolding update_all update_timer_and_send_signal
off self [] e = refl
off self (delta ∷ deltas) e = ground (arith, e, off self deltas e)

-- However the time that passes is split over the calls, a timer without an interval sends nothing
-- while less than its remaining time has passed, and its signal exactly once when that much has; a
-- timer with no time remaining sends nothing.
pub update_all_once :
    (self : TimeStat) (deltas : List ℕ)
    → self.timer_interval_us ≡ 0
    → (update_all self deltas).1 ≡ (
        if self.timer_remained_us == 0
        then []
        else if leb self.timer_remained_us (sum deltas)
        then signal_of self.tid self.timer_type
        else [])
unfolding update_all update_timer_and_send_signal
update_all_once self [] e = ground arith
update_all_once self (delta ∷ deltas) e = elim (Bool-cases (self.timer_remained_us == 0)) [
  | inl is_off ↦
      let stays = ap (λ p. p.1) (off self deltas (ground (arith, is_off))) in
      ground (arith, is_off, stays)
  | inr is_on ↦ elim (Bool-cases (ltb delta self.timer_remained_us)) [
    | inl early ↦ ground (
      arith,
      is_on,
      early,
      update_all_once (record self { timer_remained_us = self.timer_remained_us - delta }) deltas e,
    )
    | inr fires ↦
        let self' : TimeStat = record self { timer_remained_us = self.timer_interval_us } in
        let stays = ap (λ p. p.1) (off self' deltas e) in
        ground (arith, is_on, fires, stays, append_nil (signal_of self.tid self.timer_type))
  ]
]
