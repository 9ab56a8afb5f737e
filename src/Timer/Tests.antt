-- ===== src/Timer/Tests.antt =====
-- Runs of the timer and its theorems at concrete events.
use my_tiny_rpc.Base.{ℕ, zero, suc, ◌+◌, ◌≡◌, refl, true, false, none, some, [], ◌∷◌, arith}
use my_tiny_rpc.Timer.Kept.{Kept}
use my_tiny_rpc.Timer.Armed.{SetFor, Reached, new_timer, then_made, then_added, Reached-SetFor}
use my_tiny_rpc.Timer.{
  new_time_event, TimeEvent, Pending, Timer, get_now_ms, set_cancel, take_due, erase_at, emplace,
  reset_event, comes_first, reset_arrive_time, add_time_event, add_repeated, delete_time_event,
  on_timer,
}
use my_tiny_rpc.Timer.Order.{IsSorted}
use my_tiny_rpc.Timer.Fire.{due_entries, on_timer_fires}
use mathlib.Core.List.{Memᴰ}

-- Event 0 repeats every 5 ms, event 1 runs once, event 2 is cancelled.
abbrev event : ℕ → TimeEvent
event zero = record { arrive_time = 10; interval = 5; is_repeated = true; is_cancel = false }
event (suc zero) = record { arrive_time = 10; interval = 9; is_repeated = false; is_cancel = false }
event (suc (suc zero)) = record {
  arrive_time = 11;
  interval = 4;
  is_repeated = false;
  is_cancel = true;
}
event (suc (suc (suc id))) = record {
  arrive_time = 30;
  interval = 30;
  is_repeated = false;
  is_cancel = false;
}

abbrev entries : Pending
entries = (10, 0) ∷ (10, 1) ∷ (11, 2) ∷ (30, 3) ∷ []

-- Each reading of the clock is one millisecond later, from 12 on.
abbrev running : Timer
running = record { events = event; pending = entries; armed = none; clock = λ n. 12 + n; reads = 0 }

entries-IsSorted : IsSorted entries
entries-IsSorted = (omega arith, (omega arith, (omega arith, (omega arith, tt))))

on_timer_runs : (on_timer running).0 ≡ (10, 0) ∷ (10, 1) ∷ []
unfolding on_timer get_now_ms take_due
on_timer_runs = refl

on_timer_leaves : (on_timer running).1.pending ≡ (18, 0) ∷ (30, 3) ∷ []
unfolding on_timer get_now_ms take_due add_repeated add_time_event reset_event reset_arrive_time
    comes_first emplace
on_timer_leaves = refl

on_timer_arms : (on_timer running).1.armed ≡ some (15, 3)
unfolding on_timer get_now_ms take_due add_repeated add_time_event reset_event reset_arrive_time
    comes_first emplace
on_timer_arms = refl

delete_event_1 : (delete_time_event running 1).pending ≡ (10, 1) ∷ (11, 2) ∷ (30, 3) ∷ []
unfolding delete_time_event set_cancel erase_at
delete_event_1 = refl

on_timer_fires_example : (on_timer running).0 ≡ due_entries event 12 entries
on_timer_fires_example = on_timer_fires running entries-IsSorted

runs_0 : Memᴰ (10, 0) (on_timer running).0
unfolding on_timer get_now_ms take_due
runs_0 = Memᴰ.head refl

-- Event 0 is added for the time 22, and then event 1 for the time 18.
abbrev fresh : Timer
fresh = record running { pending = [] }

abbrev one_added : Timer
one_added = add_time_event (new_time_event fresh 0 10 true false) 0

abbrev two_added : Timer
two_added = add_time_event (new_time_event one_added 1 4 false false) 1

two_added-Reached : Reached two_added
unfolding new_time_event reset_event get_now_ms add_time_event reset_arrive_time comes_first emplace
two_added-Reached =
    then_added (new_time_event one_added 1 4 false false) 1
      (then_made one_added 1 4 false false
        (then_added (new_time_event fresh 0 10 true false) 0
          (then_made fresh 0 10 true false (new_timer fresh refl) tt) tt)
        ((λ e. cc e), tt))
      ((λ e. cc e), tt)

two_entries : two_added.pending ≡ (18, 1) ∷ (22, 0) ∷ []
unfolding new_time_event reset_event get_now_ms add_time_event reset_arrive_time comes_first emplace
two_entries = refl

Reached-SetFor_example : Kept two_added × SetFor 18 two_added.armed
Reached-SetFor_example = Reached-SetFor two_added 18 1 ((22, 0) ∷ []) two_added-Reached two_entries

-- It was set at 15, for 3 ms.
two_armed : two_added.armed ≡ some (15, 3)
unfolding new_time_event reset_event get_now_ms add_time_event reset_arrive_time comes_first emplace
two_armed = refl
