-- ===== src/Timer/Kept.antt =====
-- What every operation of a timer keeps of its entries.
use my_tiny_rpc.Base.{
  ℕ, suc, ◌+◌, ◌≡◌, ◌≢◌, refl, sym, Bool, true, false, [], ◌∷◌, arith, All, if◌then◌else◌, subst,
}
use my_tiny_rpc.Timer.{
  TimeEvent, Pending, Timer, get_now_ms, set_cancel, emplace, set_event, new_time_event,
  reset_event, add_time_event, erase_at, delete_time_event, take_due, add_repeated,
  reset_arrive_time, on_timer,
}
use my_tiny_rpc.Timer.Order.{
  IsSorted, pending-add_time_event, add_time_event-IsSorted, later-SortedFrom, erase_at-SortedFrom,
  pending-reset_arrive_time, events-reset_arrive_time,
}
use my_tiny_rpc.Timer.Fire.{events-add_time_event}
use my_tiny_rpc.Timer.Entries.{
  InStep, Absent, Distinct, emplace-All, erase_at-All, take_due-All, emplace-Distinct,
  erase_at-Distinct, take_due-Apart, set_event-InStep,
}

pub record Kept (t : Timer) : Type 0 where
  pub sorted : IsSorted t.pending
  pub in_step : InStep t.events t.pending
  pub distinct : Distinct t.pending

-- The entries and the events are all that it is about.
pub Kept-same : (t u : Timer) → u.pending ≡ t.pending → u.events ≡ t.events → Kept t → Kept u
Kept-same t u p e k = record {
  sorted = subst IsSorted (sym p) k.sorted;
  in_step =
      subst (λ x. InStep u.events x) (sym p) (subst (λ x. InStep x t.pending) (sym e) k.in_step);
  distinct = subst Distinct (sym p) k.distinct;
}

pub reset_event-Kept : (t : Timer) (id : ℕ) → Absent id t.pending → Kept t → Kept (reset_event t id)
unfolding reset_event get_now_ms
reset_event-Kept t id a k = record {
  sorted = k.sorted;
  in_step =
      set_event-InStep t.events id
        (record (t.events id) { arrive_time = t.clock t.reads + (t.events id).interval }) t.pending
        a k.in_step;
  distinct = k.distinct;
}

pub new_time_event-Kept :
    (t : Timer) (id interval : ℕ) (is_repeated memory : Bool)
    → Absent id t.pending
    → Kept t
    → Kept (new_time_event t id interval is_repeated memory)
unfolding new_time_event
new_time_event-Kept t id interval is_repeated memory a k =
    let e : TimeEvent = record {
      arrive_time = 0;
      interval = interval;
      is_repeated = is_repeated;
      is_cancel = memory;
    } in
    reset_event-Kept (record t { events = set_event t.events id e }) id a
      (record {
        sorted = k.sorted;
        in_step = set_event-InStep t.events id e t.pending a k.in_step;
        distinct = k.distinct;
      })

cancel-InStep :
    (t : Timer) (id : ℕ) (p : Pending) → InStep t.events p → InStep (set_cancel t id true).events p
unfolding set_cancel
cancel-InStep t id [] s = tt
cancel-InStep t id ((k, j) ∷ rest) s = (ground (arith, s.0), cancel-InStep t id rest s.1)

pub set_cancel-Kept : (t : Timer) (id : ℕ) → Kept t → Kept (set_cancel t id true)
unfolding set_cancel
set_cancel-Kept t id k = record {
  sorted = k.sorted;
  in_step = cancel-InStep t id t.pending k.in_step;
  distinct = k.distinct;
}

pub add_time_event-Kept :
    (t : Timer) (id : ℕ) → Absent id t.pending → Kept t → Kept (add_time_event t id)
add_time_event-Kept t id a k =
    let arrive = (t.events id).arrive_time in
    let p = pending-add_time_event t id in
    record {
      sorted = add_time_event-IsSorted t id k.sorted;
      in_step =
          subst (λ x. InStep x (add_time_event t id).pending) (sym (events-add_time_event t id))
            (subst (InStep t.events) (sym p) (
              emplace-All (λ e. (t.events e.1).arrive_time ≡ e.0) arrive id t.pending refl
                k.in_step));
      distinct = subst Distinct (sym p) (emplace-Distinct arrive id t.pending a k.distinct);
    }

erase-Kept : (t : Timer) (key : ℕ) → Kept t → Kept (record t { pending = erase_at key t.pending })
erase-Kept t key k = record {
  sorted = erase_at-SortedFrom 0 key t.pending k.sorted;
  in_step = erase_at-All (λ e. (t.events e.1).arrive_time ≡ e.0) key t.pending k.in_step;
  distinct = erase_at-Distinct key t.pending k.distinct;
}

pub delete_time_event-Kept : (t : Timer) (id : ℕ) → Kept t → Kept (delete_time_event t id)
unfolding delete_time_event
delete_time_event-Kept t id k =
    let u = set_cancel t id true in erase-Kept u (u.events id).arrive_time (set_cancel-Kept t id k)

-- The events that are still to be added again have no entry.
still_Absent :
    (key id : ℕ) (due p : Pending)
    → Absent id due
    → All (λ e. Absent e.1 p) due
    → All (λ e. Absent e.1 (emplace key id p)) due
still_Absent key id [] p a h = tt
still_Absent key id ((k, j) ∷ due) p a h =
    (emplace-All (λ e. e.1 ≢ j) key id p (λ q. a.0 (sym q)) h.0, still_Absent key id due p a.1 h.1)

-- An event that is run is added again if it repeats.
add_again : Bool → Timer → ℕ → Timer
add_again c t id = if c then add_time_event (reset_event t id) id else t

add_again-Kept :
    (c : Bool) (t : Timer) (id : ℕ) (due : Pending)
    → Absent id t.pending
    → Absent id due
    → All (λ e. Absent e.1 t.pending) due
    → Kept t
    → Kept (add_again c t id) × All (λ e. Absent e.1 (add_again c t id).pending) due
unfolding add_again reset_event get_now_ms
add_again-Kept false t id due a b h k = (k, h)
add_again-Kept true t id due a b h k =
    let u = reset_event t id in
    (
      add_time_event-Kept u id a (reset_event-Kept t id a k),
      subst (λ p. All (λ e. Absent e.1 p) due) (sym (pending-add_time_event u id))
          (still_Absent (u.events id).arrive_time id due t.pending b h),
    )

add_repeated-Kept :
    (due : Pending) (t : Timer)
    → Distinct due
    → All (λ e. Absent e.1 t.pending) due
    → Kept t
    → Kept (add_repeated t due)
unfolding add_repeated add_again
add_repeated-Kept [] t d h k = k
add_repeated-Kept ((key, id) ∷ due) t d h k =
    let next = add_again-Kept (t.events id).is_repeated t id due h.0 d.0 h.1 k in
    add_repeated-Kept due (add_again (t.events id).is_repeated t id) d.1 next.1 next.0

pub reset_arrive_time-Kept : (t : Timer) → Kept t → Kept (reset_arrive_time t)
reset_arrive_time-Kept t k =
    Kept-same t (reset_arrive_time t) (pending-reset_arrive_time t) (events-reset_arrive_time t) k

-- The timer as `onTimer` leaves it, but for its descriptor.
pub fired : Timer → Timer
fired t =
    let taken = take_due t.events (t.clock t.reads) t.pending in
    add_repeated (record t { pending = taken.1; reads = suc t.reads }) taken.0

pub on_timer-fired : (t : Timer) → (on_timer t).1 ≡ reset_arrive_time (fired t)
unfolding on_timer get_now_ms fired
on_timer-fired t = refl

pub fired-Kept : (t : Timer) → Kept t → Kept (fired t)
unfolding fired
fired-Kept t k =
    let now = t.clock t.reads in
    let taken = take_due t.events now t.pending in
    let (distinct_due, distinct_later, absent) = take_due-Apart t.events now t.pending k.distinct in
    add_repeated-Kept taken.0 (record t { pending = taken.1; reads = suc t.reads }) distinct_due
      absent
      (record {
        sorted = later-SortedFrom t.events now 0 t.pending k.sorted;
        in_step =
            (take_due-All (λ e. (t.events e.1).arrive_time ≡ e.0) t.events now t.pending
              k.in_step).1;
        distinct = distinct_later;
      })
