-- ===== src/Timer/Order.antt =====
-- The entries of a timer stay in the order of their times.
use my_tiny_rpc.Base.{
  ℕ, suc, ◌≤◌, ◌≡◌, refl, Bool, true, false, [], ◌∷◌, arith, if◌then◌else◌, Bool-cases, inl, inr,
}
use my_tiny_rpc.Timer.{
  TimeEvent, Pending, Timer, get_now_ms, emplace, reset_arrive_time, reset_event, comes_first,
  add_time_event, erase_at, set_cancel, delete_time_event, take_due, add_repeated, on_timer,
}

-- Each entry comes no earlier than those before it.
abbrev pub SortedFrom : ℕ → Pending → Type 0
SortedFrom low [] = Unit {0}
SortedFrom low ((key, id) ∷ rest) = (low ≤ key) × SortedFrom key rest

abbrev pub IsSorted : Pending → Type 0
IsSorted = SortedFrom 0

SortedFrom-weaken : (low high : ℕ) (p : Pending) → low ≤ high → SortedFrom high p → SortedFrom low p
SortedFrom-weaken low high [] h s = tt
SortedFrom-weaken low high ((key, id) ∷ rest) h s = (omega (arith, s.0), s.1)

pub emplace-SortedFrom :
    (low key id : ℕ) (p : Pending)
    → low ≤ key
    → SortedFrom low p
    → SortedFrom low (emplace key id p)
unfolding emplace
emplace-SortedFrom low key id [] h s = (h, tt)
emplace-SortedFrom low key id ((k, j) ∷ rest) h s =
    ground (arith, emplace-SortedFrom k key id rest, s.0, s.1)

pub erase_at-SortedFrom :
    (low key : ℕ) (p : Pending) → SortedFrom low p → SortedFrom low (erase_at key p)
unfolding erase_at
erase_at-SortedFrom low key [] s = tt
erase_at-SortedFrom low key ((k, j) ∷ rest) s =
    ground (arith, erase_at-SortedFrom k key rest s.1, SortedFrom-weaken low k rest s.0 s.1)

pub later-SortedFrom :
    (events : ℕ → TimeEvent) (now low : ℕ) (p : Pending)
    → SortedFrom low p
    → SortedFrom low (take_due events now p).1
unfolding take_due
later-SortedFrom events now low [] s = tt
later-SortedFrom events now low ((k, j) ∷ rest) s =
    let tail = later-SortedFrom events now k rest s.1 in
    let weak = SortedFrom-weaken low k (take_due events now rest).1 s.0 tail in
    ground (arith, tail, weak, s.0, s.1)

pub pending-reset_arrive_time : (t : Timer) → (reset_arrive_time t).pending ≡ t.pending
unfolding reset_arrive_time get_now_ms
pending-reset_arrive_time t =
    elim t.pending as (λ p. (reset_arrive_time (record t { pending = p })).pending ≡ p) [
      | [] ↦ refl
      | entry ∷ rest ↦ refl
    ]

pub events-reset_arrive_time : (t : Timer) → (reset_arrive_time t).events ≡ t.events
unfolding reset_arrive_time get_now_ms
events-reset_arrive_time t =
    elim t.pending as (λ p. (reset_arrive_time (record t { pending = p })).events ≡ t.events) [
      | [] ↦ refl
      | entry ∷ rest ↦ refl
    ]

pub pending-add_time_event :
    (t : Timer) (id : ℕ)
    → (add_time_event t id).pending ≡ emplace (t.events id).arrive_time id t.pending
unfolding add_time_event
pending-add_time_event t id =
    elim (Bool-cases (comes_first t.events t.pending (t.events id).arrive_time)) [
      | inl first ↦ rw first (pending-reset_arrive_time _)
      | inr behind ↦ rw behind
    ]

pub add_time_event-IsSorted :
    (t : Timer) (id : ℕ) → IsSorted t.pending → IsSorted (add_time_event t id).pending
add_time_event-IsSorted t id s =
    rw (pending-add_time_event t id)
      (emplace-SortedFrom 0 (t.events id).arrive_time id t.pending (omega arith) s)

pub delete_time_event-IsSorted :
    (t : Timer) (id : ℕ) → IsSorted t.pending → IsSorted (delete_time_event t id).pending
unfolding delete_time_event set_cancel
delete_time_event-IsSorted t id s = erase_at-SortedFrom 0 _ t.pending s

IsSorted-if :
    (c : Bool) (t u : Timer)
    → IsSorted t.pending
    → IsSorted u.pending
    → IsSorted (if c then t else u).pending
IsSorted-if true t u st su = st
IsSorted-if false t u st su = su

pub reset_event-pending : (t : Timer) (id : ℕ) → (reset_event t id).pending ≡ t.pending
unfolding reset_event get_now_ms
reset_event-pending t id = refl

pub add_repeated-IsSorted :
    (due : Pending) (t : Timer) → IsSorted t.pending → IsSorted (add_repeated t due).pending
unfolding add_repeated
add_repeated-IsSorted [] t s = s
add_repeated-IsSorted ((key, id) ∷ due) t s =
    add_repeated-IsSorted due
      (if (t.events id).is_repeated then add_time_event (reset_event t id) id else t)
      (IsSorted-if (t.events id).is_repeated (add_time_event (reset_event t id) id) t
        (add_time_event-IsSorted (reset_event t id) id (rw (reset_event-pending t id) s)) s)

-- `onTimer` keeps the entries in the order of their times.
pub on_timer-IsSorted : (t : Timer) → IsSorted t.pending → IsSorted (on_timer t).1.pending
unfolding on_timer get_now_ms
on_timer-IsSorted t s =
    let taken = take_due t.events (t.clock t.reads) t.pending in
    let u = record t { pending = taken.1; reads = suc t.reads } in
    rw (pending-reset_arrive_time (add_repeated u taken.0))
      (add_repeated-IsSorted taken.0 u (later-SortedFrom t.events (t.clock t.reads) 0 t.pending s))
