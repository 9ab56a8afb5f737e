-- ===== src/Timer.antt =====
-- tinyrpc/net/timer.{h,cc} and time_event.{h,cc}: the events of a loop's timer.
-- `std::shared_ptr<TimeEvent>` is an identifier, and `events` is the heap that it points into; an
-- event's callback is named by its identifier. Times are milliseconds; they do not overflow an
-- `int64_t` in the lifetime of the program. The mutex is left out: each operation is one step.
pub mod Order
pub mod Fire
pub mod Delete
pub mod Entries
pub mod Kept
pub mod Armed
pub mod Tests
use my_tiny_rpc.Base.{
  ℕ, suc, ◌+◌, ◌-◌, Bool, true, false, not, Option, none, some, List, [], ◌∷◌, ◌++◌, ltb, leb, ◌==◌,
  if◌then◌else◌,
}

pub record TimeEvent : Type 0 where
  pub arrive_time : ℕ
  pub interval : ℕ
  pub is_repeated : Bool
  pub is_cancel : Bool

-- `m_pending_events`, a `multimap` from arrive times to events.
abbrev pub Pending : Type 0
Pending = List (ℕ × ℕ)

-- `clock` gives what `getNowMs` will return, call after call; `reads` counts the calls.
-- `armed` is the interval that the timer's file descriptor was last set to, behind the reading of the
-- clock just before.
pub record Timer : Type 0 where
  pub events : ℕ → TimeEvent
  pub pending : Pending
  pub armed : Option (ℕ × ℕ)
  pub clock : ℕ → ℕ
  pub reads : ℕ

unfoldable pub get_now_ms : Timer → ℕ × Timer
get_now_ms t = (t.clock t.reads, record t { reads = suc t.reads })

abbrev pub set_event : (ℕ → TimeEvent) → ℕ → TimeEvent → ℕ → TimeEvent
set_event events id e j = if j == id then e else events j

-- `setCancel`, which does not look at its argument.
unfoldable pub set_cancel : Timer → ℕ → Bool → Timer
set_cancel t id is_cancel = record t {
  events = set_event t.events id (record (t.events id) { is_cancel = true });
}

-- `TimeEvent::resetArriveTime`
unfoldable pub reset_event : Timer → ℕ → Timer
reset_event t id =
    let (now, t') = get_now_ms t in
    record t' {
      events =
          set_event t'.events id
            (record (t'.events id) { arrive_time = now + (t'.events id).interval });
    }

-- The constructor of `TimeEvent`, which leaves `m_is_cancel` as the memory was.
unfoldable pub new_time_event : Timer → ℕ → ℕ → Bool → Bool → Timer
new_time_event t id interval is_repeated memory =
    reset_event
      (record t {
        events = set_event t.events id (record {
          arrive_time = 0;
          interval = interval;
          is_repeated = is_repeated;
          is_cancel = memory;
        });
      })
      id

-- `emplace` puts an entry behind those with the same key.
unfoldable pub emplace : ℕ → ℕ → Pending → Pending
emplace key id [] = (key, id) ∷ []
emplace key id ((k, j) ∷ rest) =
    if leb k key then (k, j) ∷ emplace key id rest else (key, id) ∷ (k, j) ∷ rest

-- `Timer::resetArriveTime`
unfoldable pub reset_arrive_time : Timer → Timer
reset_arrive_time t = elim t.pending [
  | [] ↦ t
  | (key, id) ∷ rest ↦
      let (now, t') = get_now_ms t in
      let arrive = (t.events id).arrive_time in
      record t' { armed = some (now, if ltb now arrive then arrive - now else 100) }
]

-- Whether a new event at `arrive` comes before all that are pending.
unfoldable pub comes_first : (ℕ → TimeEvent) → Pending → ℕ → Bool
comes_first events [] arrive = true
comes_first events ((key, id) ∷ rest) arrive = ltb arrive (events id).arrive_time

unfoldable pub add_time_event : Timer → ℕ → Timer
add_time_event t id =
    let arrive = (t.events id).arrive_time in
    let t' = record t { pending = emplace arrive id t.pending } in
    if comes_first t.events t.pending arrive then reset_arrive_time t' else t'

-- The loop over the entries from `lower_bound` to `upper_bound` of the key. Its test
-- `it->second = event` assigns: it holds at the first entry, which then is erased.
unfoldable pub erase_at : ℕ → Pending → Pending
erase_at key [] = []
erase_at key ((k, j) ∷ rest) = if k == key then rest else (k, j) ∷ erase_at key rest

unfoldable pub delete_time_event : Timer → ℕ → Timer
delete_time_event t id =
    let t' = set_cancel t id true in
    record t' { pending = erase_at (t'.events id).arrive_time t'.pending }

-- The `while` loop of `onTimer`: the entries that are due and not cancelled, and those that stay.
unfoldable pub take_due : (ℕ → TimeEvent) → ℕ → Pending → Pending × Pending
take_due events now [] = ([], [])
take_due events now ((key, id) ∷ rest) =
    let (due, later) = take_due events now rest in
    if ltb now key
    then ([], (key, id) ∷ rest)
    else if (events id).is_cancel
    then (due, later)
    else ((key, id) ∷ due, later)

-- The events that repeat are given a new time and added again.
unfoldable pub add_repeated : Timer → Pending → Timer
add_repeated t [] = t
add_repeated t ((key, id) ∷ due) =
    add_repeated (if (t.events id).is_repeated then add_time_event (reset_event t id) id else t) due

-- `onTimer`: the callbacks that it runs, by the entries they belong to, and the timer.
unfoldable pub on_timer : Timer → Pending × Timer
on_timer t =
    let (now, t') = get_now_ms t in
    let (due, later) = take_due t'.events now t'.pending in
    (due, reset_arrive_time (add_repeated (record t' { pending = later }) due))
