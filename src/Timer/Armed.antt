-- ===== src/Timer/Armed.antt =====
-- When the timer's descriptor expires, after any sequence of operations on the timer.
use my_tiny_rpc.Base.{
  ℕ, ◌+◌, ◌-◌, ◌≤◌, ◌<◌, ◌≡◌, ◌⊎◌, inl, inr, refl, sym, Bool, true, false, Option, some, [], ◌∷◌,
  arith, ◌==◌, if◌then◌else◌, subst, ltb, leb, if_intro, Bool-cases,
}
use my_tiny_rpc.Timer.{
  TimeEvent, Pending, Timer, get_now_ms, set_cancel, emplace, new_time_event, reset_arrive_time,
  comes_first, add_time_event, erase_at, delete_time_event, reset_event, on_timer,
}
use my_tiny_rpc.Timer.Order.{IsSorted, SortedFrom}
use my_tiny_rpc.Timer.Entries.{InStep, Absent, Distinct, emplace-All}
use my_tiny_rpc.Timer.Kept.{
  Kept, new_time_event-Kept, set_cancel-Kept, add_time_event-Kept, delete_time_event-Kept,
  reset_arrive_time-Kept, fired, on_timer-fired, fired-Kept,
}

-- The descriptor was set to expire at `key` at the latest, or within 100 ms.
pub record SetFor (key : ℕ) (armed : Option (ℕ × ℕ)) : Type 0 where
  pub at : ℕ
  pub interval : ℕ
  pub set : armed ≡ some (at, interval)
  pub runs : 0 < interval
  pub soon : (at + interval ≤ key) ⊎ (interval ≤ 100)

-- Where there are entries, the descriptor was set for the first of them.
abbrev pub ArmedFor : Option (ℕ × ℕ) → Pending → Type 0
ArmedFor armed [] = Unit {0}
ArmedFor armed ((key, id) ∷ rest) = SetFor key armed

abbrev pub Armed : Timer → Type 0
Armed t = ArmedFor t.armed t.pending

SetFor-later :
    (key later : ℕ) (armed : Option (ℕ × ℕ)) → key ≤ later → SetFor key armed → SetFor later armed
SetFor-later key later armed h s = record {
  at = s.at;
  interval = s.interval;
  set = s.set;
  runs = s.runs;
  soon = ground (arith, s.soon);
}

-- `resetArriveTime` sets it for the first entry.
first-SetFor :
    (now arrive : ℕ) → SetFor arrive (some (now, if ltb now arrive then arrive - now else 100))
first-SetFor now arrive = record {
  at = now;
  interval = if ltb now arrive then arrive - now else 100;
  set = refl;
  runs = ground arith;
  soon = elim (Bool-cases (ltb now arrive)) [
    | inl ahead ↦ inl (ground arith)
    | inr over ↦ inr (ground arith)
  ];
}

rearmed :
    (t : Timer) (p : Pending)
    → InStep t.events p
    → Armed (reset_arrive_time (record t { pending = p }))
unfolding reset_arrive_time get_now_ms
rearmed t [] s = tt
rearmed t ((key, id) ∷ rest) s =
    subst
      (λ k. SetFor k (
        some (
          t.clock t.reads,
          if ltb (t.clock t.reads) (t.events id).arrive_time
              then (t.events id).arrive_time - t.clock t.reads
              else 100,
        )))
      s.0 (first-SetFor (t.clock t.reads) (t.events id).arrive_time)

reset_arrive_time-Armed : (t : Timer) → Kept t → Armed (reset_arrive_time t)
reset_arrive_time-Armed t k = rearmed t t.pending k.in_step

-- An entry that does not come first leaves the first in its place.
behind-Armed :
    (events : ℕ → TimeEvent) (armed : Option (ℕ × ℕ)) (arrive id : ℕ) (p : Pending)
    → comes_first events p arrive ≡ false
    → InStep events p
    → ArmedFor armed p
    → ArmedFor armed (emplace arrive id p)
unfolding comes_first emplace
behind-Armed events armed arrive id [] e s a = absurd (cc e)
behind-Armed events armed arrive id ((k, j) ∷ rest) e s a =
    if_intro (ArmedFor armed) (leb k arrive) ((k, j) ∷ emplace arrive id rest)
      ((arrive, id) ∷ (k, j) ∷ rest) (λ _. a) (λ low. absurd (ground (arith, s.0)))

add_time_event-Armed :
    (t : Timer) (id : ℕ) → Absent id t.pending → Kept t → Armed t → Armed (add_time_event t id)
unfolding add_time_event
add_time_event-Armed t id a k armed =
    let arrive = (t.events id).arrive_time in
    let u = record t { pending = emplace arrive id t.pending } in
    if_intro Armed (comes_first t.events t.pending arrive) (reset_arrive_time u) u
      (λ _.
        rearmed t u.pending
          (emplace-All (λ e. (t.events e.1).arrive_time ≡ e.0) arrive id t.pending refl k.in_step))
      (λ behind. behind-Armed t.events t.armed arrive id t.pending behind k.in_step armed)

next-Armed :
    (armed : Option (ℕ × ℕ)) (key : ℕ) (p : Pending)
    → SortedFrom key p
    → SetFor key armed
    → ArmedFor armed p
next-Armed armed key [] s a = tt
next-Armed armed key ((k, j) ∷ rest) s a = SetFor-later key k armed s.0 a

erased-Armed :
    (armed : Option (ℕ × ℕ)) (key : ℕ) (p : Pending)
    → IsSorted p
    → ArmedFor armed p
    → ArmedFor armed (erase_at key p)
unfolding erase_at
erased-Armed armed key [] s a = tt
erased-Armed armed key ((k, j) ∷ rest) s a =
    if_intro (ArmedFor armed) (k == key) rest ((k, j) ∷ erase_at key rest)
      (λ _. next-Armed armed k rest s.1 a) (λ _. a)

delete_time_event-Armed : (t : Timer) (id : ℕ) → Kept t → Armed t → Armed (delete_time_event t id)
unfolding delete_time_event set_cancel
delete_time_event-Armed t id k armed = erased-Armed t.armed _ t.pending k.sorted armed

-- A timer that was made with any events in memory, and what is done with it: an event is added, or its
-- arrive time set by its constructor, only while it has no entry.
pub data Reached : Timer → Type 0 where
  new_timer : (t : Timer) → t.pending ≡ [] → Reached t
  then_made :
      (t : Timer) (id interval : ℕ) (is_repeated memory : Bool)
      → Reached t
      → Absent id t.pending
      → Reached (new_time_event t id interval is_repeated memory)
  then_added :
      (t : Timer) (id : ℕ) → Reached t → Absent id t.pending → Reached (add_time_event t id)
  then_cancelled : (t : Timer) (id : ℕ) → Reached t → Reached (set_cancel t id true)
  then_deleted : (t : Timer) (id : ℕ) → Reached t → Reached (delete_time_event t id)
  then_fired : (t : Timer) → Reached t → Reached (on_timer t).1

empty-Kept :
    (events : ℕ → TimeEvent) (p : Pending) → p ≡ [] → IsSorted p × InStep events p × Distinct p
empty-Kept events p e = subst (λ x. IsSorted x × InStep events x × Distinct x) (sym e) (tt, tt, tt)

Reached-Kept : {t : Timer} → Reached t → Kept t
Reached-Kept (new_timer t e) =
    let (sorted, in_step, distinct) = empty-Kept t.events t.pending e in
    record { sorted = sorted; in_step = in_step; distinct = distinct }
Reached-Kept (then_made t id interval is_repeated memory r a) =
    new_time_event-Kept t id interval is_repeated memory a (Reached-Kept r)
Reached-Kept (then_added t id r a) = add_time_event-Kept t id a (Reached-Kept r)
Reached-Kept (then_cancelled t id r) = set_cancel-Kept t id (Reached-Kept r)
Reached-Kept (then_deleted t id r) = delete_time_event-Kept t id (Reached-Kept r)
Reached-Kept (then_fired t r) =
    subst Kept (sym (on_timer-fired t))
      (reset_arrive_time-Kept (fired t) (fired-Kept t (Reached-Kept r)))

Reached-Armed : {t : Timer} → Reached t → Armed t
unfolding new_time_event reset_event get_now_ms set_cancel
Reached-Armed (new_timer t e) = subst (ArmedFor t.armed) (sym e) tt
Reached-Armed (then_made t id interval is_repeated memory r a) = Reached-Armed r
Reached-Armed (then_added t id r a) = add_time_event-Armed t id a (Reached-Kept r) (Reached-Armed r)
Reached-Armed (then_cancelled t id r) = Reached-Armed r
Reached-Armed (then_deleted t id r) =
    delete_time_event-Armed t id (Reached-Kept r) (Reached-Armed r)
Reached-Armed (then_fired t r) =
    subst Armed (sym (on_timer-fired t))
      (reset_arrive_time-Armed (fired t) (fired-Kept t (Reached-Kept r)))

-- Whatever is done with a timer, its entries are in the order of their times, and belong to different
-- events, whose times they have; and where there are entries, the timer's descriptor was set to expire,
-- at the latest, at the time of the first of them, or within 100 ms.
pub Reached-SetFor :
    (t : Timer) (key id : ℕ) (rest : Pending)
    → Reached t
    → t.pending ≡ (key, id) ∷ rest
    → Kept t × SetFor key t.armed
Reached-SetFor t key id rest r e = (Reached-Kept r, subst (ArmedFor t.armed) e (Reached-Armed r))
