-- ===== src/Deadline/Round.antt =====
-- What a round of the timer, and what others do with it, come to for one event that does not repeat.
use my_tiny_rpc.Base.{
  ℕ, suc, ◌≤◌, ◌≡◌, ◌≢◌, refl, sym, ap, ap₂, ◌∙◌, Bool, true, false, not, ◌&&◌, [], ◌∷◌, arith,
  if◌then◌else◌, subst, inl, inr, ◌⊎◌, true-ne-false,
}
use my_tiny_rpc.Timer.{
  TimeEvent, Pending, Timer, get_now_ms, set_cancel, new_time_event, reset_event, add_time_event,
  take_due, add_repeated, on_timer,
}
use my_tiny_rpc.Timer.Order.{
  pending-add_time_event, pending-reset_arrive_time, events-reset_arrive_time,
}
use my_tiny_rpc.Timer.Fire.{events-add_time_event}
use my_tiny_rpc.Timer.Entries.{take_due-Apart, Distinct}
use my_tiny_rpc.Timer.Kept.{
  set_cancel-Kept, reset_arrive_time-Kept, fired-Kept, Kept, fired, on_timer-fired,
}
use my_tiny_rpc.Deadline.Entry.{has, has-emplace, waits_in, take_due-either, overdue-has}

-- An event that does not repeat, in two timers.
pub record SameEvent (id : ℕ) (t u : Timer) : Type 0 where
  pub event_eq : u.events id ≡ t.events id
  pub has_eq : has id u.pending ≡ has id t.pending

pub other_added-SameEvent : (id j : ℕ) (t : Timer) → j ≢ id → SameEvent id t (add_time_event t j)
other_added-SameEvent id j t apart = record {
  event_eq = ap (λ (h : ℕ → TimeEvent). h id) (events-add_time_event t j);
  has_eq =
      ap (has id) (pending-add_time_event t j)
      ∙ has-emplace id (t.events j).arrive_time j t.pending apart;
}

reset-SameEvent : (id j : ℕ) (t : Timer) → j ≢ id → SameEvent id t (reset_event t j)
unfolding reset_event get_now_ms
reset-SameEvent id j t apart = record { event_eq = ground (arith, apart); has_eq = refl }

SameEvent-trans : (id : ℕ) (t u v : Timer) → SameEvent id t u → SameEvent id u v → SameEvent id t v
SameEvent-trans id t u v a b = record {
  event_eq = b.event_eq ∙ a.event_eq;
  has_eq = b.has_eq ∙ a.has_eq;
}

again-SameEvent :
    (id j : ℕ) (t : Timer) (c : Bool)
    → (c ≡ true → j ≢ id)
    → SameEvent id t (if c then add_time_event (reset_event t j) j else t)
again-SameEvent id j t true apart =
    SameEvent-trans id t (reset_event t j) (add_time_event (reset_event t j) j)
      (reset-SameEvent id j t (apart refl))
      (other_added-SameEvent id j (reset_event t j) (apart refl))
again-SameEvent id j t false apart = record { event_eq = refl; has_eq = refl }

add_repeated-SameEvent :
    (id : ℕ) (due : Pending) (t : Timer)
    → (t.events id).is_repeated ≡ false
    → SameEvent id t (add_repeated t due)
unfolding add_repeated
add_repeated-SameEvent id [] t once = record { event_eq = refl; has_eq = refl }
add_repeated-SameEvent id ((k, j) ∷ due) t once =
    let c = (t.events j).is_repeated in
    let again = if c then add_time_event (reset_event t j) j else t in
    let first = again-SameEvent id j t c (λ repeats same.
      absurd (true-ne-false (sym repeats ∙ ap (λ i. (t.events i).is_repeated) same ∙ once))) in
    SameEvent-trans id t again (add_repeated again due) first (
      add_repeated-SameEvent id due again
        (ap (λ (e : TimeEvent). e.is_repeated) first.event_eq ∙ once))

-- Whether a timer is going to run an event.
unfoldable pub waits : Timer → ℕ → Bool
waits t id = waits_in t.events id t.pending

pub waits_iff :
    (t : Timer) (id : ℕ) → waits t id ≡ (has id t.pending && not (t.events id).is_cancel)
unfolding waits
waits_iff t id = refl

-- What is left of the timer by `onTimer`, but for what is added again.
left_over : Timer → Timer
left_over t = record t {
  pending = (take_due t.events (t.clock t.reads) t.pending).1;
  reads = suc t.reads;
}

on_timer-SameEvent :
    (id : ℕ) (t : Timer)
    → (t.events id).is_repeated ≡ false
    → SameEvent id (left_over t) (on_timer t).1
unfolding on_timer get_now_ms left_over
on_timer-SameEvent id t once =
    let due = (take_due t.events (t.clock t.reads) t.pending).0 in
    let u = add_repeated (left_over t) due in
    let same = add_repeated-SameEvent id due (left_over t) once in
    record {
      event_eq = ap (λ (h : ℕ → TimeEvent). h id) (events-reset_arrive_time u) ∙ same.event_eq;
      has_eq = ap (has id) (pending-reset_arrive_time u) ∙ same.has_eq;
    }

-- `onTimer` runs the event, which then has no entry, or the event waits as before.
abbrev pub RunsOnce : Timer → ℕ → Type 0
RunsOnce t id =
    (waits t id ≡ true) × (has id (on_timer t).0 ≡ true) × (has id (on_timer t).1.pending ≡ false)

abbrev pub StaysQuiet : Timer → ℕ → Type 0
StaysQuiet t id = (has id (on_timer t).0 ≡ false) × (waits (on_timer t).1 id ≡ waits t id)

module _ (t : Timer) (id : ℕ) (once : (t.events id).is_repeated ≡ false) where
  pub on_timer-event : (on_timer t).1.events id ≡ t.events id
  unfolding left_over
  on_timer-event = (on_timer-SameEvent id t once).event_eq

  pub on_timer-either : Kept t → RunsOnce t id ⊎ StaysQuiet t id
  unfolding waits left_over on_timer get_now_ms
  on_timer-either k =
      let same = on_timer-SameEvent id t once in
      elim (take_due-either t.events (t.clock t.reads) id t.pending k.distinct) [
        | inl (w, run, gone) ↦ inl (w, run, same.has_eq ∙ gone)
        | inr (none, w) ↦
            inr
              (none, ap₂ (λ h (e : TimeEvent). h && not e.is_cancel) same.has_eq same.event_eq ∙ w)
      ]

  -- An event whose time has come has no entry afterwards.
  pub on_timer-overdue :
      Kept t → (t.events id).arrive_time ≤ t.clock t.reads → has id (on_timer t).1.pending ≡ false
  unfolding left_over
  on_timer-overdue k h =
      (on_timer-SameEvent id t once).has_eq
      ∙ overdue-has t.events (t.clock t.reads) id t.pending k.sorted k.in_step h

pub on_timer-Distinct : (t : Timer) → Kept t → Distinct (on_timer t).0
unfolding on_timer get_now_ms
on_timer-Distinct t k = (take_due-Apart t.events (t.clock t.reads) t.pending k.distinct).0

pub on_timer-Kept : (t : Timer) → Kept t → Kept (on_timer t).1
on_timer-Kept t k =
    subst Kept (sym (on_timer-fired t)) (reset_arrive_time-Kept (fired t) (fired-Kept t k))

pub other_made-SameEvent :
    (id j interval : ℕ) (is_repeated memory : Bool) (t : Timer)
    → j ≢ id
    → SameEvent id t (new_time_event t j interval is_repeated memory)
unfolding new_time_event reset_event get_now_ms
other_made-SameEvent id j interval is_repeated memory t apart = record {
  event_eq = ground (arith, apart);
  has_eq = refl;
}

pub other_cancelled-SameEvent :
    (id j : ℕ) (t : Timer) → j ≢ id → SameEvent id t (set_cancel t j true)
unfolding set_cancel
other_cancelled-SameEvent id j t apart = record { event_eq = ground (arith, apart); has_eq = refl }

pub SameEvent-waits : (id : ℕ) (t u : Timer) → SameEvent id t u → waits u id ≡ waits t id
unfolding waits
SameEvent-waits id t u s = ap₂ (λ h (e : TimeEvent). h && not e.is_cancel) s.has_eq s.event_eq

-- What is known of the call's event: its time is `arrive`, and it does not repeat.
pub record Known (id arrive : ℕ) (t : Timer) : Type 0 where
  pub kept : Kept t
  pub once : (t.events id).is_repeated ≡ false
  pub arrives : (t.events id).arrive_time ≡ arrive

pub event-Known :
    (id arrive : ℕ) (t u : Timer)
    → u.events id ≡ t.events id
    → Kept u
    → Known id arrive t
    → Known id arrive u
event-Known id arrive t u e k known = record {
  kept = k;
  once = ap (λ (x : TimeEvent). x.is_repeated) e ∙ known.once;
  arrives = ap (λ (x : TimeEvent). x.arrive_time) e ∙ known.arrives;
}

pub cancel-Known :
    (id arrive : ℕ) (t : Timer) → Known id arrive t → Known id arrive (set_cancel t id true)
unfolding set_cancel
cancel-Known id arrive t known = record {
  kept = set_cancel-Kept t id known.kept;
  once = ground (arith, known.once);
  arrives = ground (arith, known.arrives);
}

pub cancelled : (id : ℕ) (t : Timer) → ((set_cancel t id true).events id).is_cancel ≡ true
unfolding set_cancel
cancelled id t = ground arith

pub gone-waits : (t : Timer) (id : ℕ) → has id t.pending ≡ false → waits t id ≡ false
unfolding waits
gone-waits t id gone = ap (λ h. h && not (t.events id).is_cancel) gone

pub cancel-waits : (id : ℕ) (t : Timer) → waits (set_cancel t id true) id ≡ false
unfolding waits
cancel-waits id t = let off = cancelled id t in ground (arith, off)
