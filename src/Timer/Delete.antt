-- ===== src/Timer/Delete.antt =====
-- `deleteTimeEvent`, whose loop assigns where it means to compare.
use my_tiny_rpc.Base.{
  true-ne-false, ℕ, ltb, ◌≡◌, ◌≢◌, refl, true, false, [], ◌∷◌, ◌++◌, arith, All, Bool-cases, inl,
  inr, ==_iff, ap, sym, subst, ◌∙◌,
}
use my_tiny_rpc.Timer.{
  TimeEvent, Pending, Timer, get_now_ms, set_cancel, take_due, erase_at, delete_time_event,
  on_timer,
}
use mathlib.Core.List.{Memᴰ}
use mathlib.Core.List.Memᴰ

erase_at-first :
    (key other : ℕ) (before after : Pending)
    → All (λ entry. entry.0 ≢ key) before
    → erase_at key (before ++ (key, other) ∷ after) ≡ before ++ after
unfolding erase_at
erase_at-first key other [] after none = grind arith
erase_at-first key other ((k, j) ∷ before) after (apart, none) =
    ground (arith, erase_at-first key other before after none, apart)

cancelled : (t : Timer) (id : ℕ) → ((set_cancel t id true).events id).is_cancel ≡ true
unfolding set_cancel
cancelled t id = rw ((==_iff id id).1 refl) refl

arrive_time-set_cancel :
    (t : Timer) (id : ℕ)
    → ((set_cancel t id true).events id).arrive_time ≡ (t.events id).arrive_time
unfolding set_cancel
arrive_time-set_cancel t id = rw ((==_iff id id).1 refl) refl

pending-set_cancel : (t : Timer) (id : ℕ) → (set_cancel t id true).pending ≡ t.pending
unfolding set_cancel
pending-set_cancel t id = refl

pub pending-delete_time_event :
    (t : Timer) (id : ℕ)
    → (delete_time_event t id).pending ≡ erase_at (t.events id).arrive_time t.pending
unfolding delete_time_event
pending-delete_time_event t id = rw (arrive_time-set_cancel t id, pending-set_cancel t id) refl

-- `deleteTimeEvent` erases the first of the entries at the time of the event it is given, whatever
-- event that entry belongs to.
pub delete_time_event_first :
    (t : Timer) (id other : ℕ) (before after : Pending)
    → t.pending ≡ before ++ ((t.events id).arrive_time, other) ∷ after
    → All (λ entry. entry.0 ≢ (t.events id).arrive_time) before
    → (delete_time_event t id).pending ≡ before ++ after
delete_time_event_first t id other before after split apart =
    rw (pending-delete_time_event t id, split)
      (erase_at-first (t.events id).arrive_time other before after apart)

-- What `onTimer` runs is not cancelled.
due-not-cancelled :
    (events : ℕ → TimeEvent) (now key id : ℕ) (p : Pending)
    → Memᴰ (key, id) (take_due events now p).0
    → (events id).is_cancel ≡ false
unfolding take_due
due-not-cancelled events now key id [] m = elim m [ ]
due-not-cancelled events now key id ((k, j) ∷ rest) m = elim (Bool-cases (ltb now k)) [
  | inl late ↦ absurd (Memᴰ.not-nil (rw late at m))
  | inr due ↦
      let m' = rw due at m in
      elim (Bool-cases (events j).is_cancel) [
        | inl off ↦ due-not-cancelled events now key id rest (rw off at m')
        | inr on ↦ elim (Memᴰ.cases_cons (rw on at m')) [
          | inl e ↦ subst (λ i. (events i).is_cancel ≡ false) (sym (ap (λ p. p.1) e)) on
          | inr m'' ↦ due-not-cancelled events now key id rest m''
        ]
      ]
]

-- After `deleteTimeEvent` the next `onTimer` does not run the event, whether its entry is gone
-- or not.
pub deleted_event_stays_quiet :
    (t : Timer) (id key : ℕ) → ¬ Memᴰ (key, id) (on_timer (delete_time_event t id)).0
unfolding on_timer get_now_ms delete_time_event
deleted_event_stays_quiet t id key m =
    let u = delete_time_event t id in
    true-ne-false
      (sym (cancelled t id) ∙ due-not-cancelled u.events (u.clock u.reads) key id u.pending m)
