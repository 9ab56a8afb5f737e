-- ===== src/Deadline/Entry.antt =====
-- One event among the others of a timer, and what the loop of `onTimer` does with it.
use my_tiny_rpc.Base.{
  ◌<◌, ltb→lt, ℕ, ◌≤◌, ◌≡◌, ◌≢◌, refl, sym, ap, Bool, true, false, not, ◌&&◌, [], ◌∷◌, arith, ◌==◌,
  if◌then◌else◌, if_intro, ltb, All, subst, ==_iff, Bool-cases, inl, inr, ◌⊎◌,
}
use my_tiny_rpc.Timer.{TimeEvent, Pending, emplace, take_due}
use my_tiny_rpc.Timer.Order.{IsSorted}
use my_tiny_rpc.Timer.Fire.{take_due_lem, later_entries}
use my_tiny_rpc.Timer.Entries.{InStep, Absent, Distinct, take_due-All}

-- Whether the event has an entry.
unfoldable pub has : ℕ → Pending → Bool
has id [] = false
has id ((key, j) ∷ rest) = if j == id then true else has id rest

pub Absent-has : (id : ℕ) (p : Pending) → Absent id p → has id p ≡ false
unfolding has
Absent-has id [] a = refl
Absent-has id ((key, j) ∷ rest) a = ground (arith, a.0, Absent-has id rest a.1)

pub has-emplace : (id key j : ℕ) (p : Pending) → j ≢ id → has id (emplace key j p) ≡ has id p
unfolding has emplace
has-emplace id key j [] h = ground (arith, h)
has-emplace id key j ((k, i) ∷ rest) h = ground (arith, h, has-emplace id key j rest h)

pub emplace-has : (id key : ℕ) (p : Pending) → has id (emplace key id p) ≡ true
unfolding has emplace
emplace-has id key [] = ground arith
emplace-has id key ((k, i) ∷ rest) = ground (arith, emplace-has id key rest)

-- Whether an event is going to be run: it has an entry, and was not cancelled.
abbrev pub waits_in : (ℕ → TimeEvent) → ℕ → Pending → Bool
waits_in events id p = has id p && not (events id).is_cancel

-- What the loop of `onTimer` does with an event: it is run, or nothing changes for it.
abbrev pub RunsIn : (ℕ → TimeEvent) → ℕ → Pending → Pending × Pending → Type 0
RunsIn events id p (due, later) =
    (waits_in events id p ≡ true) × (has id due ≡ true) × (has id later ≡ false)

abbrev pub StaysIn : (ℕ → TimeEvent) → ℕ → Pending → Pending × Pending → Type 0
StaysIn events id p (due, later) =
    (has id due ≡ false) × (waits_in events id later ≡ waits_in events id p)

abbrev EitherIn : (ℕ → TimeEvent) → ℕ → Pending → Pending × Pending → Type 0
EitherIn events id p r = RunsIn events id p r ⊎ StaysIn events id p r

first-either :
    (events : ℕ → TimeEvent) (k id : ℕ) (rest : Pending) (r : Pending × Pending)
    → Absent id r.0
    → Absent id r.1
    → (cancelled : Bool) → (events id).is_cancel ≡ cancelled
    → EitherIn events id ((k, id) ∷ rest) (if cancelled then r else ((k, id) ∷ r.0, r.1))
unfolding has
first-either events k id rest r a b true c =
    inr (Absent-has id r.0 a, ground (arith, Absent-has id r.0 a, Absent-has id r.1 b, c))
first-either events k id rest r a b false c =
    inl (ground (arith, c), ground arith, Absent-has id r.1 b)

module _ (events : ℕ → TimeEvent) (now id : ℕ) where
  other-either :
      (k j : ℕ) (rest : Pending) (r : Pending × Pending)
      → (j == id) ≡ false
      → EitherIn events id rest r
      → (cancelled : Bool)
      → EitherIn events id ((k, j) ∷ rest) (if cancelled then r else ((k, j) ∷ r.0, r.1))
  unfolding has
  other-either k j rest r apart e true = rw apart e
  other-either k j rest r apart e false = rw apart e

  pub take_due-either : (p : Pending) → Distinct p → EitherIn events id p (take_due events now p)
  unfolding has take_due
  take_due-either [] d = inr (refl, refl)
  take_due-either ((k, j) ∷ rest) d =
      let (due, later) = take_due events now rest in
      if_intro (EitherIn events id ((k, j) ∷ rest)) (ltb now k) ([], (k, j) ∷ rest)
        (if (events j).is_cancel then (due, later) else ((k, j) ∷ due, later))
        (λ _. inr (refl, refl))
        (λ _. elim (Bool-cases (j == id)) [
          | inl same ↦
              let is_id : j ≡ id = (==_iff j id).0 same in
              let (gone, away) = take_due-All (λ e. e.1 ≢ j) events now rest d.0 in
              subst
                (λ i.
                  EitherIn events i ((k, j) ∷ rest)
                    (if (events j).is_cancel then (due, later) else ((k, j) ∷ due, later)))
                is_id
                (first-either events k j rest (due, later) gone away (events j).is_cancel refl)
          | inr apart ↦
              other-either k j rest (due, later) apart (take_due-either rest d.1)
                (events j).is_cancel
        ])

-- What stays is still to come.
later-ahead : (now : ℕ) (p : Pending) → All (λ e. now < e.0) (later_entries now p)
unfolding later_entries
later-ahead now [] = tt
later-ahead now ((k, j) ∷ rest) =
    if_intro (All (λ e. now < e.0)) (ltb now k) ((k, j) ∷ later_entries now rest)
      (later_entries now rest) (λ late. (ltb→lt now k late, later-ahead now rest))
      (λ _. later-ahead now rest)

ahead-Absent :
    (events : ℕ → TimeEvent) (now id : ℕ) (p : Pending)
    → (events id).arrive_time ≤ now
    → InStep events p
    → All (λ e. now < e.0) p
    → Absent id p
ahead-Absent events now id [] h s a = tt
ahead-Absent events now id ((k, j) ∷ rest) h s a = (
  λ same. absurd (omega (arith, a.0, h, s.0, ap (λ i. (events i).arrive_time) same)),
  ahead-Absent events now id rest h s.1 a.1,
)

-- An event whose time has come does not stay.
pub overdue-has :
    (events : ℕ → TimeEvent) (now id : ℕ) (p : Pending)
    → IsSorted p
    → InStep events p
    → (events id).arrive_time ≤ now
    → has id (take_due events now p).1 ≡ false
overdue-has events now id p sorted s h =
    let r = take_due_lem events now 0 p sorted in
    Absent-has id (take_due events now p).1 (
      ahead-Absent events now id (take_due events now p).1 h
        (take_due-All (λ e. (events e.1).arrive_time ≡ e.0) events now p s).1
        (subst (λ (q : Pending × Pending). All (λ e. now < e.0) q.1) (sym r) (later-ahead now p)))
