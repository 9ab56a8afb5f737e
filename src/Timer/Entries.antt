-- ===== src/Timer/Entries.antt =====
-- The entries of a timer belong to different events, each at its event's time.
use my_tiny_rpc.Base.{
  ℕ, ◌≡◌, ◌≢◌, sym, [], ◌∷◌, arith, All, ◌==◌, if◌then◌else◌, ltb, leb, if_intro,
}
use my_tiny_rpc.Timer.{TimeEvent, Pending, emplace, set_event, erase_at, take_due}

-- Each entry stands at the time of its event.
abbrev pub InStep : (ℕ → TimeEvent) → Pending → Type 0
InStep events = All (λ e. (events e.1).arrive_time ≡ e.0)

-- No entry belongs to the event.
abbrev pub Absent : ℕ → Pending → Type 0
Absent id = All (λ e. e.1 ≢ id)

abbrev pub Distinct : Pending → Type 0
Distinct [] = Unit {0}
Distinct ((key, id) ∷ rest) = Absent id rest × Distinct rest

module _ (P : ℕ × ℕ → Type 0) where
  pub emplace-All : (key id : ℕ) (p : Pending) → P (key, id) → All P p → All P (emplace key id p)
  unfolding emplace
  emplace-All key id [] h a = (h, tt)
  emplace-All key id ((k, j) ∷ rest) h a =
      if_intro (All P) (leb k key) ((k, j) ∷ emplace key id rest) ((key, id) ∷ (k, j) ∷ rest)
        (λ _. (a.0, emplace-All key id rest h a.1)) (λ _. (h, a))

  pub erase_at-All : (key : ℕ) (p : Pending) → All P p → All P (erase_at key p)
  unfolding erase_at
  erase_at-All key [] a = tt
  erase_at-All key ((k, j) ∷ rest) a =
      if_intro (All P) (k == key) rest ((k, j) ∷ erase_at key rest) (λ _. a.1)
        (λ _. (a.0, erase_at-All key rest a.1))

  module _ (events : ℕ → TimeEvent) (now : ℕ) where
    -- Both what is due and what stays comes from the entries.
    pub take_due-All :
        (p : Pending) → All P p → All P (take_due events now p).0 × All P (take_due events now p).1
    unfolding take_due
    take_due-All [] a = (tt, tt)
    take_due-All ((k, j) ∷ rest) a =
        let (due, later) = take_due events now rest in
        let tail = take_due-All rest a.1 in
        if_intro (λ (r : Pending × Pending). All P r.0 × All P r.1) (ltb now k) ([], (k, j) ∷ rest)
          (if (events j).is_cancel then (due, later) else ((k, j) ∷ due, later)) (λ _. (tt, a))
          (λ _.
            if_intro (λ (r : Pending × Pending). All P r.0 × All P r.1) (events j).is_cancel
              (due, later) ((k, j) ∷ due, later) (λ _. tail) (λ _. ((a.0, tail.0), tail.1)))

pub emplace-Distinct :
    (key id : ℕ) (p : Pending) → Absent id p → Distinct p → Distinct (emplace key id p)
unfolding emplace
emplace-Distinct key id [] a d = (tt, tt)
emplace-Distinct key id ((k, j) ∷ rest) a d =
    if_intro Distinct (leb k key) ((k, j) ∷ emplace key id rest) ((key, id) ∷ (k, j) ∷ rest)
      (λ _. (
        emplace-All (λ e. e.1 ≢ j) key id rest (λ q. a.0 (sym q)) d.0,
        emplace-Distinct key id rest a.1 d.1,
      ))
      (λ _. (a, d))

pub erase_at-Distinct : (key : ℕ) (p : Pending) → Distinct p → Distinct (erase_at key p)
unfolding erase_at
erase_at-Distinct key [] d = tt
erase_at-Distinct key ((k, j) ∷ rest) d =
    if_intro Distinct (k == key) rest ((k, j) ∷ erase_at key rest) (λ _. d.1)
      (λ _. (erase_at-All (λ e. e.1 ≢ j) key rest d.0, erase_at-Distinct key rest d.1))

-- What is due and what stays belong to different events.
abbrev pub Apart : Pending × Pending → Type 0
Apart (due, later) = Distinct due × Distinct later × All (λ e. Absent e.1 later) due

pub none-Apart : (p : Pending) → Distinct p → Apart ([], p)
none-Apart p d = (tt, d, tt)

pub take_due-Apart :
    (events : ℕ → TimeEvent) (now : ℕ) (p : Pending) → Distinct p → Apart (take_due events now p)
unfolding take_due
take_due-Apart events now [] d = (tt, tt, tt)
take_due-Apart events now ((k, j) ∷ rest) d =
    let (due, later) = take_due events now rest in
    let tail = take_due-Apart events now rest d.1 in
    let away = take_due-All (λ e. e.1 ≢ j) events now rest d.0 in
    if_intro Apart (ltb now k) ([], (k, j) ∷ rest)
      (if (events j).is_cancel then (due, later) else ((k, j) ∷ due, later))
      (λ _. none-Apart ((k, j) ∷ rest) d)
      (λ _.
        if_intro Apart (events j).is_cancel (due, later) ((k, j) ∷ due, later) (λ _. tail)
          (λ _. ((away.0, tail.0), tail.1, (away.1, tail.2))))

-- Another event's entries do not see a change of this one.
pub set_event-InStep :
    (events : ℕ → TimeEvent) (id : ℕ) (e : TimeEvent) (p : Pending)
    → Absent id p
    → InStep events p
    → InStep (set_event events id e) p
set_event-InStep events id e [] a s = tt
set_event-InStep events id e ((k, j) ∷ rest) a s =
    (ground (arith, a.0, s.0), set_event-InStep events id e rest a.1 s.1)
