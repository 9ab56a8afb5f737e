-- ===== src/Timer/Fire.antt =====
-- Which callbacks `onTimer` runs, and which events it keeps.
use my_tiny_rpc.Base.{
  ℕ, suc, ◌<◌, ◌≡◌, refl, sym, ap, ◌∙◌, inl, inr, Bool, true, false, not, ◌&&◌, [], ◌∷◌, arith, ltb,
  leb, ◌==◌, if◌then◌else◌, Bool-cases, ==_iff, ltb→lt, lt→ltb, subst,
}
use my_tiny_rpc.Timer.{
  TimeEvent, Pending, Timer, get_now_ms, emplace, reset_event, comes_first, add_time_event,
  take_due, add_repeated, on_timer,
}
use my_tiny_rpc.Timer.Order.{
  SortedFrom, IsSorted, pending-reset_arrive_time, pending-add_time_event, reset_event-pending,
  events-reset_arrive_time,
}
use mathlib.Core.List.{Memᴰ}

-- The entries of `p` whose time has come and whose event is not cancelled, in their order.
pub due_entries : (ℕ → TimeEvent) → ℕ → Pending → Pending
due_entries events now [] = []
due_entries events now ((key, id) ∷ rest) =
    if leb key now && not (events id).is_cancel
    then (key, id) ∷ due_entries events now rest
    else due_entries events now rest

-- Those whose time is still to come.
unfoldable pub later_entries : ℕ → Pending → Pending
later_entries now [] = []
later_entries now ((key, id) ∷ rest) =
    if ltb now key then (key, id) ∷ later_entries now rest else later_entries now rest

none_due :
    (events : ℕ → TimeEvent) (now low : ℕ) (p : Pending)
    → now < low
    → SortedFrom low p
    → (due_entries events now p ≡ []) × (later_entries now p ≡ p)
unfolding due_entries later_entries
none_due events now low [] h s = (refl, refl)
none_due events now low ((key, id) ∷ rest) h s =
    ground (arith, none_due events now key rest (omega (arith, s.0)) s.1, s.0)

-- On sorted entries the loop that stops at the first late one finds all that are due.
pub take_due_lem :
    (events : ℕ → TimeEvent) (now low : ℕ) (p : Pending)
    → SortedFrom low p
    → take_due events now p ≡ (due_entries events now p, later_entries now p)
unfolding take_due due_entries later_entries
take_due_lem events now low [] s = refl
take_due_lem events now low ((key, id) ∷ rest) s = elim (Bool-cases (ltb now key)) [
  | inl late ↦ ground (arith, none_due events now key rest (omega (arith, ltb→lt now key late)) s.1)
  | inr due ↦ ground (arith, take_due_lem events now key rest s.1)
]

module _ (t : Timer) where
  -- `onTimer` runs the callbacks of exactly the entries that are due and not cancelled, in the
  -- order of their times, when the timer's entries are sorted.
  pub on_timer_fires :
      IsSorted t.pending → (on_timer t).0 ≡ due_entries t.events (t.clock t.reads) t.pending
  unfolding on_timer get_now_ms
  on_timer_fires s = ap (λ p. p.0) (take_due_lem t.events (t.clock t.reads) 0 t.pending s)

emplace-new : (key id : ℕ) (p : Pending) → Memᴰ (key, id) (emplace key id p)
unfolding emplace
emplace-new key id [] = Memᴰ.head refl
emplace-new key id ((k, j) ∷ rest) = elim (Bool-cases (leb k key)) [
  | inl up ↦ rw up (Memᴰ.tail (emplace-new key id rest))
  | inr low ↦ rw low (Memᴰ.head refl)
]

emplace-old : (key id : ℕ) (e : ℕ × ℕ) (p : Pending) → Memᴰ e p → Memᴰ e (emplace key id p)
unfolding emplace
emplace-old key id e [] m = elim m [ ]
emplace-old key id e ((k, j) ∷ rest) (Memᴰ.head h) = elim (Bool-cases (leb k key)) [
  | inl up ↦ rw up (Memᴰ.head h)
  | inr low ↦ rw low (Memᴰ.tail (Memᴰ.head h))
]
emplace-old key id e ((k, j) ∷ rest) (Memᴰ.tail m) = elim (Bool-cases (leb k key)) [
  | inl up ↦ rw up (Memᴰ.tail (emplace-old key id e rest m))
  | inr low ↦ rw low (Memᴰ.tail (Memᴰ.tail m))
]

mem_if :
    (c : Bool) (e : ℕ × ℕ) (t u : Timer)
    → Memᴰ e t.pending
    → Memᴰ e u.pending
    → Memᴰ e (if c then t else u).pending
mem_if true e t u mt mu = mt
mem_if false e t u mt mu = mu

add_time_event-old :
    (t : Timer) (id : ℕ) (e : ℕ × ℕ) → Memᴰ e t.pending → Memᴰ e (add_time_event t id).pending
add_time_event-old t id e m =
    rw (pending-add_time_event t id) (emplace-old (t.events id).arrive_time id e t.pending m)

add_repeated-old :
    (due : Pending) (t : Timer) (e : ℕ × ℕ) → Memᴰ e t.pending → Memᴰ e (add_repeated t due).pending
unfolding add_repeated
add_repeated-old [] t e m = m
add_repeated-old ((key, id) ∷ due) t e m =
    let again = add_time_event (reset_event t id) id in
    let kept = add_time_event-old (reset_event t id) id e (rw (reset_event-pending t id) m) in
    add_repeated-old due (if (t.events id).is_repeated then again else t) e
      (mem_if (t.events id).is_repeated e again t kept m)

later-Mem :
    (events : ℕ → TimeEvent) (now key id : ℕ) (p : Pending)
    → now < key
    → Memᴰ (key, id) p
    → Memᴰ (key, id) (take_due events now p).1
unfolding take_due
later-Mem events now key id [] h m = elim m [ ]
later-Mem events now key id ((k, j) ∷ rest) h (Memᴰ.head e) =
    let late : ltb now k ≡ true = lt→ltb now k (subst (λ x. now < x) (ap (λ p. p.0) e) h) in
    rw late (Memᴰ.head e)
later-Mem events now key id ((k, j) ∷ rest) h (Memᴰ.tail m) = elim (Bool-cases (ltb now k)) [
  | inl late ↦ rw late (Memᴰ.tail m)
  | inr due ↦ rw due (elim (Bool-cases (events j).is_cancel) [
    | inl off ↦ rw off (later-Mem events now key id rest h m)
    | inr on ↦ rw on (later-Mem events now key id rest h m)
  ])
]

-- An entry whose time is still to come is pending after `onTimer`, with the same time.
pub on_timer_keeps :
    (t : Timer) (key id : ℕ)
    → Memᴰ (key, id) t.pending
    → t.clock t.reads < key
    → Memᴰ (key, id) (on_timer t).1.pending
unfolding on_timer get_now_ms
on_timer_keeps t key id m h =
    let taken = take_due t.events (t.clock t.reads) t.pending in
    let u = record t { pending = taken.1; reads = suc t.reads } in
    rw (pending-reset_arrive_time (add_repeated u taken.0)) (
      add_repeated-old taken.0 u (key, id)
        (later-Mem t.events (t.clock t.reads) key id t.pending h m))

-- The entries of one event, at any time.
abbrev pub IsPending : ℕ → Pending → Type 0
IsPending id p = (key : ℕ) × Memᴰ (key, id) p

pub events-add_time_event : (t : Timer) (id : ℕ) → (add_time_event t id).events ≡ t.events
unfolding add_time_event
events-add_time_event t id =
    elim (Bool-cases (comes_first t.events t.pending (t.events id).arrive_time)) [
      | inl first ↦ rw first (events-reset_arrive_time _)
      | inr behind ↦ rw behind
    ]

repeated-reset_event :
    (t : Timer) (id j : ℕ) → ((reset_event t id).events j).is_repeated ≡ (t.events j).is_repeated
unfolding reset_event get_now_ms
repeated-reset_event t id j = elim (Bool-cases (j == id)) [
  | inl same ↦ rw same (ap (λ i. (t.events i).is_repeated) (sym ((==_iff j id).0 same)))
  | inr apart ↦ rw apart
]

repeated-step :
    (c : Bool) (t : Timer) (id j : ℕ)
    → ((if c then add_time_event (reset_event t id) id else t).events j).is_repeated
      ≡ (t.events j).is_repeated
repeated-step true t id j =
    ap (λ (h : ℕ → TimeEvent). (h j).is_repeated) (events-add_time_event (reset_event t id) id)
    ∙ repeated-reset_event t id j
repeated-step false t id j = refl

pending_if :
    (c : Bool) (due : Pending) (v t : Timer) (id : ℕ)
    → c ≡ true
    → IsPending id (add_repeated v due).pending
    → IsPending id (add_repeated (if c then v else t) due).pending
pending_if c due v t id h m =
    subst (λ b. IsPending id (add_repeated (if b then v else t) due).pending) (sym h) m

add_repeated-pending :
    (due : Pending) (t : Timer) (key id : ℕ)
    → Memᴰ (key, id) due
    → (t.events id).is_repeated ≡ true
    → IsPending id (add_repeated t due).pending
unfolding add_repeated
add_repeated-pending [] t key id m r = elim m [ ]
add_repeated-pending ((k, j) ∷ due) t key id (Memᴰ.head e) r =
    let same : id ≡ j = ap (λ p. p.1) e in
    let r' : (t.events j).is_repeated ≡ true =
      subst (λ i. (t.events i).is_repeated ≡ true) same r in
    let u = reset_event t j in
    let new = emplace-new (u.events j).arrive_time j u.pending in
    pending_if (t.events j).is_repeated due (add_time_event u j) t id r' (
      (u.events j).arrive_time,
      add_repeated-old due (add_time_event u j) ((u.events j).arrive_time, id)
          (subst (λ i. Memᴰ ((u.events j).arrive_time, i) (add_time_event u j).pending) (sym same)
            (rw (pending-add_time_event u j) new)),
    )
add_repeated-pending ((k, j) ∷ due) t key id (Memᴰ.tail m) r =
    let c = (t.events j).is_repeated in
    add_repeated-pending due (if c then add_time_event (reset_event t j) j else t) key id m
      (repeated-step c t j id ∙ r)

module _ (t : Timer) where
  -- An event that repeats and whose callback `onTimer` runs is pending again afterwards.
  pub on_timer_repeats :
      (key id : ℕ)
      → Memᴰ (key, id) (on_timer t).0
      → (t.events id).is_repeated ≡ true
      → IsPending id (on_timer t).1.pending
  unfolding on_timer get_now_ms
  on_timer_repeats key id m r =
      let taken = take_due t.events (t.clock t.reads) t.pending in
      let u = record t { pending = taken.1; reads = suc t.reads } in
      rw (pending-reset_arrive_time (add_repeated u taken.0))
        (add_repeated-pending taken.0 u key id m r)
