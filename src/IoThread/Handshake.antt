-- ===== src/IoThread/Handshake.antt =====
-- In which order the two semaphores let the threads go on.
use my_tiny_rpc.Base.{
  ℕ, ◌+◌, ◌≤◌, ◌≡◌, ◌≢◌, ◌↔◌, refl, Bool, true, false, Option, none, some, List, [], ◌∷◌, arith,
}
use my_tiny_rpc.IoThread.{
  RunPoint, starting, loop_made, waiting, looping, ended, IoThread, new_io_thread, Action,
  make_loop, post_init, wait_init, start_thread, wait_start, stop_loop, end_loop, make_loop_at,
  post_init_at, wait_start_at, end_loop_at, wait_init_from, start_from, stop_from, act, run,
  join_returns,
}

abbrev count : Action → ℕ
count start_thread = 1
count _ = 0

-- How often `start` is called.
abbrev pub starts : List Action → ℕ
starts [] = 0
starts (a ∷ rest) = count a + starts rest

abbrev made : RunPoint → ℕ
made starting = 0
made _ = 1

abbrev posted : RunPoint → ℕ
posted starting = 0
posted loop_made = 0
posted _ = 1

-- Whether the wait for `start` is over.
abbrev pub entered : RunPoint → ℕ
entered looping = 1
entered ended = 1
entered _ = 0

abbrev one : Bool → ℕ
one true = 1
one false = 0

-- After `n` calls of `start`. The semaphores count what was posted and not yet taken.
abbrev Counted : ℕ → IoThread → Type 0
Counted n t =
    (one t.has_event_loop ≡ made t.run_point)
    × (t.init_sem + one t.is_created ≡ posted t.run_point)
    × (t.start_sem + entered t.run_point ≡ n)

act-Counted :
    (n : ℕ) (a : Action) (t t' : IoThread)
    → act a t ≡ some t'
    → Counted n t
    → Counted (n + count a) t'
unfolding act make_loop_at post_init_at wait_start_at end_loop_at wait_init_from start_from
    stop_from
act-Counted n make_loop t t' e inv = ground arith
act-Counted n post_init t t' e inv = ground arith
act-Counted n wait_init t t' e inv = ground arith
act-Counted n start_thread t t' e inv = ground arith
act-Counted n wait_start t t' e inv = ground arith
act-Counted n stop_loop t t' e inv = ground arith
act-Counted n end_loop t t' e inv = ground arith

run-cons :
    (o : Option IoThread) (rest : List Action) {t' : IoThread}
    → (elim o [ none ↦ none | some u ↦ run rest u ]) ≡ some t'
    → (u : IoThread) × (o ≡ some u) × (run rest u ≡ some t')
run-cons none rest e = absurd (cc e)
run-cons (some u) rest e = (u, refl, e)

run-Counted :
    (n : ℕ) (actions : List Action) (t : IoThread) {t' : IoThread}
    → run actions t ≡ some t'
    → Counted n t
    → Counted (n + starts actions) t'
unfolding run
run-Counted n [] t e c = ground arith
run-Counted n (a ∷ rest) t {t'} e c =
    let (u, first, later) = run-cons (act a t) rest e in
    let c' = run-Counted (n + count a) rest u later (act-Counted n a t u first c) in
    (c'.0, c'.1, omega (arith, c'.2))

created_counts :
    (t : IoThread) (n : ℕ) → Counted n t → t.is_created ≡ true → t.has_event_loop ≡ true
created_counts t n c e = ground arith

-- In every order of the two threads' actions: once the constructor has returned, the thread has its
-- loop; and `loop` is entered, and `join` returns, only after `start`.
pub run-Ordered :
    (actions : List Action) (t : IoThread)
    → run actions new_io_thread ≡ some t
    → (t.is_created ≡ true → t.has_event_loop ≡ true)
      × (t.run_point ≡ looping → 1 ≤ starts actions)
      × (join_returns t.run_point ≡ true → 1 ≤ starts actions)
run-Ordered actions t e =
    let c = run-Counted 0 actions new_io_thread e (refl, refl, refl) in
    (created_counts t _ c, (λ h. ground (arith, c)), (λ h. ground (arith, c)))

-- The start is not lost: a thread that waits for it goes on exactly if `start` was called, before or
-- after it came to wait.
pub wait_start_iff :
    (actions : List Action) (t : IoThread)
    → run actions new_io_thread ≡ some t
    → t.run_point ≡ waiting
    → (act wait_start t ≢ none) ↔ (1 ≤ starts actions)
unfolding act wait_start_at
wait_start_iff actions t e h =
    let c = run-Counted 0 actions new_io_thread e (refl, refl, refl) in ground (arith, c)
