-- ===== src/EventLoop/Queue.antt =====
-- A loop with the steps of other threads and a log, and the queue that it promises.
use my_tiny_rpc.Base.{
  ℕ, ◌≡◌, refl, ap, Bool, true, false, none, some, List, [], ◌∷◌, ◌++◌, Option, flat, map,
}
use my_tiny_rpc.FdEvent.{FdEvent, handler, in_event, out_event, error_event}
use my_tiny_rpc.EventLoop.{
  Task, call, add_event, delete_event, EventLoop, Triggered, add_task, loop_once,
}

-- What happens to a loop: a round, or another thread adds a task.
pub data LoopStep (Callback : Type 0) : Type 0 where
  round : List (Triggered Callback) → LoopStep Callback
  other_adds : Task Callback → Bool → LoopStep Callback

-- The callbacks among tasks.
abbrev pub queued : {Callback : Type 0} → List (Task Callback) → List Callback
queued [] = []
queued (call none ∷ tasks) = queued tasks
queued (call (some cb) ∷ tasks) = cb ∷ queued tasks
queued (add_event fd ∷ tasks) = queued tasks
queued (delete_event fd ∷ tasks) = queued tasks

pub queued-append :
    {Callback : Type 0} (xs ys : List (Task Callback)) → queued (xs ++ ys) ≡ queued xs ++ queued ys
queued-append [] ys = refl
queued-append (call none ∷ xs) ys = queued-append xs ys
queued-append (call (some cb) ∷ xs) ys = ap (λ l. cb ∷ l) (queued-append xs ys)
queued-append (add_event fd ∷ xs) ys = queued-append xs ys
queued-append (delete_event fd ∷ xs) ys = queued-append xs ys

abbrev pub handlers : {Callback : Type 0} → Bool → Option Callback → List Callback
handlers true (some cb) = cb ∷ []
handlers true none = []
handlers false cb = []

-- The callbacks of one report: a null pointer has none.
abbrev pub event_calls :
    {Callback : Type 0} → Option (FdEvent Callback) → Triggered Callback → List Callback
event_calls none t = []
event_calls (some fd_event) t =
    handlers t.triggered_in (handler fd_event in_event)
    ++ handlers t.triggered_out (handler fd_event out_event)
    ++ handlers t.triggered_err (handler fd_event error_event)

-- The callbacks of what `epoll_wait` reports, in order.
unfoldable pub trigger_calls : {Callback : Type 0} → List (Triggered Callback) → List Callback
trigger_calls [] = []
trigger_calls (t ∷ ts) = event_calls t.fd_event t ++ trigger_calls ts

-- What a loop promises, on the queue of callbacks and the list of those that ran: a round runs the
-- queue, and what its callbacks add and `epoll_wait` reports is the next one; another thread adds
-- behind the queue. `adds` is what a callback adds.
unfoldable pub queue_step :
    {Callback : Type 0}
    → (Callback → List Callback)
    → LoopStep Callback
    → List Callback × List Callback
    → List Callback × List Callback
queue_step adds (round triggers) (queue, ran) =
    (flat (map adds queue) ++ trigger_calls triggers, ran ++ queue)
queue_step adds (other_adds task wake) (queue, ran) = (queue ++ queued (task ∷ []), ran)

unfoldable pub queue_steps :
    {Callback : Type 0}
    → (Callback → List Callback)
    → List (LoopStep Callback)
    → List Callback × List Callback
    → List Callback × List Callback
queue_steps adds [] q = q
queue_steps adds (step ∷ steps) q = queue_steps adds steps (queue_step adds step q)

module _ {Callback S : Type 0} (event_at : S → ℕ → FdEvent Callback)
    (run : Callback → EventLoop Callback → S → EventLoop Callback × S) where
  -- The callbacks, with a log of those that ran.
  abbrev pub logged :
      Callback → EventLoop Callback → S × List Callback → EventLoop Callback × (S × List Callback)
  logged cb l s = let (l', s') = run cb l s.0 in (l', (s', s.1 ++ cb ∷ []))

  abbrev pub logged_event_at : S × List Callback → ℕ → FdEvent Callback
  logged_event_at s = event_at s.0

  unfoldable pub loop_step :
      LoopStep Callback
      → EventLoop Callback
      → S × List Callback
      → EventLoop Callback × (S × List Callback)
  loop_step (round triggers) l s = loop_once logged_event_at logged triggers l s
  loop_step (other_adds task wake) l s = (add_task l task wake, s)

  unfoldable pub loop_steps :
      List (LoopStep Callback)
      → EventLoop Callback
      → S × List Callback
      → EventLoop Callback × (S × List Callback)
  loop_steps [] l s = (l, s)
  loop_steps (step ∷ steps) l s = let (l', s') = loop_step step l s in loop_steps steps l' s'
