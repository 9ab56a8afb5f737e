-- ===== src/EventLoop/Fifo.antt =====
-- The order in which a loop runs its tasks, while its callbacks and other threads add new ones.
use my_tiny_rpc.Base.{
  ℕ, ◌≡◌, refl, sym, ap, ◌∙◌, Bool, true, false, none, some, List, [], ◌∷◌, ◌++◌, append_assoc,
  append-nil, Option, flat, flat-append, map, ap₂, if◌then◌else◌, arith,
}
use mathlib.Core.List.{map-append}
use my_tiny_rpc.FdEvent.{FdEvent, handler, in_event, out_event, error_event}
use my_tiny_rpc.EventLoop.{
  Task, call, add_event, delete_event, EventLoop, Triggered, add_task, add_task_if, add_error_task,
  add_to_epoll, del_from_epoll, handle_event, handle_trigger, handle_triggers, run_task, run_tasks,
  loop_once,
}
use my_tiny_rpc.EventLoop.Queue.{
  LoopStep, round, other_adds, queued, queued-append, handlers, event_calls, trigger_calls,
  queue_step, queue_steps, logged, logged_event_at, loop_step, loop_steps,
}

module _ {Callback S : Type 0} (event_at : S → ℕ → FdEvent Callback)
    (run : Callback → EventLoop Callback → S → EventLoop Callback × S) where
  run_task_logs :
      (task : Task Callback) (l : EventLoop Callback) (s : S × List Callback)
      → (run_task (logged_event_at event_at run) (logged event_at run) task l s).1.1
        ≡ s.1 ++ queued (task ∷ [])
  unfolding run_task
  run_task_logs (call none) l s = sym (append-nil s.1)
  run_task_logs (call (some cb)) l s = refl
  run_task_logs (add_event fd) l s = sym (append-nil s.1)
  run_task_logs (delete_event fd) l s = sym (append-nil s.1)

  run_tasks_log :
      (tasks : List (Task Callback)) (l : EventLoop Callback) (s : S × List Callback)
      → (run_tasks (logged_event_at event_at run) (logged event_at run) tasks l s).1.1
        ≡ s.1 ++ queued tasks
  unfolding run_tasks
  run_tasks_log [] l s = sym (append-nil s.1)
  run_tasks_log (task ∷ tasks) l s =
      let (l', s') = run_task (logged_event_at event_at run) (logged event_at run) task l s in
      run_tasks_log tasks l' s'
      ∙ ap (λ x. x ++ queued tasks) (run_task_logs task l s)
      ∙ append_assoc s.1 (queued (task ∷ [])) (queued tasks)
      ∙ ap (λ x. s.1 ++ x) (sym (queued-append (task ∷ []) tasks))

  round_logs :
      (triggers : List (Triggered Callback)) (l : EventLoop Callback) (s : S × List Callback)
      → (loop_once (logged_event_at event_at run) (logged event_at run) triggers l s).1.1
        ≡ s.1 ++ queued l.pending_tasks
  unfolding loop_once
  round_logs triggers l s = run_tasks_log l.pending_tasks (record l { pending_tasks = [] }) s

  module _ (adds : Callback → List Callback) where
    -- The callbacks of the queue.
    abbrev waits : EventLoop Callback → List Callback
    waits l = queued l.pending_tasks

    added :
        (l : EventLoop Callback) (task : Task Callback) (wake : Bool)
        → waits (add_task l task wake) ≡ waits l ++ queued (task ∷ [])
    unfolding add_task
    added l task true = queued-append l.pending_tasks (task ∷ [])
    added l task false = queued-append l.pending_tasks (task ∷ [])

    deleted :
        (l : EventLoop Callback) (event : FdEvent Callback)
        → waits (del_from_epoll l event) ≡ waits l
    unfolding del_from_epoll
    deleted l event = ground arith

    added_if :
        (c : Bool) (cb : Option Callback) (l : EventLoop Callback)
        → waits (add_task_if c cb l) ≡ waits l ++ handlers c cb
    added_if true none l = added l (call none) false
    added_if true (some cb) l = added l (call (some cb)) false
    added_if false cb l = sym (append-nil (waits l))

    added_error :
        (cb : Option Callback) (l : EventLoop Callback)
        → waits (add_error_task cb l) ≡ waits l ++ handlers true cb
    added_error none l = sym (append-nil (waits l))
    added_error (some cb) l = added l (call (some cb)) false

    errors :
        (c : Bool) (cb : Option Callback) (l : EventLoop Callback) (event : FdEvent Callback)
        → waits (if c then add_error_task cb (del_from_epoll l event) else l)
          ≡ waits l ++ handlers c cb
    errors true cb l event =
        added_error cb (del_from_epoll l event) ∙ ap (λ x. x ++ handlers true cb) (deleted l event)
    errors false cb l event = sym (append-nil (waits l))

    event_lem :
        (e : FdEvent Callback) (t : Triggered Callback) (l : EventLoop Callback)
        → waits (handle_event e t l) ≡ waits l ++ event_calls (some e) t
    unfolding handle_event
    event_lem e t l =
        let i = handlers t.triggered_in (handler e in_event) in
        let o = handlers t.triggered_out (handler e out_event) in
        let a = add_task_if t.triggered_in (handler e in_event) l in
        let b = add_task_if t.triggered_out (handler e out_event) a in
        let both : waits b ≡ waits l ++ (i ++ o) =
          added_if t.triggered_out (handler e out_event) a
          ∙ ap (λ x. x ++ o) (added_if t.triggered_in (handler e in_event) l)
          ∙ append_assoc (waits l) i o in
        errors t.triggered_err (handler e error_event) b e
        ∙ ap (λ x. x ++ handlers t.triggered_err (handler e error_event)) both
        ∙ append_assoc (waits l) (i ++ o) (handlers t.triggered_err (handler e error_event))

    trigger_lem :
        (t : Triggered Callback) (l : EventLoop Callback)
        → waits (handle_trigger t l) ≡ waits l ++ event_calls t.fd_event t
    unfolding handle_trigger
    trigger_lem t l =
        elim t.fd_event
          as (λ o.
            waits (elim o [ none ↦ l | some e ↦ handle_event e t l ])
            ≡ waits l ++ event_calls o t) [
              | none ↦ sym (append-nil (waits l))
              | some e ↦ event_lem e t l
            ]

    triggers_lem :
        (ts : List (Triggered Callback)) (l : EventLoop Callback)
        → waits (handle_triggers ts l) ≡ waits l ++ trigger_calls ts
    unfolding handle_triggers trigger_calls
    triggers_lem [] l = sym (append-nil (waits l))
    triggers_lem (t ∷ ts) l =
        triggers_lem ts (handle_trigger t l)
        ∙ ap (λ x. x ++ trigger_calls ts) (trigger_lem t l)
        ∙ append_assoc (waits l) (event_calls t.fd_event t) (trigger_calls ts)

    module _
        (only_adds : (cb : Callback) (l : EventLoop Callback) (s : S)
          → waits (run cb l s).0 ≡ waits l ++ adds cb) where
      task_adds :
          (task : Task Callback) (l : EventLoop Callback) (s : S × List Callback)
          → waits (run_task (logged_event_at event_at run) (logged event_at run) task l s).0
            ≡ waits l ++ flat (map adds (queued (task ∷ [])))
      unfolding run_task add_to_epoll
      task_adds (call none) l s = sym (append-nil (waits l))
      task_adds (call (some cb)) l s =
          only_adds cb l s.0 ∙ ap (λ x. waits l ++ x) (sym (append-nil (adds cb)))
      task_adds (add_event fd) l s = sym (append-nil (waits l))
      task_adds (delete_event fd) l s = deleted l (event_at s.0 fd) ∙ sym (append-nil (waits l))

      tasks_add :
          (tasks : List (Task Callback)) (l : EventLoop Callback) (s : S × List Callback)
          → waits (run_tasks (logged_event_at event_at run) (logged event_at run) tasks l s).0
            ≡ waits l ++ flat (map adds (queued tasks))
      unfolding run_tasks
      tasks_add [] l s = sym (append-nil (waits l))
      tasks_add (task ∷ tasks) l s =
          let (l', s') = run_task (logged_event_at event_at run) (logged event_at run) task l s in
          let new = flat (map adds (queued (task ∷ []))) in
          tasks_add tasks l' s'
          ∙ ap (λ x. x ++ flat (map adds (queued tasks))) (task_adds task l s)
          ∙ append_assoc (waits l) new (flat (map adds (queued tasks)))
          ∙ ap (λ x. waits l ++ x)
              (sym (flat-append (map adds (queued (task ∷ []))) (map adds (queued tasks))))
          ∙ ap (λ x. waits l ++ flat x) (sym (map-append adds (queued (task ∷ [])) (queued tasks)))
          ∙ ap (λ x. waits l ++ flat (map adds x)) (sym (queued-append (task ∷ []) tasks))

      step-Refines :
          (step : LoopStep Callback) (l : EventLoop Callback) (s : S × List Callback)
          → let (l', s') = loop_step event_at run step l s in
            (waits l', s'.1) ≡ queue_step adds step (waits l, s.1)
      unfolding loop_step queue_step loop_once
      step-Refines (round triggers) l s =
          let start = record l { pending_tasks = [] } in
          let (l', s') =
            run_tasks (logged_event_at event_at run) (logged event_at run) l.pending_tasks start
              s in
          ap₂ (λ x y. (x, y))
            (triggers_lem triggers (record l' { woken = false })
              ∙ ap (λ x. x ++ trigger_calls triggers) (tasks_add l.pending_tasks start s))
            (run_tasks_log l.pending_tasks start s)
      step-Refines (other_adds task wake) l s = ap (λ x. (x, s.1)) (added l task wake)

      -- A loop keeps what it promises, in whatever order its rounds and what other threads add come,
      -- when each callback just adds its callbacks behind those that wait: the callbacks that wait and
      -- those that have run, in order and as often, are those of the queue.
      pub loop-Refines :
          (steps : List (LoopStep Callback)) (l : EventLoop Callback) (s : S × List Callback)
          → let (l', s') = loop_steps event_at run steps l s in
            (queued l'.pending_tasks, s'.1) ≡ queue_steps adds steps (queued l.pending_tasks, s.1)
      unfolding loop_steps queue_steps
      loop-Refines [] l s = refl
      loop-Refines (step ∷ steps) l s =
          let (l', s') = loop_step event_at run step l s in
          loop-Refines steps l' s' ∙ ap (queue_steps adds steps) (step-Refines step l s)
