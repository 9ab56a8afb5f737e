-- ===== src/Rpc/Closure/Once.antt =====
-- An interface replies once, when the last closure lets it go.
use my_tiny_rpc.Base.{
  ℕ, ◌+◌, ◌-◌, ◌≤◌, ◌<◌, ◌≡◌, ◌↔◌, All, refl, Bytes, Bool, true, false, Option, none, some, List,
  [], ◌∷◌, ◌++◌, arith, min, ◌==◌, if◌then◌else◌, if_intro,
}
use my_tiny_rpc.EventLoop.{update}
use my_tiny_rpc.Rpc.Closure.{
  CallbackEnd, returns, throws_tiny_rpc, throws_std, throws_other, Event, ran_callback, handled,
  error_set, Call, reply, destroy, destruct, reset_interface, set_error_if, minus_one,
  after_callback, call_back, run_closure, end_closure,
}
use my_tiny_rpc.Rpc.Closure.Steps.{
  run_step, end_step, ClosureStep, closure_step, closure_steps, closure_of, is_reply, replies,
  holders, replies-append, holders-release, replies-destroy, replies-reply,
}

-- The count of owners is right, and the reply comes when it reaches 0.
record Inv (n : ℕ) (c : Call) : Type 0 where
  owners_eq : c.owners ≡ holders n c.holds
  replied : replies c.events + min 1 c.owners ≡ 1
  can_reply : (0 < c.owners) → (d : ℕ) × (c.interface.done_closure ≡ some d)

-- An event that is no reply changes nothing.
log-Inv :
    (n : ℕ) (e : Event) (c : Call)
    → is_reply e ≡ 0
    → Inv n c
    → Inv n (record c { events = c.events ++ e ∷ [] })
log-Inv n e c quiet inv = record {
  owners_eq = inv.owners_eq;
  replied = omega (arith, replies-append c.events (e ∷ []), inv.replied);
  can_reply = inv.can_reply;
}

destruct-Inv :
    (n : ℕ) (c : Call) (d : ℕ)
    → c.owners ≡ holders n c.holds
    → c.owners ≡ 0
    → replies c.events ≡ 0
    → c.interface.done_closure ≡ some d
    → Inv n (destruct c)
unfolding destruct
destruct-Inv n c d owners_eq none_left quiet done_eq = record {
  owners_eq = owners_eq;
  replied = omega (
    arith,
    none_left,
    quiet,
    replies-append (c.events ++ reply c.interface.done_closure) (destroy c.interface),
    replies-append c.events (reply c.interface.done_closure),
    replies-reply c.interface.done_closure d done_eq,
    replies-destroy c.interface,
  );
  can_reply = λ pos. absurd (omega (arith, none_left));
}

reset_interface-Inv :
    (n : ℕ) (b : Bool) (id : ℕ) (c : Call)
    → c.holds id ≡ b
    → id < n
    → Inv n c
    → Inv n (reset_interface b id c)
reset_interface-Inv n false id c e h inv = inv
reset_interface-Inv n true id c e h inv =
    let left : holders n (update c.holds id false) + 1 ≡ holders n c.holds =
      holders-release n id c.holds h e in
    let c' : Call = record c { owners = c.owners - 1; holds = update c.holds id false } in
    let (d, done_eq) = inv.can_reply (omega (arith, left, inv.owners_eq)) in
    if_intro (Inv n) (c.owners == 1) (destruct c') c'
      (λ last.
        let one_owner : c.owners ≡ 1 = ground (arith, last) in
        destruct-Inv n c' d (omega (arith, left, inv.owners_eq)) (omega (arith, one_owner))
          (omega (arith, inv.replied, one_owner)) done_eq)
      (λ more.
        let two_owners : 2 ≤ c.owners = ground (arith, more, left, inv.owners_eq) in
        record {
          owners_eq = omega (arith, left, inv.owners_eq);
          replied = omega (arith, inv.replied, two_owners);
          can_reply = λ pos. (d, done_eq);
        })

set_error-Inv :
    (n : ℕ) (b : Bool) (code : ℕ) (text : Bytes) (c : Call)
    → Inv n c
    → Inv n (set_error_if b code text c)
set_error-Inv n false code text c inv = inv
set_error-Inv n true code text c inv = log-Inv n (error_set code text) c refl inv

set_error-holds :
    (b : Bool) (code : ℕ) (text : Bytes) (c : Call) (id : ℕ)
    → (set_error_if b code text c).holds id ≡ c.holds id
set_error-holds false code text c id = refl
set_error-holds true code text c id = refl

-- The error is set and the interface let go.
fail-Inv :
    (n id code : ℕ) (text : Bytes) (c : Call)
    → id < n
    → Inv n c
    → Inv n (reset_interface (c.holds id) id (set_error_if (c.holds id) code text c))
fail-Inv n id code text c h inv =
    reset_interface-Inv n (c.holds id) id (set_error_if (c.holds id) code text c)
      (set_error-holds (c.holds id) code text c id) h (set_error-Inv n (c.holds id) code text c inv)

after_callback-Inv :
    (n id : ℕ) (ends : CallbackEnd) (c : Call) → id < n → Inv n c → Inv n (after_callback ends id c)
unfolding after_callback
after_callback-Inv n id returns c h inv = reset_interface-Inv n (c.holds id) id c refl h inv
after_callback-Inv n id (throws_tiny_rpc code text) c h inv =
    fail-Inv n id code text (record c { events = c.events ++ handled ∷ [] }) h
      (log-Inv n handled c refl inv)
after_callback-Inv n id throws_std c h inv = fail-Inv n id minus_one _ c h inv
after_callback-Inv n id throws_other c h inv = fail-Inv n id minus_one _ c h inv

call_back-Inv :
    (n id : ℕ) (callback : Option CallbackEnd) (c : Call)
    → id < n
    → Inv n c
    → Inv n (call_back callback id c)
call_back-Inv n id none c h inv = after_callback-Inv n id returns c h inv
call_back-Inv n id (some ends) c h inv =
    after_callback-Inv n id ends (record c { events = c.events ++ ran_callback id ∷ [] }) h
      (log-Inv n (ran_callback id) c refl inv)

clear_run_time-Inv :
    (n : ℕ) (b : Bool) (c : Call) → Inv n c → Inv n (if b then c else record c { run_time = none })
clear_run_time-Inv n true c inv = inv
clear_run_time-Inv n false c inv = record {
  owners_eq = inv.owners_eq;
  replied = inv.replied;
  can_reply = inv.can_reply;
}

closure_step-Inv :
    (n : ℕ) (s : ClosureStep) (c : Call) → closure_of s < n → Inv n c → Inv n (closure_step s c)
unfolding closure_step run_closure end_closure
closure_step-Inv n (run_step callback id) c h inv =
    call_back-Inv n id callback (if c.holds id then c else record c { run_time = none }) h
      (clear_run_time-Inv n (c.holds id) c inv)
closure_step-Inv n (end_step id) c h inv = reset_interface-Inv n (c.holds id) id c refl h inv

closure_steps-Inv :
    (n : ℕ) (steps : List ClosureStep) (c : Call)
    → All (λ s. closure_of s < n) steps
    → Inv n c
    → Inv n (closure_steps steps c)
unfolding closure_steps
closure_steps-Inv n [] c h inv = inv
closure_steps-Inv n (s ∷ rest) c h inv =
    closure_steps-Inv n rest (closure_step s c) h.1 (closure_step-Inv n s c h.0 inv)

-- The reply comes once, and last: `n` closures hold an interface that has not replied. In whatever
-- order they are run, as often as it may be, whether their callbacks return or throw, and end, the
-- interface replies at most once, and it has replied exactly when no closure holds it any more.
pub closures_reply_once :
    (n d : ℕ) (steps : List ClosureStep) (c : Call)
    → c.owners ≡ holders n c.holds
    → 0 < c.owners
    → c.interface.done_closure ≡ some d
    → replies c.events ≡ 0
    → All (λ s. closure_of s < n) steps
    → (replies (closure_steps steps c).events ≤ 1)
      × ((replies (closure_steps steps c).events ≡ 1)
          ↔ (holders n (closure_steps steps c).holds ≡ 0))
closures_reply_once n d steps c owners_eq some_owner done_eq quiet h =
    let inv =
      closure_steps-Inv n steps c h (record {
        owners_eq = owners_eq;
        replied = omega arith;
        can_reply = λ pos. (d, done_eq);
      }) in
    (
      omega (arith, inv.replied),
      (
        (λ e. omega (arith, inv.replied, inv.owners_eq)),
        (λ e. omega (arith, inv.replied, inv.owners_eq)),
      ),
    )
