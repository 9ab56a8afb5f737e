-- ===== src/Rpc/Closure/Tests.antt =====
-- Two closures of one interface, and the theorem at them.
use my_tiny_rpc.Base.{◌≤◌, ◌≡◌, ◌↔◌, refl, none, some, List, [], ◌∷◌, arith, ltb, codes}
use my_tiny_rpc.Rpc.Closure.{
  returns, throws_tiny_rpc, ran_callback, handled, error_set, ran_done, deleted, Call, destroy,
  destruct, after_callback, run_closure,
}
use my_tiny_rpc.Rpc.Closure.Once.{closures_reply_once}
use my_tiny_rpc.Rpc.Closure.Steps.{
  run_step, ClosureStep, closure_step, closure_steps, replies, holders,
}

abbrev two_closures : Call
two_closures = record {
  interface = record {
    req_base = some 11;
    rsp_base = some 12;
    done_closure = some 13;
    controller = some 14;
  };
  owners = 2;
  holds = λ id. ltb id 2;
  run_time = none;
  events = [];
}

abbrev steps : List ClosureStep
steps = run_step (some (throws_tiny_rpc 5 (codes "no"))) 1 ∷ run_step (some returns) 0 ∷ []

-- The first closure fails and is not the last; the second one takes the interface with it.
replies_last :
    (closure_steps steps two_closures).events
    ≡ ran_callback 1
      ∷ handled
      ∷ error_set 5 (codes "no")
      ∷ ran_callback 0
      ∷ ran_done 13
      ∷ deleted 11
      ∷ deleted 12
      ∷ deleted 13
      ∷ deleted 14
      ∷ []
unfolding closure_steps closure_step run_closure after_callback destruct destroy
replies_last = refl

closures_reply_once_example :
    (replies (closure_steps steps two_closures).events ≤ 1)
    × ((replies (closure_steps steps two_closures).events ≡ 1)
        ↔ (holders 2 (closure_steps steps two_closures).holds ≡ 0))
closures_reply_once_example =
    closures_reply_once 2 13 steps two_closures refl (omega arith) refl refl
      (omega arith, (omega arith, tt))
