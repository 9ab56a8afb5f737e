-- ===== src/Rpc/Closure.antt =====
-- tinyrpc/net/rpc/rpc_closure.h and rpc_interface.{h,cc}, and the exception of
-- tinyrpc/common/exception.h: the closures that hold one interface, and how it ends.
-- `std::shared_ptr<RpcInterface>` is a count of owners: each closure that holds the interface is one.
-- A callback is what it ends with; what it does besides is not in these classes. `run` and
-- `setError` of an interface are the service's own.
pub mod Steps
pub mod Once
pub mod Tests
use my_tiny_rpc.Base.{
  ℕ, suc, ◌-◌, ◌^◌, Bytes, Bool, true, false, Option, none, some, List, [], ◌∷◌, ◌++◌, ◌==◌,
  if◌then◌else◌, codes,
}
use my_tiny_rpc.EventLoop.{update}

-- The pointers of an interface; `none` is NULL.
pub record RpcInterface : Type 0 where
  pub req_base : Option ℕ
  pub rsp_base : Option ℕ
  pub done_closure : Option ℕ
  pub controller : Option ℕ

-- How a callback ends: it returns, or throws a `TinyRPCException` with its code and its text,
-- another `std::exception`, or something else.
pub data CallbackEnd : Type 0 where
  returns : CallbackEnd
  throws_tiny_rpc : ℕ → Bytes → CallbackEnd
  throws_std : CallbackEnd
  throws_other : CallbackEnd

-- What can be seen of a run, in order.
pub data Event : Type 0 where
  ran_callback : ℕ → Event
  handled : Event
  error_set : ℕ → Bytes → Event
  ran_done : ℕ → Event
  deleted : ℕ → Event

-- The interface, and the closures that were made for it: `holds` says which hold it.
-- `run_time` is the interface that the thread's `RunTime` points to.
pub record Call : Type 0 where
  pub interface : RpcInterface
  pub owners : ℕ
  pub holds : ℕ → Bool
  pub run_time : Option ℕ
  pub events : List Event

-- `RpcInterface::reply`
abbrev pub reply : Option ℕ → List Event
reply none = []
reply (some closure) = ran_done closure ∷ []

abbrev pub delete_pointer : Option ℕ → List Event
delete_pointer none = []
delete_pointer (some pointer) = deleted pointer ∷ []

-- `RpcInterface::destroy`
unfoldable pub destroy : RpcInterface → List Event
destroy i =
    delete_pointer i.req_base
    ++ delete_pointer i.rsp_base
    ++ delete_pointer i.done_closure
    ++ delete_pointer i.controller

-- The destructor of the interface, whose pointers are gone with it.
unfoldable pub destruct : Call → Call
destruct c = record c {
  events = c.events ++ reply c.interface.done_closure ++ destroy c.interface;
  interface = record { req_base = none; rsp_base = none; done_closure = none; controller = none };
}

-- `newRpcClosure`: the closure `id` becomes an owner.
unfoldable pub new_rpc_closure : ℕ → Call → Call
new_rpc_closure id c = record c { owners = suc c.owners; holds = update c.holds id true }

-- `m_rpc_interface.reset()`, and the end of a closure: the last owner takes the interface with it.
abbrev pub reset_interface : Bool → ℕ → Call → Call
reset_interface false id c = c
reset_interface true id c =
    let c' = record c { owners = c.owners - 1; holds = update c.holds id false } in
    if c.owners == 1 then destruct c' else c'

-- `setError`, where the closure holds the interface.
abbrev pub set_error_if : Bool → ℕ → Bytes → Call → Call
set_error_if false code text c = c
set_error_if true code text c = record c { events = c.events ++ error_set code text ∷ [] }

-- -1, as an `int`.
abbrev pub minus_one : ℕ
minus_one = 2 ^ 32 - 1

unfoldable pub after_callback : CallbackEnd → ℕ → Call → Call
after_callback returns id c = reset_interface (c.holds id) id c
after_callback (throws_tiny_rpc code text) id c =
    let c' = set_error_if (c.holds id) code text (record c { events = c.events ++ handled ∷ [] }) in
    reset_interface (c.holds id) id c'
after_callback throws_std id c =
    reset_interface (c.holds id) id
      (set_error_if (c.holds id) minus_one (codes "unkonwn std::exception") c)
after_callback throws_other id c =
    reset_interface (c.holds id) id
      (set_error_if (c.holds id) minus_one (codes "unkonwn exception") c)

abbrev pub call_back : Option CallbackEnd → ℕ → Call → Call
call_back none id c = after_callback returns id c
call_back (some ends) id c =
    after_callback ends id (record c { events = c.events ++ ran_callback id ∷ [] })

-- `RpcClosure::Run` of the closure `id`. The `RunTime` is only set where there is no interface.
unfoldable pub run_closure : Option CallbackEnd → ℕ → Call → Call
run_closure callback id c =
    call_back callback id (if c.holds id then c else record c { run_time = none })

-- The end of a closure, with its pointer to the interface.
unfoldable pub end_closure : ℕ → Call → Call
end_closure id c = reset_interface (c.holds id) id c
