-- ===== src/Rpc/Dispatcher/Tests.antt =====
-- A concrete service, and the dispatcher's theorems at it.
use my_tiny_rpc.Rpc.Dispatcher.Registry.{dispatch_any_order}
use my_tiny_rpc.Base.{
  ◌↔◌, ◌++◌, ◌⊎◌, ℕ, ◌≡◌, refl, Bytes, true, none, some, [], ◌∷◌, arith, bytes_eq, codes,
  if◌then◌else◌,
}
use my_tiny_rpc.Coder.TinyPb.{new_protocol}
use my_tiny_rpc.Rpc.Dispatcher.{
  parse_service_full_name, Service, register_service, Dispatched, dispatch, dispatch_to,
}
use my_tiny_rpc.Rpc.Dispatcher.Names.{HasNoDot, parse_service_full_name_iff, dispatch-register}
use my_tiny_rpc.Rpc.Dispatcher.Dispatch.{Outcomes, dispatch_outcome}

-- One method, "m", which sends the request's bytes back.
echo_named : Bytes → Service ℕ
echo_named name = record {
  Method = Unit;
  Request = Bytes;
  Response = Bytes;
  full_name = name;
  find_method_by_name = λ m. if bytes_eq m (codes "m") then some tt else none;
  parse_from_string = λ _ bytes. some bytes;
  call_method = λ _ _ req. req;
  serialize_to_string = λ _ rsp. (true, rsp);
}

abbrev echo : Service ℕ
echo = echo_named (codes "Echo")

abbrev call : Bytes → Dispatched
call name = record {
  request = record new_protocol { msg_id = codes "7"; method_name = name; pb_data = 1 ∷ 2 ∷ [] };
  response = new_protocol;
  run_time = record { run_msgid = []; run_method_name = [] };
}

Echo-HasNoDot : HasNoDot (codes "Echo")
Echo-HasNoDot = (
  λ e. absurd (omega arith),
  (λ e. absurd (omega arith), (λ e. absurd (omega arith), (λ e. absurd (omega arith), tt))),
)

dispatch-register_example :
    dispatch none none (register_service [] echo) (call (codes "Echo.m"))
    ≡ dispatch_to none none echo (codes "m") (call (codes "Echo.m"))
unfolding echo_named
dispatch-register_example =
    dispatch-register [] echo none none (codes "m") (call (codes "Echo.m")) Echo-HasNoDot refl

dispatch_outcome_example :
    Outcomes none none
      (register_service [] echo)
      (call (codes "x"))
      (dispatch none none (register_service [] echo) (call (codes "x")))
dispatch_outcome_example = dispatch_outcome none none (register_service [] echo) (call (codes "x"))

abbrev other : Service ℕ
other = echo_named (codes "Other")

dispatch_any_order_example :
    (dispatch none none (register_service (register_service [] echo) other) (call (codes "Echo.m"))
      ≡ dispatch none none
          (register_service (register_service [] other) echo)
          (call (codes "Echo.m")))
    ⊎ ((codes "Echo" ≡ codes "Other")
        × (dispatch none none
              (register_service (register_service [] echo) other)
              (call (codes "Echo.m"))
            ≡ dispatch none none (register_service [] other) (call (codes "Echo.m"))))
unfolding echo_named
dispatch_any_order_example = dispatch_any_order [] echo other none none (call (codes "Echo.m"))

parse_service_full_name_iff_example :
    (parse_service_full_name (codes "Echo.m") ≡ some (codes "Echo", codes "m"))
    ↔ ((codes "Echo.m" ≡ codes "Echo" ++ (b'.' ∷ codes "m")) × HasNoDot (codes "Echo"))
parse_service_full_name_iff_example =
    parse_service_full_name_iff (codes "Echo.m") (codes "Echo") (codes "m")
