-- ===== src/Rpc/Dispatcher/Dispatch.antt =====
-- What `dispatch` leaves in the request and in the response, on each of its paths.
use my_tiny_rpc.Base.{
  ℕ, ◌≡◌, ◌⊎◌, sym, ap, ◌∙◌, subst, ◌∷◌, ◌++◌, codes, if◌then◌else◌, inl, inr, refl, Bytes, Bool,
  true, false, Option, none, some,
}
use my_tiny_rpc.Coder.TinyPb.{TinyPbProtocol}
use my_tiny_rpc.Rpc.Dispatcher.Names.{HasNoDot, cut, whole, parts, parse-none, parse-some}
use my_tiny_rpc.Rpc.Dispatcher.{
  error_failed_serialize, error_parse_service_name, error_service_not_found, error_method_not_found,
  error_failed_deserialize, Service, ServiceMap, find_service, parse_service_full_name,
  set_tiny_pb_error, Dispatched, call_controller, answer, call_parsed, call_found, dispatch_to,
  dispatch_found, dispatch_named, dispatch,
}

-- Why a request for a full name and with some data reaches no method, with the error code for it.
pub data Why {Addr : Type 0} (services : ServiceMap Addr) (full_name pb_data : Bytes)
    : ℕ → Type 1 where
  not_split : HasNoDot full_name → Why services full_name pb_data error_parse_service_name
  no_service :
      (service_name method_name : Bytes)
      → HasNoDot service_name
      → full_name ≡ service_name ++ (b'.' ∷ method_name)
      → find_service services service_name ≡ none
      → Why services full_name pb_data error_service_not_found
  no_method :
      (service_name method_name : Bytes) (s : Service Addr)
      → HasNoDot service_name
      → full_name ≡ service_name ++ (b'.' ∷ method_name)
      → find_service services service_name ≡ some s
      → s.find_method_by_name method_name ≡ none
      → Why services full_name pb_data error_method_not_found
  not_parsed :
      (service_name method_name : Bytes) (s : Service Addr) (method : s.Method)
      → HasNoDot service_name
      → full_name ≡ service_name ++ (b'.' ∷ method_name)
      → find_service services service_name ≡ some s
      → s.find_method_by_name method_name ≡ some method
      → s.parse_from_string method pb_data ≡ none
      → Why services full_name pb_data error_failed_deserialize

-- The service was not called: the response is what the caller made, and the error stands in the
-- request.
pub record Refused (code : ℕ) (d r : Dispatched) : Type 0 where
  pub same_response : r.response ≡ d.response
  pub same_run_time : r.run_time ≡ d.run_time
  pub request_error : r.request.error_code ≡ code

-- The service that the name stands for was called with the request that was parsed: the response
-- carries the request's names and what the answer was serialized to, and no new error; where it could
-- not be serialized, the error stands in the request.
pub record Answered {Addr : Type 0} (local_addr peer_addr : Option Addr)
    (services : ServiceMap Addr) (d r : Dispatched) : Type 1 where
  pub service_name : Bytes
  pub method_name : Bytes
  pub service : Service Addr
  pub method : service.Method
  pub req : service.Request
  pub lacks_dot : HasNoDot service_name
  pub named : d.request.method_name ≡ service_name ++ (b'.' ∷ method_name)
  pub registered : find_service services service_name ≡ some service
  pub found : service.find_method_by_name method_name ≡ some method
  pub parsed : service.parse_from_string method d.request.pb_data ≡ some req
  pub written : Bool
  pub out : Bytes
  pub serialized :
      service.serialize_to_string method
        (service.call_method method (call_controller local_addr peer_addr d.request.msg_id) req)
      ≡ (written, out)
  pub response_eq : r.response ≡ record d.response {
    msg_id = d.request.msg_id;
    method_name = d.request.method_name;
    pb_data = out;
    error_code = if written then 0 else d.response.error_code;
  }
  pub request_code :
      r.request.error_code ≡ (if written then d.request.error_code else error_failed_serialize)
  pub run_time_eq :
      r.run_time ≡ record { run_msgid = d.request.msg_id; run_method_name = method_name }

abbrev pub Outcomes :
    {Addr : Type 0} → Option Addr → Option Addr → ServiceMap Addr → Dispatched → Dispatched → Type 1
Outcomes local_addr peer_addr services d r =
    ((code : ℕ) × Why services d.request.method_name d.request.pb_data code × Refused code d r)
    ⊎ Answered local_addr peer_addr services d r

request_code_if :
    (written : Bool) (request : TinyPbProtocol)
    → (if written
        then request
        else set_tiny_pb_error request error_failed_serialize (codes "serilize error")).error_code
      ≡ (if written then request.error_code else error_failed_serialize)
unfolding set_tiny_pb_error
request_code_if true request = refl
request_code_if false request = refl

module _ {Addr : Type 0} (local_addr peer_addr : Option Addr) where
  -- A call that goes through: the response carries the request's id and method name, what the
  -- service's answer was serialized to, and error code 0; the request stays as it was.
  pub dispatch_to_succeeds :
      (s : Service Addr) (name : Bytes) (d : Dispatched) (method : s.Method) (req : s.Request)
      (out : Bytes)
      → s.find_method_by_name name ≡ some method
      → s.parse_from_string method d.request.pb_data ≡ some req
      → s.serialize_to_string method
          (s.call_method method (call_controller local_addr peer_addr d.request.msg_id) req)
        ≡ (true, out)
      → dispatch_to local_addr peer_addr s name d ≡ record {
        request = d.request;
        response = record d.response {
          msg_id = d.request.msg_id;
          method_name = d.request.method_name;
          pb_data = out;
          error_code = 0;
        };
        run_time = record { run_msgid = d.request.msg_id; run_method_name = name };
      }
  unfolding dispatch_to
  dispatch_to_succeeds s name d method req out found parsed written = rw (found, parsed, written)

  module _ (services : ServiceMap Addr) (d : Dispatched) (service_name method_name : Bytes)
      (lacks_dot : HasNoDot service_name)
      (named : d.request.method_name ≡ service_name ++ (b'.' ∷ method_name)) where
    parsed_outcome :
        (s : Service Addr) (method : s.Method) (req : Option s.Request)
        → find_service services service_name ≡ some s
        → s.find_method_by_name method_name ≡ some method
        → s.parse_from_string method d.request.pb_data ≡ req
        → Outcomes local_addr peer_addr services d
            (call_parsed local_addr peer_addr s method req method_name d)
    unfolding call_parsed set_tiny_pb_error answer
    parsed_outcome s method none registered found e = inl (
      10000003,
      not_parsed service_name method_name s method lacks_dot named registered found e,
      record { same_response = refl; same_run_time = refl; request_error = refl },
    )
    parsed_outcome s method (some req) registered found e = inr (record {
      service_name = service_name;
      method_name = method_name;
      service = s;
      method = method;
      req = req;
      lacks_dot = lacks_dot;
      named = named;
      registered = registered;
      found = found;
      parsed = e;
      written =
          (s.serialize_to_string method
            (s.call_method method (call_controller local_addr peer_addr d.request.msg_id) req)).0;
      out =
          (s.serialize_to_string method
            (s.call_method method (call_controller local_addr peer_addr d.request.msg_id) req)).1;
      serialized = refl;
      response_eq = refl;
      request_code =
          request_code_if
            (s.serialize_to_string method
              (s.call_method method (call_controller local_addr peer_addr d.request.msg_id) req)).0
            d.request;
      run_time_eq = refl;
    })

    found_outcome :
        (s : Service Addr) (method : Option s.Method)
        → find_service services service_name ≡ some s
        → s.find_method_by_name method_name ≡ method
        → Outcomes local_addr peer_addr services d
            (call_found local_addr peer_addr s method method_name d)
    unfolding call_found set_tiny_pb_error
    found_outcome s none registered e = inl (
      10000009,
      no_method service_name method_name s lacks_dot named registered e,
      record { same_response = refl; same_run_time = refl; request_error = refl },
    )
    found_outcome s (some method) registered e =
        parsed_outcome s method (s.parse_from_string method d.request.pb_data) registered e refl

    service_outcome :
        (s : Option (Service Addr))
        → find_service services service_name ≡ s
        → Outcomes local_addr peer_addr services d
            (dispatch_found local_addr peer_addr s method_name d)
    unfolding dispatch_found dispatch_to set_tiny_pb_error
    service_outcome none e = inl (
      10000008,
      no_service service_name method_name lacks_dot named e,
      record { same_response = refl; same_run_time = refl; request_error = refl },
    )
    service_outcome (some s) e = found_outcome s (s.find_method_by_name method_name) e refl

  -- Every request is refused or answered. It is refused for one of four reasons, each with its own
  -- error code in the request: its method name has no dot, or the part before the first dot is no
  -- registered service's, or the rest is no method of that service, or the method cannot parse its
  -- data; and the response and the thread's `RunTime` stay as they were. Else the method was called
  -- with what it parsed and a controller of the request's id: the response gets the request's id and
  -- method name and what the service's answer was serialized to, with error code 0, or, where that
  -- failed, the code that was there and the error in the request.
  pub dispatch_outcome :
      (services : ServiceMap Addr) (d : Dispatched)
      → Outcomes local_addr peer_addr services d (dispatch local_addr peer_addr services d)
  unfolding dispatch dispatch_named set_tiny_pb_error
  dispatch_outcome services d = elim (cut b'.' d.request.method_name) [
    | whole l ↦
        subst
          (λ names.
            Outcomes local_addr peer_addr services d
              (dispatch_named local_addr peer_addr services names d))
          (sym (parse-none d.request.method_name l))
          (inl (
            10000010,
            not_split l,
            record { same_response = refl; same_run_time = refl; request_error = refl },
          ))
    | parts a b l e ↦
        subst
          (λ names.
            Outcomes local_addr peer_addr services d
              (dispatch_named local_addr peer_addr services names d))
          (sym (ap parse_service_full_name e ∙ parse-some a b l))
          (service_outcome services d a b l e (find_service services a) refl)
  ]

  -- Each of the reasons has its effect.
  pub Why-Refused :
      (services : ServiceMap Addr) (code : ℕ) (d : Dispatched)
      → Why services d.request.method_name d.request.pb_data code
      → Refused code d (dispatch local_addr peer_addr services d)
  unfolding dispatch dispatch_named dispatch_found dispatch_to call_found call_parsed
      set_tiny_pb_error
  Why-Refused services _ d (not_split l) =
      rw (parse-none d.request.method_name l)
        (record { same_response = refl; same_run_time = refl; request_error = refl })
  Why-Refused services _ d (no_service a b l e none_registered) =
      rw (ap parse_service_full_name e ∙ parse-some a b l, none_registered)
        (record { same_response = refl; same_run_time = refl; request_error = refl })
  Why-Refused services _ d (no_method a b s l e registered none_found) =
      rw (ap parse_service_full_name e ∙ parse-some a b l, registered, none_found)
        (record { same_response = refl; same_run_time = refl; request_error = refl })
  Why-Refused services _ d (not_parsed a b s method l e registered found none_parsed) =
      rw (ap parse_service_full_name e ∙ parse-some a b l, registered, found, none_parsed)
        (record { same_response = refl; same_run_time = refl; request_error = refl })
