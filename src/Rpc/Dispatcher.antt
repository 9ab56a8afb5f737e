-- ===== src/Rpc/Dispatcher.antt =====
-- tinyrpc/net/rpc/rpc_dispatcher.{h,cc}: from a request to the method of a registered service.
-- A `google::protobuf::Service` is a record of functions: what protobuf and the user's service do is
-- not in this repository. Log lines, and the release of the two protobuf messages, are left out.
pub mod Names
pub mod Registry
pub mod Dispatch
pub mod Tests
use my_tiny_rpc.Base.{
  ℕ, suc, ◌+◌, ◌-◌, Bytes, Bool, true, false, Option, none, some, List, [], ◌∷◌, ◌==◌,
  if◌then◌else◌, length, take, drop, find_first_of, bytes_eq, codes, is_empty,
}
use my_tiny_rpc.Coder.TinyPb.{TinyPbProtocol}
use my_tiny_rpc.Rpc.Controller.{RpcController, reset, set_local_addr, set_peer_addr, set_msg_id}

abbrev pub error_failed_deserialize : ℕ
error_failed_deserialize = 10000003

abbrev pub error_failed_serialize : ℕ
error_failed_serialize = 10000004

abbrev pub error_service_not_found : ℕ
error_service_not_found = 10000008

abbrev pub error_method_not_found : ℕ
error_method_not_found = 10000009

abbrev pub error_parse_service_name : ℕ
error_parse_service_name = 10000010

-- A service, and the parts of protobuf that `dispatch` calls on it.
pub record Service (Addr : Type 0) : Type 1 where
  pub Method : Type 0
  pub Request : Type 0
  pub Response : Type 0
  pub full_name : Bytes
  pub find_method_by_name : Bytes → Option Method
  -- `ParseFromString` on a fresh request of the method.
  pub parse_from_string : Method → Bytes → Option Request
  -- `CallMethod`: the response as the service leaves it.
  pub call_method : Method → RpcController Addr → Request → Response
  -- `SerializeToString`: its result, and what stands in the string then.
  pub serialize_to_string : Method → Response → Bool × Bytes

-- `std::map<std::string, service_s_ptr>`
abbrev pub ServiceMap : Type 0 → Type 1
ServiceMap Addr = List (Bytes × Service Addr)

module _ {Addr : Type 0} where
  unfoldable pub find_service : ServiceMap Addr → Bytes → Option (Service Addr)
  unfolding bytes_eq
  find_service [] name = none
  find_service ((key, s) ∷ services) name =
      if bytes_eq key name then some s else find_service services name

  -- `m_service_map[name] = service`
  unfoldable pub put_service : ServiceMap Addr → Bytes → Service Addr → ServiceMap Addr
  unfolding bytes_eq
  put_service [] name service = (name, service) ∷ []
  put_service ((key, s) ∷ services) name service =
      if bytes_eq key name
      then (key, service) ∷ services
      else (key, s) ∷ put_service services name service

  unfoldable pub register_service : ServiceMap Addr → Service Addr → ServiceMap Addr
  register_service services service = put_service services service.full_name service

-- The service and the method of a full name; `none` is the result `false`.
unfoldable pub parse_service_full_name : Bytes → Option (Bytes × Bytes)
parse_service_full_name full_name =
    if is_empty full_name then none else (elim (find_first_of b'.' full_name) [
      | none ↦ none
      | some split_pos ↦ some (
        take split_pos full_name,
        take (length full_name - split_pos - 1) (drop (split_pos + 1) full_name),
      )
    ])

unfoldable pub set_tiny_pb_error : TinyPbProtocol → ℕ → Bytes → TinyPbProtocol
set_tiny_pb_error msg error_code error_info = record msg {
  error_code = error_code;
  error_msg = error_info;
  error_msg_len = length error_info;
}

-- The thread's `RunTime`, as far as the dispatcher sets it.
pub record RunTime : Type 0 where
  pub run_msgid : Bytes
  pub run_method_name : Bytes

-- `RunTime::GetRunTime`, with what the thread's pointer holds.
unfoldable pub get_run_time : Option RunTime → RunTime
get_run_time none = record { run_msgid = []; run_method_name = [] }
get_run_time (some run_time) = run_time

-- The objects that a call of `dispatch` may change: the two messages and the thread's `RunTime`.
pub record Dispatched : Type 0 where
  pub request : TinyPbProtocol
  pub response : TinyPbProtocol
  pub run_time : RunTime

-- The response, and the request where `SerializeToString` fails.
unfoldable pub answer : Bool × Bytes → Bytes → Dispatched → Dispatched
answer (written, pb_data) method_name d = record {
  request =
      if written
      then d.request
      else set_tiny_pb_error d.request error_failed_serialize (codes "serilize error");
  response = record d.response {
    msg_id = d.request.msg_id;
    method_name = d.request.method_name;
    pb_data = pb_data;
    error_code = if written then 0 else d.response.error_code;
  };
  run_time = record { run_msgid = d.request.msg_id; run_method_name = method_name };
}

module _ {Addr : Type 0} (local_addr peer_addr : Option Addr) where
  -- A controller as `dispatch` prepares it. Its error code is not initialised; nothing reads it here.
  unfoldable pub call_controller : Bytes → RpcController Addr
  call_controller msg_id =
      set_msg_id
        (set_peer_addr
          (set_local_addr
            (record {
              error_code = 0;
              error_info = [];
              msg_id = [];
              is_failed = false;
              is_canceled = false;
              is_finished = false;
              local_addr = none;
              peer_addr = none;
              timeout = 1000;
            })
            local_addr)
          peer_addr)
        msg_id

  unfoldable pub call_parsed :
      (s : Service Addr) → s.Method → Option s.Request → Bytes → Dispatched → Dispatched
  unfolding answer
  call_parsed s method none method_name d = record d {
    request = set_tiny_pb_error d.request error_failed_deserialize (codes "deserilize error");
  }
  call_parsed s method (some req_msg) method_name d =
      let rsp_msg = s.call_method method (call_controller d.request.msg_id) req_msg in
      answer (s.serialize_to_string method rsp_msg) method_name d

  unfoldable pub call_found : (s : Service Addr) → Option s.Method → Bytes → Dispatched → Dispatched
  unfolding call_parsed
  call_found s none method_name d = record d {
    request = set_tiny_pb_error d.request error_method_not_found (codes "method not found");
  }
  call_found s (some method) method_name d =
      call_parsed s method (s.parse_from_string method d.request.pb_data) method_name d

  unfoldable pub dispatch_to : Service Addr → Bytes → Dispatched → Dispatched
  unfolding call_found
  dispatch_to s method_name d = call_found s (s.find_method_by_name method_name) method_name d

  unfoldable pub dispatch_found : Option (Service Addr) → Bytes → Dispatched → Dispatched
  dispatch_found none method_name d = record d {
    request = set_tiny_pb_error d.request error_service_not_found (codes "service not found");
  }
  dispatch_found (some service) method_name d = dispatch_to service method_name d

  unfoldable pub dispatch_named : ServiceMap Addr → Option (Bytes × Bytes) → Dispatched → Dispatched
  unfolding dispatch_found dispatch_to
  dispatch_named services none d = record d {
    request =
        set_tiny_pb_error d.request error_parse_service_name (codes "parse service name error");
  }
  dispatch_named services (some (service_name, method_name)) d =
      dispatch_found (find_service services service_name) method_name d

  -- `dispatch`, on the request, the response that the caller made, and the thread's `RunTime`.
  unfoldable pub dispatch : ServiceMap Addr → Dispatched → Dispatched
  unfolding dispatch_named
  dispatch services d = dispatch_named services (parse_service_full_name d.request.method_name) d
