-- ===== src/Rpc/Controller.antt =====
-- tinyrpc/net/rpc/rpc_controller.{h,cc}: what a call has come to.
-- The addresses are of any type. Getters are the fields themselves, and `NotifyOnCancel` does nothing.
use my_tiny_rpc.Base.{ℕ, Bytes, Bool, true, false, Option, none, []}

pub record RpcController (Addr : Type 0) : Type 0 where
  pub error_code : ℕ
  pub error_info : Bytes
  pub msg_id : Bytes
  pub is_failed : Bool
  pub is_canceled : Bool
  pub is_finished : Bool
  pub local_addr : Option Addr
  pub peer_addr : Option Addr
  pub timeout : ℕ

module _ {Addr : Type 0} where
  unfoldable pub reset : RpcController Addr → RpcController Addr
  reset c = record {
    error_code = 0;
    error_info = [];
    msg_id = [];
    is_failed = false;
    is_canceled = false;
    is_finished = false;
    local_addr = none;
    peer_addr = none;
    timeout = 1000;
  }

  unfoldable pub start_cancel : RpcController Addr → RpcController Addr
  start_cancel c = record c { is_canceled = true }

  unfoldable pub set_failed : RpcController Addr → Bytes → RpcController Addr
  set_failed c reason = record c { error_info = reason; is_failed = true }

  unfoldable pub set_error : RpcController Addr → ℕ → Bytes → RpcController Addr
  set_error c code info = record c { error_code = code; error_info = info; is_failed = true }

  unfoldable pub set_msg_id : RpcController Addr → Bytes → RpcController Addr
  set_msg_id c id = record c { msg_id = id }

  unfoldable pub set_local_addr : RpcController Addr → Option Addr → RpcController Addr
  set_local_addr c a = record c { local_addr = a }

  unfoldable pub set_peer_addr : RpcController Addr → Option Addr → RpcController Addr
  set_peer_addr c a = record c { peer_addr = a }

  unfoldable pub set_timeout : RpcController Addr → ℕ → RpcController Addr
  set_timeout c t = record c { timeout = t }

  unfoldable pub set_finished : RpcController Addr → Bool → RpcController Addr
  set_finished c v = record c { is_finished = v }
