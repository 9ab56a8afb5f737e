-- ===== src/RpcCall/Unanswered.antt =====
-- A call that no method of the server takes.
use my_tiny_rpc.Base.{◌≡◌, Bool, true, some}
use my_tiny_rpc.Rpc.Channel.{RpcChannel}
use my_tiny_rpc.TcpConnection.{TcpConnection}
use my_tiny_rpc.TcpClient.{TcpClient}

-- What a channel is that has sent its request and has got no response.
pub record StillWaits {Addr Response : Type 0} (ch : RpcChannel Addr Response) (memory : Bool)
    (b : RpcChannel Addr Response) : Type 0 where
  pub no_response : b.response ≡ ch.response
  pub same_runs : b.closure_runs ≡ ch.closure_runs
  pub armed : b.timer ≡ some memory
  pub waits : b.reading ≡ true
  pub not_failed : b.controller.is_failed ≡ ch.controller.is_failed
