-- ===== src/RpcCall/Succeeds.antt =====
-- What a call brings back, from the theorems on the channel, the connections and the dispatcher.
use my_tiny_rpc.TcpConnection.{TcpConnection}
use my_tiny_rpc.TcpClient.{TcpClient}
